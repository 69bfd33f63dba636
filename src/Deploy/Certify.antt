-- ===== src/Deploy/Certify.antt =====
-- The certification tag and its readback (scripts/deploy_attempt.py, `certify_space`). The tag API is a
-- parameter: a read returns the tag's value, or nothing where it raises NotFound; sleeping is left out.
use genie_promote_cicd.Prelude.{
  ℕ, zero, suc, String, ◌≡◌, refl, Bool, true, false, not, Option, none, some, [], ◌∷◌, ◌==◌,
  if◌then◌else◌, same_text, Dict, ok, Exec, pure, throw, ◌>>=◌, ◌>>◌, bind-ok, runtime_error,
  external_error, Exn, ◌⊎◌, inl, inr, eqb, leb, ap, arith,
}

pub record Tags (W : Type 0) : Type 0 where
  pub get : String → String → Exec W (Option String)
  pub create : String → String → Exec W Unit
  pub update : String → String → Exec W Unit

abbrev pub is_certified : Option String → Bool
is_certified value = same_text value (some "certified")

-- What the last read raises: NotFound again, or that the value is another one.
abbrev pub last_error : Option String → Exn
last_error none = external_error
last_error (some value) = runtime_error

-- An attempt that returns found the value, or left it to the next attempt.
chosen :
    {W : Type 0} (found last : Bool) (e : Exn) (again : Exec W Unit) (w t : W) (u : Unit)
    → (if found then pure tt else if last then throw e else again) w ≡ (ok u, t)
    → ((found ≡ true) × (w ≡ t)) ⊎ ((last ≡ false) × (again w ≡ (ok u, t)))
chosen true last e again w t u h = inl (refl, ap (λ x. x.1) h)
chosen false true e again w t u h = absurd (cc)
chosen false false e again w t u h = inr (refl, h)

module _ {W : Type 0} (api : Tags W) (entity_type : String → String) where
  -- Assert the tag, by what the first read found.
  abbrev assert_tag : String → String → Option String → Exec W Unit
  assert_tag kind id none = api.create kind id
  assert_tag kind id (some value) =
      if not (value == "certified") then api.update kind id else pure tt

  -- The attempts that are left; a read that is not certified raises at the last one.
  unfoldable pub read_back : ℕ → String → String → Exec W Unit
  read_back zero kind id = pure tt
  read_back (suc attempts) kind id =
      let again = read_back attempts kind id in
      api.get kind id >>= λ value.
      if is_certified value
      then pure tt
      else if eqb attempts 0
      then throw (last_error value)
      else again

  -- `certify_space`
  unfoldable pub certify_space : ℕ → Dict String → Exec W Unit
  certify_space attempts [] = pure tt
  certify_space attempts ((slug, resource_id) ∷ targets) = do
    current ← api.get (entity_type slug) resource_id
    assert_tag (entity_type slug) resource_id current
    read_back attempts (entity_type slug) resource_id
    certify_space attempts targets

  -- The state after a number of reads of a target's tag.
  abbrev pub after_reads : ℕ → String → String → W → W
  after_reads zero kind id w = w
  after_reads (suc n) kind id w = after_reads n kind id (api.get kind id w).1

  -- Among the first reads of the tag from this state there is one that gives the certified value, and
  -- the second state is the one that it leaves.
  abbrev pub ReadsCertified : ℕ → String → String → W → W → Type 0
  ReadsCertified attempts kind id w w' =
      (n : ℕ) × (value : Option String) × (leb n attempts ≡ true)
      × ((api.get kind id (after_reads n kind id w)).0 ≡ ok value)
      × (is_certified value ≡ true)
      × ((api.get kind id (after_reads n kind id w)).1 ≡ w')

  -- From the first state to the second, each target in turn: its tag is read and asserted, and is then
  -- read with the certified value.
  unfoldable pub Certified : ℕ → Dict String → W → W → Type 0
  Certified attempts [] w w' = w ≡ w'
  Certified attempts ((slug, resource_id) ∷ targets) w w' =
      let kind = entity_type slug in
      let before = api.get kind resource_id w in
      (current : Option String) × (read : W) × (before.0 ≡ ok current)
      × ((assert_tag kind resource_id current before.1).0 ≡ ok tt)
      × ReadsCertified attempts kind resource_id (assert_tag kind resource_id current before.1).1
          read
      × Certified attempts targets read w'

  read_back-reads :
      (attempts : ℕ) (kind id : String) (w t : W) (u : Unit)
      → read_back (suc attempts) kind id w ≡ (ok u, t)
      → ReadsCertified attempts kind id w t
  unfolding read_back
  read_back-reads zero kind id w t u h =
      let (value, read, rest) = bind-ok (api.get kind id) _ w t u h in
      elim (chosen (is_certified value) true (last_error value) (pure tt) (api.get kind id w).1 t u
        rest) [
          | inl (certified, left) ↦ (0, value, refl, read, certified, left)
          | inr never ↦ absurd (let e = never.0 in cc)
        ]
  read_back-reads (suc attempts) kind id w t u h =
      let (value, read, rest) = bind-ok (api.get kind id) _ w t u h in
      elim (chosen (is_certified value) (eqb (suc attempts) 0) (last_error value)
        (read_back (suc attempts) kind id) (api.get kind id w).1 t u rest) [
          | inl (certified, left) ↦ (0, value, ground arith, read, certified, left)
          | inr later ↦
              let (n, v, bounded, found, certified, left) =
                read_back-reads attempts kind id (api.get kind id w).1 t u later.1 in
              (suc n, v, ground (arith, bounded), found, certified, left)
        ]

  -- Where `certify_space` returns, with at least one readback attempt allowed as its constructor
  -- demands, the run has, for each target in turn, read its tag, written it where it was not the
  -- certified value, and then, at one of the allowed attempts, read the certified value; it ends with
  -- the last of these reads.
  pub certify_space-IsCertified :
      (attempts : ℕ) (targets : Dict String) (w w' : W)
      → certify_space (suc attempts) targets w ≡ (ok tt, w')
      → Certified attempts targets w w'
  unfolding certify_space Certified
  certify_space-IsCertified attempts [] w w' h = ap (λ x. x.1) h
  certify_space-IsCertified attempts ((slug, resource_id) ∷ targets) w w' h =
      let kind = entity_type slug in
      let (current, read, rest) = bind-ok (api.get kind resource_id) _ w w' tt h in
      let before = (api.get kind resource_id w).1 in
      let (u, asserted, rest2) =
        bind-ok (assert_tag kind resource_id current) _ before w' tt rest in
      let written = (assert_tag kind resource_id current before).1 in
      let (v, certified, rest3) =
        bind-ok (read_back (suc attempts) kind resource_id) _ written w' tt rest2 in
      let after = (read_back (suc attempts) kind resource_id written).1 in
      (
        current,
        after,
        read,
        asserted,
        read_back-reads attempts kind resource_id written after v (ap (λ r. (r, after)) certified),
        certify_space-IsCertified attempts targets after w' rest3,
      )
