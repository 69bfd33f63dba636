-- ===== src/Resources/Attempts.antt =====
-- genie_reviewer/workspace_resource.py: how many attempts a resolution takes, and what it returns.
use genie_promote_cicd.Prelude.{
  ℕ, zero, suc, ◌<◌, String, ◌≡◌, refl, sym, ap, subst, Bool, true, false, Option, none, some, List,
  [], ◌∷◌, arith, inl, inr, ◌⊎◌, ◌==◌, eqb, Exn, Result, ok, raise, value_error, and_then, bind-ok,
  if◌then◌else◌,
}
use genie_promote_cicd.Resources.Kinds.{ResourceKind}
use genie_promote_cicd.Resources.Resolve.{
  Client, Listed, list_resources, read, still_exists, matches, attempt, resolve_within,
  resolve_by_title, settle, judge, returned,
}

module _ {S : Type 0} (client : Client S) (k : ResourceKind) (title : String) where
  -- The state in which the attempt after `n` others starts.
  abbrev pub waited : ℕ → S → S
  waited zero s = s
  waited (suc n) s = waited n (client.sleep (attempt client k title s).1)

  -- The first `n` attempts settle nothing.
  abbrev pub Unsettled : ℕ → S → Type 0
  Unsettled zero s = Unit
  Unsettled (suc n) s =
      ((attempt client k title s).0 ≡ ok none)
      × Unsettled n (client.sleep (attempt client k title s).1)

  -- What attempt `n` settles.
  abbrev pub Settles : ℕ → S → Result String × S → Type 0
  Settles n s r =
      ((id : String) × (attempt client k title (waited n s) ≡ (ok (some id), r.1)) × (r.0 ≡ ok id))
      ⊎ ((e : Exn) × (attempt client k title (waited n s) ≡ (raise e, r.1)) × (r.0 ≡ raise e))

  Result-cases :
      (r : Result (Option String))
      → (r ≡ ok none) ⊎ (((id : String) × (r ≡ ok (some id))) ⊎ ((e : Exn) × (r ≡ raise e)))
  Result-cases (ok none) = inl refl
  Result-cases (ok (some id)) = inr (inl (id, refl))
  Result-cases (raise e) = inr (inr (e, refl))

  resolve_within-settle :
      (n : ℕ) (s : S) {r : Result (Option String)}
      → (attempt client k title s).0 ≡ r
      → resolve_within client k (suc n) title s
        ≡ and_then r
            (settle client k n (resolve_within client k n title))
            (attempt client k title s).1
  unfolding resolve_within
  resolve_within-settle n s h =
      ap
        (λ r.
          and_then r (settle client k n (resolve_within client k n title))
            (attempt client k title s).1)
        h

  abbrev Attempted : ℕ → S → Result String × S → Type 0
  Attempted n s r =
      (tried : ℕ) × Unsettled tried s
      × (((tried ≡ n) × (r.0 ≡ raise value_error)) ⊎ ((tried < n) × Settles tried s r))

  Attempted-first :
      (n : ℕ) (s : S) (r : Result String × S) → Settles zero s r → Attempted (suc n) s r
  Attempted-first n s r h = (zero, tt, inr (omega arith, h))

  Attempted-next :
      (n : ℕ) (s : S) (r : Result String × S)
      → (attempt client k title s).0 ≡ ok none
      → Attempted n (client.sleep (attempt client k title s).1) r
      → Attempted (suc n) s r
  Attempted-next n s r h (tried, before, inl (all_tried, e)) =
      (suc tried, (h, before), inl (ap (λ m. suc m) all_tried, e))
  Attempted-next n s r h (tried, before, inr (less, settled)) =
      (suc tried, (h, before), inr (omega (arith, less), settled))

  Attempted-later :
      (n : ℕ) (s : S)
      → (attempt client k title s).0 ≡ ok none
      → Attempted n
          (client.sleep (attempt client k title s).1)
          (resolve_within client k n title (client.sleep (attempt client k title s).1))
      → Attempted
          (suc n)
          s
          (settle client k n (resolve_within client k n title) none (attempt client k title s).1)
  unfolding resolve_within
  Attempted-later zero s h later = (suc zero, (h, tt), inl (refl, refl))
  Attempted-later (suc n) s h later = Attempted-next (suc n) s _ h later

  resolve_within-Attempted : (n : ℕ) (s : S) → Attempted n s (resolve_within client k n title s)
  unfolding resolve_within
  resolve_within-Attempted zero s = (zero, tt, inl (refl, refl))
  resolve_within-Attempted (suc n) s = elim (Result-cases (attempt client k title s).0) [
    | inl h ↦ subst (Attempted (suc n) s) (sym (resolve_within-settle n s h)) (
        Attempted-later n s h
          (resolve_within-Attempted n (client.sleep (attempt client k title s).1)))
    | inr (inl (id, h)) ↦
        subst (Attempted (suc n) s) (sym (resolve_within-settle n s h))
          (Attempted-first n s _ (inl (id, ap (λ r. (r, (attempt client k title s).1)) h, refl)))
    | inr (inr (e, h)) ↦
        subst (Attempted (suc n) s) (sym (resolve_within-settle n s h))
          (Attempted-first n s _ (inr (e, ap (λ r. (r, (attempt client k title s).1)) h, refl)))
  ]

  -- What an attempt saw that settles on an id.
  abbrev pub Confirmed : String → S → S → Type 0
  Confirmed id s t =
      (listed : List Listed) × ((list_resources client k s).0 ≡ ok listed)
      × (matches title listed ≡ id ∷ [])
      × (read client k id (list_resources client k s).1 ≡ (ok tt, t))

  returned-read :
      (a id : String) (r : Result {0} Unit) (u t : S)
      → ◌≡◌ {A = Result (Option String) × S}
          (ok (if returned r then some a else none), u)
          (ok (some id), t)
      → (a ≡ id) × ◌≡◌ {A = Result {0} Unit × S} (r, u) (ok tt, t)
  returned-read a id (ok v) u t h = (cc, cc)
  returned-read a id (raise e) u t h = absurd (cc)

  judge-confirmed :
      (ids : List String) (id : String) (u t : S)
      → judge client k ids u ≡ (ok (some id), t)
      → (ids ≡ id ∷ []) × (read client k id u ≡ (ok tt, t))
  unfolding still_exists
  judge-confirmed [] id u t h = absurd (cc)
  judge-confirmed (a ∷ []) id u t h =
      let (same, there) = returned-read a id (read client k a u).0 (read client k a u).1 t h in
      (ap (λ b. b ∷ []) same, subst (λ b. read client k b u ≡ (ok tt, t)) same there)
  judge-confirmed (a ∷ (b ∷ ids)) id u t h = absurd (cc)

  attempt-Confirmed :
      (id : String) (s t : S) → attempt client k title s ≡ (ok (some id), t) → Confirmed id s t
  unfolding attempt
  attempt-Confirmed id s t h =
      let (listed, found, judged) =
        bind-ok (list_resources client k) (λ l. judge client k (matches title l)) s t (some id) h in
      let (only, there) =
        judge-confirmed (matches title listed) id (list_resources client k s).1 t judged in
      (listed, found, only, there)

  resolve_within-Confirmed :
      (n : ℕ) (s : S) (id : String)
      → (resolve_within client k n title s).0 ≡ ok id
      → (t : S) × Confirmed id t (resolve_within client k n title s).1
  resolve_within-Confirmed n s id h = last_attempt (resolve_within-Attempted n s)
    where
      last_attempt :
          Attempted n s (resolve_within client k n title s)
          → (t : S) × Confirmed id t (resolve_within client k n title s).1
      last_attempt (tried, before, inl (all_tried, e)) = absurd (cc)
      last_attempt (tried, before, inr (less, inr (e, raised, e'))) = absurd (cc)
      last_attempt (tried, before, inr (less, inl (a, settled, e))) =
          let same : a ≡ id = cc in
          let found =
            subst
              (λ i.
                attempt client k title (waited tried s)
                ≡ (ok (some i), (resolve_within client k n title s).1))
              same settled in
          (
            waited tried s,
            attempt-Confirmed id (waited tried s) (resolve_within client k n title s).1 found,
          )

-- With a title and at least one attempt, a resolution makes some number of attempts, at most as many
-- as it is given, of which all but the last settle nothing: either all are used up and it raises
-- ValueError, or the last one returns an id, which is the result, or raises, and so does it.
pub resolve_by_title-attempts :
    {S : Type 0} (client : Client S) (k : ResourceKind) (title : String) (max_attempts : ℕ) (s : S)
    → (title == "") ≡ false
    → eqb max_attempts 0 ≡ false
    → (tried : ℕ) × Unsettled client k title tried s
      × (((tried ≡ max_attempts)
            × ((resolve_by_title client k max_attempts title s).0 ≡ raise value_error))
          ⊎ ((tried < max_attempts)
              × Settles client k title tried s (resolve_by_title client k max_attempts title s)))
unfolding resolve_by_title
resolve_by_title-attempts client k title max_attempts s h n =
    rw (h, n) (resolve_within-Attempted client k title max_attempts s)

-- Behind two tests that raise, a value that is returned is the action's.
past_guards :
    {S : Type 0} (b c : Bool) (s : S) (x : Result String × S) (id : String)
    → (if b then (raise value_error, s) else if c then (raise value_error, s) else x).0 ≡ ok id
    → (if b then (raise value_error, s) else if c then (raise value_error, s) else x) ≡ x
past_guards true c s x id h = absurd (cc)
past_guards false true s x id h = absurd (cc)
past_guards false false s x id h = refl

resolve_by_title-within :
    {S : Type 0} (client : Client S) (k : ResourceKind) (title : String) (max_attempts : ℕ) (s : S)
    (id : String)
    → (resolve_by_title client k max_attempts title s).0 ≡ ok id
    → resolve_by_title client k max_attempts title s ≡ resolve_within client k max_attempts title s
unfolding resolve_by_title
resolve_by_title-within client k title max_attempts s id h =
    past_guards (title == "") (eqb max_attempts 0) s (resolve_within client k max_attempts title s)
      id h

-- An id that a resolution returns is the only one that its last listing shows under the title, and
-- the read of it that follows that listing returned.
pub resolve_by_title-Confirmed :
    {S : Type 0} (client : Client S) (k : ResourceKind) (title : String) (max_attempts : ℕ) (s : S)
    (id : String)
    → (resolve_by_title client k max_attempts title s).0 ≡ ok id
    → (t : S) × Confirmed client k title id t (resolve_by_title client k max_attempts title s).1
resolve_by_title-Confirmed client k title max_attempts s id h =
    let same = resolve_by_title-within client k title max_attempts s id h in
    rw same
      (resolve_within-Confirmed client k title max_attempts s id (subst (λ r. r.0 ≡ ok id) same h))
