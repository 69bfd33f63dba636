-- ===== src/Resources/Slugs.antt =====
-- genie_reviewer/resource_kind.py: the slugs of the two kinds.
use Prim.Native.Char.{Char, code}
use Prim.Native.String.append
use Prim.Native.String.{[], ◌∷◌}
use genie_promote_cicd.Prelude.{
  String, ◌≡◌, ◌≢◌, refl, ap, ◌∙◌, subst, Bool, true, false, not, ◌&&◌, ◌||◌, Option, none, some,
  arith, Bool-cases, inl, inr, eqb, if◌then◌else◌, concat, truthy, or_else, List, Result, ok, raise,
  value_error,
}
use genie_promote_cicd.Resources.Kinds.{
  genie_space_kind, dashboard_kind, sanitized, flat_slug, slug_for, safe_char, nested_slug,
  starts_alpha,
}

abbrev pub has_slash : String → Bool
has_slash [] = false
has_slash (c ∷ s) = eqb (code c) b'/' || has_slash s

has_slash-concat : (s t : String) → has_slash (concat s t) ≡ (has_slash s || has_slash t)
has_slash-concat [] t = ap has_slash (append.nil t)
has_slash-concat (c ∷ s) t = ap has_slash (append.cons c s t) ∙ ground (arith, has_slash-concat s t)

guarded-slash :
    (b : Bool) (x t : String)
    → has_slash x ≡ true
    → (if b then raise value_error else ok x) ≡ ok t
    → has_slash t ≡ true
guarded-slash true x t e h = absurd (cc)
guarded-slash false x t e h = let same : x ≡ t = cc in rw (← same) e

nested_slug-slash :
    (area name : Option String) (t : String) → nested_slug area name ≡ ok t → has_slash t ≡ true
nested_slug-slash area name t h =
    guarded-slash (not (truthy area && truthy name)) _ t
      (has_slash-concat (or_else area "") (concat "/" (or_else name ""))
        ∙ rw (has_slash-concat "/" (or_else name "")) (ground arith))
      h

abbrev value_of : Result String → Option String
value_of (ok s) = some s
value_of (raise e) = none

module _ (is_alnum is_alpha : Char → Bool)
    (not_alnum : (c : Char) → eqb (code c) b'/' ≡ true → is_alnum c ≡ false) where
  safe_char-slash : (c : Char) → eqb (code (safe_char is_alnum is_alpha c)) b'/' ≡ false
  safe_char-slash c = elim (Bool-cases (is_alnum c || eqb (code c) b'_')) [
    | inl t ↦ rw t (ground (arith, not_alnum c))
    | inr f ↦ rw f
  ]

  sanitized-slash : (s : String) → has_slash (sanitized is_alnum is_alpha s) ≡ false
  unfolding sanitized
  sanitized-slash [] = refl
  sanitized-slash (c ∷ s) = rw (safe_char-slash c, sanitized-slash s)

  flat_slug-slash :
      (safe : String)
      → has_slash safe ≡ false
      → has_slash (flat_slug is_alnum is_alpha genie_space_kind safe) ≡ false
  flat_slug-slash safe h = elim (Bool-cases (starts_alpha is_alnum is_alpha safe)) [
    | inl t ↦ rw t h
    | inr f ↦ rw (f, has_slash-concat "s_" safe) h
  ]

  -- The slug that a Genie Space is given by its id and the one that a dashboard is given by its
  -- business area and name differ, whatever the ids, areas and names: the first has no "/" in it,
  -- and the second one has.
  pub slug_for-disjoint :
      (space_id dashboard_id : String) (area name area' name' : Option String) (s t : String)
      → slug_for is_alnum is_alpha genie_space_kind space_id List.[] area name ≡ ok s
      → slug_for is_alnum is_alpha dashboard_kind dashboard_id List.[] area' name' ≡ ok t
      → (has_slash s ≡ false) × (has_slash t ≡ true) × (s ≢ t)
  unfolding slug_for
  slug_for-disjoint space_id dashboard_id area name area' name' s t h k =
      let flat : has_slash s ≡ false =
        subst (λ r. has_slash (or_else r "") ≡ false) (ap value_of h)
          (flat_slug-slash (sanitized is_alnum is_alpha space_id) (sanitized-slash space_id)) in
      let nested : has_slash t ≡ true = nested_slug-slash area' name' t k in
      (flat, nested, λ same. ground (arith, ap has_slash same, flat, nested))
