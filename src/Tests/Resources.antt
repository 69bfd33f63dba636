-- ===== src/Tests/Resources.antt =====
-- A workspace whose listing shows a new space from the second time on.
use Prim.Native.Char.{Char, code}
use genie_promote_cicd.Prelude.{
  ℕ, suc, ◌<◌, String, ◌≡◌, ◌≢◌, refl, Bool, true, false, ◌&&◌, ◌||◌, none, some, [], ◌∷◌, ◌⊎◌, ok,
  raise, value_error, pure, if◌then◌else◌, ltb, leb, eqb, arith,
}
use genie_promote_cicd.Resources.Kinds.{genie_space_kind, dashboard_kind, slug_for, sanitized}
use genie_promote_cicd.Resources.Slugs.{has_slash, slug_for-disjoint}
use genie_promote_cicd.Resources.Resolve.{
  Client, resolve_by_title, list_resources, still_exists, attempt, resolve_within,
}
use genie_promote_cicd.Resources.Attempts.{
  Unsettled, Settles, Confirmed, resolve_by_title-attempts, resolve_by_title-Confirmed,
}

-- The state counts the listings.
abbrev client : Client ℕ
client = record {
  list_spaces = λ n.
      (ok (if ltb 0 n then record { space_id = "s1"; title = some "Sales" } ∷ [] else []), suc n);
  list_dashboards = pure [];
  get_space = λ id. pure tt;
  get_dashboard = λ id. pure tt;
  sleep = λ n. n;
}

resolve_by_title-attempts_example :
    (tried : ℕ) × Unsettled client genie_space_kind "Sales" tried 0
    × (((tried ≡ 3)
          × ((resolve_by_title client genie_space_kind 3 "Sales" 0).0 ≡ raise value_error))
        ⊎ ((tried < 3)
            × Settles client genie_space_kind "Sales" tried 0
                (resolve_by_title client genie_space_kind 3 "Sales" 0)))
resolve_by_title-attempts_example =
    resolve_by_title-attempts client genie_space_kind "Sales" 3 0 refl refl

resolved : (resolve_by_title client genie_space_kind 3 "Sales" 0).0 ≡ ok "s1"
unfolding resolve_by_title resolve_within attempt list_resources still_exists
resolved = refl

resolve_by_title-Confirmed_example :
    (t : ℕ) × Confirmed client genie_space_kind "Sales" "s1" t
      (resolve_by_title client genie_space_kind 3 "Sales" 0).1
resolve_by_title-Confirmed_example =
    resolve_by_title-Confirmed client genie_space_kind "Sales" 3 0 "s1" resolved

-- The ASCII letters and digits.
abbrev is_letter : Char → Bool
is_letter c = (leb b'a' (code c) && leb (code c) b'z') || (leb b'A' (code c) && leb (code c) b'Z')

abbrev is_alnum : Char → Bool
is_alnum c = is_letter c || (leb b'0' (code c) && leb (code c) b'9')

slash_is_no_alnum : (c : Char) → eqb (code c) b'/' ≡ true → is_alnum c ≡ false
slash_is_no_alnum c h = let e : code c ≡ b'/' = ground arith in rw e refl

flat_slug_of : slug_for is_alnum is_letter genie_space_kind "01f/ab" [] none none ≡ ok "s_01f_ab"
unfolding slug_for sanitized
flat_slug_of = refl

nested_slug_of :
    slug_for is_alnum is_letter dashboard_kind "d-1" [] (some "vendas") (some "resumo")
    ≡ ok "vendas/resumo"
unfolding slug_for
nested_slug_of = refl

slug_for-disjoint_example :
    (has_slash "s_01f_ab" ≡ false)
    × (has_slash "vendas/resumo" ≡ true)
    × ◌≢◌ {A = String} "s_01f_ab" "vendas/resumo"
slug_for-disjoint_example =
    slug_for-disjoint is_alnum is_letter slash_is_no_alnum "01f/ab" "d-1" none none (some "vendas")
      (some "resumo") "s_01f_ab" "vendas/resumo" flat_slug_of nested_slug_of
