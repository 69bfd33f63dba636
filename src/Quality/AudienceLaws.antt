-- ===== src/Quality/AudienceLaws.antt =====
-- genie_reviewer/audience_check.py: which findings stop a promotion.
use genie_promote_cicd.Prelude.{
  String, ◌≡◌, refl, ap, ◌∙◌, Bool, true, false, not, ◌&&◌, ◌||◌, List, [], ◌∷◌, arith, Bool-cases,
  inl, inr, any, any-append, ◌==◌, eqb, strip, Result, ok, raise, parts,
}
use genie_promote_cicd.Access.Acl.{AudiencePrincipal}
use genie_promote_cicd.Quality.AudienceCheck.{
  AudienceFinding, Grant, Checked, checked, Lookups, exists_principal, exists_table,
  check_principals, missing_select, check_grants, check_existing, check_table, check_tables,
  check_audience,
}

abbrev pub has_severity : String → AudienceFinding → Bool
has_severity severity f = f.severity == severity

-- The lookup answered no.
unfoldable pub refuses : Result Bool → Bool
refuses (ok exists) = not exists
refuses (raise e) = false

unfoldable pub fails {ℓ} : {A : Type ℓ} → Result A → Bool
fails (ok a) = false
fails (raise e) = true

abbrev pub is_unreal : Lookups → AudiencePrincipal → Bool
is_unreal l p = refuses (exists_principal l.principal_exists p)

abbrev pub is_unknown : Lookups → AudiencePrincipal → Bool
is_unknown l p = fails (exists_principal l.principal_exists p)

abbrev pub is_bad : Lookups → String → Bool
is_bad l t = not (eqb (parts t) 3) || refuses (exists_table l.table_exists t)

-- A table of three parts of which the lookup fails, or the read of the grants where the lookup says
-- that it exists.
abbrev pub is_unseen : Lookups → String → Bool
is_unseen l t =
    let exists = exists_table l.table_exists t in
    eqb (parts t) 3 && (fails exists || (not (refuses exists) && fails (l.get_effective_grants t)))

checked-blocks :
    (r : Result Bool) (p : AudiencePrincipal) (x : Checked)
    → any (has_severity "BLOCKER") (checked r p x).0
      ≡ (refuses r || any (has_severity "BLOCKER") x.0)
unfolding refuses
checked-blocks (raise e) p x = refl
checked-blocks (ok true) p x = refl
checked-blocks (ok false) p x = refl

checked-fails :
    (r : Result Bool) (p : AudiencePrincipal) (x : Checked)
    → any (has_severity "OPERATIONAL") (checked r p x).0
      ≡ (fails r || any (has_severity "OPERATIONAL") x.0)
unfolding fails
checked-fails (raise e) p x = refl
checked-fails (ok true) p x = refl
checked-fails (ok false) p x = refl

module _ (l : Lookups) where
  missing_select-advises :
      (valid : List AudiencePrincipal) (grants : List Grant) (t : String)
      → (any (has_severity "BLOCKER") (missing_select l valid grants t) ≡ false)
        × (any (has_severity "OPERATIONAL") (missing_select l valid grants t) ≡ false)
  unfolding missing_select
  missing_select-advises [] grants t = (refl, refl)
  missing_select-advises (p ∷ valid) grants t =
      let (blocks, unseen) = missing_select-advises valid grants t in
      (ground (arith, blocks), ground (arith, unseen))

  check_grants-findings :
      (r : Result (List Grant)) (valid : List AudiencePrincipal) (t : String)
      → (any (has_severity "BLOCKER") (check_grants l r valid t) ≡ false)
        × (any (has_severity "OPERATIONAL") (check_grants l r valid t) ≡ fails r)
  unfolding fails
  check_grants-findings (raise e) valid t = (refl, refl)
  check_grants-findings (ok grants) valid t = missing_select-advises valid grants t

  check_existing-findings :
      (r : Result Bool) (valid : List AudiencePrincipal) (t : String)
      → (any (has_severity "BLOCKER") (check_existing l r valid t) ≡ refuses r)
        × (any (has_severity "OPERATIONAL") (check_existing l r valid t)
            ≡ (fails r || (not (refuses r) && fails (l.get_effective_grants t))))
  unfolding refuses fails
  check_existing-findings (raise e) valid t = (refl, refl)
  check_existing-findings (ok true) valid t =
      check_grants-findings (l.get_effective_grants t) valid t
  check_existing-findings (ok false) valid t = (refl, refl)

  check_table-findings :
      (valid : List AudiencePrincipal) (t : String)
      → (any (has_severity "BLOCKER") (check_table l valid t) ≡ is_bad l t)
        × (any (has_severity "OPERATIONAL") (check_table l valid t) ≡ is_unseen l t)
  check_table-findings valid t = elim (Bool-cases (eqb (parts t) 3)) [
    | inl y ↦ rw y (check_existing-findings (exists_table l.table_exists t) valid t)
    | inr n ↦ rw n (refl, refl)
  ]

  -- What each principal adds to a kind of findings decides whether the check has one.
  module _ (severity : String) (of_principal : AudiencePrincipal → Bool) (of_table : String → Bool)
      (principals_add : (p : AudiencePrincipal) (x : Checked)
        → any (has_severity severity) (checked (exists_principal l.principal_exists p) p x).0
          ≡ (of_principal p || any (has_severity severity) x.0))
      (tables_add : (valid : List AudiencePrincipal) (t : String)
        → any (has_severity severity) (check_table l valid t) ≡ of_table t) where
    check_principals-any :
        (ps : List AudiencePrincipal)
        → any (has_severity severity) (check_principals l ps).0 ≡ any of_principal ps
    unfolding check_principals
    check_principals-any [] = refl
    check_principals-any (p ∷ ps) =
        principals_add p (check_principals l ps)
        ∙ ap (λ b. of_principal p || b) (check_principals-any ps)

    check_tables-any :
        (valid : List AudiencePrincipal) (ts : List String)
        → any (has_severity severity) (check_tables l valid ts) ≡ any (λ t. of_table (strip t)) ts
    unfolding check_tables
    check_tables-any valid [] = refl
    check_tables-any valid (t ∷ ts) = rw (
      any-append (has_severity severity) (check_table l valid (strip t)) (check_tables l valid ts),
      tables_add valid (strip t),
      check_tables-any valid ts,
    )

    check_audience-any :
        (tables : List String) (principals : List AudiencePrincipal)
        → any (has_severity severity) (check_audience l tables principals)
          ≡ (any of_principal principals || any (λ t. of_table (strip t)) tables)
    unfolding check_audience
    check_audience-any tables principals = rw (
      any-append (has_severity severity) (check_principals l principals).0
          (check_tables l (check_principals l principals).1 tables),
      check_principals-any principals,
      check_tables-any (check_principals l principals).1 tables,
    )

  -- The check has a BLOCKER exactly where the directory's lookup of a declared principal answers no,
  -- the stripped name of a table is not three parts, or the catalog's lookup of it answers no. It has
  -- an OPERATIONAL finding exactly where the lookup of a principal fails, or, for a table whose
  -- stripped name is three parts, the catalog's lookup fails, or it does not answer no and the read of
  -- the grants fails.
  pub check_audience-blocks :
      (tables : List String) (principals : List AudiencePrincipal)
      → (any (has_severity "BLOCKER") (check_audience l tables principals)
          ≡ (any (is_unreal l) principals || any (λ t. is_bad l (strip t)) tables))
        × (any (has_severity "OPERATIONAL") (check_audience l tables principals)
            ≡ (any (is_unknown l) principals || any (λ t. is_unseen l (strip t)) tables))
  check_audience-blocks tables principals = (
    check_audience-any "BLOCKER" (is_unreal l) (is_bad l)
        (λ p x. checked-blocks (exists_principal l.principal_exists p) p x)
        (λ valid t. (check_table-findings valid t).0) tables principals,
    check_audience-any "OPERATIONAL" (is_unknown l) (is_unseen l)
        (λ p x. checked-fails (exists_principal l.principal_exists p) p x)
        (λ valid t. (check_table-findings valid t).1) tables principals,
  )
