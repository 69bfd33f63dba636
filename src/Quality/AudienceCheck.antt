-- ===== src/Quality/AudienceCheck.antt =====
-- genie_reviewer/audience_check.py: are the declared principals real, and can they read the tables?
-- A finding's texts are left out. The lookups of the directory, the catalog and the grants answer
-- alike each time that they are asked about one name, and `tables` is what `extract` found.
use genie_promote_cicd.Prelude.{
  String, Bool, true, false, not, ◌&&◌, Option, none, some, List, [], ◌∷◌, ◌++◌, any, ◌==◌, eqb,
  if◌then◌else◌, strip, Result, ok, raise, parts,
}
use genie_promote_cicd.Access.Acl.{AudiencePrincipal}

pub record AudienceFinding : Type 0 where
  pub severity : String
  pub principal : Option String
  pub table : Option String

-- A row of effective grants.
pub record Grant : Type 0 where
  pub principal : Option String
  pub privileges : List String

pub record Lookups : Type 0 where
  pub principal_exists : Option (String → Bool → Result Bool)
  pub table_exists : Option (String → Result Bool)
  pub get_effective_grants : String → Result (List Grant)

abbrev select_ok : List String
select_ok = "SELECT" ∷ "ALL_PRIVILEGES" ∷ []

abbrev pub on_principal : String → AudiencePrincipal → AudienceFinding
on_principal severity p = record { severity = severity; principal = some p.name; table = none }

abbrev pub on_table : String → String → AudienceFinding
on_table severity full_name = record {
  severity = severity;
  principal = none;
  table = some full_name;
}

abbrev is_of : String → Grant → Bool
is_of name row = elim row.principal [ some p ↦ p == name | none ↦ false ]

abbrev allows_select : Grant → Bool
allows_select row = any (λ s. any (λ g. s == g) row.privileges) select_ok

abbrev pub can_select : List Grant → String → Bool
can_select assignments name = any (λ row. is_of name row && allows_select row) assignments

-- An existence lookup that is not given answers yes.
abbrev pub exists_principal : Option (String → Bool → Result Bool) → AudiencePrincipal → Result Bool
exists_principal none p = ok true
exists_principal (some f) p = f p.name p.is_group

abbrev pub exists_table : Option (String → Result Bool) → String → Result Bool
exists_table none full_name = ok true
exists_table (some f) full_name = f full_name

-- The findings on the principals, and the principals that exist.
abbrev pub Checked : Type 0
Checked = List AudienceFinding × List AudiencePrincipal

-- What one principal adds, by the answer of its lookup.
abbrev pub checked : Result Bool → AudiencePrincipal → Checked → Checked
checked (raise e) p (findings, valid) = (on_principal "OPERATIONAL" p ∷ findings, valid)
checked (ok exists) p (findings, valid) =
    if not exists then (on_principal "BLOCKER" p ∷ findings, valid) else (findings, p ∷ valid)

module _ (l : Lookups) where
  unfoldable pub check_principals : List AudiencePrincipal → Checked
  check_principals [] = ([], [])
  check_principals (p ∷ principals) =
      checked (exists_principal l.principal_exists p) p (check_principals principals)

  unfoldable pub missing_select :
      List AudiencePrincipal → List Grant → String → List AudienceFinding
  missing_select [] grants full_name = []
  missing_select (p ∷ valid) grants full_name =
      let rest = missing_select valid grants full_name in
      if not (can_select grants p.name)
      then record { severity = "SUGGESTION"; principal = some p.name; table = some full_name }
        ∷ rest
      else rest

  abbrev pub check_grants :
      Result (List Grant) → List AudiencePrincipal → String → List AudienceFinding
  check_grants (raise e) valid full_name = on_table "OPERATIONAL" full_name ∷ []
  check_grants (ok grants) valid full_name = missing_select valid grants full_name

  abbrev pub check_existing : Result Bool → List AudiencePrincipal → String → List AudienceFinding
  check_existing (raise e) valid full_name = on_table "OPERATIONAL" full_name ∷ []
  check_existing (ok exists) valid full_name =
      if not exists
      then on_table "BLOCKER" full_name ∷ []
      else check_grants (l.get_effective_grants full_name) valid full_name

  abbrev pub check_table : List AudiencePrincipal → String → List AudienceFinding
  check_table valid full_name =
      if not (eqb (parts full_name) 3)
      then on_table "BLOCKER" full_name ∷ []
      else check_existing (exists_table l.table_exists full_name) valid full_name

  unfoldable pub check_tables : List AudiencePrincipal → List String → List AudienceFinding
  check_tables valid [] = []
  check_tables valid (t ∷ tables) = check_table valid (strip t) ++ check_tables valid tables

  unfoldable pub check_audience : List String → List AudiencePrincipal → List AudienceFinding
  check_audience tables principals =
      let (findings, valid) = check_principals principals in findings ++ check_tables valid tables
