-- ===== src/Access/Acl.antt =====
-- scripts/reconcile_audience.py: the access control list that is written for an audience, and the
-- readback that follows. The permissions API is a parameter. A level that the API returns is taken to
-- be one of its enumeration, which `PermissionLevel(level)` accepts.
use genie_promote_cicd.Prelude.{
  ℕ, String, Bool, not, ◌&&◌, ◌||◌, Option, none, some, List, [], ◌∷◌, ◌++◌, ◌==◌, if◌then◌else◌,
  truthy, or_else, any, select, map, Dict, lookup, insert, leb, lower, runtime_error, Exec, pure,
  throw, ◌>>=◌, ◌>>◌,
}
use genie_promote_cicd.Access.Entries.{Permission, AclEntry}
use genie_promote_cicd.Access.Authz.{has_text}

-- genie_reviewer/audience_spec.py; the specification's principals are those that it keeps in order.
pub record AudiencePrincipal : Type 0 where
  pub name : String
  pub is_group : Bool

abbrev pub level_rank : Dict ℕ
level_rank =
    ("CAN_READ", 1) ∷ ("CAN_RUN", 2) ∷ ("CAN_EDIT", 3) ∷ ("CAN_MANAGE", 4) ∷ ("IS_OWNER", 5) ∷ []

abbrev pub rank : String → ℕ
rank level = or_else (lookup level level_rank) 0

-- `_at_least`
unfoldable pub at_least : Option String → String → Bool
at_least level floor = leb (rank floor) (rank (or_else level ""))

-- `a or b` on optional texts.
abbrev text_else : Option String → Option String → Option String
text_else a b = if truthy a then a else b

-- `_name`
unfoldable pub name_of : AclEntry → Option String
name_of entry = text_else entry.user_name (text_else entry.group_name entry.service_principal_name)

-- `_direct_level`
unfoldable pub direct_level : List Permission → Option String
direct_level [] = none
direct_level (permission ∷ more) =
    let rest = direct_level more in
    if not permission.inherited && truthy permission.permission_level
    then permission.permission_level
    else rest

-- `_request`
pub record Request : Type 0 where
  pub name : String
  pub is_group : Bool
  pub level : String

-- `{p.name.casefold(): p for p in desired.principals}`
unfoldable pub by_name : List AudiencePrincipal → Dict AudiencePrincipal → Dict AudiencePrincipal
by_name [] d = d
by_name (p ∷ principals) d = by_name principals (insert (lower p.name) p d)

module _ (desired : Dict AudiencePrincipal) (previous : List String) (level : String) where
  -- What becomes of one named entry with a direct level.
  abbrev pub converge : AclEntry → String → String → List Request
  converge entry name current_level = elim (lookup (lower name) desired) [
    | some wanted ↦
        record {
          name = name;
          is_group = wanted.is_group;
          level = if at_least (some current_level) level then current_level else level;
        }
        ∷ []
    | none ↦
        if has_text previous (lower name) && current_level == level
        then []
        else record { name = name; is_group = truthy entry.group_name; level = current_level } ∷ []
  ]

  -- The requests for the entries, and the keys of the desired principals that they are of.
  abbrev pub requests_of : AclEntry → List Request
  requests_of entry =
      if not (truthy (name_of entry)) || not (truthy (direct_level entry.all_permissions))
      then []
      else converge entry (or_else (name_of entry) "")
          (or_else (direct_level entry.all_permissions) "")

  abbrev pub is_present : String → AclEntry → Bool
  is_present key entry =
      truthy (name_of entry)
      && truthy (direct_level entry.all_permissions)
      && lower (or_else (name_of entry) "") == key

  unfoldable pub kept_requests : List AclEntry → List Request
  kept_requests [] = []
  kept_requests (entry ∷ more) = requests_of entry ++ kept_requests more

  -- A request for each desired principal that has no entry.
  unfoldable pub new_requests : List AclEntry → Dict AudiencePrincipal → List Request
  new_requests current [] = []
  new_requests current ((key, p) ∷ more) =
      let rest = new_requests current more in
      if any (is_present key) current
      then rest
      else record { name = p.name; is_group = p.is_group; level = level } ∷ rest

abbrev pub keys_of : Option (List AudiencePrincipal) → List String
keys_of none = []
keys_of (some principals) = map (λ p. lower p.name) principals

unfoldable pub desired_acl :
    List AclEntry → List AudiencePrincipal → Option (List AudiencePrincipal) → String → List Request
desired_acl current desired previous level =
    let wanted = by_name desired [] in
    kept_requests wanted (keys_of previous) level current
    ++ new_requests wanted (keys_of previous) level current wanted

-- `permissions.get` and `permissions.set` of one resource.
pub record Permissions (W : Type 0) : Type 0 where
  pub get : Exec W (List AclEntry)
  pub set : List Request → Exec W Unit

-- The levels that were read back, by name; a later entry of the same name wins.
unfoldable pub levels_by_name : List AclEntry → Dict (Option String) → Dict (Option String)
levels_by_name [] d = d
levels_by_name (entry ∷ more) d =
    levels_by_name more (insert (or_else (name_of entry) "") (direct_level entry.all_permissions) d)

abbrev pub read_level : Dict (Option String) → String → Option String
read_level d name = or_else (lookup name d) none

abbrev pub missing_principals :
    List AclEntry → List AudiencePrincipal → String → List AudiencePrincipal
missing_principals after desired level =
    select (λ p. not (at_least (read_level (levels_by_name after []) p.name) level)) desired

abbrev pub refuse_missing : {W : Type 0} → List AudiencePrincipal → Exec W Unit
refuse_missing [] = pure tt
refuse_missing (p ∷ more) = throw runtime_error

-- `reconcile`, for the names that it returns.
unfoldable pub reconcile_audience :
    {W : Type 0}
    → Permissions W
    → List AudiencePrincipal
    → Option (List AudiencePrincipal)
    → String
    → Exec W (List String)
reconcile_audience api desired previous level = do
  before ← api.get
  api.set (desired_acl before desired previous level)
  after ← api.get
  refuse_missing (missing_principals after desired level)
  pure (map (λ p. p.name) desired)
