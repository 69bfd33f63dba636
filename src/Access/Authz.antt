-- ===== src/Access/Authz.antt =====
-- app/authz.py: the verified identity and the access guard. The answers of `current_user.me()` and of
-- `permissions.get` are parameters: each returns or raises.
use genie_promote_cicd.Prelude.{
  String, Bool, false, not, ◌&&◌, Option, none, some, List, [], ◌∷◌, ◌++◌, ◌==◌, if◌then◌else◌,
  truthy, or_else, any, Result, ok, raise, access_denied, lower, strip,
}
use genie_promote_cicd.Access.Entries.{AclEntry}

abbrev pub has_text : List String → String → Bool
has_text texts s = any (λ t. t == s) texts

abbrev pub genie_access_levels : List String
genie_access_levels = "IS_OWNER" ∷ "CAN_MANAGE" ∷ "CAN_EDIT" ∷ "CAN_RUN" ∷ []

abbrev pub dashboard_access_levels : List String
dashboard_access_levels = genie_access_levels ++ "CAN_READ" ∷ []

-- `_access_levels_for`
unfoldable pub access_levels_for : String → List String
access_levels_for object_type =
    if object_type == "genie"
    then genie_access_levels
    else if object_type == "dashboards"
    then dashboard_access_levels
    else genie_access_levels

pub record VerifiedIdentity : Type 0 where
  pub user_name : String
  pub group_names : List String

-- What `me()` returns: the user's name and the display names of the groups that are there.
pub record Me : Type 0 where
  pub user_name : Option String
  pub groups : List (Option String)

abbrev displayed : List (Option String) → List String
displayed [] = []
displayed (g ∷ more) = let rest = displayed more in if truthy g then or_else g "" ∷ rest else rest

-- `verify_identity`
unfoldable pub verify_identity : Result (Option Me) → Result VerifiedIdentity
verify_identity (raise e) = raise access_denied
verify_identity (ok none) = raise access_denied
verify_identity (ok (some me)) =
    if not (truthy me.user_name)
    then raise access_denied
    else ok (record { user_name = or_else me.user_name ""; group_names = displayed me.groups })

abbrev pub with_name : Option String → List String → List String
with_name o names = if truthy o then or_else o "" ∷ names else names

-- `_principal_names`
abbrev pub principal_names : AclEntry → List String
principal_names entry =
    with_name entry.user_name
      (with_name entry.group_name (with_name entry.service_principal_name []))

abbrev pub level_among : List String → Option String → Bool
level_among levels none = false
level_among levels (some level) = has_text levels level

-- `_grants_access`
abbrev pub grants_access : String → AclEntry → Bool
grants_access object_type entry =
    any (λ perm. level_among (access_levels_for object_type) perm.permission_level)
      entry.all_permissions

-- Whether an entry names the caller and grants enough.
abbrev pub admits : VerifiedIdentity → String → AclEntry → Bool
admits identity object_type entry =
    any (has_text (identity.user_name ∷ identity.group_names)) (principal_names entry)
    && grants_access object_type entry

-- `assert_can_access`
unfoldable pub assert_can_access :
    VerifiedIdentity → String → Result (Option (List AclEntry)) → Result {0} Unit
assert_can_access identity object_type (raise e) = raise access_denied
assert_can_access identity object_type (ok perms) =
    if any (admits identity object_type) (or_else perms []) then ok tt else raise access_denied

-- `is_admin`
unfoldable pub is_admin : Option VerifiedIdentity → List String → Bool
is_admin none admin_names = false
is_admin (some identity) admin_names = has_text admin_names (lower (strip identity.user_name))
