-- ===== src/Tests/Access.antt =====
-- A list with a user who holds more than the audience's level, and a group that was granted before.
use genie_promote_cicd.Prelude.{
  String, ◌≡◌, ◌↔◌, refl, true, false, Option, none, some, List, [], ◌∷◌, ◌==◌, any, all, or_else,
  lookup, Result, ok, lower, Memᴰ, not, ◌||◌, is_some, if◌then◌else◌,
}
use genie_promote_cicd.Access.Entries.{Permission, AclEntry}
use genie_promote_cicd.Access.Authz.{VerifiedIdentity, has_text, assert_can_access}
use genie_promote_cicd.Access.Naming.{Admits}
use genie_promote_cicd.Access.Guard.{assert_can_access_iff}
use genie_promote_cicd.Access.Acl.{
  AudiencePrincipal, at_least, name_of, direct_level, by_name, keys_of, desired_acl, Permissions,
  levels_by_name, read_level, reconcile_audience,
}
use genie_promote_cicd.Access.Audience.{grants, desired_acl-grants}
use genie_promote_cicd.Access.Kept.{keeps, written_kind, desired_acl-keeps}
use genie_promote_cicd.Access.Readback.{reconcile_audience-verified}

abbrev direct : String → List Permission
direct level = record { permission_level = some level; inherited = false } ∷ []

abbrev ana : AclEntry
ana = record {
  user_name = some "Ana";
  group_name = none;
  service_principal_name = none;
  all_permissions = direct "CAN_MANAGE";
}

abbrev sales : AclEntry
sales = record {
  user_name = none;
  group_name = some "sales";
  service_principal_name = none;
  all_permissions = direct "CAN_RUN";
}

abbrev acl : List AclEntry
acl = ana ∷ sales ∷ []

abbrev bia : VerifiedIdentity
bia = record { user_name = "bia"; group_names = "sales" ∷ [] }

assert_can_access_iff_example : (assert_can_access bia "genie" (ok (some acl)) ≡ ok tt) ↔ (
    (perms : Option (List AclEntry)) × (entry : AclEntry) × (Result.ok (some acl) ≡ ok perms)
    × Memᴰ entry (or_else perms [])
    × Admits bia "genie" entry)
assert_can_access_iff_example = assert_can_access_iff bia "genie" (ok (some acl))

abbrev wanted : List AudiencePrincipal
wanted = record { name = "ana"; is_group = false } ∷ []

abbrev dropped : List AudiencePrincipal
dropped = record { name = "sales"; is_group = true } ∷ []

found : lookup "ana" (by_name wanted []) ≡ some (record { name = "ana"; is_group = false })
unfolding by_name lower
found = refl

desired_acl-grants_example :
    any (grants "CAN_RUN" false "ana") (desired_acl acl wanted (some dropped) "CAN_RUN") ≡ true
desired_acl-grants_example =
    desired_acl-grants acl wanted (some dropped) "CAN_RUN" "ana"
      (record { name = "ana"; is_group = false }) found

ana_name : name_of ana ≡ some "Ana"
unfolding name_of
ana_name = refl

ana_level : direct_level (direct "CAN_MANAGE") ≡ some "CAN_MANAGE"
unfolding direct_level
ana_level = refl

ana_own :
    (if is_some (lookup (lower "Ana") (by_name wanted []))
      then at_least (some "CAN_MANAGE") "CAN_RUN"
      else not (has_text (keys_of (some dropped)) (lower "Ana")) || not ("CAN_MANAGE" == "CAN_RUN"))
    ≡ true
unfolding by_name lower at_least
ana_own = refl

desired_acl-keeps_example :
    any
      (keeps "Ana" "CAN_MANAGE" (written_kind (lookup (lower "Ana") (by_name wanted [])) ana))
      (desired_acl acl wanted (some dropped) "CAN_RUN")
    ≡ true
desired_acl-keeps_example =
    desired_acl-keeps acl wanted (some dropped) "CAN_RUN" "Ana" "CAN_MANAGE" ana (Memᴰ.head refl)
      ana_name ana_level refl ana_own

-- An API whose list is always the same.
abbrev api : Permissions Unit
api = record { get = λ w. (ok (acl), w); set = λ requests w. (ok tt, w) }

abbrev ana_only : List AudiencePrincipal
ana_only = record { name = "Ana"; is_group = false } ∷ []

reconciled : (reconcile_audience api ana_only none "CAN_RUN" tt).0 ≡ ok ("Ana" ∷ [])
unfolding reconcile_audience levels_by_name name_of direct_level at_least
reconciled = refl

reconcile_audience-verified_example :
    (before : List AclEntry) × (after : List AclEntry) × ((api.get tt).0 ≡ ok before)
    × ((api.set (desired_acl before ana_only none "CAN_RUN") (api.get tt).1).0 ≡ ok tt)
    × ((api.get (api.set (desired_acl before ana_only none "CAN_RUN") (api.get tt).1).1).0
        ≡ ok after)
    × (all (λ p. at_least (read_level (levels_by_name after []) p.name) "CAN_RUN") ana_only ≡ true)
reconcile_audience-verified_example =
    reconcile_audience-verified api ana_only none "CAN_RUN" tt ("Ana" ∷ []) reconciled
