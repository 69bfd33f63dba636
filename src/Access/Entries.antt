-- ===== src/Access/Entries.antt =====
-- The entries of an access control list, as the permissions API returns them (databricks.sdk): the
-- fields that app/authz.py and scripts/reconcile_audience.py read.
use genie_promote_cicd.Prelude.{String, Bool, Option, List}

pub record Permission : Type 0 where
  pub permission_level : Option String
  pub inherited : Bool

pub record AclEntry : Type 0 where
  pub user_name : Option String
  pub group_name : Option String
  pub service_principal_name : Option String
  pub all_permissions : List Permission
