-- ===== src/Access.antt =====
-- Who may use a resource: the guard of app/authz.py, and the audience that
-- scripts/reconcile_audience.py writes to a resource's access control list.
pub mod Entries
pub mod Authz
pub mod Naming
pub mod Guard
pub mod Acl
pub mod Audience
pub mod Kept
pub mod Readback
