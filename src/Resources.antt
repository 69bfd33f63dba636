-- ===== src/Resources.antt =====
-- The promotable resources: genie_reviewer/resource_kind.py and genie_reviewer/workspace_resource.py.
pub mod Kinds
pub mod Slugs
pub mod Resolve
pub mod Attempts
