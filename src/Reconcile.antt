-- ===== src/Reconcile.antt =====
-- app/reconcile.py: observed GitHub state becomes audit events and a fresh status cache. Defs has the
-- functions.
pub mod Defs
pub mod Append
pub mod Milestones
pub mod Outcome
pub mod Safety
pub mod Observed
