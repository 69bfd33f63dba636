-- ===== src/Engine.antt =====
-- engine_api/main.py: how a promotion request is written to the store (Persist has the code, Recording
-- and Requests its properties), who calls an endpoint (Identity, Verified, Administrators), the
-- administrators' endpoints (Admin, Gate), and what is shown (Visibility, Shown).
pub mod Persist
pub mod Recording
pub mod Requests
pub mod Identity
pub mod Admin
pub mod Administrators
pub mod Gate
pub mod Visibility
pub mod Verified
pub mod Shown
