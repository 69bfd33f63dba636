-- ===== src/Tests.antt =====
-- Concrete inputs on which the theorems are applied, one module for each part of the program.
mod Samples
mod Promotions
mod Reconcile
mod Deploy
mod Engine
mod Stages
mod Observed
mod Review
mod Github
mod Access
mod Config
mod Resources
mod Quality
mod Admin
mod Shown
mod Rendering
