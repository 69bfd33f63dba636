-- ===== src/Promotions.antt =====
-- app/promotion_store.py: the index of promotions, their audit trail and the status cache. Types has
-- the data classes, Backend the rows of `InMemoryBackend`, and Store the methods of `PromotionStore`.
pub mod Types
pub mod Backend
pub mod Store
pub mod Audit
pub mod Identity
pub mod Invariant
pub mod Lookup
pub mod Reach
pub mod History
pub mod Recent
