-- ===== src/Sync.antt =====
-- crates/sync: the historical pipeline and the head of the chain.
pub mod Flow
pub mod Head
