-- ===== src/Snapshot.antt =====
-- crates/snapshot: the entries of a manifest and the epochs that group them.
pub mod Entry
pub mod Epoch
