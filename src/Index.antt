-- ===== src/Index.antt =====
-- crates/index: the state of the index and the builder of its write batches.
pub mod State
pub mod Error
pub mod Metadata
pub mod Tables
pub mod RangeMeta
pub mod Builder
pub mod Encoding
pub mod Writer
pub mod Writes
pub mod Snapshot
