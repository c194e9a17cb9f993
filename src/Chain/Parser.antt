-- ===== src/Chain/Parser.antt =====
-- The compact block parser: crates/chain/src/parser.rs.
pub mod Input
pub mod Pools
pub mod Transaction
pub mod Block
pub mod Reads
pub mod CompactSize
pub mod Shielded
pub mod Collected
pub mod Parsed
