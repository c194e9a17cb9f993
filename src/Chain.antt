-- ===== src/Chain.antt =====
-- crates/chain: the compact block data, its codecs and the parser of Zcash blocks.
pub mod TreeSizes
pub mod Types
pub mod Cursor
pub mod Endian
pub mod Codec
pub mod Prints
pub mod Message
pub mod Record
pub mod Range
pub mod Parser
pub mod Stored
pub mod Views
