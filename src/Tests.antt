-- ===== src/Tests.antt =====
-- Concrete inputs: tests of the definitions, and the inputs at which the theorems are applied.
pub mod Blocks
pub mod Codec
pub mod Parser
pub mod Builder
pub mod Flow
pub mod Epochs
pub mod Head
pub mod Store
pub mod Index
pub mod Meta
