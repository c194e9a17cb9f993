-- ===== src/Index/Error.antt =====
-- IndexError of crates/index/src/index/error.rs.
use ztreamer.Prelude.{ℕ}
use ztreamer.Chain.Types.{CodecError}
use ztreamer.Snapshot.Entry.{BlobMismatch}

-- `heed` stands for the errors of LMDB, and `panicked` for a panic, which the code has in place of an error.
pub data IndexError : Type 0 where
  heed : ℕ → IndexError
  codec : CodecError → IndexError
  identity : IndexError
  metadata : IndexError
  stale_batch : ℕ → IndexError
  incomplete_range : ℕ → IndexError
  continuity : ℕ → IndexError
  hash_index : ℕ → IndexError
  generation : ℕ → ℕ → IndexError
  coverage : ℕ → IndexError
  overflow : IndexError
  sealed : ℕ → IndexError
  replacement : ℕ → IndexError
  bad_range_meta : ℕ → IndexError
  range_end_hash : ℕ → IndexError
  range_start : ℕ → IndexError
  range_order : ℕ → ℕ → IndexError
  range_blob : ℕ → IndexError
  duplicate_hash : ℕ → IndexError
  mutable_rows : IndexError
  bad_blob : ℕ → BlobMismatch → IndexError
  panicked : IndexError
