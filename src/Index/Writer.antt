-- ===== src/Index/Writer.antt =====
-- One write transaction, and its changes to the tables: IndexWriter of crates/index/src/index/writer.rs.
-- A dropped writer is an error here: the tables before it stay.
pub mod Stored
pub mod Sealed
pub mod Pulled
pub mod Batch
pub mod RowsPut
pub mod Unbatched
pub mod Committed
use ztreamer.Prelude.{
  ℕ, zero, suc, ◌+◌, ◌-◌, ◌/◌, Bool, true, not, ◌||◌, Option, none, some, List, [], ◌∷◌, ◌++◌, ltb,
  leb, ◌==◌, if◌then◌else◌, length, Bytes, Result, ok, err, ◌>>=◌, ok_or, map_err, try_fold,
  u32_max, u64_max, word_add, word_sub, min,
}
use ztreamer.Chain.TreeSizes.{TreeSizes}
use ztreamer.Chain.Types.{CompactBlockRecord, range_size}
use ztreamer.Chain.Record.{Prost, encode, decode}
use ztreamer.Chain.Range.{encode_range_from_bytes}
use ztreamer.Index.Error.{
  IndexError, codec, stale_batch, overflow, range_order, mutable_rows, continuity, duplicate_hash,
  incomplete_range, panicked,
}
use ztreamer.Index.State.{
  BlockId, IndexState, next_range_start, next_verify_start, has_mutable_rows,
}
use ztreamer.Index.Encoding.{EncodedBlock}
use ztreamer.Index.RangeMeta.{RangeMeta, VerifyState, unverified, verified, rejected, encode_meta}
use ztreamer.Index.Metadata.{encode_state}
use ztreamer.Index.Tables.{
  Heed, Tables, heights_from, state_key, get_state, delete_range, read_checked,
}

-- The open transaction, as its tables are by now, and the state it will commit.
pub record Writer (T H M : Type 0) : Type 0 where
  pub tables : Tables T H M
  pub state : IndexState

-- `BlockId::new` of a record's height and hash.
abbrev pub id_of : CompactBlockRecord → BlockId
id_of r = record { height = r.height; hash = r.hash }

module _ {T H M : Type 0} where
  abbrev pub with_sealed : Writer T H M → T → Writer T H M
  with_sealed w table = record w { tables = record w.tables { sealed_ranges = table } }

  abbrev pub with_mutable : Writer T H M → T → Writer T H M
  with_mutable w table = record w { tables = record w.tables { mutable_blocks = table } }

  abbrev pub with_hashes : Writer T H M → H → Writer T H M
  with_hashes w table = record w { tables = record w.tables { hash_to_height = table } }

  abbrev pub with_range_meta : Writer T H M → T → Writer T H M
  with_range_meta w table = record w { tables = record w.tables { range_meta = table } }

  unfoldable pub set_tip : Writer T H M → BlockId → TreeSizes → Writer T H M
  set_tip w tip sizes = record w {
    state = record w.state { durable_tip = some tip; tree_sizes = sizes };
  }

-- `join_sealed_range_to_verified_prefix`
unfoldable pub join_verified : IndexState → ℕ → ℕ → IndexState
join_verified s start end = elim s.verified_through [
  | none ↦ s
  | some through ↦ elim (word_add u32_max through 1) [
    | none ↦ s
    | some next ↦ if next == start then record s { verified_through = some end } else s
  ]
]

-- The verified prefix behind an installed range.
abbrev pub verified_by : IndexState → VerifyState → ℕ → ℕ → Result IndexError IndexState
verified_by s unverified first end = ok s
verified_by s rejected first end = ok s
verified_by s verified first end = ok_or (next_verify_start s) overflow >>= λ next.
    ok (if next == first then record s { verified_through = some end } else s)

-- The range that ends at `end` is not to be sealed yet.
abbrev pub beyond : IndexState → ℕ → ℕ → Bool
beyond s through end =
    ltb through end || elim s.durable_tip [ none ↦ true | some tip ↦ ltb tip.height end ]

abbrev pub seal_fuel : ℕ
seal_fuel = u32_max / range_size + 1

-- The minimum of two options, where `none` is below all else.
abbrev pub option_min : Option ℕ → Option ℕ → Option ℕ
option_min none b = none
option_min (some a) none = none
option_min (some a) (some b) = some (min a b)

-- `(start..=..).step_by(RANGE_SIZE)`
unfoldable pub range_starts : ℕ → ℕ → List ℕ
range_starts start zero = []
range_starts start (suc count) = start ∷ range_starts (start + range_size) count

-- `while range.len() < RANGE_SIZE`: `count` more rows from the batch.
unfoldable pub pull_rows :
    ℕ → ℕ → List EncodedBlock → Result IndexError (List Bytes × List EncodedBlock)
pull_rows start zero blocks = ok ([], blocks)
pull_rows start (suc count) [] = err (incomplete_range start)
pull_rows start (suc count) (b ∷ bs) =
    pull_rows start count bs >>= λ pulled. ok (b.bytes ∷ pulled.0, pulled.1)

-- `blocks.peek().map_or(end + 1, |block| block.height)`
abbrev pub first_new : ℕ → List EncodedBlock → ℕ
first_new end [] = end + 1
first_new end (b ∷ bs) = b.height

module _ {T H M : Type 0} (lmdb : Heed T H M) where
  -- `start_latest`
  unfoldable pub start_latest : Tables T H M → Result IndexError (Writer T H M)
  start_latest tables =
      get_state lmdb tables.metadata >>= λ s. ok (record { tables = tables; state = s })

  unfoldable pub start : Tables T H M → ℕ → Result IndexError (Writer T H M)
  unfolding start_latest
  start tables base_generation = start_latest tables >>= λ w.
      if not (w.state.generation == base_generation)
      then err (stale_batch base_generation)
      else ok w

  unfoldable pub start_install : Tables T H M → ℕ → Result IndexError (Writer T H M)
  unfolding start_latest
  start_install tables first = start_latest tables >>= λ w.
      ok_or (next_range_start w.state) overflow >>= λ next.
      if not (first == next)
      then err (range_order first next)
      else if has_mutable_rows w.state
      then err mutable_rows
      else ok w

  unfoldable pub put_hash : Writer T H M → BlockId → Result IndexError (Writer T H M)
  put_hash w id = lmdb.hashes.put w.tables.hash_to_height id.hash id.height >>= λ table.
      ok (with_hashes w table)

  unfoldable pub put_row : Writer T H M → ℕ → Bytes → Result IndexError (Writer T H M)
  put_row w height bytes =
      lmdb.heights.put w.tables.mutable_blocks height bytes >>= λ table. ok (with_mutable w table)

  unfoldable pub delete_block : Writer T H M → CompactBlockRecord → Result IndexError (Writer T H M)
  delete_block w r = lmdb.hashes.delete w.tables.hash_to_height r.hash >>= λ hashes.
      lmdb.heights.delete w.tables.mutable_blocks r.height >>= λ rows.
      ok (with_mutable (with_hashes w hashes) rows)

  unfoldable pub put_new_hash : Writer T H M → BlockId → Result IndexError (Writer T H M)
  unfolding put_hash
  put_new_hash w id = lmdb.hashes.get w.tables.hash_to_height id.hash >>= λ found. elim found [
    | none ↦ put_hash w id
    | some height ↦ err (duplicate_hash id.height)
  ]

  unfoldable pub put_new_hashes : Writer T H M → List BlockId → Result IndexError (Writer T H M)
  unfolding put_new_hash
  put_new_hashes w ids = try_fold put_new_hash w ids

  unfoldable pub put_hashes : Writer T H M → List EncodedBlock → Result IndexError (Writer T H M)
  unfolding put_hash
  put_hashes w blocks =
      try_fold (λ w₁ (b : EncodedBlock). put_hash w₁ (record { height = b.height; hash = b.hash }))
        w blocks

  unfoldable pub put_mutable_blocks :
      Writer T H M → List EncodedBlock → Result IndexError (Writer T H M)
  unfolding put_row
  put_mutable_blocks w blocks =
      try_fold (λ w₁ (b : EncodedBlock). put_row w₁ b.height b.bytes) w blocks

  unfoldable pub delete_ranges_from : Writer T H M → ℕ → Result IndexError (Writer T H M)
  delete_ranges_from w first = elim w.state.sealed_through [
    | none ↦ ok w
    | some old ↦
        if leb first old
        then (delete_range lmdb w.tables.sealed_ranges
              (range_starts first ((old - first) / range_size + 1))
            >>= λ ranges. lmdb.heights.delete_from w.tables.range_meta first >>= λ metas.
                ok (record {
                  tables = record w.tables { sealed_ranges = ranges; range_meta = metas };
                  state = record w.state {
                    sealed_through = word_sub first 1;
                    verified_through = option_min w.state.verified_through (word_sub first 1);
                  };
                }))
        else ok w
  ]

  -- `RangeMetaTable::put`
  unfoldable pub put_meta : T → ℕ → RangeMeta → Result IndexError T
  put_meta table first meta =
      ok_or (encode_meta meta) panicked >>= λ bytes. lmdb.heights.put table first bytes

  unfoldable pub put_sealed_range :
      Writer T H M → ℕ → Bytes → RangeMeta → Result IndexError (Writer T H M)
  unfolding put_meta
  put_sealed_range w first packed meta =
      lmdb.heights.put w.tables.sealed_ranges first packed >>= λ ranges.
      put_meta w.tables.range_meta first meta >>= λ metas.
      verified_by (record w.state { sealed_through = some meta.entry.end_height }) meta.state first
        meta.entry.end_height
      >>= λ s. ok (record {
        tables = record w.tables { sealed_ranges = ranges; range_meta = metas };
        state = s;
      })

  -- The committed tables, and the state that they hold.
  unfoldable pub commit : Writer T H M → Result IndexError (Writer T H M)
  commit w = ok_or (word_add u64_max w.state.generation 1) overflow >>= λ generation.
      let s = record w.state { generation = generation } in
      ok_or (encode_state s) panicked >>= λ bytes.
      lmdb.rows.put w.tables.metadata state_key bytes >>= λ rows.
      ok (record { tables = record w.tables { metadata = rows }; state = s })

module _ {T H M : Type 0} (lmdb : Heed T H M) (prost : Prost) where
  unfoldable pub put_block : Writer T H M → CompactBlockRecord → Result IndexError (Writer T H M)
  unfolding put_row put_hash
  put_block w r = map_err codec (encode prost r) >>= λ bytes.
      put_row lmdb w r.height bytes >>= λ w₁.
      put_hash lmdb w₁ (record { height = r.height; hash = r.hash })

  unfoldable pub delete_mutable_block : Writer T H M → ℕ → Result IndexError (Writer T H M)
  unfolding delete_block
  delete_mutable_block w height = lmdb.heights.get w.tables.mutable_blocks height >>= λ found.
      ok_or found (continuity height) >>= λ bytes.
      map_err codec (decode prost bytes) >>= λ old. delete_block lmdb w old

  unfoldable pub seal_range :
      Writer T H M
      → ℕ
      → ℕ
      → List EncodedBlock
      → Result IndexError (Writer T H M × List EncodedBlock)
  seal_range w first end blocks =
      let heights = heights_from first (min (first_new end blocks) (end + 1) - first) in
      read_checked lmdb prost w.tables.mutable_blocks heights first >>= λ rows.
      pull_rows first (range_size - length rows) blocks >>= λ pulled.
      map_err codec (encode_range_from_bytes (rows ++ pulled.0)) >>= λ packed.
      lmdb.heights.put w.tables.sealed_ranges first packed >>= λ ranges.
      delete_range lmdb w.tables.mutable_blocks heights >>= λ left. ok (
        record {
          tables = record w.tables { sealed_ranges = ranges; mutable_blocks = left };
          state = join_verified (record w.state { sealed_through = some end }) first end;
        },
        pulled.1,
      )

  -- The loop of `seal_ranges`, with fuel: each turn raises `first` by 1,000, within a u32.
  unfoldable pub seal_loop :
      ℕ
      → Writer T H M
      → ℕ
      → ℕ
      → List EncodedBlock
      → Result IndexError (Writer T H M × List EncodedBlock)
  seal_loop zero w through first blocks = ok (w, blocks)
  seal_loop (suc fuel) w through first blocks =
      ok_or (word_add u32_max first (range_size - 1)) overflow >>= λ end.
      let rest = seal_range w first end blocks >>= λ next.
      ok_or (word_add u32_max end 1) overflow >>= λ first'.
      seal_loop fuel next.0 through first' next.1 in
      if beyond w.state through end then ok (w, blocks) else rest

  unfoldable pub seal_ranges :
      Writer T H M
      → Option ℕ
      → List EncodedBlock
      → Result IndexError (Writer T H M × List EncodedBlock)
  seal_ranges w none blocks = ok (w, blocks)
  seal_ranges w (some through) blocks = ok_or (next_range_start w.state) overflow >>= λ first.
      seal_loop seal_fuel w through first blocks
