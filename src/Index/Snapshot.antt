-- ===== src/Index/Snapshot.antt =====
-- The reads of one read transaction: IndexSnapshot of crates/index/src/index/snapshot.rs, and the reads of the
-- range_meta table in crates/index/src/index/range_meta.rs.
pub mod Visited
pub mod Refined
pub mod Directions
use ztreamer.Prelude.{
  ℕ, zero, suc, ◌+◌, ◌-◌, Bool, not, Option, none, some, List, [], ◌∷◌, ltb, leb, ◌==◌,
  if◌then◌else◌, min, max, Bytes, Result, ok, err, ◌>>=◌, ok_or, map_err,
}
use ztreamer.Chain.Types.{Hash, range_size}
use ztreamer.Chain.Range.{StoredBlock}
use ztreamer.Snapshot.Entry.{FieldElements}
use ztreamer.Index.Error
use ztreamer.Index.Error.{IndexError, codec, coverage}
use ztreamer.Index.State.{IndexState}
use ztreamer.Index.RangeMeta.{RangeMeta, decode_meta}
use ztreamer.Index.Tables.{
  Heed, Tables, SealedRange, range_start, sealed_range_end, range_read, find, read, is_sealed,
}

pub record IndexSnapshot (T H M : Type 0) : Type 0 where
  pub tables : Tables T H M
  pub state : IndexState

-- The height after, in the direction of the read.
abbrev pub next_of : Bool → ℕ → ℕ
next_of ascending height = if ascending then height + 1 else height - 1

-- The end of what one range gives of a read up to `end`.
abbrev pub chunk_end_of : Bool → ℕ → SealedRange → ℕ
chunk_end_of ascending end r = if ascending then min end (sealed_range_end r) else max end r.start

-- A block was emitted: `none` where the caller stops.
abbrev pub going : {S : Type 0} → S × Bool → ℕ → S × Option ℕ
going (s, more) height = (s, if more then some height else none)

module _ {B S : Type 0} (trait : StoredBlock B) (emit : S → B → S × Bool) where
  -- The loop inside one range, with fuel; the height at which it ends, or `none` where the caller stops.
  unfoldable pub emit_chunk : ℕ → SealedRange → Bool → ℕ → ℕ → S → Result IndexError (S × Option ℕ)
  emit_chunk zero r ascending chunk_end height s = ok (s, none)
  emit_chunk (suc fuel) r ascending chunk_end height s =
      map_err codec (range_read trait r height) >>= λ b.
      let out = emit s b in
      let rest = emit_chunk fuel r ascending chunk_end (next_of ascending height) out.0 in
      if not out.1
      then ok (out.0, none)
      else if height == chunk_end
      then ok (out.0, some height)
      else rest

  module _ {T H M : Type 0} (lmdb : Heed T H M) (snapshot : IndexSnapshot T H M) where
    -- What one turn of the loop of `read_blocks` emits.
    unfoldable pub read_chunk : Bool → ℕ → ℕ → S → Result IndexError (S × Option ℕ)
    unfolding emit_chunk
    read_chunk ascending end height s =
        if is_sealed snapshot.state height
        then (find lmdb snapshot.tables.sealed_ranges height >>= λ found.
            ok_or found (coverage height) >>= λ r.
            emit_chunk range_size r ascending (chunk_end_of ascending end r) height s)
        else (read lmdb trait snapshot.tables snapshot.state height >>= λ b.
            ok (going (emit s b) height))

    -- The loop of `read_blocks`, with fuel: each turn comes nearer to `end`.
    unfoldable pub read_loop : ℕ → Bool → ℕ → ℕ → S → Result IndexError S
    read_loop zero ascending end height s = ok s
    read_loop (suc fuel) ascending end height s = read_chunk ascending end height s >>= λ out.
        elim out.1 [
          | none ↦ ok out.0
          | some reached ↦
              let rest = read_loop fuel ascending end (next_of ascending reached) out.0 in
              if reached == end then ok out.0 else rest
        ]

    -- `IndexSnapshot::read_blocks`
    unfoldable pub read_blocks : ℕ → ℕ → S → Result IndexError S
    unfolding read_loop
    read_blocks start end s = ok_or snapshot.state.durable_tip (coverage start) >>= λ tip.
        if ltb tip.height start
        then err (coverage start)
        else if ltb tip.height end
        then err (coverage end)
        else read_loop (max start end - min start end + 1) (leb start end) end start s

module _ {T H M : Type 0} (lmdb : Heed T H M) where
  -- `IndexSnapshot::block_by_hash`
  unfoldable pub block_by_hash :
      {B : Type 0} → StoredBlock B → IndexSnapshot T H M → Hash → Result IndexError (Option B)
  block_by_hash trait s hash = lmdb.hashes.get s.tables.hash_to_height hash >>= λ found.
      elim found [
        | none ↦ ok none
        | some height ↦ read lmdb trait s.tables s.state height >>= λ b. ok (some b)
      ]

  -- `IndexSnapshot::sealed_range`
  unfoldable pub sealed_range : IndexSnapshot T H M → ℕ → Result IndexError (Option Bytes)
  sealed_range s start =
      if not (start == range_start start)
      then err (Error.range_start start)
      else lmdb.heights.get s.tables.sealed_ranges start

  -- `RangeMetaTable::get`
  unfoldable pub range_meta_at : FieldElements → T → ℕ → Result IndexError (Option RangeMeta)
  range_meta_at z table start = lmdb.heights.get table start >>= λ found. elim found [
    | none ↦ ok none
    | some bytes ↦ map_err codec (decode_meta z bytes) >>= λ meta. ok (some meta)
  ]

  -- `RangeMetaTable::contiguous_rows_end`
  unfoldable pub contiguous_end : ℕ → Option ℕ → List (ℕ × Bytes) → Option ℕ
  contiguous_end expected end [] = end
  contiguous_end expected end ((start, bytes) ∷ rows) =
      let rest = contiguous_end (expected + range_size) (some (start + range_size - 1)) rows in
      if not (start == expected) then end else rest

  unfoldable pub contiguous_rows_end : T → Result IndexError (Option ℕ)
  unfolding contiguous_end
  contiguous_rows_end table = lmdb.heights.iter table >>= λ rows. ok (contiguous_end 0 none rows)
