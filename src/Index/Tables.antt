-- ===== src/Index/Tables.antt =====
-- The tables of the index: crates/index/src/index/tables.rs. heed's databases are a parameter.
pub mod Checked
pub mod Laws
use ztreamer.Prelude.{
  ℕ, zero, suc, ◌+◌, ◌-◌, ◌%◌, Bool, true, false, not, ◌||◌, Option, none, some, List, [], ◌∷◌, ltb,
  leb, ◌==◌, if◌then◌else◌, Bytes, Result, ok, err, ◌>>=◌, ok_or, map_err, try_map, try_fold,
  u32_max, word_sub, min,
}
use ztreamer.Chain.TreeSizes.{no_sizes}
use ztreamer.Chain.Types.{Hash, CodecError, range_index, CompactBlockRecord, range_size, check}
use ztreamer.Chain.Record.{Prost, decode}
use ztreamer.Chain.Range.{RangeDecoder, StoredBlock, decoder_new, record_as}
use ztreamer.Index.Error.{IndexError, codec, coverage, incomplete_range, hash_index, metadata}
use ztreamer.Index.State.{IndexState}
use ztreamer.Index.Metadata.{decode_state}

-- heed's `Database<K, V>` in a transaction whose tables are `T`: `put` and `delete` give the tables after
-- them, `delete_from` deletes every key from one on, and `iter` is in the order of the keys.
pub record Database (K V T : Type 0) : Type 0 where
  pub get : T → K → Result IndexError (Option V)
  pub put : T → K → V → Result IndexError T
  pub delete : T → K → Result IndexError T
  pub delete_from : T → K → Result IndexError T
  pub len : T → Result IndexError ℕ
  pub iter : T → Result IndexError (List (K × V))

-- The databases of an environment: by height, by hash, and the metadata.
pub record Heed (T H M : Type 0) : Type 0 where
  pub heights : Database ℕ Bytes T
  pub hashes : Database Hash ℕ H
  pub rows : Database Bytes Bytes M

-- The tables that a transaction sees.
pub record Tables (T H M : Type 0) : Type 0 where
  pub metadata : M
  pub sealed_ranges : T
  pub mutable_blocks : T
  pub hash_to_height : H
  pub range_meta : T

unfoldable pub range_start : ℕ → ℕ
range_start height = height - height % range_size

-- `SealedRange`
pub record SealedRange : Type 0 where
  pub start : ℕ
  pub decoder : RangeDecoder

-- `SealedRange::new`
unfoldable pub sealed_range_new : ℕ → Bytes → Result CodecError SealedRange
sealed_range_new start bytes = decoder_new bytes >>= λ d. ok (record { start = start; decoder = d })

-- `SealedRange::from_envelope`
unfoldable pub from_envelope : Bytes → Result CodecError SealedRange
from_envelope bytes = decoder_new bytes >>= λ d. ok (record { start = d.start; decoder = d })

-- `SealedRange::end`
unfoldable pub sealed_range_end : SealedRange → ℕ
sealed_range_end r = min (r.start + (range_size - 1)) u32_max

-- `SealedRange::read`
unfoldable pub range_read : {B : Type 0} → StoredBlock B → SealedRange → ℕ → Result CodecError B
range_read trait r height =
    ok_or (word_sub height r.start) range_index >>= λ index. record_as trait r.decoder index

-- The heights from `start` on.
unfoldable pub heights_from : ℕ → ℕ → List ℕ
heights_from start zero = []
heights_from start (suc count) = start ∷ heights_from (start + 1) count

abbrev pub above_tip : IndexState → ℕ → Bool
above_tip s height = elim s.durable_tip [ none ↦ true | some tip ↦ ltb tip.height height ]

abbrev pub is_sealed : IndexState → ℕ → Bool
is_sealed s height = elim s.sealed_through [ none ↦ false | some sealed ↦ leb height sealed ]

-- The bytes of the key `"state"`.
abbrev pub state_key : Bytes
state_key = 115 ∷ 116 ∷ 97 ∷ 116 ∷ 101 ∷ []

-- `IndexState::default()`
abbrev pub default_state : IndexState
default_state = record {
  durable_tip = none;
  sealed_through = none;
  verified_through = none;
  generation = 0;
  tree_sizes = no_sizes;
}

module _ {T H M : Type 0} (lmdb : Heed T H M) where
  -- `HeightTable<Sealed>::find`
  unfoldable pub find : T → ℕ → Result IndexError (Option SealedRange)
  unfolding sealed_range_new range_start
  find table height = lmdb.heights.get table (range_start height) >>= λ found. elim found [
    | none ↦ ok none
    | some bytes ↦ map_err codec (sealed_range_new (range_start height) bytes) >>= λ r. ok (some r)
  ]

  -- `HeightTable<Mutable>::delete_range`
  unfoldable pub delete_range : T → List ℕ → Result IndexError T
  delete_range table heights = try_fold lmdb.heights.delete table heights

  -- One row of `HeightTable<Mutable>::read_checked`.
  unfoldable pub checked_row : Prost → T → ℕ → ℕ → Result IndexError Bytes
  checked_row prost table start height = lmdb.heights.get table height >>= λ found.
      ok_or found (incomplete_range start) >>= λ bytes.
      map_err codec (decode prost bytes) >>= λ r. map_err codec (check r) >>= λ _. ok bytes

  -- `HeightTable<Mutable>::read_checked`
  unfoldable pub read_checked : Prost → T → List ℕ → ℕ → Result IndexError (List Bytes)
  read_checked prost table heights start = try_map (checked_row prost table start) heights

  -- `HashIndex::check`
  unfoldable pub check_hash : H → CompactBlockRecord → Result IndexError (Unit {0})
  check_hash table r = lmdb.hashes.get table r.hash >>= λ found. elim found [
    | none ↦ err (hash_index r.height)
    | some height ↦ if height == r.height then ok tt else err (hash_index r.height)
  ]

  -- `Tables::read`
  unfoldable pub read :
      {B : Type 0} → StoredBlock B → Tables T H M → IndexState → ℕ → Result IndexError B
  read trait tables state height =
      if above_tip state height
      then err (coverage height)
      else if is_sealed state height
      then (find tables.sealed_ranges height >>= λ found.
          ok_or found (coverage height) >>= λ r. map_err codec (range_read trait r height))
      else (lmdb.heights.get tables.mutable_blocks height >>= λ found.
          ok_or found (coverage height) >>= λ bytes. map_err codec (trait.decode_as bytes))

  -- `Tables::has_blocks`
  unfoldable pub has_blocks : Tables T H M → Result IndexError Bool
  has_blocks tables = lmdb.heights.len tables.sealed_ranges >>= λ ranges.
      lmdb.heights.len tables.mutable_blocks >>= λ rows.
      lmdb.hashes.len tables.hash_to_height >>= λ hashes.
      ok (not (ranges == 0) || (not (rows == 0) || not (hashes == 0)))

  -- `Metadata::get_state`
  unfoldable pub get_state : M → Result IndexError IndexState
  get_state table = lmdb.rows.get table state_key >>= λ found. elim found [
    | none ↦ ok default_state
    | some bytes ↦ decode_state bytes
  ]
