-- ===== src/Index/Builder.antt =====
-- crates/index/src/ingest.rs: OrderedBuilder puts parsed blocks in chain order and builds batches.
pub mod Invariant
pub mod Start
pub mod Ready
pub mod Push
pub mod Take
pub mod Linked
pub mod Loop
pub mod Batch
pub mod Drain
use ztreamer.Prelude.{
  ℕ, zero, suc, ◌+◌, ◌-◌, ◌%◌, max, Bool, true, false, not, ◌&&◌, ◌||◌, Option, none, some, List,
  [], ◌∷◌, ltb, leb, ◌==◌, if◌then◌else◌, length, bytes_eq, Result, ok, err, ◌>>=◌, ok_or,
  option_bind, u32_max, u64_max, usize_max, try_into, word_add,
}
use ztreamer.Prelude.Tree
use ztreamer.Prelude.Tree.{Tree}
use ztreamer.Chain.TreeSizes
use ztreamer.Chain.TreeSizes.{TreeSizes}
use ztreamer.Chain.Types.{
  Hash, CodecError, ParsedCompactBlock, CompactBlockRecord, additions, record_of,
  encoded_size_bound, range_size, max_record_bytes,
}
use ztreamer.Index.State.{IndexState, next_height}

pub data IngestError : Type 0 where
  codec : CodecError → IngestError
  duplicate_height : ℕ → IngestError
  parent : ℕ → IngestError
  tree_size : ℕ → IngestError
  pending_limit : ℕ → IngestError
  batch_limit : ℕ → IngestError
  overflow : IngestError

pub record OrderedBuilder : Type 0 where
  pub next_height : ℕ
  pub previous_hash : Option Hash
  pub tree_sizes : TreeSizes
  pub generation : ℕ
  pub pending : Tree (ParsedCompactBlock × ℕ)
  pub pending_bytes : ℕ
  pub ready_end : ℕ
  pub ready_bytes : ℕ
  pub max_pending_bytes : ℕ

pub record WriteBatch : Type 0 where
  pub base_generation : ℕ
  pub seal_through : Option ℕ
  pub records : List CompactBlockRecord

unfoldable pub partial_range_flush_threshold : ℕ → ℕ → ℕ
partial_range_flush_threshold max_pending_bytes max_batch_bytes =
    max_pending_bytes - max max_batch_bytes max_record_bytes

unfoldable pub builder_new : IndexState → ℕ → Result IngestError OrderedBuilder
builder_new s max_pending_bytes = do
  height ← ok_or (next_height s) overflow
  ok (record {
    next_height = height;
    previous_hash = elim s.durable_tip [ none ↦ none | some tip ↦ some tip.hash ];
    tree_sizes = s.tree_sizes;
    generation = s.generation;
    pending = [];
    pending_bytes = 0;
    ready_end = height;
    ready_bytes = 0;
    max_pending_bytes = max_pending_bytes;
  })

abbrev pub is_some {ℓ} : {A : Type ℓ} → Option A → Bool
is_some none = false
is_some (some a) = true

-- `self.ready_end.try_into()` and `self.pending.get(&height)`: the block at the end of the prefix.
unfoldable pub next_ready : OrderedBuilder → Option (ParsedCompactBlock × ℕ)
next_ready b = option_bind (try_into u32_max b.ready_end) λ height. Tree.get height b.pending

-- The `while` loop of `push`, with fuel. Only its error returns are errors.
unfoldable pub extend_ready : ℕ → OrderedBuilder → Result IngestError (Unit {0}) × OrderedBuilder
extend_ready zero b = (ok tt, b)
extend_ready (suc fuel) b = elim (next_ready b) [
  | none ↦ (ok tt, b)
  | some entry ↦ elim (word_add usize_max b.ready_bytes entry.1) [
    | none ↦ (err overflow, b)
    | some bytes ↦ extend_ready fuel (record b { ready_bytes = bytes; ready_end = b.ready_end + 1 })
  ]
]

insert_pending : OrderedBuilder → ParsedCompactBlock → ℕ → ℕ → OrderedBuilder
insert_pending b block bytes pending_bytes = record b {
  pending = Tree.insert block.height (block, bytes) b.pending;
  pending_bytes = pending_bytes;
}

-- `push` of a block with an estimate of `bytes`, once its height is known to be new.
unfoldable pub push_sized :
    OrderedBuilder → ParsedCompactBlock → ℕ → Result IngestError (Unit {0}) × OrderedBuilder
unfolding insert_pending
push_sized b block bytes = elim (word_add usize_max b.pending_bytes bytes) [
  | none ↦ (err overflow, b)
  | some pending_bytes ↦
      if ltb b.max_pending_bytes pending_bytes
      then (err (pending_limit b.max_pending_bytes), b)
      else (let b' = insert_pending b block bytes pending_bytes in
          if block.height == b.ready_end then extend_ready (length b'.pending) b' else (ok tt, b'))
]

-- The height of the block is below the next one, or waits already.
unfoldable pub is_duplicate : OrderedBuilder → ParsedCompactBlock → Bool
is_duplicate b block = ltb block.height b.next_height || is_some (Tree.get block.height b.pending)

-- The builder comes back beside an error too, as it stands then.
unfoldable pub push :
    OrderedBuilder → ParsedCompactBlock → Result IngestError (Unit {0}) × OrderedBuilder
push b block =
    if is_duplicate b block
    then (err (duplicate_height block.height), b)
    else elim (encoded_size_bound block.transactions) [
      | err e ↦ (err (codec e), b)
      | ok bytes ↦ push_sized b block bytes
    ]

-- The last height of the range of `height`; `none` on an overflow.
unfoldable pub range_end_of : ℕ → Option ℕ
range_end_of height = word_add u32_max height (range_size - 1 - height % range_size)

abbrev pub is_some_and : Option ℕ → (ℕ → Bool) → Bool
is_some_and none f = false
is_some_and (some n) f = f n

abbrev pub is_none_or : Option ℕ → (ℕ → Bool) → Bool
is_none_or none f = true
is_none_or (some n) f = f n

-- What one turn of the loop of `build_batch` decides.
pub data Turn : Type 0 where
  stop : Turn
  fails : IngestError → Turn
  takes : TreeSizes → Turn

pub wrong_parent : Option Hash → Hash → Bool
wrong_parent none h = false
wrong_parent (some previous) h = not (bytes_eq h previous)

-- The parent, tree size and height checks of a turn.
unfoldable pub turn_checks : OrderedBuilder → ParsedCompactBlock → Turn
unfolding wrong_parent
turn_checks b block =
    if wrong_parent b.previous_hash block.previous_hash
    then fails (parent block.height)
    else elim (TreeSizes.checked_add b.tree_sizes (additions block)) [
      | none ↦ fails (tree_size block.height)
      | some sizes ↦
          if is_some (word_add u32_max b.next_height 1) then takes sizes else fails overflow
    ]

-- Past the batch limit a turn goes on only inside a range that the batch can seal.
unfoldable pub past_limit : Option ℕ → ℕ → Bool → OrderedBuilder → ParsedCompactBlock → Turn
past_limit seal_through max_batch_bytes empty b block =
    if empty then fails (batch_limit max_batch_bytes) else elim (range_end_of block.height) [
      | none ↦ fails overflow
      | some range_end ↦
          if block.height % range_size == 0
            || is_none_or seal_through (λ height. ltb height range_end)
          then stop
          else turn_checks b block
    ]

unfoldable pub turn :
    Option ℕ → Option ℕ → ℕ → ℕ → Bool → OrderedBuilder → ParsedCompactBlock → ℕ → Turn
turn durable_through seal_through max_batch_bytes batch_bytes empty b block bytes =
    if is_none_or durable_through (λ height. ltb height block.height)
    then stop
    else elim (word_add usize_max batch_bytes bytes) [
      | none ↦ fails overflow
      | some total ↦
          if ltb max_batch_bytes total
          then past_limit seal_through max_batch_bytes empty b block
          else turn_checks b block
    ]

-- The builder after it took the block at its next height.
unfoldable pub take_block : OrderedBuilder → ParsedCompactBlock → ℕ → TreeSizes → OrderedBuilder
take_block b block bytes sizes = record b {
  next_height = b.next_height + 1;
  previous_hash = some block.hash;
  tree_sizes = sizes;
  pending = Tree.remove b.next_height b.pending;
  pending_bytes = b.pending_bytes - bytes;
  ready_bytes = b.ready_bytes - bytes;
}

module _ (durable_through seal_through : Option ℕ) (max_batch_bytes : ℕ) where
  -- The loop of `build_batch`, with fuel; `empty` says that no record was taken yet. The records
  -- that were taken before an error are lost with it.
  unfoldable pub batch_loop :
      ℕ → ℕ → Bool → OrderedBuilder → Result IngestError (List CompactBlockRecord) × OrderedBuilder
  batch_loop zero batch_bytes empty b = (ok [], b)
  batch_loop (suc fuel) batch_bytes empty b = elim (Tree.get b.next_height b.pending) [
    | none ↦ (ok [], b)
    | some (block, bytes) ↦
        elim (turn durable_through seal_through max_batch_bytes batch_bytes empty b block bytes) [
          | stop ↦ (ok [], b)
          | fails e ↦ (err e, b)
          | takes sizes ↦
              let (rest, b') =
                batch_loop fuel (batch_bytes + bytes) false (take_block b block bytes sizes) in
              (rest >>= λ records. ok (record_of block sizes ∷ records), b')
        ]
  ]

  -- A range that will be sealed is not complete, and the bytes that wait are below the threshold.
  waits_for_range : OrderedBuilder → ℕ → Bool
  waits_for_range b range_end =
      is_some_and seal_through (λ height. leb range_end height)
      && (leb b.ready_end range_end
          && leb b.pending_bytes
              (partial_range_flush_threshold b.max_pending_bytes max_batch_bytes))

  batch_of :
      ℕ
      → List CompactBlockRecord
      → OrderedBuilder
      → Result IngestError (Option WriteBatch) × OrderedBuilder
  batch_of base_generation [] b = (ok none, b)
  batch_of base_generation (r ∷ rs) b = elim (word_add u64_max b.generation 1) [
    | none ↦ (err overflow, b)
    | some generation ↦ (
      ok (
          some (record {
            base_generation = base_generation;
            seal_through = seal_through;
            records = r ∷ rs;
          })),
      record b { generation = generation },
    )
  ]

  finish_batch :
      ℕ
      → Result IngestError (List CompactBlockRecord) × OrderedBuilder
      → Result IngestError (Option WriteBatch) × OrderedBuilder
  unfolding batch_of
  finish_batch base_generation (ok records, b) = batch_of base_generation records b
  finish_batch base_generation (err e, b) = (err e, b)

  unfoldable pub build_batch :
      OrderedBuilder → Result IngestError (Option WriteBatch) × OrderedBuilder
  unfolding waits_for_range finish_batch
  build_batch b = elim (range_end_of b.next_height) [
    | none ↦ (err overflow, b)
    | some range_end ↦
        if waits_for_range b range_end
        then (ok none, b)
        else finish_batch b.generation (batch_loop (length b.pending) 0 true b)
  ]
