-- ===== src/Sync/Flow.antt =====
-- crates/sync/src/pipeline/flow_control.rs: the channel from the fetch workers to the coordinator.
pub mod Segment
pub mod Budget
use ztreamer.Prelude.{
  ℕ, ◌+◌, ◌%◌, ◌^◌, Bool, true, false, not, ◌&&◌, ◌||◌, Option, none, some, ltb, leb, ◌==◌,
  if◌then◌else◌, Result, ok, err, option_bind, word_sub, usize_add,
}
use ztreamer.Chain.Types.{CodecError, ParsedCompactBlock, encoded_size_bound}

-- The errors of PipelineError that this channel makes. `ingest` holds `IngestError::Codec`.
pub data ChannelError : Type 0 where
  worker : ChannelError
  source_gap : ℕ → Option ℕ → ChannelError
  ingest : CodecError → ChannelError

pub record BudgetState : Type 0 where
  pub reserved_bytes : ℕ
  pub first_missing_height : ℕ
  pub cancelled : Bool

-- The state that `channel` makes.
unfoldable pub channel : ℕ → BudgetState
channel first_missing_height = record {
  reserved_bytes = 0;
  first_missing_height = first_missing_height;
  cancelled = false;
}

-- The condition of `wait_while`.
unfoldable pub must_wait : ℕ → BudgetState → ℕ → ℕ → Bool
must_wait limit s height bytes =
    not s.cancelled
    && (not (height == s.first_missing_height) && ltb limit (usize_add s.reserved_bytes bytes))

-- `none` while the call waits; it is tried again when the state changes.
unfoldable pub reserve : ℕ → BudgetState → ℕ → ℕ → Option (Result ChannelError BudgetState)
unfolding must_wait
reserve limit s height bytes =
    if must_wait limit s height bytes
    then none
    else if s.cancelled
    then some (err worker)
    else some (ok (record s { reserved_bytes = usize_add s.reserved_bytes bytes }))

-- `none` is the panic on a release of more than is reserved.
unfoldable pub release_bytes : BudgetState → ℕ → Option BudgetState
release_bytes s bytes =
    if ltb 0 bytes
    then option_bind (word_sub s.reserved_bytes bytes)
        (λ left. some (record s { reserved_bytes = left }))
    else some s

unfoldable pub set_first_missing_height : BudgetState → ℕ → BudgetState
set_first_missing_height s height =
    if s.first_missing_height == height then s else record s { first_missing_height = height }

unfoldable pub cancel : BudgetState → BudgetState
cancel s = record s { cancelled = true }

-- `ReadAheadSender::send`: `none` while it waits for room. The channel of the standard library
-- answers `connected`, false after the receiver is dropped.
unfoldable pub sender_send :
    ℕ
    → Bool
    → BudgetState
    → ParsedCompactBlock
    → Option (Result ChannelError (Unit {0}) × BudgetState)
unfolding reserve
sender_send limit connected s block = elim (encoded_size_bound block.transactions) [
  | err e ↦ some (err (ingest e), s)
  | ok bytes ↦ elim (reserve limit s block.height bytes) [
    | none ↦ none
    | some (err e) ↦ some (err e, s)
    | some (ok s') ↦ some (if connected then ok tt else err worker, s')
  ]
]

pub record SegmentSender : Type 0 where
  pub next_height : ℕ
  pub end_height : ℕ

-- `ReadAheadSender::segment`
unfoldable pub segment : ℕ → ℕ → SegmentSender
segment start end = record { next_height = start; end_height = end }

-- The check of `SegmentSender::send`, before it gives the block to the sender.
unfoldable pub accept : SegmentSender → ℕ → Result ChannelError SegmentSender
accept seg height =
    if not (height == seg.next_height) || ltb seg.end_height height
    then err (source_gap (seg.next_height % 2 ^ 32) (some height))
    else ok (record seg { next_height = seg.next_height + 1 })

-- `SegmentSender::send`, with the segment and the budget after it.
unfoldable pub segment_send :
    ℕ
    → Bool
    → SegmentSender
    → BudgetState
    → ParsedCompactBlock
    → Option (Result ChannelError (Unit {0}) × SegmentSender × BudgetState)
unfolding accept sender_send
segment_send limit connected seg s block = elim (accept seg block.height) [
  | err e ↦ some (err e, seg, s)
  | ok seg' ↦ elim (sender_send limit connected s block) [
    | none ↦ none
    | some (r, s') ↦ some (r, seg', s')
  ]
]

unfoldable pub finish_segment : SegmentSender → Result ChannelError (Unit {0})
finish_segment seg =
    if leb seg.next_height seg.end_height
    then err (source_gap (seg.next_height % 2 ^ 32) none)
    else ok tt
