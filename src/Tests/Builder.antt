-- ===== src/Tests/Builder.antt =====
-- The theorems of the ordered builder and of the budget, at blocks of the tests.
use ztreamer.Prelude.{◌+◌, ◌-◌, ◌≡◌, refl, true, none, some, List, [], ◌∷◌, arith, bytes_eq, ok}
use mathlib.Core.Path.{subst}
use ztreamer.Prelude.Tree
use ztreamer.Chain.Types.{CompactBlockRecord, record_of, additions, encoded_size_bound}
use ztreamer.Chain.TreeSizes.{TreeSizes, no_sizes, checked_add}
use ztreamer.Index.State.{IndexState, next_height}
use ztreamer.Index.Builder.Linked.{IsBatch, StandsAfter, at_generation}
use ztreamer.Index.Builder.{
  is_duplicate, extend_ready, next_ready, turn, turn_checks, past_limit, range_end_of,
  OrderedBuilder, builder_new, push, push_sized, build_batch, batch_loop, take_block,
}
use ztreamer.Index.Builder.Invariant.{entry_bytes, prefix_bytes, IsBuilt}
use ztreamer.Index.Builder.Start.{builder_new-IsBuilt}
use ztreamer.Index.Builder.Push.{Pushed, push-Pushed, push-IsBuilt}
use ztreamer.Index.Builder.Take.{take_block_counts}
use ztreamer.Index.Builder.Loop.{batch_loop-enough}
use ztreamer.Index.Builder.Batch.{Batched, build_batch-Batched}
use ztreamer.Index.Builder.Drain.{
  drain_loop, drain_records, drain_loop-enough, drain_records-IsBuilt, drain_records-IsBatch,
}
use ztreamer.Tests.Blocks.{test_hash, test_block, test_record, test_sizes}

abbrev tip_state : IndexState
tip_state = record {
  durable_tip = some (record { height = 99; hash = test_hash });
  sealed_through = none;
  verified_through = none;
  generation = 7;
  tree_sizes = no_sizes;
}

abbrev new_builder : OrderedBuilder
new_builder = record {
  next_height = 100;
  previous_hash = some test_hash;
  tree_sizes = no_sizes;
  generation = 7;
  pending = [];
  pending_bytes = 0;
  ready_end = 100;
  ready_bytes = 0;
  max_pending_bytes = 10_000;
}

builder_new-new_builder : builder_new tip_state 10_000 ≡ ok new_builder
unfolding builder_new next_height
builder_new-new_builder = refl

builder_new-IsBuilt_example :
    IsBuilt new_builder
    × (next_height tip_state ≡ some 100)
    × (new_builder.tree_sizes ≡ tip_state.tree_sizes)
    × (new_builder.generation ≡ tip_state.generation)
builder_new-IsBuilt_example =
    builder_new-IsBuilt tip_state 10_000 new_builder (omega arith) builder_new-new_builder

new_builder-IsBuilt : IsBuilt new_builder
new_builder-IsBuilt =
    (builder_new-IsBuilt tip_state 10_000 new_builder (omega arith) builder_new-new_builder).0

push-Pushed_example : Pushed new_builder (test_block 100) (push new_builder (test_block 100))
push-Pushed_example = push-Pushed new_builder (test_block 100) new_builder-IsBuilt

-- The second block comes before the first.
abbrev pending_builder : OrderedBuilder
pending_builder = record {
  next_height = 100;
  previous_hash = some test_hash;
  tree_sizes = no_sizes;
  generation = 7;
  pending = (101, (test_block 101, 580)) ∷ (100, (test_block 100, 580)) ∷ [];
  pending_bytes = 1_160;
  ready_end = 102;
  ready_bytes = 1_160;
  max_pending_bytes = 10_000;
}

push-pending_builder :
    (push (push new_builder (test_block 101)).1 (test_block 100)) ≡ (ok tt, pending_builder)
unfolding push push_sized is_duplicate extend_ready next_ready encoded_size_bound Tree.get
    Tree.insert
push-pending_builder = refl

pending_builder-IsBuilt : IsBuilt pending_builder
pending_builder-IsBuilt =
    subst (λ out. IsBuilt out.1) push-pending_builder
      (push-IsBuilt (push new_builder (test_block 101)).1 (test_block 100)
        (push-IsBuilt new_builder (test_block 101) new_builder-IsBuilt))

build_batch-Batched_example :
    Batched (some 200) none pending_builder (build_batch (some 200) none 5_000 pending_builder)
build_batch-Batched_example =
    build_batch-Batched (some 200) none 5_000 pending_builder pending_builder-IsBuilt

batch_loop-enough_example :
    batch_loop (some 200) none 5_000 3 0 true pending_builder
    ≡ batch_loop (some 200) none 5_000 2 0 true pending_builder
batch_loop-enough_example =
    batch_loop-enough (some 200) none 5_000 2 0 true pending_builder (omega arith)

here_100 : Tree.get 100 pending_builder.pending ≡ some (test_block 100, 580)
unfolding Tree.get
here_100 = refl

take_block_counts_example :
    let left = take_block pending_builder (test_block 100) 580 test_sizes in
    (left.pending_bytes + 580 ≡ 1_160)
    × (left.ready_bytes + 580 ≡ 1_160)
    × (left.pending_bytes ≡ Tree.total_of entry_bytes left.pending)
    × (left.ready_bytes
        ≡ prefix_bytes (left.ready_end - left.next_height) left.next_height left.pending)
take_block_counts_example =
    take_block_counts pending_builder (test_block 100) 580 test_sizes pending_builder-IsBuilt
      here_100 (omega arith)

abbrev twice_sizes : TreeSizes
twice_sizes = record { sapling = 2; orchard = 2; ironwood = 0 }

abbrev drained_records : List CompactBlockRecord
drained_records = test_record 100 ∷ record (test_record 101) { end_tree_sizes = twice_sizes } ∷ []

drain_records-drained : (drain_records 200 5_000 pending_builder).0 ≡ ok drained_records
unfolding drain_records drain_loop build_batch batch_loop turn turn_checks past_limit range_end_of
    take_block record_of additions checked_add bytes_eq Tree.get Tree.remove
drain_records-drained = refl

drain_records-IsBatch_example :
    IsBatch pending_builder.pending (some 200) 100 (some test_hash) no_sizes drained_records
    × StandsAfter pending_builder drained_records
        (at_generation 7 (drain_records 200 5_000 pending_builder).1)
drain_records-IsBatch_example =
    drain_records-IsBatch 200 5_000 pending_builder drained_records pending_builder-IsBuilt
      drain_records-drained

drain_records-IsBuilt_example : IsBuilt (drain_records 200 5_000 pending_builder).1
drain_records-IsBuilt_example =
    drain_records-IsBuilt 200 5_000 pending_builder pending_builder-IsBuilt

drain_loop-enough_example :
    drain_loop 200 5_000 4 pending_builder ≡ drain_loop 200 5_000 3 pending_builder
drain_loop-enough_example =
    drain_loop-enough 200 5_000 3 pending_builder pending_builder-IsBuilt (omega arith)
