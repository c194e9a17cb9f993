-- ===== src/Index/Builder/Batch.antt =====
-- The batches that build_batch makes, on every branch.
use ztreamer.Prelude.{
  ℕ, ◌+◌, ◌<◌, ◌≡◌, refl, ap, inl, inr, true, false, Option, none, some, List, [], ◌∷◌, arith, leb,
  Bool-cases, Option-cases, length, Result, ok, err, u64_max,
}
use ztreamer.Chain.Types.{CompactBlockRecord}
use ztreamer.Index.Builder.Linked.{IsBatch, StandsAfter, StandsAfter-refl}
use ztreamer.Index.Builder.{
  IngestError, overflow, OrderedBuilder, WriteBatch, next_ready, batch_loop, batch_of, finish_batch,
  build_batch, range_end_of, waits_for_range,
}
use ztreamer.Index.Builder.Invariant.{IsBuilt}
use ztreamer.Index.Builder.Loop.{Looped, batch_loop-Looped}

-- What a call of `build_batch` may come to.
pub data Batched (through seal : Option ℕ) (b : OrderedBuilder)
    : Result IngestError (Option WriteBatch) × OrderedBuilder → Type 0 where
  failed_batch :
      (e : IngestError) (out : Result IngestError (Option WriteBatch) × OrderedBuilder)
      → out.0 ≡ err e
      → IsBuilt out.1
      → Batched through seal b out
  no_batch :
      (out : Result IngestError (Option WriteBatch) × OrderedBuilder)
      → out.0 ≡ ok none
      → IsBuilt out.1
      → StandsAfter b [] out.1
      → Batched through seal b out
  new_batch :
      (records : List CompactBlockRecord)
      (out : Result IngestError (Option WriteBatch) × OrderedBuilder)
      → out.0
        ≡ ok (
            some
              (record { base_generation = b.generation; seal_through = seal; records = records }))
      → 0 < length records
      → IsBatch b.pending through b.next_height b.previous_hash b.tree_sizes records
      → out.1.generation ≡ b.generation + 1
      → StandsAfter b records (record out.1 { generation = b.generation })
      → IsBuilt out.1
      → Batched through seal b out

-- The invariant does not speak of the generation.
generation-IsBuilt :
    (b : OrderedBuilder) (generation : ℕ)
    → IsBuilt b
    → IsBuilt (record b { generation = generation })
unfolding next_ready
generation-IsBuilt b generation built = record {
  ordered = record {
    is_map = built.ordered.is_map;
    next_fits = built.ordered.next_fits;
    limit_fits = built.ordered.limit_fits;
    total = built.ordered.total;
    limit = built.ordered.limit;
    at_key = built.ordered.at_key;
    ready_after = built.ordered.ready_after;
    ready_present = built.ordered.ready_present;
    ready_total = built.ordered.ready_total;
  };
  gap = built.gap;
}

module _ (through seal : Option ℕ) (max_batch_bytes : ℕ) (b : OrderedBuilder) where
  finished :
      (out : Result IngestError (List CompactBlockRecord) × OrderedBuilder)
      → Looped through seal max_batch_bytes b out
      → Batched through seal b (finish_batch through seal max_batch_bytes b.generation out)
  unfolding finish_batch batch_of
  finished (err e, c) (built, good) = failed_batch e _ refl built
  finished (ok [], c) (built, good) = no_batch _ refl built (good [] refl).1
  finished (ok (r ∷ rs), c) (built, good) = elim (Bool-cases (leb (c.generation + 1) u64_max)) [
    | inr over ↦ rw (over, batch_of) (failed_batch overflow _ refl built)
    | inl fits ↦
        let (batch, stands) = good (r ∷ rs) refl in
        rw (fits, batch_of)
          (new_batch (r ∷ rs) _ refl (omega arith) batch (ap (λ g. g + 1) stands.generation)
            (record {
              height = stands.height;
              hash = stands.hash;
              sizes = stands.sizes;
              generation = refl;
              kept = stands.kept;
              fewer = stands.fewer;
            })
            (generation-IsBuilt c (c.generation + 1) built))
  ]

  short_range :
      range_end_of b.next_height ≡ none
      → build_batch through seal max_batch_bytes b ≡ (err overflow, b)
  unfolding build_batch
  short_range h = rw (h, build_batch)

  waits :
      (range_end : ℕ)
      → range_end_of b.next_height ≡ some range_end
      → waits_for_range through seal max_batch_bytes b range_end ≡ true
      → build_batch through seal max_batch_bytes b ≡ (ok none, b)
  unfolding build_batch
  waits range_end h w = rw (h, w, build_batch)

  builds :
      (range_end : ℕ)
      → range_end_of b.next_height ≡ some range_end
      → waits_for_range through seal max_batch_bytes b range_end ≡ false
      → build_batch through seal max_batch_bytes b
        ≡ finish_batch through seal max_batch_bytes b.generation
            (batch_loop through seal max_batch_bytes (length b.pending) 0 true b)
  unfolding build_batch
  builds range_end h w = rw (h, w, build_batch)

  -- On a builder in order, `build_batch` leaves a builder in order on every branch. Without a batch the
  -- builder stands where it stood. A batch is not empty, carries the generation and the seal that it
  -- was built for, and its records are those of the next pending blocks, at most at `through`, in height
  -- order, linked and with the tree sizes after their own additions; the builder then stands behind
  -- the last of them, at the next generation.
  pub build_batch-Batched :
      IsBuilt b → Batched through seal b (build_batch through seal max_batch_bytes b)
  build_batch-Batched built = elim (Option-cases (range_end_of b.next_height)) [
    | inl over ↦
        failed_batch overflow _ (ap (λ x. x.0) (short_range over)) (rw (short_range over) built)
    | inr (range_end, h) ↦
        elim (Bool-cases (waits_for_range through seal max_batch_bytes b range_end)) [
          | inl w ↦ rw (waits range_end h w) (no_batch _ refl built (StandsAfter-refl b))
          | inr w ↦ rw (builds range_end h w) (
              finished (batch_loop through seal max_batch_bytes (length b.pending) 0 true b)
                (batch_loop-Looped through seal max_batch_bytes (length b.pending) 0 true b built))
        ]
  ]
