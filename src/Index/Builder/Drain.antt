-- ===== src/Index/Builder/Drain.antt =====
-- OrderedBuilder::drain_records: batches without a seal, until none is left.
use ztreamer.Prelude.{
  ℕ, zero, suc, ◌<◌, ◌≡◌, refl, sym, ap, ◌∙◌, Option, none, some, List, [], ◌∷◌, ◌++◌, arith,
  length, Result, ok, err, ◌>>=◌, >>=-eq-ok,
}
use ztreamer.Chain.Types.{CompactBlockRecord}
use ztreamer.Index.Builder.Linked.{
  IsBatch, StandsAfter, StandsAfter-refl, IsBatch-append, at_generation, StandsAfter-trans,
}
use ztreamer.Index.Builder.{IngestError, OrderedBuilder, WriteBatch, build_batch}
use ztreamer.Index.Builder.Invariant.{IsBuilt}
use ztreamer.Index.Builder.Batch.{Batched, failed_batch, no_batch, new_batch, build_batch-Batched}

abbrev pub Drained : Type 0
Drained = Result IngestError (List CompactBlockRecord) × OrderedBuilder

module _ (through max_batch_bytes : ℕ) where
  abbrev pub next_batch : OrderedBuilder → Result IngestError (Option WriteBatch) × OrderedBuilder
  next_batch b = build_batch (some through) none max_batch_bytes b

  -- The `while let` loop, with fuel. The builder comes back beside an error too.
  unfoldable pub drain_loop : ℕ → OrderedBuilder → Drained
  drain_loop zero b = (ok [], b)
  drain_loop (suc fuel) b =
      let (built, c) = next_batch b in
      let rest = drain_loop fuel c in
      elim built [
        | err e ↦ (err e, c)
        | ok none ↦ (ok [], c)
        | ok (some batch) ↦ (rest.0 >>= λ records. ok (batch.records ++ records), rest.1)
      ]

  -- A batch takes a pending block, and the last call finds none.
  unfoldable pub drain_records : OrderedBuilder → Drained
  drain_records b = drain_loop (suc (length b.pending)) b

module _ (through max_batch_bytes : ℕ) where
  abbrev drained : ℕ → OrderedBuilder → Drained
  drained fuel b = drain_loop through max_batch_bytes fuel b

  abbrev batched : OrderedBuilder → Result IngestError (Option WriteBatch) × OrderedBuilder
  batched b = next_batch through max_batch_bytes b

  step_fail :
      (fuel : ℕ) (b : OrderedBuilder) (e : IngestError)
      → (batched b).0 ≡ err e
      → drained (suc fuel) b ≡ (err e, (batched b).1)
  unfolding drain_loop
  step_fail fuel b e h = rw (h, drain_loop)

  step_end :
      (fuel : ℕ) (b : OrderedBuilder)
      → (batched b).0 ≡ ok none
      → drained (suc fuel) b ≡ (ok [], (batched b).1)
  unfolding drain_loop
  step_end fuel b h = rw (h, drain_loop)

  step_zero : (b : OrderedBuilder) → drained zero b ≡ (ok [], b)
  unfolding drain_loop
  step_zero b = refl

  abbrev onto : List CompactBlockRecord → Drained → Drained
  onto rs out = (out.0 >>= λ records. ok (rs ++ records), out.1)

  step_more :
      (fuel : ℕ) (b : OrderedBuilder) (batch : WriteBatch)
      → (batched b).0 ≡ ok (some batch)
      → drained (suc fuel) b ≡ onto batch.records (drained fuel (batched b).1)
  unfolding drain_loop
  step_more fuel b batch h = rw (h, drain_loop)

  -- What draining ends in, whether or not it returns an error.
  abbrev pub IsDrained : OrderedBuilder → Drained → Type 0
  IsDrained b out =
      IsBuilt out.1
      × ((records : List CompactBlockRecord)
          → out.0 ≡ ok records
          → IsBatch b.pending (some through) b.next_height b.previous_hash b.tree_sizes records
            × StandsAfter b records (at_generation b.generation out.1))

  module _ (b c : OrderedBuilder) (rs : List CompactBlockRecord)
      (batch : IsBatch b.pending (some through) b.next_height b.previous_hash b.tree_sizes rs)
      (stands : StandsAfter b rs (at_generation b.generation c)) where
    joined :
        (qs : List CompactBlockRecord) (d : OrderedBuilder)
        → IsBatch c.pending (some through) c.next_height c.previous_hash c.tree_sizes qs
        → StandsAfter c qs (at_generation c.generation d)
        → IsBatch b.pending (some through) b.next_height b.previous_hash b.tree_sizes (rs ++ qs)
          × StandsAfter b (rs ++ qs) (at_generation b.generation d)
    joined qs d more after = (
      IsBatch-append b.pending c.pending (some through) b.next_height b.previous_hash b.tree_sizes
          rs qs batch (rw (sym stands.height, sym stands.hash, sym stands.sizes) more)
          (λ h le. stands.kept h (omega (arith, le, stands.height))),
      StandsAfter-trans b c d rs qs stands after,
    )

    joined-IsDrained : (out : Drained) → IsDrained c out → IsDrained b (onto rs out)
    joined-IsDrained out (kept, good) = (kept, λ records e. build records e)
      where
        build :
            (records : List CompactBlockRecord)
            → (out.0 >>= λ qs. ok (rs ++ qs)) ≡ ok records
            → IsBatch b.pending (some through) b.next_height b.previous_hash b.tree_sizes records
              × StandsAfter b records (at_generation b.generation out.1)
        build records e =
            let (qs, came, taken) = >>=-eq-ok out.0 (λ qs. ok (rs ++ qs)) e in
            let same : rs ++ qs ≡ records = cc in
            rw (sym same) (joined qs out.1 (good qs came).0 (good qs came).1)

  ended : (b c : OrderedBuilder) → IsBuilt c → StandsAfter b [] c → IsDrained b (ok [], c)
  ended b c built stands = (built, λ records e. build records e)
    where
      build :
          (records : List CompactBlockRecord)
          → (let r : Result IngestError (List CompactBlockRecord) = ok [] in r ≡ ok records)
          → IsBatch b.pending (some through) b.next_height b.previous_hash b.tree_sizes records
            × StandsAfter b records (at_generation b.generation c)
      build [] e = (
        tt,
        record {
          height = stands.height;
          hash = stands.hash;
          sizes = stands.sizes;
          generation = refl;
          kept = stands.kept;
          fewer = stands.fewer;
        },
      )
      build (r ∷ rs) e = cc

  pub drain_loop-IsDrained :
      (fuel : ℕ) (b : OrderedBuilder) → IsBuilt b → IsDrained b (drained fuel b)
  drain_loop-IsDrained zero b built = rw (step_zero b) (ended b b built (StandsAfter-refl b))
  drain_loop-IsDrained (suc fuel) b built =
      split (λ c. drain_loop-IsDrained fuel c)
        (build_batch-Batched (some through) none max_batch_bytes b built)
    where
      split :
          ((c : OrderedBuilder) → IsBuilt c → IsDrained c (drained fuel c))
          → Batched (some through) none b (batched b)
          → IsDrained b (drained (suc fuel) b)
      split ih (failed_batch e o is kept) = rw (step_fail fuel b e is) (kept, λ records h. cc)
      split ih (no_batch o is kept stands) =
          rw (step_end fuel b is) (ended b (batched b).1 kept stands)
      split ih (new_batch rs o is some_rs batch gen stands kept) = rw (step_more fuel b _ is) (
          joined-IsDrained b (batched b).1 rs batch stands (drained fuel (batched b).1)
            (ih (batched b).1 kept))

  -- On a builder in order, a fuel above the number of pending blocks is enough for the loop of
  -- `drain_records`: with one more step it does the same.
  pub drain_loop-enough :
      (fuel : ℕ) (b : OrderedBuilder)
      → IsBuilt b
      → length b.pending < fuel
      → drained (suc fuel) b ≡ drained fuel b
  drain_loop-enough zero b built lt = absurd (omega (arith, lt))
  drain_loop-enough (suc fuel) b built lt =
      split (λ c. drain_loop-enough fuel c)
        (build_batch-Batched (some through) none max_batch_bytes b built)
    where
      split :
          ((c : OrderedBuilder)
            → IsBuilt c
            → length c.pending < fuel
            → drained (suc fuel) c ≡ drained fuel c)
          → Batched (some through) none b (batched b)
          → drained (suc (suc fuel)) b ≡ drained (suc fuel) b
      split ih (failed_batch e o is kept) =
          step_fail (suc fuel) b e is ∙ sym (step_fail fuel b e is)
      split ih (no_batch o is kept stands) = step_end (suc fuel) b is ∙ sym (step_end fuel b is)
      split ih (new_batch rs o is some_rs batch gen stands kept) =
          step_more (suc fuel) b _ is
          ∙ ap (onto rs) (ih (batched b).1 kept (omega (arith, lt, some_rs, stands.fewer)))
          ∙ sym (step_more fuel b _ is)

  -- On a builder in order, `drain_records` leaves a builder in order, also where it returns an error.
  pub drain_records-IsBuilt :
      (b : OrderedBuilder) → IsBuilt b → IsBuilt (drain_records through max_batch_bytes b).1
  unfolding drain_records
  drain_records-IsBuilt b built = (drain_loop-IsDrained (suc (length b.pending)) b built).0

  -- The records that `drain_records` returns are those of the next pending blocks, at most at
  -- `through`, in height order, each linked to the one before it and with the tree sizes after its own
  -- additions; and the builder then stands behind the last of them.
  pub drain_records-IsBatch :
      (b : OrderedBuilder) (records : List CompactBlockRecord)
      → IsBuilt b
      → (drain_records through max_batch_bytes b).0 ≡ ok records
      → IsBatch b.pending (some through) b.next_height b.previous_hash b.tree_sizes records
        × StandsAfter b records
            (at_generation b.generation (drain_records through max_batch_bytes b).1)
  unfolding drain_records
  drain_records-IsBatch b records built h =
      (drain_loop-IsDrained (suc (length b.pending)) b built).1 records h
