-- ===== src/Index/Builder/Loop.antt =====
-- The loop of build_batch takes the next blocks of the chain, in order and linked.
use ztreamer.Prelude.{
  ℕ, zero, suc, ◌+◌, ◌≤◌, ◌<◌, ◌≡◌, refl, sym, ap, ◌∙◌, ◌⊎◌, inl, inr, Bool, false, Option, none,
  some, List, [], ◌∷◌, arith, Option-cases, length, Result, ok, err, ◌>>=◌, >>=-eq-ok, u32_max,
}
use ztreamer.Prelude.Tree
use ztreamer.Prelude.Tree.{Tree, IsMap}
use ztreamer.Chain.TreeSizes
use ztreamer.Chain.TreeSizes.{TreeSizes}
use ztreamer.Chain.Types.{ParsedCompactBlock, CompactBlockRecord, additions, record_of, into_record}
use ztreamer.Index.Builder.Linked.{IsBatch, IsBatch-same, StandsAfter, StandsAfter-refl}
use ztreamer.Index.Builder.{
  IngestError, OrderedBuilder, Turn, stop, fails, takes, turn, take_block, batch_loop,
}
use ztreamer.Index.Builder.Invariant.{IsBuilt}
use ztreamer.Index.Builder.Take.{checks_passed, turn_checked, right_parent, take_block-IsBuilt}

module _ (through seal : Option ℕ) (max_batch_bytes : ℕ) where
  -- What the loop ends in, whether or not it returns an error.
  abbrev pub Looped :
      OrderedBuilder → Result IngestError (List CompactBlockRecord) × OrderedBuilder → Type 0
  Looped b out =
      IsBuilt out.1
      × ((records : List CompactBlockRecord)
          → out.0 ≡ ok records
          → IsBatch b.pending through b.next_height b.previous_hash b.tree_sizes records
            × StandsAfter b records out.1)

  stopped : (b : OrderedBuilder) → IsBuilt b → Looped b (ok [], b)
  stopped b built = (built, λ records e. ended records e)
    where
      ended :
          (records : List CompactBlockRecord)
          → (let r : Result IngestError (List CompactBlockRecord) = ok [] in r ≡ ok records)
          → IsBatch b.pending through b.next_height b.previous_hash b.tree_sizes records
            × StandsAfter b records b
      ended [] e = (tt, StandsAfter-refl b)
      ended (r ∷ rs) e = cc

  failed : (x : IngestError) (b : OrderedBuilder) → IsBuilt b → Looped b (err x, b)
  failed x b built = (built, λ records e. cc)

  loop_end :
      (fuel batch_bytes : ℕ) (empty : Bool) (b : OrderedBuilder)
      → Tree.get b.next_height b.pending ≡ none
      → batch_loop through seal max_batch_bytes (suc fuel) batch_bytes empty b ≡ (ok [], b)
  unfolding batch_loop
  loop_end fuel batch_bytes empty b h = rw (h, batch_loop)

  module _ (fuel batch_bytes : ℕ) (empty : Bool) (b : OrderedBuilder) (block : ParsedCompactBlock)
      (bytes : ℕ) (here : Tree.get b.next_height b.pending ≡ some (block, bytes)) where
    abbrev decision : Turn
    decision = turn through seal max_batch_bytes batch_bytes empty b block bytes

    abbrev looped : Result IngestError (List CompactBlockRecord) × OrderedBuilder
    looped = batch_loop through seal max_batch_bytes (suc fuel) batch_bytes empty b

    loop_stop : decision ≡ stop → looped ≡ (ok [], b)
    unfolding batch_loop
    loop_stop h = rw (here, h, batch_loop)

    loop_fail : (x : IngestError) → decision ≡ fails x → looped ≡ (err x, b)
    unfolding batch_loop
    loop_fail x h = rw (here, h, batch_loop)

    abbrev rest_of : TreeSizes → Result IngestError (List CompactBlockRecord) × OrderedBuilder
    rest_of sizes =
        batch_loop through seal max_batch_bytes fuel (batch_bytes + bytes) false
          (take_block b block bytes sizes)

    abbrev prepend :
        TreeSizes
        → Result IngestError (List CompactBlockRecord) × OrderedBuilder
        → Result IngestError (List CompactBlockRecord) × OrderedBuilder
    prepend sizes out = (out.0 >>= λ records. ok (record_of block sizes ∷ records), out.1)

    loop_take :
        (sizes : TreeSizes) → decision ≡ takes sizes → looped ≡ prepend sizes (rest_of sizes)
    unfolding batch_loop
    loop_take sizes h = rw (here, h, batch_loop)

Turn-cases :
    (t : Turn)
    → (t ≡ stop) ⊎ (((x : IngestError) × (t ≡ fails x)) ⊎ ((sizes : TreeSizes) × (t ≡ takes sizes)))
Turn-cases stop = inl refl
Turn-cases (fails x) = inr (inl (x, refl))
Turn-cases (takes sizes) = inr (inr (sizes, refl))

into_record_of :
    (block : ParsedCompactBlock) (before sizes : TreeSizes)
    → TreeSizes.checked_add before (additions block) ≡ some sizes
    → into_record block before ≡ some (record_of block sizes)
unfolding into_record
into_record_of block before sizes h = rw h

get_other :
    (b : OrderedBuilder) (h : ℕ)
    → b.next_height < h
    → Tree.get h (Tree.remove b.next_height b.pending) ≡ Tree.get h b.pending
get_other b h lt = ground (arith, Tree.get-remove b.next_height h b.pending)

-- A turn that takes its block, before turns whose records are `rs`.
module _ (through seal : Option ℕ) (max_batch_bytes batch_bytes : ℕ) (empty : Bool)
    (b : OrderedBuilder) (block : ParsedCompactBlock) (bytes : ℕ) (sizes : TreeSizes)
    (built : IsBuilt b) (here : Tree.get b.next_height b.pending ≡ some (block, bytes))
    (took : turn through seal max_batch_bytes batch_bytes empty b block bytes ≡ takes sizes) where
  abbrev after : OrderedBuilder
  after = take_block b block bytes sizes

  room : b.next_height + 1 ≤ u32_max
  room =
      let (within, checks) =
        turn_checked through seal max_batch_bytes batch_bytes empty b block bytes sizes took in
      (checks_passed b block sizes checks).2

  after-IsBuilt : IsBuilt after
  after-IsBuilt = take_block-IsBuilt b block bytes sizes built here room

  longer :
      (rs : List CompactBlockRecord)
      → IsBatch after.pending through after.next_height after.previous_hash after.tree_sizes rs
      → IsBatch b.pending through b.next_height b.previous_hash b.tree_sizes
          (record_of block sizes ∷ rs)
  unfolding take_block record_of
  longer rs more =
      let (within, checks) =
        turn_checked through seal max_batch_bytes batch_bytes empty b block bytes sizes took in
      let (linked, added, fits) = checks_passed b block sizes checks in
      (
        (block, bytes),
        here,
        into_record_of block b.tree_sizes sizes added,
        (built.ordered.at_key b.next_height (block, bytes) here).0,
        within,
        right_parent b.previous_hash block.previous_hash linked,
        IsBatch-same b.pending after.pending through (b.next_height + 1) (some block.hash) sizes rs
            (λ h le. get_other b h (omega arith)) more,
      )

  farther :
      (rs : List CompactBlockRecord) (c : OrderedBuilder)
      → StandsAfter after rs c
      → StandsAfter b (record_of block sizes ∷ rs) c
  unfolding take_block record_of
  farther rs c s = record {
    height = omega (arith, s.height);
    hash = s.hash;
    sizes = s.sizes;
    generation = s.generation;
    kept = λ h le. s.kept h le ∙ get_other b h (omega (arith, le, s.height));
    fewer = omega (arith, s.fewer, Tree.length-remove b.next_height (block, bytes) b.pending here);
  }

  prepended :
      (out : Result IngestError (List CompactBlockRecord) × OrderedBuilder)
      → Looped through seal max_batch_bytes after out
      → Looped through seal max_batch_bytes b
          (prepend through seal max_batch_bytes zero batch_bytes empty b block bytes here sizes out)
  prepended out (kept, good) = (kept, λ records e. build records e)
    where
      build :
          (records : List CompactBlockRecord)
          → (out.0 >>= λ rs. ok (record_of block sizes ∷ rs)) ≡ ok records
          → IsBatch b.pending through b.next_height b.previous_hash b.tree_sizes records
            × StandsAfter b records out.1
      build records e =
          let (rs, came, taken) = >>=-eq-ok out.0 (λ rs. ok (record_of block sizes ∷ rs)) e in
          let same : record_of block sizes ∷ rs ≡ records = cc in
          rw (sym same) (longer rs (good rs came).0, farther rs out.1 (good rs came).1)

-- The loop is over when its fuel is.
loop_zero :
    (through seal : Option ℕ) (max_batch_bytes batch_bytes : ℕ) (empty : Bool) (b : OrderedBuilder)
    → batch_loop through seal max_batch_bytes zero batch_bytes empty b ≡ (ok [], b)
unfolding batch_loop
loop_zero through seal max_batch_bytes batch_bytes empty b = refl

pub batch_loop-Looped :
    (through seal : Option ℕ) (max_batch_bytes fuel batch_bytes : ℕ) (empty : Bool)
    (b : OrderedBuilder)
    → IsBuilt b
    → Looped through seal max_batch_bytes b
        (batch_loop through seal max_batch_bytes fuel batch_bytes empty b)
batch_loop-Looped through seal max_batch_bytes zero batch_bytes empty b built =
    rw (loop_zero through seal max_batch_bytes batch_bytes empty b)
      (stopped through seal max_batch_bytes b built)
batch_loop-Looped through seal max_batch_bytes (suc fuel) batch_bytes empty b built =
    elim (Option-cases (Tree.get b.next_height b.pending)) [
      | inl gone ↦
          rw (loop_end through seal max_batch_bytes fuel batch_bytes empty b gone)
            (stopped through seal max_batch_bytes b built)
      | inr ((block, bytes), here) ↦
          elim (Turn-cases (turn through seal max_batch_bytes batch_bytes empty b block bytes)) [
            | inl h ↦
                rw
                  (loop_stop through seal max_batch_bytes fuel batch_bytes empty b block bytes here
                    h)
                  (stopped through seal max_batch_bytes b built)
            | inr (inl (x, h)) ↦
                rw
                  (loop_fail through seal max_batch_bytes fuel batch_bytes empty b block bytes here
                    x h)
                  (failed through seal max_batch_bytes x b built)
            | inr (inr (sizes, h)) ↦
                let next = take_block b block bytes sizes in
                rw
                  (loop_take through seal max_batch_bytes fuel batch_bytes empty b block bytes here
                    sizes h)
                  (prepended through seal max_batch_bytes batch_bytes empty b block bytes sizes
                    built here h
                    (batch_loop through seal max_batch_bytes fuel (batch_bytes + bytes) false next)
                    (batch_loop-Looped through seal max_batch_bytes fuel (batch_bytes + bytes) false
                      next
                      (after-IsBuilt through seal max_batch_bytes batch_bytes empty b block bytes
                        sizes built here h)))
          ]
    ]

none_left : (b : OrderedBuilder) → length b.pending ≤ 0 → Tree.get b.next_height b.pending ≡ none
none_left b le = elim (Option-cases (Tree.get b.next_height b.pending)) [
  | inl gone ↦ gone
  | inr (e, here) ↦ absurd (omega (arith, le, Tree.length-remove b.next_height e b.pending here))
]

fewer_left :
    (b : OrderedBuilder) (block : ParsedCompactBlock) (bytes : ℕ) (sizes : TreeSizes) (fuel : ℕ)
    → Tree.get b.next_height b.pending ≡ some (block, bytes)
    → length b.pending ≤ suc fuel
    → length (take_block b block bytes sizes).pending ≤ fuel
unfolding take_block
fewer_left b block bytes sizes fuel here le =
    omega (arith, le, Tree.length-remove b.next_height (block, bytes) b.pending here)

module _ (through seal : Option ℕ) (max_batch_bytes : ℕ) where
  -- As much fuel as there are pending blocks is enough for the loop of `build_batch`: with one more
  -- step it does the same.
  pub batch_loop-enough :
      (fuel batch_bytes : ℕ) (empty : Bool) (b : OrderedBuilder)
      → length b.pending ≤ fuel
      → batch_loop through seal max_batch_bytes (suc fuel) batch_bytes empty b
        ≡ batch_loop through seal max_batch_bytes fuel batch_bytes empty b
  batch_loop-enough zero batch_bytes empty b le =
      loop_end through seal max_batch_bytes zero batch_bytes empty b (none_left b le)
      ∙ sym (loop_zero through seal max_batch_bytes batch_bytes empty b)
  batch_loop-enough (suc fuel) batch_bytes empty b le =
      elim (Option-cases (Tree.get b.next_height b.pending)) [
        | inl gone ↦
            loop_end through seal max_batch_bytes (suc fuel) batch_bytes empty b gone
            ∙ sym (loop_end through seal max_batch_bytes fuel batch_bytes empty b gone)
        | inr ((block, bytes), here) ↦
            elim (Turn-cases (turn through seal max_batch_bytes batch_bytes empty b block bytes)) [
              | inl h ↦
                  loop_stop through seal max_batch_bytes (suc fuel) batch_bytes empty b block bytes
                    here h
                  ∙ sym (
                      loop_stop through seal max_batch_bytes fuel batch_bytes empty b block bytes
                        here h)
              | inr (inl (x, h)) ↦
                  loop_fail through seal max_batch_bytes (suc fuel) batch_bytes empty b block bytes
                    here x h
                  ∙ sym (
                      loop_fail through seal max_batch_bytes fuel batch_bytes empty b block bytes
                        here x h)
              | inr (inr (sizes, h)) ↦
                  loop_take through seal max_batch_bytes (suc fuel) batch_bytes empty b block bytes
                    here sizes h
                  ∙ ap
                      (prepend through seal max_batch_bytes fuel batch_bytes empty b block bytes
                        here sizes)
                      (batch_loop-enough fuel (batch_bytes + bytes) false
                        (take_block b block bytes sizes)
                        (fewer_left b block bytes sizes fuel here le))
                  ∙ sym (
                      loop_take through seal max_batch_bytes fuel batch_bytes empty b block bytes
                        here sizes h)
            ]
      ]
