-- ===== src/Index/Builder/Take.antt =====
-- One turn of the loop of build_batch takes the block at the next height, and keeps the invariant.
use native.Mathlib.Decide.{dec_lt}
use ztreamer.Prelude.{
  ℕ, suc, ◌+◌, ◌-◌, ◌≤◌, ◌<◌, ◌≡◌, sym, ap, ◌∙◌, ◌≢◌, inl, inr, Bool, false, Option, none, some,
  arith, ◌==◌, Bool-cases, bytes_eq_iff, u32_max,
}
use ztreamer.Prelude.Tree
use ztreamer.Prelude.Tree.{Tree}
use ztreamer.Chain.TreeSizes
use ztreamer.Chain.TreeSizes.{TreeSizes}
use ztreamer.Chain.Types.{Hash, ParsedCompactBlock, additions}
use ztreamer.Index.Builder.{
  OrderedBuilder, next_ready, takes, turn, turn_checks, past_limit, wrong_parent, take_block,
}
use ztreamer.Index.Builder.Invariant.{
  entry_bytes, bytes_or_zero, prefix_bytes, IsOrdered, IsBuilt, prefix_bytes-same,
}

abbrev pub LinksTo : Option Hash → Hash → Type 0
LinksTo none h = Unit
LinksTo (some previous) h = h ≡ previous

abbrev pub IsWithin : Option ℕ → ℕ → Type 0
IsWithin none h = ⊥
IsWithin (some through) h = h ≤ through

pub right_parent : (p : Option Hash) (h : Hash) → wrong_parent p h ≡ false → LinksTo p h
unfolding wrong_parent
right_parent none h e = tt
right_parent (some previous) h e = (bytes_eq_iff h previous).0 (ground (arith, e))

pub checks_passed :
    (b : OrderedBuilder) (block : ParsedCompactBlock) (sizes : TreeSizes)
    → turn_checks b block ≡ takes sizes
    → (wrong_parent b.previous_hash block.previous_hash ≡ false)
      × (TreeSizes.checked_add b.tree_sizes (additions block) ≡ some sizes)
      × (b.next_height + 1 ≤ u32_max)
unfolding turn_checks
checks_passed b block sizes h = ground (arith, h)

pub turn_checked :
    (durable_through seal_through : Option ℕ) (max_batch_bytes batch_bytes : ℕ) (empty : Bool)
    (b : OrderedBuilder) (block : ParsedCompactBlock) (bytes : ℕ) (sizes : TreeSizes)
    → turn durable_through seal_through max_batch_bytes batch_bytes empty b block bytes
      ≡ takes sizes
    → IsWithin durable_through block.height × (turn_checks b block ≡ takes sizes)
unfolding turn past_limit
turn_checked none seal_through max_batch_bytes batch_bytes empty b block bytes sizes h = cc
turn_checked (some d) seal_through max_batch_bytes batch_bytes empty b block bytes sizes h =
    (ground (arith, h), ground (arith, h))

module _ (b : OrderedBuilder) (block : ParsedCompactBlock) (bytes : ℕ) (sizes : TreeSizes)
    (built : IsBuilt b) (here : Tree.get b.next_height b.pending ≡ some (block, bytes))
    (fits : b.next_height + 1 ≤ u32_max) where
  abbrev w : IsOrdered b
  w = built.ordered

  abbrev taken : OrderedBuilder
  taken = take_block b block bytes sizes

  -- The block at the next height is in the ready prefix.
  is_ready : b.next_height < b.ready_end
  unfolding next_ready
  is_ready = elim (dec_lt b.next_height b.ready_end) [
    | yes p ↦ p
    | no p ↦
        let same : b.ready_end ≡ b.next_height = omega (arith, w.ready_after) in
        ground (arith, built.gap, same, here, w.next_fits, ap (λ k. Tree.get k b.pending) same)
  ]

  get_other :
      (h : ℕ)
      → h ≢ b.next_height
      → Tree.get h (Tree.remove b.next_height b.pending) ≡ Tree.get h b.pending
  get_other h ne = ground (arith, Tree.get-remove b.next_height h b.pending)

  left_bytes :
      bytes + Tree.total_of entry_bytes (Tree.remove b.next_height b.pending) ≡ b.pending_bytes
  left_bytes =
      Tree.total_of-remove entry_bytes b.next_height (block, bytes) b.pending w.is_map here
      ∙ sym w.total

  left_ready :
      bytes
        + prefix_bytes
            (b.ready_end - (b.next_height + 1))
            (b.next_height + 1)
            (Tree.remove b.next_height b.pending)
      ≡ b.ready_bytes
  unfolding prefix_bytes
  left_ready =
      let count : b.ready_end - b.next_height ≡ suc (b.ready_end - (b.next_height + 1)) =
        omega (arith, is_ready) in
      let same =
        prefix_bytes-same (b.ready_end - (b.next_height + 1)) (b.next_height + 1) b.pending
          (Tree.remove b.next_height b.pending) (λ h lo hi. get_other h (omega arith)) in
      let ready = rw count at w.ready_total in omega (arith, same, ready, ap bytes_or_zero here)

  -- On a builder in order whose block at the next height waits with a count of `bytes`, taking it
  -- subtracts exactly `bytes` from both counters, without going below zero, and what is left of them is
  -- the bytes of the blocks that still wait and of those that are still ready.
  pub take_block_counts :
      (taken.pending_bytes + bytes ≡ b.pending_bytes)
      × (taken.ready_bytes + bytes ≡ b.ready_bytes)
      × (taken.pending_bytes ≡ Tree.total_of entry_bytes taken.pending)
      × (taken.ready_bytes
          ≡ prefix_bytes (taken.ready_end - taken.next_height) taken.next_height taken.pending)
  unfolding take_block
  take_block_counts = (
    omega (arith, left_bytes),
    omega (arith, left_ready),
    omega (arith, left_bytes),
    omega (arith, left_ready),
  )

  taken-at_key :
      (h : ℕ) (e : ParsedCompactBlock × ℕ)
      → Tree.get h (Tree.remove b.next_height b.pending) ≡ some e
      → (e.0.height ≡ h) × (b.next_height + 1 ≤ h)
  taken-at_key h e there = elim (Bool-cases (b.next_height == h)) [
    | inl same ↦ ground (arith, there, Tree.get-remove b.next_height h b.pending)
    | inr other ↦
        let (p, q) =
          w.at_key h e (ground (arith, there, Tree.get-remove b.next_height h b.pending)) in
        (p, ground (arith, q, other))
  ]

  pub take_block-IsBuilt : IsBuilt taken
  unfolding take_block next_ready
  take_block-IsBuilt = record {
    ordered = record {
      is_map = Tree.remove-IsMap b.next_height b.pending w.is_map;
      next_fits = fits;
      limit_fits = w.limit_fits;
      total = omega (arith, left_bytes);
      limit = omega (arith, w.limit);
      at_key = taken-at_key;
      ready_after = omega (arith, is_ready);
      ready_present = λ h lo hi gone.
          w.ready_present h (omega arith) hi (sym (get_other h (omega arith)) ∙ gone);
      ready_total = omega (arith, left_ready);
    };
    gap = ground (arith, built.gap, get_other b.ready_end (omega (arith, is_ready)));
  }
