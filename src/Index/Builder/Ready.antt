-- ===== src/Index/Builder/Ready.antt =====
-- The loop of push over the ready prefix: it ends at a gap, and its count does not overflow.
use native.Mathlib.Decide.{dec_lt}
use ztreamer.Prelude.{
  ℕ, zero, suc, ◌+◌, ◌-◌, ◌≤◌, ◌<◌, ◌≡◌, refl, ap, ◌≢◌, inl, inr, none, some, arith, Option-cases,
  Result, ok, usize_max, word_add,
}
use ztreamer.Prelude.Tree
use ztreamer.Prelude.Tree.{Tree, IsMap}
use ztreamer.Chain.Types.{ParsedCompactBlock}
use ztreamer.Index.Builder.{IngestError, OrderedBuilder, next_ready, extend_ready}
use ztreamer.Index.Builder.Invariant.{
  Pending, bytes_or_zero, prefix_bytes, IsOrdered, IsBuilt, prefix_bytes-suc, prefix_bytes-le,
}

module _ (b : OrderedBuilder) (e : ParsedCompactBlock × ℕ) (w : IsOrdered b)
    (there : next_ready b ≡ some e) where
  ready_entry : Tree.get b.ready_end b.pending ≡ some e
  unfolding next_ready
  ready_entry = ground (arith, there)

  abbrev grown : OrderedBuilder
  grown = record b { ready_bytes = b.ready_bytes + e.1; ready_end = b.ready_end + 1 }

  grown-total :
      b.ready_bytes + e.1 ≡ prefix_bytes (b.ready_end + 1 - b.next_height) b.next_height b.pending
  grown-total =
      let count : b.ready_end + 1 - b.next_height ≡ suc (b.ready_end - b.next_height) =
        omega (arith, w.ready_after) in
      let end : b.next_height + (b.ready_end - b.next_height) ≡ b.ready_end =
        omega (arith, w.ready_after) in
      rw count (
        omega (
          arith,
          w.ready_total,
          prefix_bytes-suc (b.ready_end - b.next_height) b.next_height b.pending,
          ap (λ h. bytes_or_zero (Tree.get h b.pending)) end,
          ap bytes_or_zero ready_entry,
        ))

  -- The count of the longer prefix fits, as a part of the pending bytes.
  grown-fits : word_add usize_max b.ready_bytes e.1 ≡ some (b.ready_bytes + e.1)
  grown-fits =
      let part =
        prefix_bytes-le (b.ready_end + 1 - b.next_height) b.next_height b.pending w.is_map in
      ground (arith, part, grown-total, w.total, w.limit, w.limit_fits)

  grown-present : (h : ℕ) → b.next_height ≤ h → h < b.ready_end + 1 → Tree.get h b.pending ≢ none
  grown-present h lo hi absent = elim (dec_lt h b.ready_end) [
    | yes p ↦ w.ready_present h lo p absent
    | no p ↦
        let here : h ≡ b.ready_end = omega arith in
        cc (ready_entry, absent, ap (λ k. Tree.get k b.pending) here)
  ]

  grown-IsOrdered : IsOrdered grown
  grown-IsOrdered = record {
    is_map = w.is_map;
    next_fits = w.next_fits;
    limit_fits = w.limit_fits;
    total = w.total;
    limit = w.limit;
    at_key = w.at_key;
    ready_after = omega (arith, w.ready_after);
    ready_present = grown-present;
    ready_total = grown-total;
  }

no_entry_above : (k : ℕ) (m : Pending) → Tree.above k m ≤ 0 → Tree.get k m ≡ none
no_entry_above k m h = elim (Option-cases (Tree.get k m)) [
  | inl missing ↦ missing
  | inr (e, there) ↦ absurd (omega (arith, Tree.above_less k e m there))
]

pub no_ready : (b : OrderedBuilder) → Tree.get b.ready_end b.pending ≡ none → next_ready b ≡ none
unfolding next_ready
no_ready b h = ground (arith, h)

-- What the loop leaves alone.
pub record SameBut (b c : OrderedBuilder) : Type 0 where
  pub next_height : c.next_height ≡ b.next_height
  pub previous_hash : c.previous_hash ≡ b.previous_hash
  pub tree_sizes : c.tree_sizes ≡ b.tree_sizes
  pub generation : c.generation ≡ b.generation
  pub pending : c.pending ≡ b.pending
  pub pending_bytes : c.pending_bytes ≡ b.pending_bytes

pub SameBut-refl : (b : OrderedBuilder) → SameBut b b
SameBut-refl b = record {
  next_height = refl;
  previous_hash = refl;
  tree_sizes = refl;
  generation = refl;
  pending = refl;
  pending_bytes = refl;
}

SameBut-grown :
    (b : OrderedBuilder) (e : ParsedCompactBlock × ℕ) (w : IsOrdered b)
    (there : next_ready b ≡ some e) {c : OrderedBuilder}
    → SameBut (grown b e w there) c
    → SameBut b c
SameBut-grown b e w there s = record {
  next_height = s.next_height;
  previous_hash = s.previous_hash;
  tree_sizes = s.tree_sizes;
  generation = s.generation;
  pending = s.pending;
  pending_bytes = s.pending_bytes;
}

extend_ready-zero : (b : OrderedBuilder) → extend_ready zero b ≡ (ok tt, b)
unfolding extend_ready
extend_ready-zero b = refl

extend_ready_stop :
    (fuel : ℕ) (b : OrderedBuilder) → next_ready b ≡ none → extend_ready (suc fuel) b ≡ (ok tt, b)
unfolding extend_ready
extend_ready_stop fuel b missing = rw (missing, extend_ready)

extend_ready_step :
    (fuel : ℕ) (b : OrderedBuilder) (e : ParsedCompactBlock × ℕ) (w : IsOrdered b)
    (there : next_ready b ≡ some e)
    → extend_ready (suc fuel) b ≡ extend_ready fuel (grown b e w there)
unfolding extend_ready
extend_ready_step fuel b e w there = rw (there, grown-fits b e w there, extend_ready)

-- What the loop ends in.
abbrev pub Extended : OrderedBuilder → Result IngestError (Unit {0}) × OrderedBuilder → Type 0
Extended b out = (out.0 ≡ ok tt) × IsBuilt out.1 × SameBut b out.1

-- The loop returns without an error, at the first missing height.
pub extend_ready-IsBuilt :
    (fuel : ℕ) (b : OrderedBuilder)
    → IsOrdered b
    → Tree.above b.ready_end b.pending ≤ fuel
    → Extended b (extend_ready fuel b)
extend_ready-IsBuilt zero b w h = rw (extend_ready-zero b) (
  refl,
  record { ordered = w; gap = no_ready b (no_entry_above b.ready_end b.pending h) },
  SameBut-refl b,
)
extend_ready-IsBuilt (suc fuel) b w h = elim (Option-cases (next_ready b)) [
  | inl missing ↦
      rw (extend_ready_stop fuel b missing)
        (refl, record { ordered = w; gap = missing }, SameBut-refl b)
  | inr (e, there) ↦
      let (done, built, same) =
        extend_ready-IsBuilt fuel (grown b e w there) (grown-IsOrdered b e w there)
          (omega (arith, Tree.above_less b.ready_end e b.pending (ready_entry b e w there))) in
      rw (extend_ready_step fuel b e w there) (done, built, SameBut-grown b e w there same)
]
