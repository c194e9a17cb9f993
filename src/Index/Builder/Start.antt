-- ===== src/Index/Builder/Start.antt =====
-- A new OrderedBuilder, and the heights of an IndexState.
use ztreamer.Prelude.{
  ℕ, ◌-◌, ◌≤◌, ◌≡◌, refl, sym, ap, inl, inr, none, some, [], arith, Option-cases, ok, >>=-eq-ok,
  ok_or, u32_max, usize_max,
}
use ztreamer.Prelude.Tree
use ztreamer.Chain.Types.{ParsedCompactBlock}
use ztreamer.Index.State.{IndexState, next_height, tip_height}
use ztreamer.Index.Builder.{OrderedBuilder, overflow, builder_new, next_ready}
use ztreamer.Index.Builder.Invariant.{entry_bytes, IsBuilt, prefix_bytes}

abbrev initial : IndexState → ℕ → ℕ → OrderedBuilder
initial s max_pending_bytes height = record {
  next_height = height;
  previous_hash = elim s.durable_tip [ none ↦ none | some tip ↦ some tip.hash ];
  tree_sizes = s.tree_sizes;
  generation = s.generation;
  pending = [];
  pending_bytes = 0;
  ready_end = height;
  ready_bytes = 0;
  max_pending_bytes = max_pending_bytes;
}

next_height_fits : (s : IndexState) (height : ℕ) → next_height s ≡ some height → height ≤ u32_max
unfolding next_height
next_height_fits s height h = elim (Option-cases (tip_height s)) [
  | inl none_yet ↦ let e = rw none_yet at h in ground (arith, e)
  | inr (tip, there) ↦ let e = rw there at h in ground (arith, e)
]

initial-IsBuilt :
    (s : IndexState) (max_pending_bytes height : ℕ)
    → max_pending_bytes ≤ usize_max
    → height ≤ u32_max
    → IsBuilt (initial s max_pending_bytes height)
unfolding next_ready prefix_bytes
initial-IsBuilt s max_pending_bytes height fits small =
    let no_count : 0 ≡ height - height = omega arith in
    record {
      ordered = record {
        is_map = tt;
        next_fits = small;
        limit_fits = fits;
        total = sym (Tree.total_of-nil entry_bytes);
        limit = omega arith;
        at_key = λ h e there. absurd (cc (there, Tree.get-nil {V = ParsedCompactBlock × ℕ} h));
        ready_after = omega arith;
        ready_present = λ h lo hi gone. absurd (omega (arith, lo, hi));
        ready_total = ap (λ n. prefix_bytes n height []) no_count;
      };
      gap = ground (arith, Tree.get-nil {V = ParsedCompactBlock × ℕ} height);
    }

-- `builder_new` starts in order, at the height above the durable tip, with its tree sizes and its
-- generation, whenever it does not fail and the limit is a usize.
pub builder_new-IsBuilt :
    (s : IndexState) (max_pending_bytes : ℕ) (b : OrderedBuilder)
    → max_pending_bytes ≤ usize_max
    → builder_new s max_pending_bytes ≡ ok b
    → IsBuilt b
      × (next_height s ≡ some b.next_height)
      × (b.tree_sizes ≡ s.tree_sizes)
      × (b.generation ≡ s.generation)
unfolding builder_new
builder_new-IsBuilt s max_pending_bytes b fits made =
    let (height, above, made_b) =
      >>=-eq-ok (ok_or (next_height s) overflow) (λ height. ok (initial s max_pending_bytes height))
        made in
    let at : next_height s ≡ some height = ground (arith, above) in
    let same : initial s max_pending_bytes height ≡ b = cc in
    rw (sym same) (
      initial-IsBuilt s max_pending_bytes height fits (next_height_fits s height at),
      at,
      refl,
      refl,
    )
