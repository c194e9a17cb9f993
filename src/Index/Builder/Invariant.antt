-- ===== src/Index/Builder/Invariant.antt =====
-- What holds of an OrderedBuilder between its operations, and the sums behind its byte counts.
use ztreamer.Prelude.{
  ℕ, zero, suc, ◌+◌, ◌-◌, ◌≤◌, ◌<◌, ◌≡◌, refl, ap, ◌∙◌, ◌≢◌, inl, inr, Option, none, some, arith,
  ◌==◌, if◌then◌else◌, Option-cases, u32_max, usize_max,
}
use ztreamer.Prelude.Tree
use ztreamer.Prelude.Tree.{Tree, IsMap}
use ztreamer.Chain.Types.{ParsedCompactBlock}
use ztreamer.Index.Builder.{OrderedBuilder, next_ready}

abbrev pub Pending : Type 0
Pending = Tree (ParsedCompactBlock × ℕ)

abbrev pub entry_bytes : ParsedCompactBlock × ℕ → ℕ
entry_bytes e = e.1

abbrev pub bytes_or_zero : Option (ParsedCompactBlock × ℕ) → ℕ
bytes_or_zero none = 0
bytes_or_zero (some e) = e.1

-- The bytes of the blocks at the `count` heights from `height` on.
unfoldable pub prefix_bytes : ℕ → ℕ → Pending → ℕ
prefix_bytes zero height m = 0
prefix_bytes (suc count) height m =
    bytes_or_zero (Tree.get height m) + prefix_bytes count (height + 1) m

-- All but the end of the ready prefix.
pub record IsOrdered (b : OrderedBuilder) : Type 0 where
  pub is_map : IsMap b.pending
  pub next_fits : b.next_height ≤ u32_max
  pub limit_fits : b.max_pending_bytes ≤ usize_max
  pub total : b.pending_bytes ≡ Tree.total_of entry_bytes b.pending
  pub limit : b.pending_bytes ≤ b.max_pending_bytes
  pub at_key :
      (h : ℕ) (e : ParsedCompactBlock × ℕ)
      → Tree.get h b.pending ≡ some e
      → (e.0.height ≡ h) × (b.next_height ≤ h)
  pub ready_after : b.next_height ≤ b.ready_end
  pub ready_present : (h : ℕ) → b.next_height ≤ h → h < b.ready_end → Tree.get h b.pending ≢ none
  pub ready_total :
      b.ready_bytes ≡ prefix_bytes (b.ready_end - b.next_height) b.next_height b.pending

-- The ready prefix ends at the first missing height.
pub record IsBuilt (b : OrderedBuilder) : Type 0 where
  pub ordered : IsOrdered b
  pub gap : next_ready b ≡ none

-- A change of one key outside the heights changes none of their bytes.
pub prefix_bytes-same :
    (count height : ℕ) (m m' : Pending)
    → ((h : ℕ) → height ≤ h → h < height + count → Tree.get h m' ≡ Tree.get h m)
    → prefix_bytes count height m' ≡ prefix_bytes count height m
unfolding prefix_bytes
prefix_bytes-same zero height m m' same = refl
prefix_bytes-same (suc count) height m m' same = omega (
  arith,
  ap bytes_or_zero (same height (omega arith) (omega arith)),
  prefix_bytes-same count (height + 1) m m' (λ h p q. same h (omega arith) (omega arith)),
)

-- One more height at the end.
pub prefix_bytes-suc :
    (count height : ℕ) (m : Pending)
    → prefix_bytes (suc count) height m
      ≡ prefix_bytes count height m + bytes_or_zero (Tree.get (height + count) m)
unfolding prefix_bytes
prefix_bytes-suc zero height m =
    let shift : height + 0 ≡ height = omega arith in
    omega (arith, ap (λ h. bytes_or_zero (Tree.get h m)) shift)
prefix_bytes-suc (suc count) height m =
    let shift : height + 1 + count ≡ height + suc count = omega arith in
    omega
      (arith, prefix_bytes-suc count (height + 1) m, ap (λ h. bytes_or_zero (Tree.get h m)) shift)

-- The blocks at distinct heights are a part of all blocks.
pub prefix_bytes-le :
    (count height : ℕ) (m : Pending)
    → IsMap m
    → prefix_bytes count height m ≤ Tree.total_of entry_bytes m
unfolding prefix_bytes
prefix_bytes-le zero height m w = omega arith
prefix_bytes-le (suc count) height m w = elim (Option-cases (Tree.get height m)) [
  | inl missing ↦ rw missing (omega (arith, prefix_bytes-le count (height + 1) m w))
  | inr (e, there) ↦ rw there (
      omega (
        arith,
        Tree.total_of-remove entry_bytes height e m w there,
        prefix_bytes-le count (height + 1) (Tree.remove height m) (Tree.remove-IsMap height m w),
        prefix_bytes-same count (height + 1) m (Tree.remove height m)
            (λ h p q. Tree.get-remove height h m ∙ other h (omega arith)),
      ))
]
  where
    other : (h : ℕ) → height < h → (if height == h then none else Tree.get h m) ≡ Tree.get h m
    other h p = ground arith
