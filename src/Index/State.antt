-- ===== src/Index/State.antt =====
-- IndexState of crates/index/src/index/state.rs.
use ztreamer.Prelude.{ℕ, Bool, true, false, not, Option, none, some, ◌==◌, u32_max, word_add}
use ztreamer.Chain.TreeSizes.{TreeSizes}
use ztreamer.Chain.Types.{Hash}

pub record BlockId : Type 0 where
  pub height : ℕ
  pub hash : Hash

pub record IndexState : Type 0 where
  pub durable_tip : Option BlockId
  pub sealed_through : Option ℕ
  pub verified_through : Option ℕ
  pub generation : ℕ
  pub tree_sizes : TreeSizes

unfoldable pub with_durable_tip : IndexState → BlockId → TreeSizes → IndexState
with_durable_tip s tip sizes = record s { durable_tip = some tip; tree_sizes = sizes }

-- The height above an optional height: 0 if there is none, and `none` on an overflow.
unfoldable pub height_above : Option ℕ → Option ℕ
height_above none = some 0
height_above (some height) = word_add u32_max height 1

abbrev pub tip_height : IndexState → Option ℕ
tip_height s = elim s.durable_tip [ none ↦ none | some tip ↦ some tip.height ]

unfoldable pub next_height : IndexState → Option ℕ
unfolding height_above
next_height s = height_above (tip_height s)

-- `none` is `IndexError::Overflow`.
unfoldable pub next_range_start : IndexState → Option ℕ
unfolding height_above
next_range_start s = height_above s.sealed_through

unfoldable pub next_verify_start : IndexState → Option ℕ
unfolding height_above
next_verify_start s = height_above s.verified_through

-- `genesis_previous` is zakura's GENESIS_PREVIOUS_BLOCK_HASH.
unfoldable pub install_parent_hash : Hash → IndexState → Hash
install_parent_hash genesis_previous s = elim s.durable_tip [
  | none ↦ genesis_previous
  | some tip ↦ tip.hash
]

same_height : Option ℕ → Option ℕ → Bool
same_height none none = true
same_height none (some b) = false
same_height (some a) none = false
same_height (some a) (some b) = a == b

unfoldable pub has_mutable_rows : IndexState → Bool
unfolding same_height
has_mutable_rows s = not (same_height (tip_height s) s.sealed_through)
