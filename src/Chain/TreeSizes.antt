-- ===== src/Chain/TreeSizes.antt =====
-- TreeSizes of crates/chain/src/codec/mod.rs: the note commitments of each pool, as u32 counts.
use ztreamer.Prelude.{
  ℕ, ◌+◌, ◌≤◌, ◌<◌, ◌≡◌, ◌⊎◌, Bool, true, ◌&&◌, Option, none, some, arith, leb, option_bind,
  u32_max, word_add, word_sub,
}

pub record TreeSizes : Type 0 where
  pub sapling : ℕ
  pub orchard : ℕ
  pub ironwood : ℕ

-- Each pool size is a u32.
pub record IsU32Sizes (s : TreeSizes) : Type 0 where
  pub sapling_fits : s.sapling ≤ u32_max
  pub orchard_fits : s.orchard ≤ u32_max
  pub ironwood_fits : s.ironwood ≤ u32_max

-- `TreeSizes::default()`
abbrev pub no_sizes : TreeSizes
no_sizes = record { sapling = 0; orchard = 0; ironwood = 0 }

unfoldable pub follows : TreeSizes → TreeSizes → Bool
follows s below =
    leb below.sapling s.sapling && leb below.orchard s.orchard && leb below.ironwood s.ironwood

unfoldable pub total : TreeSizes → ℕ
total s = s.sapling + s.orchard + s.ironwood

unfoldable pub checked_add : TreeSizes → TreeSizes → Option TreeSizes
checked_add s other = option_bind (word_add u32_max s.sapling other.sapling) λ a.
    option_bind (word_add u32_max s.orchard other.orchard) λ b.
      option_bind (word_add u32_max s.ironwood other.ironwood)
        λ c. some (record { sapling = a; orchard = b; ironwood = c })

unfoldable pub checked_sub : TreeSizes → TreeSizes → Option TreeSizes
checked_sub s other = option_bind (word_sub s.sapling other.sapling) λ a.
    option_bind (word_sub s.orchard other.orchard) λ b.
      option_bind (word_sub s.ironwood other.ironwood)
        λ c. some (record { sapling = a; orchard = b; ironwood = c })

-- Where the checked sum of `s` and `t` is `u`, subtracting `t` from `u` gives `s` back, `u` follows `s`,
-- and the total of `u` is the sum of the totals.
pub checked_sub-checked_add :
    (s t u : TreeSizes)
    → checked_add s t ≡ some u
    → (checked_sub u t ≡ some s) × (follows u s ≡ true) × (total u ≡ total s + total t)
unfolding checked_add checked_sub follows total
checked_sub-checked_add s t u h = ground arith

pub checked_add-checked_sub :
    (s t u : TreeSizes) → IsU32Sizes s → checked_sub s t ≡ some u → checked_add u t ≡ some s
unfolding checked_add checked_sub
checked_add-checked_sub s t u fits h = ground arith

pub checked_add-IsU32Sizes : (s t u : TreeSizes) → checked_add s t ≡ some u → IsU32Sizes u
unfolding checked_add
checked_add-IsU32Sizes s t u h = ground arith

-- Where the checked sum is `none`, the plain sum of some pool is above the largest u32.
pub checked_add-none :
    (s t : TreeSizes)
    → checked_add s t ≡ none
    → (u32_max < s.sapling + t.sapling)
      ⊎ ((u32_max < s.orchard + t.orchard) ⊎ (u32_max < s.ironwood + t.ironwood))
unfolding checked_add
checked_add-none s t h = ground arith

pub follows_refl : (s : TreeSizes) → follows s s ≡ true
unfolding follows
follows_refl s = ground arith

pub follows_trans :
    (s t u : TreeSizes) → follows s t ≡ true → follows t u ≡ true → follows s u ≡ true
unfolding follows
follows_trans s t u h k = ground arith
