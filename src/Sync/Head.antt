-- ===== src/Sync/Head.antt =====
-- poll_canonical_head of crates/sync/src/head/mod.rs. The node is a parameter: each request takes its
-- state and gives the state after it, so that the chain may change between two requests.
pub mod Polled
pub mod Fuel
use ztreamer.Prelude.{
  ℕ, zero, suc, ◌+◌, ◌-◌, ◌/◌, Bool, true, false, not, ◌&&◌, Option, none, some, List, [], ◌∷◌, ltb,
  ◌==◌, if◌then◌else◌, length, get_elem?, take, last?, bytes_eq, Bytes, Result, ok, err, ◌>>=◌,
  try_map, map_err, u32_max, word_add,
}
use ztreamer.Chain.Types.{Hash, CompactBlockRecord, ParsedCompactBlock}
use ztreamer.Chain.Cursor.{slice}
use ztreamer.Chain.Parser.Block.{CompactParseError, RawIndexBlock, parse_block}
use ztreamer.Index.State.{BlockId}

-- `of_source` stands for the errors of the requests, and `panicked` for an index out of range.
pub data HeadError : Type 0 where
  of_source : ℕ → HeadError
  decode_error : HeadError
  parent_error : ℕ → HeadError
  anchor_error : ℕ → HeadError
  changed : HeadError
  window : HeadError
  parse_error : CompactParseError → HeadError
  panicked : HeadError

-- A step that talks to the node.
abbrev pub Poll {ℓ} : Type 0 → Type ℓ → Type ℓ
Poll S A = S → Result HeadError A × S

module _ {ℓ κ} {S : Type 0} {A : Type ℓ} {B : Type κ} where
  abbrev pub continue_poll : Result HeadError A × S → (A → Poll S B) → Result HeadError B × S
  continue_poll (ok a, s) f = f a s
  continue_poll (err e, s) f = (err e, s)

  infixl 5 ◌>>=ₚ◌
  abbrev pub ◌>>=ₚ◌ : Poll S A → (A → Poll S B) → Poll S B
  ◌>>=ₚ◌ m f s = continue_poll (m s) f

abbrev pub done {ℓ} : {S : Type 0} {A : Type ℓ} → A → Poll S A
done a s = (ok a, s)

abbrev pub failed {ℓ} : {S : Type 0} {A : Type ℓ} → HeadError → Poll S A
failed e s = (err e, s)

-- The trait CanonicalBlockSource, as far as the poll uses it.
pub record CanonicalBlockSource (S : Type 0) : Type 0 where
  pub block : ℕ → Poll S (Option RawIndexBlock)
  pub block_hash : ℕ → Poll S (Option Hash)

pub record CanonicalSuffix : Type 0 where
  pub retained : Option BlockId
  pub blocks : List ParsedCompactBlock

-- The answer of the node is this hash.
unfoldable pub same_hash : Option Hash → Hash → Bool
same_hash none hash = false
same_hash (some h) hash = bytes_eq h hash

-- The length of the longest prefix that is one chain from `height` on, behind `parent`.
unfoldable pub linked_count : ℕ → Hash → List CompactBlockRecord → ℕ
linked_count height parent [] = 0
linked_count height parent (r ∷ rs) =
    let rest = linked_count (height + 1) r.hash rs in
    if r.height == height && bytes_eq r.previous_hash parent then suc rest else 0

unfoldable pub block_id : CompactBlockRecord → BlockId
block_id r = record { height = r.height; hash = r.hash }

-- `known[canonical - 1]`
unfoldable pub retained_of : List CompactBlockRecord → ℕ → Option BlockId
retained_of known zero = none
retained_of known (suc index) = elim (get_elem? known index) [
  | none ↦ none
  | some r ↦ some (block_id r)
]

unfoldable pub last_read : Option BlockId → Option RawIndexBlock → Option BlockId
last_read retained none = retained
last_read retained (some block) = some (record { height = block.height; hash = block.hash })

abbrev pub parent_of : Option BlockId → Hash → Hash
parent_of none previous_hash = previous_hash
parent_of (some b) previous_hash = b.hash

abbrev pub first_height : Option BlockId → ℕ → Option ℕ
first_height none start = some start
first_height (some b) start = word_add u32_max b.height 1

-- `max_reorg` is zakura's MAX_BLOCK_REORG_HEIGHT.
module _ {S : Type 0} (source : CanonicalBlockSource S) (max_reorg : ℕ) where
  -- The bisection, with fuel: the blocks below `canonical` are canonical, those from `different` on not.
  unfoldable pub bisect : ℕ → ℕ → ℕ → List CompactBlockRecord → Poll S ℕ
  unfolding same_hash
  bisect zero canonical different known s = (ok canonical, s)
  bisect (suc fuel) canonical different known s =
      if ltb canonical different
      then (let middle = canonical + (different - canonical) / 2 in
          elim (get_elem? known middle) [
            | none ↦ (err panicked, s)
            | some r ↦
                (source.block_hash r.height >>=ₚ λ answer.
                if same_hash answer r.hash
                then bisect fuel (middle + 1) different known
                else bisect fuel canonical middle known)
                  s
          ])
      else (ok canonical, s)

  unfoldable pub canonical_count : List CompactBlockRecord → Poll S ℕ
  unfolding bisect same_hash
  canonical_count known = elim (last? known) [
    | none ↦ done (length known)
    | some last ↦ source.block_hash last.height >>=ₚ λ answer.
        if same_hash answer last.hash
        then done (length known)
        else bisect (length known) 0 (length known - 1) known
  ]

  -- The loop that reads the blocks from `height` on, with fuel: each turn raises the height by one,
  -- and no height passes the largest u32.
  unfoldable pub read_blocks : ℕ → ℕ → ℕ → Hash → Poll S (List RawIndexBlock)
  read_blocks zero start height expected_parent s = (err window, s)
  read_blocks (suc fuel) start height expected_parent s =
      (source.block height >>=ₚ λ answer s'. elim answer [
        | none ↦ (ok [], s')
        | some block ↦
            if height - start == max_reorg
            then (err window, s')
            else elim (slice block.bytes 4 36) [
              | none ↦ (err decode_error, s')
              | some parent ↦
                  if not (bytes_eq parent expected_parent)
                  then (err (parent_error height), s')
                  else elim (word_add u32_max height 1) [
                    | none ↦ (err window, s')
                    | some next ↦
                        (read_blocks fuel start next block.hash >>=ₚ λ rest. done (block ∷ rest)) s'
                  ]
            ]
      ])
        s

  unfoldable pub read_all : ℕ → ℕ → Hash → Poll S (List RawIndexBlock)
  read_all = read_blocks (suc u32_max)

  unfoldable pub check_anchor : ℕ → Hash → Poll S (Unit {0})
  unfolding same_hash
  check_anchor zero previous_hash = done tt
  check_anchor (suc anchor) previous_hash = source.block_hash anchor >>=ₚ λ answer.
      if same_hash answer previous_hash then done tt else failed (anchor_error anchor)

  -- The last block that the poll has is still there after the reads.
  unfoldable pub check_unchanged : Option BlockId → List RawIndexBlock → Poll S (Unit {0})
  unfolding same_hash last_read
  check_unchanged retained raw = elim (last_read retained (last? raw)) [
    | none ↦ done tt
    | some last ↦ source.block_hash last.height >>=ₚ λ answer.
        if same_hash answer last.hash then done tt else failed changed
  ]

  -- From the height above the retained block on.
  unfoldable pub read_suffix : ℕ → Hash → Option BlockId → Poll S CanonicalSuffix
  unfolding check_unchanged
  read_suffix start previous_hash retained = elim (first_height retained start) [
    | none ↦ failed window
    | some height ↦ read_all start height (parent_of retained previous_hash) >>=ₚ λ raw.
        check_unchanged retained raw >>=ₚ λ _ s. (
          map_err parse_error (try_map parse_block raw) >>= λ blocks.
              ok (record { retained = retained; blocks = blocks }),
          s,
        )
  ]

  unfoldable pub poll_canonical_head : ℕ → Hash → List CompactBlockRecord → Poll S CanonicalSuffix
  unfolding linked_count canonical_count check_anchor retained_of read_suffix
  poll_canonical_head start previous_hash known = check_anchor start previous_hash >>=ₚ λ _.
      let linked = take (linked_count start previous_hash known) known in
      canonical_count linked >>=ₚ λ canonical.
      read_suffix start previous_hash (retained_of linked canonical)
