-- ===== src/Chain/Types.antt =====
-- Compact blocks and transactions: crates/chain/src/types.rs, and the record of crates/chain/src/codec/mod.rs.
use ztreamer.Prelude.{
  ℕ, ◌+◌, ◌*◌, Bool, true, false, not, ◌||◌, Option, some, List, [], ◌∷◌, leb, if◌then◌else◌,
  length, Bytes, Result, ok, err, option_bind, u32_max,
}
use ztreamer.Chain.TreeSizes
use ztreamer.Chain.TreeSizes.{TreeSizes}

-- A `block::Hash` or a `transaction::Hash`: 32 bytes.
abbrev pub Hash : Type 0
Hash = Bytes

abbrev pub Digest : Type 0
Digest = Bytes

abbrev pub EphemeralKey : Type 0
EphemeralKey = Bytes

abbrev pub Ciphertext : Type 0
Ciphertext = Bytes

pub record CompactSaplingOutput : Type 0 where
  pub cmu : Digest
  pub ephemeral_key : EphemeralKey
  pub ciphertext : Ciphertext

pub record CompactShieldedAction : Type 0 where
  pub nullifier : Digest
  pub commitment : Digest
  pub ephemeral_key : EphemeralKey
  pub ciphertext : Ciphertext

pub record CompactTransaction : Type 0 where
  pub index : ℕ
  pub txid : Hash
  pub sapling_spends : List Digest
  pub sapling_outputs : List CompactSaplingOutput
  pub orchard_actions : List CompactShieldedAction
  pub ironwood_actions : List CompactShieldedAction

abbrev pub is_empty {ℓ} : {A : Type ℓ} → List A → Bool
is_empty [] = true
is_empty (x ∷ xs) = false

unfoldable pub has_payload : CompactTransaction → Bool
has_payload tx =
    not (is_empty tx.sapling_spends)
    || (not (is_empty tx.sapling_outputs)
        || (not (is_empty tx.orchard_actions) || not (is_empty tx.ironwood_actions)))

pub record ParsedCompactBlock : Type 0 where
  pub height : ℕ
  pub hash : Hash
  pub previous_hash : Hash
  pub time : ℕ
  pub transactions : List CompactTransaction
  pub sapling_additions : ℕ
  pub orchard_additions : ℕ
  pub ironwood_additions : ℕ

pub record CompactBlockRecord : Type 0 where
  pub height : ℕ
  pub hash : Hash
  pub previous_hash : Hash
  pub time : ℕ
  pub transactions : List CompactTransaction
  pub end_tree_sizes : TreeSizes

-- `ParsedCompactBlock::additions`
unfoldable pub additions : ParsedCompactBlock → TreeSizes
additions block = record {
  sapling = block.sapling_additions;
  orchard = block.orchard_additions;
  ironwood = block.ironwood_additions;
}

unfoldable pub record_of : ParsedCompactBlock → TreeSizes → CompactBlockRecord
record_of block sizes = record {
  height = block.height;
  hash = block.hash;
  previous_hash = block.previous_hash;
  time = block.time;
  transactions = block.transactions;
  end_tree_sizes = sizes;
}

unfoldable pub into_record : ParsedCompactBlock → TreeSizes → Option CompactBlockRecord
unfolding record_of
into_record block before =
    option_bind (TreeSizes.checked_add before (additions block))
      λ sizes. some (record_of block sizes)

pub data CodecError : Type 0 where
  truncated bad_length trailing_bytes invalid_record invalid_range range_index : CodecError
  version : ℕ → CodecError

-- The sum of the lengths that `len` gives, saturated at u32::MAX.
unfoldable pub sum_of : (CompactTransaction → ℕ) → List CompactTransaction → ℕ
sum_of len [] = 0
sum_of len (tx ∷ txs) = len tx + sum_of len txs

unfoldable pub saturate : ℕ → ℕ
saturate n = if leb n u32_max then n else u32_max

-- `CompactBlockRecord::additions`
unfoldable pub record_additions : CompactBlockRecord → TreeSizes
unfolding sum_of saturate
record_additions r = record {
  sapling = saturate (sum_of (λ tx. length tx.sapling_outputs) r.transactions);
  orchard = saturate (sum_of (λ tx. length tx.orchard_actions) r.transactions);
  ironwood = saturate (sum_of (λ tx. length tx.ironwood_actions) r.transactions);
}

unfoldable pub any_without_payload : List CompactTransaction → Bool
any_without_payload [] = false
any_without_payload (tx ∷ txs) = not (has_payload tx) || any_without_payload txs

-- `CompactBlockRecord::check`
unfoldable pub check : CompactBlockRecord → Result CodecError (Unit {0})
unfolding any_without_payload
check r = if any_without_payload r.transactions then err invalid_record else ok tt

abbrev pub max_record_bytes : ℕ
max_record_bytes = 2_000_000

abbrev pub range_size : ℕ
range_size = 1_000

unfoldable pub transaction_size : CompactTransaction → ℕ
transaction_size tx =
    64
    + 36 * length tx.sapling_spends
    + 128 * length tx.sapling_outputs
    + 160 * length tx.orchard_actions
    + 160 * length tx.ironwood_actions

sum_of_sizes : List CompactTransaction → ℕ
unfolding transaction_size
sum_of_sizes [] = 0
sum_of_sizes (tx ∷ txs) = transaction_size tx + sum_of_sizes txs

-- The sum is a u128 in the code, and cannot wrap. A size that passes the limit also fits a usize.
unfoldable pub encoded_size_bound : List CompactTransaction → Result CodecError ℕ
unfolding sum_of_sizes
encoded_size_bound txs =
    let size = 192 + sum_of_sizes txs in
    if leb size max_record_bytes then ok size else err bad_length
