-- ===== src/Chain/Parser/Collected.antt =====
-- The transactions of a block as they are collected, and the block made of them: parser.rs.
use ztreamer.Prelude.{
  ℕ, ◌+◌, ◌≤◌, ◌≡◌, refl, sym, inl, inr, true, false, List, [], ◌∷◌, ◌++◌, arith, if◌then◌else◌,
  Bool-cases, length, All, All-append, ok, u32_max,
}
use ztreamer.Chain.TreeSizes.{TreeSizes}
use ztreamer.Chain.Types.{
  Hash, CompactTransaction, ParsedCompactBlock, has_payload, additions, record_of, record_additions,
  check, sum_of, saturate, any_without_payload,
}
use ztreamer.Chain.Message.RoundTrip.{IsTransaction}
use ztreamer.Chain.Parser.Block.{BlockTransactions, no_transactions, add_transaction, into_block}
use ztreamer.Chain.Parser.Reads.{}

abbrev pub outputs_of : CompactTransaction → ℕ
outputs_of tx = length tx.sapling_outputs

abbrev pub actions_of : CompactTransaction → ℕ
actions_of tx = length tx.orchard_actions

abbrev pub ironwood_of : CompactTransaction → ℕ
ironwood_of tx = length tx.ironwood_actions

-- The kept transactions are well formed and have payload, and the counts are theirs.
pub record IsCollected (b : BlockTransactions) : Type 0 where
  pub well_formed : All IsTransaction b.transactions
  pub payload : any_without_payload b.transactions ≡ false
  pub sapling : b.sapling_additions ≡ sum_of outputs_of b.transactions
  pub orchard : b.orchard_additions ≡ sum_of actions_of b.transactions
  pub ironwood : b.ironwood_additions ≡ sum_of ironwood_of b.transactions

pub sum_of-append :
    (len : CompactTransaction → ℕ) (xs : List CompactTransaction) (tx : CompactTransaction)
    → sum_of len (xs ++ (tx ∷ [])) ≡ sum_of len xs + len tx
unfolding sum_of
sum_of-append len [] tx = omega arith
sum_of-append len (x ∷ xs) tx = omega (arith, sum_of-append len xs tx)

pub any_without_payload-append :
    (xs : List CompactTransaction) (tx : CompactTransaction)
    → any_without_payload xs ≡ false
    → has_payload tx ≡ true
    → any_without_payload (xs ++ (tx ∷ [])) ≡ false
unfolding any_without_payload
any_without_payload-append [] tx h k = ground (arith, k)
any_without_payload-append (x ∷ xs) tx h k =
    ground (arith, h, any_without_payload-append xs tx (ground (arith, h)) k)

abbrev pub collected : BlockTransactions → CompactTransaction → BlockTransactions
collected b tx = record {
  height = b.height;
  transactions = if has_payload tx then b.transactions ++ (tx ∷ []) else b.transactions;
  sapling_additions = b.sapling_additions + outputs_of tx;
  orchard_additions = b.orchard_additions + actions_of tx;
  ironwood_additions = b.ironwood_additions + ironwood_of tx;
}

pub add_transaction_inv :
    (b b' : BlockTransactions) (tx : CompactTransaction)
    → add_transaction b tx ≡ ok b'
    → collected b tx ≡ b'
unfolding add_transaction
add_transaction_inv b b' tx h = ground (arith, h)

pub no_payload :
    (tx : CompactTransaction)
    → has_payload tx ≡ false
    → (outputs_of tx ≡ 0) × (actions_of tx ≡ 0) × (ironwood_of tx ≡ 0)
unfolding has_payload
no_payload tx h = ground (arith, h)

pub collected-IsCollected :
    (b : BlockTransactions) (tx : CompactTransaction)
    → IsTransaction tx
    → IsCollected b
    → IsCollected (collected b tx)
collected-IsCollected b tx w c = elim (Bool-cases (has_payload tx)) [
  | inl full ↦ rw full (record {
    well_formed = All-append IsTransaction b.transactions (tx ∷ []) c.well_formed (w, tt);
    payload = any_without_payload-append b.transactions tx c.payload full;
    sapling = omega (arith, c.sapling, sum_of-append outputs_of b.transactions tx);
    orchard = omega (arith, c.orchard, sum_of-append actions_of b.transactions tx);
    ironwood = omega (arith, c.ironwood, sum_of-append ironwood_of b.transactions tx);
  })
  | inr bare ↦
      let (none_s, none_o, none_i) = no_payload tx bare in
      rw bare (record {
        well_formed = c.well_formed;
        payload = c.payload;
        sapling = omega (arith, c.sapling, none_s);
        orchard = omega (arith, c.orchard, none_o);
        ironwood = omega (arith, c.ironwood, none_i);
      })
]

pub no_transactions-IsCollected : (height : ℕ) → IsCollected (no_transactions height)
unfolding no_transactions any_without_payload sum_of
no_transactions-IsCollected height = record {
  well_formed = tt;
  payload = refl;
  sapling = refl;
  orchard = refl;
  ironwood = refl;
}

pub no_transactions_height : (height : ℕ) → (no_transactions height).height ≡ height
unfolding no_transactions
no_transactions_height height = refl

pub add_transaction-IsCollected :
    (b b' : BlockTransactions) (tx : CompactTransaction)
    → IsTransaction tx
    → IsCollected b
    → add_transaction b tx ≡ ok b'
    → IsCollected b' × (b'.height ≡ b.height)
add_transaction-IsCollected b b' tx w c h =
    rw (sym (add_transaction_inv b b' tx h)) (collected-IsCollected b tx w c, refl)

-- What `into_block` keeps and checks.
pub into_block_inv :
    (b : BlockTransactions) (hash previous_hash : Hash) (time : ℕ) (p : ParsedCompactBlock)
    → into_block b hash previous_hash time ≡ ok p
    → (p.height ≡ b.height)
      × (p.hash ≡ hash)
      × (p.previous_hash ≡ previous_hash)
      × (p.transactions ≡ b.transactions)
      × (additions p ≡ record {
        sapling = b.sapling_additions;
        orchard = b.orchard_additions;
        ironwood = b.ironwood_additions;
      })
      × (b.sapling_additions ≤ u32_max)
      × (b.orchard_additions ≤ u32_max)
      × (b.ironwood_additions ≤ u32_max)
unfolding into_block additions
into_block_inv b hash previous_hash time p h = ground (arith, h)

pub into_block-time :
    (b : BlockTransactions) (hash previous_hash : Hash) (time : ℕ) (p : ParsedCompactBlock)
    → into_block b hash previous_hash time ≡ ok p
    → p.time ≡ time
unfolding into_block
into_block-time b hash previous_hash time p h = ground (arith, h)

pub saturate_fits : (n m : ℕ) → n ≡ m → n ≤ u32_max → saturate m ≡ n
unfolding saturate
saturate_fits n m e fits = ground (arith, e, fits)

-- The record of a parsed block counts the same additions and passes its check.
pub record IsFit (p : ParsedCompactBlock) : Type 0 where
  pub well_formed : All IsTransaction p.transactions
  pub checked : (sizes : TreeSizes) → check (record_of p sizes) ≡ ok tt
  pub counted : (sizes : TreeSizes) → record_additions (record_of p sizes) ≡ additions p

pub into_block-IsFit :
    (b : BlockTransactions) (hash previous_hash : Hash) (time : ℕ) (p : ParsedCompactBlock)
    → IsCollected b
    → into_block b hash previous_hash time ≡ ok p
    → IsFit p
unfolding check record_additions record_of additions
into_block-IsFit b hash previous_hash time p c h =
    let (height, same_hash, previous, kept, counts, s, o, i) =
      into_block_inv b hash previous_hash time p h in
    record {
      well_formed = rw kept c.well_formed;
      checked = λ sizes. rw (kept, c.payload);
      counted = λ sizes. rw (
        kept,
        counts,
        saturate_fits _ _ c.sapling s,
        saturate_fits _ _ c.orchard o,
        saturate_fits _ _ c.ironwood i,
      );
    }
