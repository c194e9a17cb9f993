-- ===== src/Chain/Parser/Block.antt =====
-- A whole block, from its raw bytes or from its stored transactions: crates/chain/src/parser.rs.
use ztreamer.Prelude.{
  ℕ, ◌+◌, ◌-◌, not, List, [], ◌∷◌, ◌++◌, ltb, ◌==◌, if◌then◌else◌, length, Bytes, Result, ok, err,
  ◌>>=◌, ok_or, map_err, u32_max, usize_max, try_into, word_add,
}
use ztreamer.Chain.Types.{Hash, CompactTransaction, ParsedCompactBlock, has_payload}
use ztreamer.Chain.Endian.{from_le}
use ztreamer.Chain.Cursor.{Read, ◌>>=ᵣ◌, slice}
use ztreamer.Chain.Codec.{reader_new}
use ztreamer.Chain.Parser.Input.{
  TransactionParseError, too_large, Parse, max_transaction_bytes, max_vector_items, skip,
  compact_size, parse_finish,
}
use ztreamer.Chain.Parser.Transaction.{parse_transaction_from, parse_transaction}

pub data CompactParseError : Type 0 where
  truncated_header : ℕ → CompactParseError
  framing : ℕ → TransactionParseError → CompactParseError
  transaction_count : ℕ → ℕ → ℕ → CompactParseError
  in_transaction : ℕ → ℕ → TransactionParseError → CompactParseError
  commitment_count : ℕ → CompactParseError

pub record RawIndexBlock : Type 0 where
  pub height : ℕ
  pub hash : Hash
  pub bytes : Bytes
  pub txids : List Hash

pub record BlockTransactions : Type 0 where
  pub height : ℕ
  pub transactions : List CompactTransaction
  pub sapling_additions : ℕ
  pub orchard_additions : ℕ
  pub ironwood_additions : ℕ

-- `BlockTransactions::new`
unfoldable pub no_transactions : ℕ → BlockTransactions
no_transactions height = record {
  height = height;
  transactions = [];
  sapling_additions = 0;
  orchard_additions = 0;
  ironwood_additions = 0;
}

-- `BlockTransactions::push`
unfoldable pub add_transaction :
    BlockTransactions → CompactTransaction → Result CompactParseError BlockTransactions
add_transaction b tx =
    ok_or (word_add usize_max b.sapling_additions (length tx.sapling_outputs))
      (commitment_count b.height)
    >>= λ sapling.
        ok_or (word_add usize_max b.orchard_additions (length tx.orchard_actions))
          (commitment_count b.height)
        >>= λ orchard.
            ok_or (word_add usize_max b.ironwood_additions (length tx.ironwood_actions))
              (commitment_count b.height)
            >>= λ ironwood. ok (record {
              height = b.height;
              transactions = if has_payload tx then b.transactions ++ (tx ∷ []) else b.transactions;
              sapling_additions = sapling;
              orchard_additions = orchard;
              ironwood_additions = ironwood;
            })

-- `BlockTransactions::into_block`
unfoldable pub into_block :
    BlockTransactions → Hash → Hash → ℕ → Result CompactParseError ParsedCompactBlock
into_block b hash previous_hash time =
    ok_or (try_into u32_max b.sapling_additions) (commitment_count b.height) >>= λ sapling.
    ok_or (try_into u32_max b.orchard_additions) (commitment_count b.height) >>= λ orchard.
    ok_or (try_into u32_max b.ironwood_additions) (commitment_count b.height) >>= λ ironwood.
    ok (record {
      height = b.height;
      hash = hash;
      previous_hash = previous_hash;
      time = time;
      transactions = b.transactions;
      sapling_additions = sapling;
      orchard_additions = orchard;
      ironwood_additions = ironwood;
    })

abbrev lift {ℓ} :
    {A : Type ℓ} → (TransactionParseError → CompactParseError) → Parse A → Read CompactParseError A
lift f m r = map_err f (m r)

-- The loop over the transaction ids, from the transaction `index` on.
unfoldable pub parse_transactions :
    ℕ → List Hash → BlockTransactions → Read CompactParseError BlockTransactions
parse_transactions index [] b r = ok (b, r)
parse_transactions index (txid ∷ txids) b r =
    map_err (in_transaction b.height index) (parse_transaction_from txid index r) >>= λ read.
    if ltb max_transaction_bytes (read.1.offset - r.offset)
    then err (in_transaction b.height index too_large)
    else (add_transaction b read.0 >>= λ b'. parse_transactions (index + 1) txids b' read.1)

abbrev header_prefix_bytes : ℕ
header_prefix_bytes = 140

abbrev max_equihash_solution_bytes : ℕ
max_equihash_solution_bytes = 1_344

-- The header and the transaction count.
unfoldable pub parse_header : ℕ → Read CompactParseError ℕ
parse_header height = lift (λ _. truncated_header height) (skip header_prefix_bytes) >>=ᵣ λ _.
    lift (framing height) (compact_size max_equihash_solution_bytes) >>=ᵣ λ solution_bytes.
    lift (λ _. truncated_header height) (skip solution_bytes) >>=ᵣ λ _.
    lift (framing height) (compact_size max_vector_items)

unfoldable pub parse_block : RawIndexBlock → Result CompactParseError ParsedCompactBlock
unfolding parse_header
parse_block block = parse_header block.height (reader_new block.bytes) >>= λ header.
    if not (header.0 == length block.txids)
    then err (transaction_count block.height header.0 (length block.txids))
    else (ok_or (slice block.bytes 4 36) (truncated_header block.height) >>= λ previous_hash.
        ok_or (slice block.bytes 100 104) (truncated_header block.height) >>= λ time.
        parse_transactions 0 block.txids (no_transactions block.height) header.1 >>= λ read.
        map_err (framing block.height) (parse_finish read.1) >>= λ _.
        into_block read.0 block.hash previous_hash (from_le time))

-- The transactions of `parse_stored_block`, from the transaction `index` on.
unfoldable pub parse_stored :
    ℕ → List (Bytes × Hash) → BlockTransactions → Result CompactParseError BlockTransactions
parse_stored index [] b = ok b
parse_stored index ((bytes, txid) ∷ rest) b =
    map_err (in_transaction b.height index) (parse_transaction bytes txid index) >>= λ tx.
    add_transaction b tx >>= λ b'. parse_stored (index + 1) rest b'

unfoldable pub parse_stored_block :
    ℕ → Hash → Hash → ℕ → List (Bytes × Hash) → Result CompactParseError ParsedCompactBlock
unfolding parse_stored
parse_stored_block height hash previous_hash time transactions =
    parse_stored 0 transactions (no_transactions height) >>= λ b.
    into_block b hash previous_hash time
