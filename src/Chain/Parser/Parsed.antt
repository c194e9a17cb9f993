-- ===== src/Chain/Parser/Parsed.antt =====
-- A parsed block counts the commitments of its transactions, and is fit to be stored.
use ztreamer.Prelude.{
  ℕ, ◌+◌, ◌-◌, ◌≤◌, ◌≡◌, refl, sym, ◌∙◌, Option, none, some, List, [], ◌∷◌, arith, ltb, length,
  drop, length-take, length-drop, All, Bytes, ok, ◌>>=◌, ok_or, map_err, >>=-eq-ok, guard_inv,
}
use ztreamer.Chain.Types.{Hash, CompactTransaction, ParsedCompactBlock}
use ztreamer.Chain.Message.RoundTrip.{IsDigest, IsTransaction}
use ztreamer.Chain.Endian.{from_le}
use ztreamer.Chain.Cursor.{Reader, slice}
use ztreamer.Chain.Codec.{reader_new}
use ztreamer.Chain.Parser.Input.{too_large, max_transaction_bytes, parse_finish}
use ztreamer.Chain.Parser.Transaction.{parse_transaction_from, parse_transaction}
use ztreamer.Chain.Parser.Collected.{
  no_transactions-IsCollected, no_transactions_height, add_transaction-IsCollected, into_block_inv,
  into_block-time, into_block-IsFit, IsCollected, IsFit,
}
use ztreamer.Chain.Parser.Block.{
  RawIndexBlock, BlockTransactions, no_transactions, add_transaction, parse_transactions,
  parse_header, parse_block, parse_stored, parse_stored_block,
}
use ztreamer.Chain.Parser.Reads.{
  Reads, Follows-within, Reads-bind, map_err_inv, map_err-Reads, skip-Reads, compact_size-Reads,
}
use ztreamer.Chain.Parser.Shielded.{parse_transaction_from-Reads}

parse_transactions-IsCollected :
    (index : ℕ) (txids : List Hash) (b b' : BlockTransactions) (r s : Reader)
    → All IsDigest txids
    → IsCollected b
    → r.offset ≤ length r.bytes
    → parse_transactions index txids b r ≡ ok (b', s)
    → IsCollected b' × (b'.height ≡ b.height)
unfolding parse_transactions
parse_transactions-IsCollected index [] b b' r s ids c within h =
    let same : b ≡ b' = cc in rw (sym same) (c, refl)
parse_transactions-IsCollected index (txid ∷ txids) b b' r s ids c within h =
    let (read, first, rest) = >>=-eq-ok (map_err _ (parse_transaction_from txid index r)) _ h in
    let (moved, tx) =
      (parse_transaction_from-Reads txid index ids.0).run r read.0 read.1 within
        (map_err_inv _ (parse_transaction_from txid index r) first) in
    let (b₁, added, more) = >>=-eq-ok (add_transaction b read.0) _ (guard_inv _ _ _ rest).1 in
    let (c₁, same₁) = add_transaction-IsCollected b b₁ read.0 tx c added in
    let (c', same) =
      parse_transactions-IsCollected (index + 1) txids b₁ b' read.1 s ids.1 c₁
        (Follows-within r read.1 moved) more in
    (c', same ∙ same₁)

length-slice :
    (bytes value : Bytes) (from to : ℕ)
    → slice bytes from to ≡ some value
    → length value ≡ to - from
unfolding slice
length-slice bytes value from to h =
    ground (arith, h, length-take (to - from) (drop from bytes), length-drop from bytes)

pub some_of : {E A : Type 0} (o : Option A) (e : E) (a : A) → ok_or o e ≡ ok a → o ≡ some a
some_of none e a h = cc
some_of (some b) e a h = cc

parse_header-Reads : (height : ℕ) → Reads (parse_header height) (λ count. count ≤ 65_535)
unfolding parse_header
parse_header-Reads height = Reads-bind _ _ (map_err-Reads _ _ (skip-Reads 140)) (λ _ a.
    Reads-bind _ _ (map_err-Reads _ _ (compact_size-Reads 1_344)) (λ solution b.
      Reads-bind _ _ (map_err-Reads _ _ (skip-Reads solution))
        (λ _ c. map_err-Reads _ _ (compact_size-Reads 65_535))))

not_past : (r : Reader) → r.offset ≡ 0 → r.offset ≤ length r.bytes
not_past r h = omega (arith, h)

-- A block that `parse_block` returns has the height and hash of the raw block and a 32-byte parent hash;
-- its transactions have arrays of the right lengths; its record passes `check`, whatever its tree
-- sizes; and its counts of commitments are those of its record.
pub parse_block-IsFit :
    (block : RawIndexBlock) (p : ParsedCompactBlock)
    → All IsDigest block.txids
    → parse_block block ≡ ok p
    → IsFit p × (p.height ≡ block.height) × (p.hash ≡ block.hash) × IsDigest p.previous_hash
unfolding parse_block
parse_block-IsFit block p ids h =
    let (header, first, h₁) = >>=-eq-ok (parse_header block.height (reader_new block.bytes)) _ h in
    let (previous, second, h₂) =
      >>=-eq-ok (ok_or (slice block.bytes 4 36) _) _ (guard_inv _ _ _ h₁).1 in
    let (time, third, h₃) = >>=-eq-ok (ok_or (slice block.bytes 100 104) _) _ h₂ in
    let (read, fourth, h₄) =
      >>=-eq-ok (parse_transactions 0 block.txids (no_transactions block.height) header.1) _ h₃ in
    let (done, fifth, made) = >>=-eq-ok (map_err _ (parse_finish read.1)) _ h₄ in
    let moved =
      ((parse_header-Reads block.height).run (reader_new block.bytes) header.0 header.1
        (not_past (reader_new block.bytes) refl) first).0 in
    let (c, same) =
      parse_transactions-IsCollected 0 block.txids (no_transactions block.height) read.0 header.1
        read.1 ids (no_transactions-IsCollected block.height) (Follows-within _ _ moved) fourth in
    let inv = into_block_inv read.0 block.hash previous (from_le time) p made in
    (
      into_block-IsFit read.0 block.hash previous (from_le time) p c made,
      inv.0 ∙ same ∙ no_transactions_height block.height,
      inv.1,
      rw inv.2 (length-slice block.bytes previous 4 36 (some_of _ _ previous second)),
    )

parse_transaction-IsTransaction :
    (bytes : Bytes) (txid : Hash) (index : ℕ) (tx : CompactTransaction)
    → IsDigest txid
    → parse_transaction bytes txid index ≡ ok tx
    → IsTransaction tx
unfolding parse_transaction
parse_transaction-IsTransaction bytes txid index tx id h =
    let (read, first, h₁) =
      >>=-eq-ok (parse_transaction_from txid index (reader_new bytes))
        (λ x. parse_finish x.1 >>= λ _. ok x.0)
        (guard_inv (ltb max_transaction_bytes (length bytes)) too_large _ h).1 in
    let (done, second, made) = >>=-eq-ok (parse_finish read.1) (λ _. ok read.0) h₁ in
    let same : read.0 ≡ tx = cc in
    let found =
      ((parse_transaction_from-Reads txid index id).run (reader_new bytes) read.0 read.1
        (omega arith) first).1 in
    rw (sym same) found

parse_stored-IsCollected :
    (index : ℕ) (transactions : List (Bytes × Hash)) (b b' : BlockTransactions)
    → All (λ tx. IsDigest tx.1) transactions
    → IsCollected b
    → parse_stored index transactions b ≡ ok b'
    → IsCollected b' × (b'.height ≡ b.height)
unfolding parse_stored
parse_stored-IsCollected index [] b b' ids c h = let same : b ≡ b' = cc in rw (sym same) (c, refl)
parse_stored-IsCollected index ((bytes, txid) ∷ rest) b b' ids c h =
    let (tx, first, h₁) = >>=-eq-ok (map_err _ (parse_transaction bytes txid index)) _ h in
    let w =
      parse_transaction-IsTransaction bytes txid index tx ids.0
        (map_err_inv _ (parse_transaction bytes txid index) first) in
    let (b₁, added, more) = >>=-eq-ok (add_transaction b tx) _ h₁ in
    let (c₁, same₁) = add_transaction-IsCollected b b₁ tx w c added in
    let (c', same) = parse_stored-IsCollected (index + 1) rest b₁ b' ids.1 c₁ more in
    (c', same ∙ same₁)

-- A block that `parse_stored_block` returns, for 32-byte ids, has the height, the hashes and the time that
-- it was given; its transactions have arrays of the right lengths; its record passes `check`, whatever its tree
-- sizes; and its counts of commitments are those of its record.
pub parse_stored_block-IsFit :
    (height : ℕ) (hash previous_hash : Hash) (time : ℕ) (transactions : List (Bytes × Hash))
    (p : ParsedCompactBlock)
    → All (λ tx. IsDigest tx.1) transactions
    → parse_stored_block height hash previous_hash time transactions ≡ ok p
    → IsFit p
      × (p.height ≡ height)
      × (p.hash ≡ hash)
      × (p.previous_hash ≡ previous_hash)
      × (p.time ≡ time)
unfolding parse_stored_block
parse_stored_block-IsFit height hash previous_hash time transactions p ids h =
    let (b, first, made) = >>=-eq-ok (parse_stored 0 transactions (no_transactions height)) _ h in
    let (c, same) =
      parse_stored-IsCollected 0 transactions (no_transactions height) b ids
        (no_transactions-IsCollected height) first in
    let inv = into_block_inv b hash previous_hash time p made in
    (
      into_block-IsFit b hash previous_hash time p c made,
      inv.0 ∙ same ∙ no_transactions_height height,
      inv.1,
      inv.2,
      into_block-time b hash previous_hash time p made,
    )
