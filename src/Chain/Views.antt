-- ===== src/Chain/Views.antt =====
-- The two views of a stored block beside the full record: crates/chain/src/codec/mod.rs. An encoded
-- message of crates/protocol/src/encoded.rs is its bytes.
use ztreamer.Prelude.{
  ℕ, ◌%◌, ◌^◌, ◌≡◌, refl, Bool, true, false, not, ◌||◌, Option, none, some, List, [], ◌∷◌, arith,
  ◌==◌, map, if◌then◌else◌, Bytes, bytes_eq, bytes_eq_self, Result, ok, err, ◌>>=◌, ok_or,
}
use ztreamer.Chain.Types.{
  Hash, CompactTransaction, CompactBlockRecord, CodecError, invalid_record, has_payload, check,
  any_without_payload, is_empty,
}
use ztreamer.Chain.Message.{CompactBlock, CompactTx, to_proto, transaction, action, output, spend}
use ztreamer.Chain.Message.RoundTrip.{IsRecord}
use ztreamer.Chain.Record.{Prost, encode, protobuf_envelope}
use ztreamer.Chain.Record.Envelope.{protobuf_envelope-envelope}
use ztreamer.Chain.Record.RoundTrip.{encode_inv}
use ztreamer.Chain.Range.{StoredBlock}

pub record EncodedBlockRecord : Type 0 where
  pub height : ℕ
  pub hash : Hash
  pub previous_hash : Hash
  pub block : Bytes

is_some {ℓ} : {A : Type ℓ} → Option A → Bool
is_some none = false
is_some (some a) = true

-- The condition of `retain` on a transaction message.
keeps : CompactTx → Bool
keeps tx =
    not (is_empty tx.spends)
    || (not (is_empty tx.outputs)
        || (not (is_empty tx.actions) || not (is_empty tx.ironwood_actions)))

retain : List CompactTx → List CompactTx
unfolding keeps
retain [] = []
retain (tx ∷ txs) = let rest = retain txs in if keeps tx then tx ∷ rest else rest

is_empty-map : {A B : Type 0} (f : A → B) (xs : List A) → is_empty (map f xs) ≡ is_empty xs
is_empty-map f [] = refl
is_empty-map f (x ∷ xs) = refl

keeps-transaction : (tx : CompactTransaction) → keeps (transaction tx) ≡ has_payload tx
unfolding keeps transaction has_payload
keeps-transaction tx =
    rw
      (
        is_empty-map spend tx.sapling_spends,
        is_empty-map output tx.sapling_outputs,
        is_empty-map action tx.orchard_actions,
        is_empty-map action tx.ironwood_actions,
      )
      refl

-- Nothing is dropped where every transaction has payload.
retain_all :
    (txs : List CompactTransaction)
    → any_without_payload txs ≡ false
    → retain (map transaction txs) ≡ map transaction txs
unfolding retain any_without_payload
retain_all [] h = refl
retain_all (tx ∷ txs) h =
    let full : has_payload tx ≡ true = ground (arith, h) in
    rw (keeps-transaction tx, full, retain_all txs (ground (arith, h))) refl

all_payload :
    (r : CompactBlockRecord) → check r ≡ ok tt → any_without_payload r.transactions ≡ false
unfolding check
all_payload r h = ground (arith, h)

module _ (prost : Prost) where
  -- `ProtobufBlockRecord::decode`
  unfoldable pub decode_message_view : Bytes → Result CodecError CompactBlock
  unfolding is_some
  decode_message_view bytes = protobuf_envelope bytes >>= λ e.
      let (height, hash, previous_hash, payload) = e in
      ok_or (prost.decode_message payload) invalid_record >>= λ block.
      if not (block.height == height)
        || (not (bytes_eq block.hash hash)
            || (not (bytes_eq block.prev_hash previous_hash) || not (is_some block.chain_metadata)))
      then err invalid_record
      else ok block

  unfoldable pub message_view : StoredBlock CompactBlock
  message_view = record {
    decode_as = decode_message_view;
    height_of = λ block. block.height % 2 ^ 32;
    hash_of = λ block. block.hash;
    previous_hash_of = λ block. block.prev_hash;
  }

  -- `EncodedBlockRecord::decode`
  unfoldable pub decode_encoded_view : Bytes → Result CodecError EncodedBlockRecord
  decode_encoded_view bytes = protobuf_envelope bytes >>= λ e.
      let (height, hash, previous_hash, payload) = e in
      ok (record { height = height; hash = hash; previous_hash = previous_hash; block = payload })

  -- `EncodedBlockRecord::from_record`
  unfoldable pub encoded_from_record : CompactBlockRecord → EncodedBlockRecord
  unfolding retain
  encoded_from_record r =
      let block = to_proto r in
      record {
        height = r.height;
        hash = r.hash;
        previous_hash = r.previous_hash;
        block = prost.encode_message (record block { vtx = retain block.vtx });
      }

  unfoldable pub encoded_view : StoredBlock EncodedBlockRecord
  encoded_view = record {
    decode_as = decode_encoded_view;
    height_of = λ r. r.height;
    hash_of = λ r. r.hash;
    previous_hash_of = λ r. r.previous_hash;
  }

  -- The view that is read from the encoding of a well-formed record is the view of the record.
  pub decode_encoded_view-encode :
      (r : CompactBlockRecord) (bytes : Bytes)
      → IsRecord r
      → encode prost r ≡ ok bytes
      → decode_encoded_view bytes ≡ ok (encoded_from_record r)
  unfolding decode_encoded_view encoded_from_record to_proto
  decode_encoded_view-encode r bytes w h =
      let (c, fits, e) = encode_inv prost r bytes h in
      let back =
        protobuf_envelope-envelope r.height r.hash r.previous_hash
          (prost.encode_message (to_proto r)) w.height w.hash w.previous_hash fits in
      rw (e, back, retain_all r.transactions (all_payload r c)) refl

  matches :
      (r : CompactBlockRecord)
      → (not ((to_proto r).height == r.height)
          || (not (bytes_eq (to_proto r).hash r.hash)
              || (not (bytes_eq (to_proto r).prev_hash r.previous_hash)
                  || not (is_some (to_proto r).chain_metadata))))
        ≡ false
  unfolding to_proto is_some
  matches r = ground (arith, bytes_eq_self r.hash, bytes_eq_self r.previous_hash)

  -- The message that is read from the encoding of a well-formed record is the message of the record,
  -- if prost reads it back.
  pub decode_message_view-encode :
      (r : CompactBlockRecord) (bytes : Bytes)
      → IsRecord r
      → prost.decode_message (prost.encode_message (to_proto r)) ≡ some (to_proto r)
      → encode prost r ≡ ok bytes
      → decode_message_view bytes ≡ ok (to_proto r)
  unfolding decode_message_view
  decode_message_view-encode r bytes w reads h =
      let (c, fits, e) = encode_inv prost r bytes h in
      let back =
        protobuf_envelope-envelope r.height r.hash r.previous_hash
          (prost.encode_message (to_proto r)) w.height w.hash w.previous_hash fits in
      rw (e, back, reads, matches r) refl
