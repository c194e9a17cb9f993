-- ===== src/Chain/Record/RoundTrip.antt =====
-- A record that encodes decodes to itself.
use ztreamer.Prelude.{
  ◌+◌, ◌≤◌, ◌≡◌, ap, true, some, arith, if◌then◌else◌, length, Bytes, bytes_eq_self, ok, err,
  >>=-eq-ok,
}
use ztreamer.Chain.Types.{CompactBlockRecord, CodecError, check, max_record_bytes}
use ztreamer.Chain.Message.{to_proto}
use ztreamer.Chain.Message.RoundTrip.{IsRecord, from_proto-to_proto}
use ztreamer.Chain.Record.{Prost, record_too_long, envelope, encode, decode, same_id}
use ztreamer.Chain.Record.Envelope.{length-envelope, protobuf_envelope-envelope}

module _ (prost : Prost) (r : CompactBlockRecord) (bytes : Bytes) where
  abbrev payload : Bytes
  payload = prost.encode_message (to_proto r)

  -- An encoding is the envelope of a payload in the limit, of a record that passes its check.
  pub encode_inv :
      encode prost r ≡ ok bytes
      → (check r ≡ ok tt)
        × (73 + length payload ≤ max_record_bytes)
        × (bytes ≡ envelope r.height r.hash r.previous_hash payload)
  unfolding encode
  encode_inv h =
      let (u, c, k) =
        >>=-eq-ok (check r)
          (λ (u : Unit {0}).
            if record_too_long (length payload)
            then err CodecError.bad_length
            else ok (envelope r.height r.hash r.previous_hash payload))
          h in
      unfold record_too_long in (c, ground arith, ground arith)

  same_id_self : same_id r r.height r.hash r.previous_hash ≡ true
  unfolding same_id
  same_id_self = ground (arith, bytes_eq_self r.hash, bytes_eq_self r.previous_hash)

  -- Where a well-formed record encodes, its encoding is at most `max_record_bytes` long, and 73 bytes longer than its
  -- protobuf payload.
  pub length-encode :
      IsRecord r
      → encode prost r ≡ ok bytes
      → (length bytes ≡ 73 + length payload) × (length bytes ≤ max_record_bytes)
  length-encode w h =
      let (c, fits, e) = encode_inv h in
      let n = length-envelope r.height r.hash r.previous_hash payload w.hash w.previous_hash in
      (omega (arith, n, ap length e), omega (arith, n, ap length e))

  -- A well-formed record that encodes decodes to itself, where prost reads back the message that it
  -- wrote.
  pub decode-encode :
      IsRecord r
      → prost.decode_message (prost.encode_message (to_proto r)) ≡ some (to_proto r)
      → encode prost r ≡ ok bytes
      → decode prost bytes ≡ ok r
  unfolding decode
  decode-encode w reads h =
      let (c, fits, e) = encode_inv h in
      let back =
        protobuf_envelope-envelope r.height r.hash r.previous_hash payload w.height w.hash
          w.previous_hash fits in
      rw (e, back, reads, from_proto-to_proto r w, same_id_self)
