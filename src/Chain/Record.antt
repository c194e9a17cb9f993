-- ===== src/Chain/Record.antt =====
-- The encoding of one compact block record: crates/chain/src/codec/mod.rs. The protobuf payload is
-- written and read by the prost library, which is a parameter.
pub mod Envelope
pub mod RoundTrip
pub mod Decoded
use ztreamer.Prelude.{
  ℕ, ◌%◌, ◌^◌, Bool, true, ◌&&◌, Option, none, some, ◌∷◌, ◌++◌, ltb, ◌==◌, if◌then◌else◌, length,
  Bytes, bytes_eq, Result, ok, err, ◌>>=◌, ◌>>◌, ok_or, map_err, usize_max, word_add,
}
use ztreamer.Chain.Types.{
  Hash, CompactBlockRecord, CodecError, bad_length, invalid_record, check, max_record_bytes,
}
use ztreamer.Chain.Cursor.{Read, ◌>>=ᵣ◌, fail}
use ztreamer.Chain.Codec.{
  reader_new, array, read_u8, read_u32, read_count, take_len, finish, put_u32,
}
use ztreamer.Chain.Message.{CompactBlock, to_proto, from_proto}

-- prost: `encode` of a message into a buffer that grows, which cannot fail, and `decode`.
pub record Prost : Type 0 where
  pub encode_message : CompactBlock → Bytes
  pub decode_message : Bytes → Option CompactBlock

abbrev pub block_format_version : ℕ
block_format_version = 1

-- 1 + 2 * size_of::<u32>() + 2 * size_of::<block::Hash>()
abbrev pub protobuf_envelope_bytes : ℕ
protobuf_envelope_bytes = 73

-- `len.checked_add(PROTOBUF_ENVELOPE_BYTES).is_none_or(|len| len > MAX_RECORD_BYTES)`
unfoldable pub record_too_long : ℕ → Bool
record_too_long len = elim (word_add usize_max len protobuf_envelope_bytes) [
  | none ↦ true
  | some total ↦ ltb max_record_bytes total
]

-- The bytes that `encode_into` pushes.
unfoldable pub envelope : ℕ → Hash → Hash → Bytes → Bytes
unfolding put_u32
envelope height hash previous_hash payload =
    block_format_version ∷ put_u32 height
    ++ (hash ++ (previous_hash ++ (put_u32 (length payload % 2 ^ 32) ++ payload)))

unfoldable pub read_envelope : Read CodecError (ℕ × Hash × Hash × Bytes)
read_envelope = read_u8 >>=ᵣ λ version.
    if version == block_format_version
    then (read_u32 >>=ᵣ λ height. array 32 >>=ᵣ λ hash. array 32 >>=ᵣ λ previous_hash.
        read_count >>=ᵣ λ len. take_len len >>=ᵣ λ payload r.
        map_err (λ _. invalid_record) (finish r) >>= λ _.
        ok ((height, hash, previous_hash, payload), r))
    else fail invalid_record

unfoldable pub protobuf_envelope : Bytes → Result CodecError (ℕ × Hash × Hash × Bytes)
protobuf_envelope bytes =
    if ltb max_record_bytes (length bytes)
    then err bad_length
    else (read_envelope (reader_new bytes) >>= λ result. ok result.0)

same_id : CompactBlockRecord → ℕ → Hash → Hash → Bool
same_id r height hash previous_hash =
    r.height == height && (bytes_eq r.hash hash && bytes_eq r.previous_hash previous_hash)

module _ (prost : Prost) where
  -- `CompactBlockRecord::encode`; `encode_into` appends these bytes to a buffer.
  unfoldable pub encode : CompactBlockRecord → Result CodecError Bytes
  unfolding record_too_long envelope
  encode r = do
    check r
    let payload = prost.encode_message (to_proto r)
    if record_too_long (length payload)
        then err bad_length
        else ok (envelope r.height r.hash r.previous_hash payload)

  -- `CompactBlockRecord::decode`
  unfoldable pub decode : Bytes → Result CodecError CompactBlockRecord
  unfolding same_id
  decode bytes = do
    (height, hash, previous_hash, payload) ← protobuf_envelope bytes
    block ← ok_or (prost.decode_message payload) invalid_record
    r ← from_proto block
    if same_id r height hash previous_hash then ok r else err invalid_record
