-- ===== src/Chain/Record/Envelope.antt =====
-- The envelope of a record reads back as it was written.
use mathlib.Core.List.{append-nil}
use ztreamer.Prelude.{
  ℕ, ◌+◌, ◌%◌, ◌^◌, ◌≤◌, ◌≡◌, refl, sym, ap, ◌∙◌, false, [], ◌++◌, arith, ltb, length,
  length-append, length-drop, Bytes, ok, u32_max,
}
use ztreamer.Chain.Types.{Hash, max_record_bytes}
use ztreamer.Chain.Endian.{be_bytes, le_bytes, length-be_bytes}
use ztreamer.Chain.Cursor.{Reader, bind_step, Rests, advance, advance-Rests}
use ztreamer.Chain.Codec.{
  reader_new, array, read_u8, read_u32, read_count, take_len, finish, put_u32, array_prefix,
  u8_prefix, u32_prefix, be-Rests,
}
use ztreamer.Chain.Record.{envelope, read_envelope, protobuf_envelope}

pub finish_empty : (r : Reader) → Rests r [] → finish r ≡ ok tt
unfolding finish
finish_empty r h = ground (arith, ap length h.at, length-drop r.offset r.bytes)

module _ (height : ℕ) (hash previous_hash : Hash) (payload : Bytes) where
  abbrev rest₄ : Bytes
  rest₄ = put_u32 (length payload % 2 ^ 32) ++ payload

  abbrev rest₃ : Bytes
  rest₃ = previous_hash ++ rest₄

  abbrev rest₂ : Bytes
  rest₂ = hash ++ rest₃

  pub length-envelope :
      length hash ≡ 32
      → length previous_hash ≡ 32
      → length (envelope height hash previous_hash payload) ≡ 73 + length payload
  unfolding envelope
  length-envelope hh hp = omega (
    arith,
    length-append (be_bytes 4 height) rest₂,
    length-append hash rest₃,
    length-append previous_hash rest₄,
    length-append (be_bytes 4 (length payload % 2 ^ 32)) payload,
    length-be_bytes 4 height,
    length-be_bytes 4 (length payload % 2 ^ 32),
  )

  module _ (height_fits : height ≤ u32_max) (hash_len : length hash ≡ 32)
      (previous_len : length previous_hash ≡ 32)
      (payload_fits : 73 + length payload ≤ max_record_bytes) where
    abbrev whole : Bytes
    whole = envelope height hash previous_hash payload

    abbrev r₁ : Reader
    r₁ = advance (reader_new whole) 1

    abbrev r₂ : Reader
    r₂ = advance r₁ 4

    abbrev r₃ : Reader
    r₃ = advance r₂ 32

    abbrev r₄ : Reader
    r₄ = advance r₃ 32

    abbrev r₅ : Reader
    r₅ = advance r₄ 4

    start : Rests (reader_new whole) (be_bytes 1 1 ++ (put_u32 height ++ rest₂))
    unfolding envelope le_bytes
    start = record {
      at = refl;
      within = omega arith;
      fits = omega (arith, length-envelope hash_len previous_len);
    }

    at₁ : Rests r₁ (be_bytes 4 height ++ rest₂)
    unfolding put_u32
    at₁ = be-Rests (reader_new whole) (put_u32 height ++ rest₂) 1 1 start

    at₂ : Rests r₂ rest₂
    at₂ = be-Rests r₁ rest₂ 4 height at₁

    at₃ : Rests r₃ rest₃
    at₃ = advance-Rests r₂ hash rest₃ 32 (sym hash_len) at₂

    at₄ : Rests r₄ (be_bytes 4 (length payload % 2 ^ 32) ++ payload)
    unfolding put_u32
    at₄ = advance-Rests r₃ previous_hash rest₄ 32 (sym previous_len) at₃

    at₅ : Rests r₅ (payload ++ [])
    at₅ = rw append-nil (be-Rests r₄ payload 4 (length payload % 2 ^ 32) at₄)

    -- The length that the envelope gives is not cut to 32 bits.
    len_kept : length payload % 2 ^ 32 ≡ length payload
    len_kept = omega arith

    read_count_step : read_count r₄ ≡ ok (length payload, r₅)
    unfolding read_count
    read_count_step = u32_prefix r₄ payload _ (omega arith) at₄ ∙ rw len_kept

    take_payload_step : take_len (length payload) r₅ ≡ ok (payload, advance r₅ (length payload))
    unfolding array
    take_payload_step = array_prefix r₅ [] (length payload) payload refl at₅

    finish_step : finish (advance r₅ (length payload)) ≡ ok tt
    finish_step = finish_empty _ (advance-Rests r₅ payload [] (length payload) refl at₅)

    read_envelope-envelope :
        read_envelope (reader_new whole)
        ≡ ok ((height, hash, previous_hash, payload), advance r₅ (length payload))
    unfolding read_envelope
    read_envelope-envelope =
        bind_step read_u8 _ _ (u8_prefix (reader_new whole) _ 1 (omega arith) start)
        ∙ bind_step read_u32 _ _ (u32_prefix r₁ rest₂ height height_fits at₁)
        ∙ bind_step (array 32) _ _ (array_prefix r₂ rest₃ 32 hash (sym hash_len) at₂)
        ∙ bind_step (array 32) _ _ (array_prefix r₃ rest₄ 32 previous_hash (sym previous_len) at₃)
        ∙ bind_step read_count _ _ read_count_step
        ∙ bind_step (take_len (length payload)) _ _ take_payload_step
        ∙ rw finish_step

    -- An envelope of a u32 height, two 32-byte hashes and a payload that keeps the record within
    -- `max_record_bytes` reads back as its parts.
    pub protobuf_envelope-envelope :
        protobuf_envelope whole ≡ ok (height, hash, previous_hash, payload)
    unfolding protobuf_envelope
    protobuf_envelope-envelope =
        let fits : ltb max_record_bytes (length whole) ≡ false =
          ground (arith, length-envelope hash_len previous_len) in
        rw (fits, read_envelope-envelope)
