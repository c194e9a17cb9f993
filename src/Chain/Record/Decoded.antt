-- ===== src/Chain/Record/Decoded.antt =====
-- What a row that decodes holds: its envelope has the height and the hashes of the record.
use ztreamer.Prelude.{
  ℕ, [], ◌≤◌, ◌≡◌, refl, sym, ap, ◌∙◌, Bool, true, false, ◌&&◌, arith, ltb, ◌==◌, ==_iff,
  if◌then◌else◌, length, Bytes, bytes_eq_iff, Result, ok, err, >>=-eq-ok, guard_inv, ok_or, map_err,
}
use ztreamer.Chain.Types.{
  CompactBlockRecord, CodecError, max_record_bytes, bad_length, invalid_record,
}
use ztreamer.Chain.Message.{from_proto}
use ztreamer.Chain.Message.RoundTrip.{IsDigest}
use ztreamer.Chain.Cursor.{Reader, bind_inv, take_inv, fail, Read}
use ztreamer.Chain.Codec.{reader_new, array, take_len, read_u8, read_u32, read_count, finish}
use ztreamer.Chain.Record.{
  Prost, decode, protobuf_envelope, read_envelope, same_id, block_format_version,
}

array_len : (n : ℕ) (r : Reader) (xs : Bytes) (s : Reader) → array n r ≡ ok (xs, s) → length xs ≡ n
unfolding array take_len
array_len n r xs s h = (take_inv (λ _. bad_length) (λ _. CodecError.truncated) r n xs s h).3

abbrev read_or_nothing :
    Result CodecError ((ℕ × Bytes × Bytes × Bytes) × Reader) → ℕ × Bytes × Bytes × Bytes
read_or_nothing (ok out) = out.0
read_or_nothing (err e) = (0, [], [], [])

abbrev opened : Result CodecError (ℕ × Bytes × Bytes × Bytes) → ℕ × Bytes × Bytes × Bytes
opened (ok out) = out
opened (err e) = (0, [], [], [])

both : (a b : Bool) → (a && b) ≡ true → (a ≡ true) × (b ≡ true)
both true b h = (refl, h)
both false b h = cc

versioned {ℓ} :
    {A : Type ℓ} (b : Bool) (m : Read CodecError A) (r : Reader) {out : A × Reader}
    → (if b then m else fail invalid_record) r ≡ ok out
    → m r ≡ ok out
versioned true m r h = h
versioned false m r h = cc

read_envelope_inv :
    (r s : Reader) (height : ℕ) (hash previous_hash payload : Bytes)
    → read_envelope r ≡ ok ((height, hash, previous_hash, payload), s)
    → IsDigest hash × IsDigest previous_hash
unfolding read_envelope
read_envelope_inv r s height hash previous_hash payload h =
    let (v, r₁, e₁, h₁) = bind_inv read_u8 _ r h in
    let (height', r₂, e₂, h₂) =
      bind_inv read_u32 _ r₁ (versioned (v == block_format_version) _ r₁ h₁) in
    let (hash', r₃, e₃, h₃) = bind_inv (array 32) _ r₂ h₂ in
    let (previous', r₄, e₄, h₄) = bind_inv (array 32) _ r₃ h₃ in
    let (len, r₅, e₅, h₅) = bind_inv read_count _ r₄ h₄ in
    let (payload', r₆, e₆, h₆) = bind_inv (take_len len) _ r₅ h₅ in
    let (u, e₇, h₇) = >>=-eq-ok (map_err (λ _. invalid_record) (finish r₆)) _ h₆ in
    (
      ap (λ out. length (read_or_nothing out).1) (sym h₇) ∙ array_len 32 r₂ hash' r₃ e₃,
      ap (λ out. length (read_or_nothing out).2) (sym h₇) ∙ array_len 32 r₃ previous' r₄ e₄,
    )

module _ (prost : Prost) where
  -- The record has the height and the hashes of its envelope.
  same_id_inv :
      (r : CompactBlockRecord) (height : ℕ) (hash previous_hash : Bytes)
      → same_id r height hash previous_hash ≡ true
      → (height ≡ r.height) × (hash ≡ r.hash) × (previous_hash ≡ r.previous_hash)
  unfolding same_id
  same_id_inv r height hash previous_hash h =
      let (at, hashes) = both _ _ h in
      let (own, previous) = both _ _ hashes in
      (
        sym ((==_iff r.height height).0 at),
        sym ((bytes_eq_iff r.hash hash).0 own),
        sym ((bytes_eq_iff r.previous_hash previous_hash).0 previous),
      )

  passed :
      (b : Bool) (x r : CompactBlockRecord)
      → ◌≡◌ {A = Result CodecError CompactBlockRecord}
          (if b then ok x else err invalid_record)
          (ok r)
      → (b ≡ true) × (x ≡ r)
  passed true x r h = (refl, ok_inj x r h)
    where
      ok_inj :
          (a b : CompactBlockRecord)
          → ◌≡◌ {A = Result CodecError CompactBlockRecord} (ok a) (ok b)
          → a ≡ b
      ok_inj a b h = cc
  passed false x r h = absurd (cc h)

  envelope_inv :
      (row : Bytes) (envelope : ℕ × Bytes × Bytes × Bytes)
      → protobuf_envelope row ≡ ok envelope
      → (length row ≤ max_record_bytes) × IsDigest envelope.1 × IsDigest envelope.2
  unfolding protobuf_envelope
  envelope_inv row envelope h =
      let (small, h₁) = guard_inv (ltb max_record_bytes (length row)) bad_length _ h in
      let (read, e, made) = >>=-eq-ok (read_envelope (reader_new row)) _ h₁ in
      let digests =
        read_envelope_inv (reader_new row) read.1 read.0.0 read.0.1 read.0.2 read.0.3 e in
      (
        ground (arith, small),
        ap (λ o. length (opened o).1) (sym made) ∙ digests.0,
        ap (λ o. length (opened o).2) (sym made) ∙ digests.1,
      )

  parts :
      (envelope : ℕ × Bytes × Bytes × Bytes) (height : ℕ) (hash previous_hash : Bytes)
      → envelope.0 ≡ height
      → envelope.1 ≡ hash
      → envelope.2 ≡ previous_hash
      → envelope ≡ (height, hash, previous_hash, envelope.3)
  parts envelope height hash previous_hash a b c = λ i. (a i, b i, c i, envelope.3)

  pub decode_inv :
      (row : Bytes) (r : CompactBlockRecord)
      → decode prost row ≡ ok r
      → (payload : Bytes) × (protobuf_envelope row
          ≡ ok (r.height, r.hash, r.previous_hash, payload))
        × (length row ≤ max_record_bytes)
        × IsDigest r.hash
        × IsDigest r.previous_hash
  unfolding decode
  decode_inv row r h =
      let (envelope, first, h₁) = >>=-eq-ok (protobuf_envelope row) _ h in
      let (block, second, h₂) =
        >>=-eq-ok (ok_or (prost.decode_message envelope.3) invalid_record) _ h₁ in
      let (x, third, h₃) = >>=-eq-ok (from_proto block) _ h₂ in
      let (same, is) = passed (same_id x envelope.0 envelope.1 envelope.2) x r h₃ in
      let (at, own, previous) = same_id_inv x envelope.0 envelope.1 envelope.2 same in
      let (small, digest, digest') = envelope_inv row envelope first in
      let at' : envelope.0 ≡ r.height = at ∙ ap (λ y. y.height) is in
      let own' : envelope.1 ≡ r.hash = own ∙ ap (λ y. y.hash) is in
      let previous' : envelope.2 ≡ r.previous_hash = previous ∙ ap (λ y. y.previous_hash) is in
      (
        envelope.3,
        first ∙ ap ok (parts envelope r.height r.hash r.previous_hash at' own' previous'),
        small,
        ap length (sym own') ∙ digest,
        ap length (sym previous') ∙ digest',
      )
