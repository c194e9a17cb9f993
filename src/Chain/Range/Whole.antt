-- ===== src/Chain/Range/Whole.antt =====
-- The round trip of a whole range, from its records.
use ztreamer.Prelude.{
  ℕ, zero, suc, ◌+◌, ◌*◌, ◌≤◌, ◌<◌, ◌≡◌, refl, ap, ◌∙◌, some, List, [], ◌∷◌, arith, length,
  get_elem?, All, Bytes, ok, u32_max,
}
use ztreamer.Chain.Types.{CompactBlockRecord, max_record_bytes}
use ztreamer.Chain.Message.{to_proto}
use ztreamer.Chain.Message.RoundTrip.{IsDigest, IsRecord}
use ztreamer.Chain.Record.{Prost, encode, decode}
use ztreamer.Chain.Record.RoundTrip.{decode-encode, length-encode}
use ztreamer.Chain.Range.{
  RangeDecoder, of_records, encode_range, decoder_new, full_records, record_as,
}
use ztreamer.Chain.Range.Spec.{body, Encodes, length-frame, length-body, length-Encodes}
use ztreamer.Chain.Range.Links.{IsRange, last_hash-length, layout, encode_range-layout}
use ztreamer.Chain.Range.RoundTrip.{decoder, decoder_new-layout, record_as-layout}

module _ (prost : Prost) where
  -- The record passes its check and is not too long.
  abbrev pub IsEncodable : CompactBlockRecord → Type 0
  IsEncodable r = (e : Bytes) × (encode prost r ≡ ok e)

  -- prost reads back the message of the record.
  abbrev pub ReadsBack : CompactBlockRecord → Type 0
  ReadsBack r = prost.decode_message (prost.encode_message (to_proto r)) ≡ some (to_proto r)

  encodings : (rs : List CompactBlockRecord) → All IsEncodable rs → List Bytes
  encodings [] h = []
  encodings (r ∷ rs) h = h.0.0 ∷ encodings rs h.1

  encodings-Encodes :
      (rs : List CompactBlockRecord) (h : All IsEncodable rs)
      → Encodes (of_records prost) rs (encodings rs h)
  unfolding encodings of_records
  encodings-Encodes [] h = tt
  encodings-Encodes (r ∷ rs) h = (h.0.1, encodings-Encodes rs h.1)

  length-body-encodings :
      (rs : List CompactBlockRecord) (h : All IsEncodable rs)
      → All IsRecord rs
      → length (body (encodings rs h)) ≤ (max_record_bytes + 4) * length rs
  unfolding encodings body
  length-body-encodings [] h w = omega arith
  length-body-encodings (r ∷ rs) h w = omega (
    arith,
    length-body-encodings rs h.1 w.1,
    (length-encode prost r h.0.0 w.0 h.0.1).1,
    length-frame h.0.0,
    length-body h.0.0 (encodings rs h.1),
  )

  -- What is known of the record at a place.
  record_at :
      (rs : List CompactBlockRecord) (h : All IsEncodable rs)
      → All IsRecord rs
      → All ReadsBack rs
      → (i : ℕ) (r : CompactBlockRecord) → get_elem? rs i ≡ some r
      → (e : Bytes) × (get_elem? (encodings rs h) i ≡ some e)
        × (length e ≤ max_record_bytes)
        × (decode prost e ≡ ok r)
        × (i < length rs)
  unfolding encodings
  record_at [] h w b i r at = cc
  record_at (x ∷ xs) h w b zero r at = (
    h.0.0,
    refl,
    (length-encode prost x h.0.0 w.0 h.0.1).1,
    decode-encode prost x h.0.0 w.0 b.0 h.0.1 ∙ ap ok (ground (arith, at)),
    omega arith,
  )
  record_at (x ∷ xs) h w b (suc i) r at =
      let (e, p, q, d, n) = record_at xs h.1 w.1 b.1 i r at in (e, p, q, d, omega (arith, n))

  record_hashes : (rs : List CompactBlockRecord) → All IsRecord rs → All (λ r. IsDigest r.hash) rs
  record_hashes [] w = tt
  record_hashes (r ∷ rs) w = (w.0.hash, record_hashes rs w.1)

  -- A linked range of 1,000 well-formed records that encode, and whose messages prost reads back,
  -- packs into bytes that a decoder accepts, and the decoder returns the record of any index.
  pub record_as-encode_range :
      (first : CompactBlockRecord) (rest : List CompactBlockRecord) (i : ℕ) (r : CompactBlockRecord)
      → IsRange first rest
      → All IsRecord (first ∷ rest)
      → All IsEncodable (first ∷ rest)
      → All ReadsBack (first ∷ rest)
      → get_elem? (first ∷ rest) i ≡ some r
      → (bytes : Bytes) × (d : RangeDecoder) × (encode_range prost (first ∷ rest) ≡ ok bytes)
        × (decoder_new bytes ≡ ok d)
        × (record_as (full_records prost) d i ≡ ok r)
  record_as-encode_range first rest i r range w h b at =
      let es : List Bytes = encodings (first ∷ rest) h in
      let enc : Encodes (of_records prost) (first ∷ rest) es = encodings-Encodes (first ∷ rest) h in
      let count : length es ≡ 1000 =
        omega (arith, range.count, length-Encodes (of_records prost) (first ∷ rest) es enc) in
      let fits : length (body es) ≤ u32_max =
        omega (arith, range.count, length-body-encodings (first ∷ rest) h w) in
      let last_len = last_hash-length first.hash rest w.0.hash (record_hashes rest w.1) in
      (
        layout prost first rest es,
        decoder prost first rest es range count w.0.previous_hash last_len fits,
        encode_range-layout prost first rest es range enc fits,
        decoder_new-layout prost first rest es range count w.0.previous_hash last_len fits,
        let (e, p, q, d, n) = record_at (first ∷ rest) h w b i r at in
            record_as-layout prost first rest es range count w.0.previous_hash last_len fits i r e
              (omega (arith, n, range.count)) at p (omega (arith, q)) d,
      )
