-- ===== src/Chain/Range/Rows.antt =====
-- A range packed from rows that are encodings already: encode_range_from_bytes, and what its decoder reads.
use mathlib.Core.List.{append-nil}
use native.Mathlib.Numerals.{add-one}
use ztreamer.Prelude.{
  ℕ, zero, suc, ◌+◌, ◌*◌, ◌%◌, ◌≤◌, ◌<◌, ◌≡◌, refl, sym, ap, ◌∙◌, not, ◌&&◌, some, List, [], ◌∷◌,
  ◌++◌, arith, ◌==◌, if◌then◌else◌, length, get_elem?, All, Bytes, bytes_eq, Result, ok, err,
  >>=-eq-ok, guard_inv, ok_or, ok-step, u32_max, usize_max, word_add,
}
use ztreamer.Chain.Types.{
  Hash, CompactBlockRecord, CodecError, range_size, max_record_bytes, bad_length, invalid_range,
}
use ztreamer.Chain.Message.RoundTrip.{IsDigest}
use ztreamer.Chain.Record.{Prost, decode}
use ztreamer.Chain.Record.Decoded.{decode_inv}
use ztreamer.Chain.Range.{
  RangeDecoder, of_rows, of_records, check_links, is_next, write_records, write_range, range_head,
  zero_words, body_len_of, encode_range_from_bytes, decoder_new, full_records, record_as,
  range_envelope_bytes,
}
use ztreamer.Chain.Range.Spec.{body, table, Encodes, length-frame, length-body}
use ztreamer.Chain.Range.Links.{
  IsRange, last_hash, last_hash-length, layout, links, offsets_len_lem,
}
use ztreamer.Chain.Range.Encode.{write_records-layout}
use ztreamer.Chain.Range.RoundTrip.{decoder, decoder_new-layout, record_as-layout}
use ztreamer.Chain.Range.Sound.{links_sound}

module _ (prost : Prost) where
  -- Each row decodes to its record.
  abbrev pub Decodes : List Bytes → List CompactBlockRecord → Type 0
  Decodes [] [] = Unit
  Decodes [] (r ∷ rs) = ⊥
  Decodes (e ∷ es) [] = ⊥
  Decodes (e ∷ es) (r ∷ rs) = (decode prost e ≡ ok r) × Decodes es rs

  pub length-Decodes :
      (es : List Bytes) (rs : List CompactBlockRecord) → Decodes es rs → length es ≡ length rs
  length-Decodes [] [] h = refl
  length-Decodes [] (r ∷ rs) h = absurd h
  length-Decodes (e ∷ es) [] h = absurd h
  length-Decodes (e ∷ es) (r ∷ rs) h = ap suc (length-Decodes es rs h.1)

  row_id :
      (e : Bytes) (r : CompactBlockRecord)
      → decode prost e ≡ ok r
      → of_rows.id e ≡ ok (r.height, r.hash, r.previous_hash)
  unfolding of_rows
  row_id e r h =
      let (payload, first, small, digest, digest') = decode_inv prost e r h in ok-step _ first

  -- The rows have the links of their records.
  rows_links :
      (height : ℕ) (hash : Hash) (es : List Bytes) (rs : List CompactBlockRecord)
      → Decodes es rs
      → check_links of_rows height hash es ≡ check_links (of_records prost) height hash rs
  unfolding check_links of_records
  rows_links height hash [] [] d = refl
  rows_links height hash [] (r ∷ rs) d = absurd d
  rows_links height hash (e ∷ es) [] d = absurd d
  rows_links height hash (e ∷ es) (r ∷ rs) d =
      ok-step _ (row_id e r d.0)
      ∙ ap
          (λ rest.
            if is_next height r.height && bytes_eq r.previous_hash hash
            then rest
            else err invalid_range)
          (rows_links r.height r.hash es rs d.1)

  rows-Encodes : (es : List Bytes) → Encodes of_rows es es
  unfolding of_rows
  rows-Encodes [] = tt
  rows-Encodes (e ∷ es) = (refl, rows-Encodes es)

  rows_small :
      (es : List Bytes) (rs : List CompactBlockRecord)
      → Decodes es rs
      → length (body es) ≤ (max_record_bytes + 4) * length es
  unfolding body
  rows_small [] [] d = omega arith
  rows_small [] (r ∷ rs) d = absurd d
  rows_small (e ∷ es) [] d = absurd d
  rows_small (e ∷ es) (r ∷ rs) d =
      let (payload, first, small, digest, digest') = decode_inv prost e r d.0 in
      omega (arith, small, length-frame e, length-body e es, rows_small es rs d.1)

  rows_digests :
      (es : List Bytes) (rs : List CompactBlockRecord)
      → Decodes es rs
      → All (λ r. IsDigest r.hash) rs
  rows_digests [] [] d = tt
  rows_digests [] (r ∷ rs) d = absurd d
  rows_digests (e ∷ es) [] d = absurd d
  rows_digests (e ∷ es) (r ∷ rs) d = ((decode_inv prost e r d.0).3, rows_digests es rs d.1)

  row_at :
      (es : List Bytes) (rs : List CompactBlockRecord) (i : ℕ) (r : CompactBlockRecord)
      → Decodes es rs
      → get_elem? rs i ≡ some r
      → (e : Bytes) × (get_elem? es i ≡ some e)
        × (decode prost e ≡ ok r)
        × (length e ≤ max_record_bytes)
        × (i < length es)
  row_at [] [] i r d h = cc
  row_at [] (x ∷ rs) i r d h = absurd d
  row_at (e ∷ es) [] i r d h = absurd d
  row_at (e ∷ es) (x ∷ rs) zero r d h =
      let (payload, first, small, digest, digest') = decode_inv prost e x d.0 in
      (e, refl, d.0 ∙ ap ok (ground (arith, h)), small, omega arith)
  row_at (e ∷ es) (x ∷ rs) (suc i) r d h =
      let (e', p, q, small, n) = row_at es rs i r d.1 h in (e', p, q, small, omega (arith, n))

  write_rows :
      (head : Bytes) (es : List Bytes) (packed : Bytes)
      → length es ≡ 1000
      → length (body es) ≤ u32_max
      → write_records of_rows
          (length head)
          (length head + 4004)
          0
          es
          (head ++ zero_words (length es + 1))
        ≡ ok packed
      → packed ≡ head ++ (table 0 es ++ body es)
  write_rows head es packed n fits h =
      let zeros : zero_words (length es + 1) ≡ zero_words (suc (length es)) ++ [] =
        rw append-nil (ap zero_words (add-one (length es))) in
      let done : write_records of_rows (length head) (length head + 4004) 0 es
            (head ++ zero_words (length es + 1))
          ≡ ok (head ++ (table 0 es ++ body es)) =
        rw zeros (
          write_records-layout of_rows (length head) (length head + 4004) es es 0 head []
            (rows-Encodes es) (omega arith) (omega arith) (omega arith)) in
      ok_inj packed (head ++ (table 0 es ++ body es)) (sym h ∙ done)
    where
      ok_inj : (a b : Bytes) → ◌≡◌ {A = Result CodecError Bytes} (ok a) (ok b) → a ≡ b
      ok_inj a b h = cc

  -- What was packed from the rows of records, from a u32 height on: the records are a linked range, and the
  -- packed bytes are their layout.
  rows_layout :
      (first : CompactBlockRecord) (rest : List CompactBlockRecord) (es : List Bytes)
      (packed : Bytes)
      → Decodes es (first ∷ rest)
      → first.height ≤ u32_max
      → encode_range_from_bytes es ≡ ok packed
      → IsRange first rest × (packed ≡ layout prost first rest es)
  unfolding encode_range_from_bytes write_range layout
  rows_layout first rest [] packed d fits h = absurd d
  rows_layout first rest (e ∷ es) packed d fits h =
      let (body_len, p₀, h₀) = >>=-eq-ok (body_len_of 0 (e ∷ es)) _ h in
      let (full, h₁) = guard_inv (not (length (e ∷ es) == range_size)) invalid_range _ h₀ in
      let h₂ = sym (ok-step _ (row_id e first d.0)) ∙ h₁ in
      let (aligned, h₃) = guard_inv (not (first.height % range_size == 0)) invalid_range _ h₂ in
      let (out, linked, h₄) = >>=-eq-ok (check_links of_rows first.height first.hash es) _ h₃ in
      let (chain, end) =
        links_sound prost first.height first.hash rest out
          (sym (rows_links first.height first.hash es rest d.1) ∙ linked) fits in
      let n : length es ≡ length rest = length-Decodes es rest d.1 in
      let count : length es ≡ 999 = ground (arith, full) in
      let range : IsRange first rest = record {
        count = omega (arith, n, count);
        aligned = ground (arith, aligned);
        fits = omega (arith, end, n, count);
        linked = chain;
      } in
      let known : check_links of_rows first.height first.hash es
          ≡ ok (first.height + 999, last_hash first.hash rest) =
        rows_links first.height first.hash es rest d.1 ∙ links prost first rest range in
      let h₅ = sym (ok-step _ known) ∙ h₃ in
      let h₆ = sym (ok-step _ (offsets_len_lem (length es) count)) ∙ h₅ in
      let (room, p₆, h₇) =
        >>=-eq-ok (ok_or (word_add usize_max (range_envelope_bytes + 4004) body_len) bad_length) _
          h₆ in
      let small : length (body (e ∷ es)) ≤ u32_max =
        omega (arith, rows_small (e ∷ es) (first ∷ rest) d, count) in
      (
        range,
        write_rows
            (range_head first.height (first.height + 999) first.previous_hash
              (last_hash first.hash rest))
            (e ∷ es) packed (omega (arith, count)) small h₇,
      )

  -- Where rows that decode to records, the first of them at a u32 height, are packed into a range, the
  -- records are a linked range, the decoder accepts the packed bytes, and it reads back each record.
  pub record_as-encode_range_from_bytes :
      (first : CompactBlockRecord) (rest : List CompactBlockRecord) (es : List Bytes)
      (packed : Bytes)
      → Decodes es (first ∷ rest)
      → first.height ≤ u32_max
      → encode_range_from_bytes es ≡ ok packed
      → IsRange first rest
        × ((d : RangeDecoder) × (decoder_new packed ≡ ok d)
            × (d.start ≡ first.height)
            × ((i : ℕ) (r : CompactBlockRecord)
                → get_elem? (first ∷ rest) i ≡ some r
                → record_as (full_records prost) d i ≡ ok r))
  record_as-encode_range_from_bytes first rest es packed d fits h =
      let (range, same) = rows_layout first rest es packed d fits h in
      let n : length es ≡ 1000 = omega (arith, length-Decodes es (first ∷ rest) d, range.count) in
      let small : length (body es) ≤ u32_max = omega (arith, rows_small es (first ∷ rest) d, n) in
      let digests = rows_digests es (first ∷ rest) d in
      let last_len = last_hash-length first.hash rest digests.0 digests.1 in
      let previous = previous_digest es first rest d in
      (
        range,
        (
          decoder prost first rest es range n previous last_len small,
          rw same (decoder_new-layout prost first rest es range n previous last_len small),
          refl,
          λ i r at.
              let (e, p, q, short, below) = row_at es (first ∷ rest) i r d at in
              record_as-layout prost first rest es range n previous last_len small i r e
                (omega (arith, below, n)) at p (omega (arith, short)) q,
        ),
      )
    where
      previous_digest :
          (es : List Bytes) (first : CompactBlockRecord) (rest : List CompactBlockRecord)
          → Decodes es (first ∷ rest)
          → IsDigest first.previous_hash
      previous_digest [] first rest d = absurd d
      previous_digest (e ∷ es) first rest d = (decode_inv prost e first d.0).4
