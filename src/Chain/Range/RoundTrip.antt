-- ===== src/Chain/Range/RoundTrip.antt =====
-- A packed range gives back each record that was put in.
use ztreamer.Prelude.{
  ℕ, zero, suc, ◌+◌, ◌*◌, ◌%◌, ◌≤◌, ◌<◌, ◌≡◌, refl, sym, ◌∙◌, inl, inr, true, false, not, ◌&&◌,
  ◌||◌, none, some, List, [], ◌∷◌, ◌++◌, arith, leb, ◌==◌, ==_iff, Bool-cases, length, get_elem?,
  length-append, Bytes, bytes_eq, bytes_eq_iff, ok, ok_or, ok-step, u32_max, word_add,
}
use mathlib.Core.List.{append_assoc, append-nil}
use native.Mathlib.Numerals.{add-one}
use ztreamer.Chain.Types.{Hash, CompactBlockRecord, range_size, bad_length}
use ztreamer.Chain.Endian.{be_bytes, le_bytes}
use ztreamer.Chain.Cursor.{Reader, bind_step, slice, remaining, Rests, advance, advance-Rests, room}
use ztreamer.Chain.Codec.{
  reader_new, array, read_u8, read_u32, take_len, put_u32, array_prefix, u8_prefix, u32_prefix,
  be-Rests,
}
use ztreamer.Chain.Message.RoundTrip.{IsDigest}
use ztreamer.Chain.Record.{Prost, decode}
use ztreamer.Chain.Range.{
  RangeDecoder, range_head, read_decoder, decoder_new, ends_at, offset_at, any_descent,
  full_records, record_as, misplaced,
}
use ztreamer.Chain.Range.Spec.{frame, body, table, length-table}
use ztreamer.Chain.Range.Links.{
  IsRange, Continues, last_hash, layout, length-head, Continues-height, last_hash-get_elem?,
}
use ztreamer.Chain.Range.Decode.{
  place, place-end, slice-place, offset_at-place, any_descent-false, read_frame-frame, finish-frame,
}

element_height :
    (first : CompactBlockRecord) (rest : List CompactBlockRecord) (i : ℕ) (r : CompactBlockRecord)
    → Continues first.height first.hash rest
    → get_elem? (first ∷ rest) i ≡ some r
    → r.height ≡ first.height + i
element_height first rest zero r c e = ground arith
element_height first rest (suc i) r c e =
    omega (arith, Continues-height first.height first.hash rest i r c e)

element_first :
    (first : CompactBlockRecord) (rest : List CompactBlockRecord) (i : ℕ) (r : CompactBlockRecord)
    → get_elem? (first ∷ rest) i ≡ some r
    → i ≡ 0
    → r.previous_hash ≡ first.previous_hash
element_first first rest zero r e z = ground arith
element_first first rest (suc i) r e z = absurd (omega arith)

module _ (prost : Prost) (first : CompactBlockRecord) (rest : List CompactBlockRecord)
    (es : List Bytes) (range : IsRange first rest) (count : length es ≡ 1000)
    (previous_len : IsDigest first.previous_hash)
    (last_len : length (last_hash first.hash rest) ≡ 32) (fits : length (body es) ≤ u32_max) where
  abbrev terminal : Hash
  terminal = last_hash first.hash rest

  -- The decoder of the range.
  abbrev pub decoder : RangeDecoder
  decoder = record {
    start = first.height;
    first_previous_hash = first.previous_hash;
    terminal_hash = terminal;
    offsets = table 0 es;
    body = body es;
  }

  abbrev whole : Bytes
  whole = layout prost first rest es

  abbrev tail₄ : Bytes
  tail₄ = table 0 es ++ (body es ++ [])

  abbrev tail₃ : Bytes
  tail₃ = terminal ++ tail₄

  abbrev tail₂ : Bytes
  tail₂ = first.previous_hash ++ tail₃

  abbrev tail₁ : Bytes
  tail₁ = be_bytes 4 (first.height + 999) ++ tail₂

  length-whole : length whole ≡ 73 + 4004 + length (body es)
  unfolding layout
  length-whole = omega (
    arith,
    length-head prost first rest previous_len last_len,
    length-append (range_head first.height (first.height + 999) first.previous_hash terminal)
        (table 0 es ++ body es),
    length-append (table 0 es) (body es),
    length-table 0 es,
    count,
  )

  whole-parts : whole ≡ be_bytes 1 1 ++ (be_bytes 4 first.height ++ tail₁)
  unfolding layout range_head put_u32 le_bytes
  whole-parts = simp (append_assoc, append-nil)

  abbrev s₁ : Reader
  s₁ = advance (reader_new whole) 1

  abbrev s₂ : Reader
  s₂ = advance s₁ 4

  abbrev s₃ : Reader
  s₃ = advance s₂ 4

  abbrev s₄ : Reader
  s₄ = advance s₃ 32

  abbrev s₅ : Reader
  s₅ = advance s₄ 32

  abbrev s₆ : Reader
  s₆ = advance s₅ 4004

  start : Rests (reader_new whole) (be_bytes 1 1 ++ (be_bytes 4 first.height ++ tail₁))
  start = record { at = whole-parts; within = omega arith; fits = omega (arith, length-whole) }

  at₁ : Rests s₁ (be_bytes 4 first.height ++ tail₁)
  at₁ = be-Rests (reader_new whole) (be_bytes 4 first.height ++ tail₁) 1 1 start

  at₂ : Rests s₂ tail₁
  at₂ = be-Rests s₁ tail₁ 4 first.height at₁

  at₃ : Rests s₃ tail₂
  at₃ = be-Rests s₂ tail₂ 4 (first.height + 999) at₂

  at₄ : Rests s₄ tail₃
  at₄ = advance-Rests s₃ first.previous_hash tail₃ 32 (sym previous_len) at₃

  at₅ : Rests s₅ tail₄
  at₅ = advance-Rests s₄ terminal tail₄ 32 (sym last_len) at₄

  table_len : 4004 ≡ length (table 0 es)
  table_len = omega (arith, length-table 0 es, count)

  at₆ : Rests s₆ (body es ++ [])
  at₆ = advance-Rests s₅ (table 0 es) (body es ++ []) 4004 table_len at₅

  body_left : remaining s₆ ≡ length (body es)
  body_left = omega (arith, room s₆ (body es) [] at₆)

  aligned :
      not (first.height % range_size == 0) || not (ends_at first.height (first.height + 999))
      ≡ false
  unfolding ends_at
  aligned = ground (arith, range.aligned, range.fits)

  take_table : take_len ((range_size + 1) * 4) s₅ ≡ ok (table 0 es, s₆)
  unfolding array
  take_table = array_prefix s₅ (body es ++ []) 4004 (table 0 es) table_len at₅

  take_body : take_len (remaining s₆) s₆ ≡ ok (body es, advance s₆ (length (body es)))
  unfolding array
  take_body = rw body_left (array_prefix s₆ [] (length (body es)) (body es) refl at₆)

  read_decoder-layout :
      read_decoder (reader_new whole) ≡ ok (decoder, advance s₆ (length (body es)))
  unfolding read_decoder
  read_decoder-layout =
      bind_step read_u8 _ _ (u8_prefix (reader_new whole) _ 1 (omega arith) start)
      ∙ bind_step read_u32 _ _ (u32_prefix s₁ tail₁ first.height (omega (arith, range.fits)) at₁)
      ∙ bind_step read_u32 _ _ (u32_prefix s₂ tail₂ (first.height + 999) range.fits at₂)
      ∙ bind_step (array 32) _ _
          (array_prefix s₃ tail₃ 32 first.previous_hash (sym previous_len) at₃)
      ∙ bind_step (array 32) _ _ (array_prefix s₄ tail₄ 32 terminal (sym last_len) at₄)
      ∙ rw aligned (
          bind_step (take_len ((range_size + 1) * 4)) _ _ take_table
          ∙ bind_step (take_len (remaining s₆)) _ _ take_body)

  first_offset : offset_at decoder 0 ≡ 0
  unfolding place
  first_offset = offset_at-place decoder es refl fits 0 (omega arith)

  last_offset : offset_at decoder range_size ≡ length (body es)
  last_offset =
      offset_at-place decoder es refl fits range_size (omega (arith, count))
      ∙ rw (← count) (place-end es)

  -- The decoder accepts the layout, and takes it apart.
  pub decoder_new-layout : decoder_new whole ≡ ok decoder
  unfolding decoder_new
  decoder_new-layout =
      let no_descent : any_descent decoder range_size 0 ≡ false =
        any_descent-false decoder es refl fits range_size 0 (omega (arith, count)) in
      let end_fits : (offset_at decoder range_size == length (body es)) ≡ true =
        (==_iff _ _).1 last_offset in
      rw (read_decoder-layout, first_offset, end_fits, no_descent)

  module _ (i : ℕ) (r : CompactBlockRecord) (e : Bytes) (inside : i < 1000)
      (at_i : get_elem? (first ∷ rest) i ≡ some r) (encoding : get_elem? es i ≡ some e)
      (small : length e ≤ u32_max) (decodes : decode prost e ≡ ok r) where
    slice_i :
        ok_or (slice (body es) (offset_at decoder i) (offset_at decoder (i + 1))) bad_length
        ≡ ok (frame e)
    slice_i = rw (
      offset_at-place decoder es refl fits i (omega (arith, count)),
      offset_at-place decoder es refl fits (i + 1) (omega (arith, count)),
      add-one i,
      slice-place es i e encoding,
    )

    height_i : r.height ≡ first.height + i
    height_i = element_height first rest i r range.linked at_i

    placed_height :
        elim (word_add u32_max first.height i) [ none ↦ false | some height ↦ height == r.height ]
        ≡ true
    placed_height = ground (arith, height_i, range.fits, inside)

    placed_first : (i == 0 && not (bytes_eq r.previous_hash first.previous_hash)) ≡ false
    placed_first = elim (Bool-cases (i == 0)) [
      | inl z ↦ rw (z, (bytes_eq_iff _ _).1 (element_first first rest i r at_i ((==_iff i 0).0 z)))
      | inr nz ↦ rw nz
    ]

    placed_last : (i + 1 == range_size && not (bytes_eq r.hash terminal)) ≡ false
    placed_last = elim (Bool-cases (i + 1 == range_size)) [
      | inl z ↦ rw (
        z,
        (bytes_eq_iff _ _).1 (
            last_hash-get_elem? first.hash (first ∷ rest) i r at_i
              (omega (arith, (==_iff _ _).0 z, range.count))),
      )
      | inr nz ↦ rw nz
    ]

    placed : misplaced (full_records prost) decoder i r ≡ false
    unfolding misplaced full_records
    placed = rw (placed_height, placed_first, placed_last)

    pub record_as-layout : record_as (full_records prost) decoder i ≡ ok r
    unfolding record_as full_records
    record_as-layout =
        let below : leb range_size i ≡ false = ground (arith, inside) in
        rw below (
          ok-step _ slice_i
          ∙ ok-step _ (read_frame-frame e small)
          ∙ ok-step _ decodes
          ∙ ok-step _ (finish-frame e small)
          ∙ rw placed)
