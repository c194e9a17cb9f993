-- ===== src/Chain/Range/Decode.antt =====
-- RangeDecoder reads the offset table and the frames of a layout.
use ztreamer.Prelude.{
  ℕ, zero, suc, ◌+◌, ◌-◌, ◌*◌, ◌≤◌, ◌≡◌, refl, sym, ap, ◌∙◌, true, false, some, List, [], ◌∷◌, ◌++◌,
  arith, leb, length, get_elem?, take, drop, length-append, drop-drop, take-append, drop-append,
  Bytes, ok, u32_max,
}
use mathlib.Core.List.{append-nil}
use native.Mathlib.Numerals.{add-one}
use ztreamer.Chain.Endian.{be_bytes, from_be, length-be_bytes, from_be-be_bytes}
use ztreamer.Chain.Cursor.{Reader, bind_step, slice, Rests, advance, advance-Rests}
use ztreamer.Chain.Codec.{
  reader_new, array, read_count, take_len, finish, array_prefix, u32_prefix, be-Rests,
}
use ztreamer.Chain.Record.Envelope.{finish_empty}
use ztreamer.Chain.Range.{RangeDecoder, offset_at, any_descent, read_frame}
use ztreamer.Chain.Range.Spec.{frame, body, table, length-frame, length-body}

-- Where the body holds the record at a place.
unfoldable pub place : List Bytes → ℕ → ℕ
place es zero = 0
place [] (suc i) = 0
place (e ∷ es) (suc i) = length (frame e) + place es i

skip_entry :
    (at i : ℕ) (rest : Bytes) → drop (suc i * 4) (be_bytes 4 at ++ rest) ≡ drop (i * 4) rest
skip_entry at i rest =
    let e : suc i * 4 ≡ length (be_bytes 4 at) + i * 4 = omega (arith, length-be_bytes 4 at) in
    rw (
      e,
      drop-drop (length (be_bytes 4 at)) (i * 4) (be_bytes 4 at ++ rest),
      drop-append (be_bytes 4 at) rest,
    )

take_first : (n : ℕ) (xs rest : Bytes) → n ≡ length xs → take n (xs ++ rest) ≡ xs
take_first n xs rest e = rw e (take-append xs rest)

take_entry : (at : ℕ) (rest : Bytes) → take 4 (be_bytes 4 at ++ rest) ≡ be_bytes 4 at
take_entry at rest = take_first 4 (be_bytes 4 at) rest (sym (length-be_bytes 4 at))

entry_value :
    (at : ℕ) (rest : Bytes) → at + 0 ≤ u32_max → from_be (take 4 (be_bytes 4 at ++ rest)) ≡ at + 0
entry_value at rest fits =
    ap from_be (take_entry at rest) ∙ from_be-be_bytes 4 at (omega arith) ∙ omega arith

-- Entry `i` of the table is where the record at place `i` starts.
pub table-entry :
    (at : ℕ) (es : List Bytes) (i : ℕ)
    → i ≤ length es
    → at + length (body es) ≤ u32_max
    → from_be (take 4 (drop (i * 4) (table at es))) ≡ at + place es i
unfolding table place body
table-entry at [] zero h fits = rw (← append-nil (be_bytes 4 at)) (entry_value at [] fits)
table-entry at [] (suc i) h fits = absurd (omega arith)
table-entry at (e ∷ es) zero h fits =
    entry_value at (table (at + length (frame e)) es) (omega arith)
table-entry at (e ∷ es) (suc i) h fits = rw (skip_entry at i (table (at + length (frame e)) es)) (
    table-entry (at + length (frame e)) es i (omega arith) (omega (arith, length-body e es))
    ∙ omega arith)

pub place_mono : (es : List Bytes) (i : ℕ) → place es i ≤ place es (suc i)
unfolding place
place_mono [] zero = omega arith
place_mono [] (suc i) = omega arith
place_mono (e ∷ es) zero = omega arith
place_mono (e ∷ es) (suc i) = omega (arith, place_mono es i)

pub place-end : (es : List Bytes) → place es (length es) ≡ length (body es)
unfolding place body
place-end [] = refl
place-end (e ∷ es) = omega (arith, place-end es, length-append (frame e) (body es))

place_split_head :
    (x : Bytes) (xs : List Bytes) (e : Bytes)
    → x ≡ e
    → (frame x ++ body xs ≡ frame e ++ body xs)
      × (length (frame x) + 0 ≡ 0 + length (frame e))
      × (length (frame x) + 0 ≤ length (frame x ++ body xs))
place_split_head x xs e p = (
  ap (λ y. frame y ++ body xs) p,
  omega (arith, ap (λ y. length (frame y)) p),
  omega (arith, length-append (frame x) (body xs)),
)

-- The body splits at the place of a record.
place_split :
    (es : List Bytes) (i : ℕ) (e : Bytes)
    → get_elem? es i ≡ some e
    → (drop (place es i) (body es) ≡ frame e ++ body (drop (suc i) es))
      × (place es (suc i) ≡ place es i + length (frame e))
      × (place es (suc i) ≤ length (body es))
unfolding place body
place_split [] i e h = cc
place_split (x ∷ xs) zero e h = place_split_head x xs e (ground (arith, h))
place_split (x ∷ xs) (suc i) e h =
    let (split, next, fits) = place_split xs i e h in
    (
      drop-drop (length (frame x)) (place xs i) (frame x ++ body xs)
          ∙ rw (drop-append (frame x) (body xs)) split,
      omega (arith, next),
      omega (arith, fits, length-append (frame x) (body xs)),
    )

-- The slice between two entries is the frame of the record.
pub slice-place :
    (es : List Bytes) (i : ℕ) (e : Bytes)
    → get_elem? es i ≡ some e
    → slice (body es) (place es i) (place es (suc i)) ≡ some (frame e)
unfolding slice
slice-place es i e h =
    let (split, next, fits) = place_split es i e h in
    let len : place es (suc i) - place es i ≡ length (frame e) = omega (arith, next) in
    let ordered : leb (place es i) (place es (suc i)) ≡ true = ground (arith, next) in
    let inside : leb (place es (suc i)) (length (body es)) ≡ true = ground (arith, fits) in
    rw (ordered, inside, split, len) (ap some (take-append (frame e) (body (drop (suc i) es))))

module _ (d : RangeDecoder) (es : List Bytes) where
  module _ (same_table : d.offsets ≡ table 0 es) (fits : length (body es) ≤ u32_max) where
    -- The decoder's offsets are the places of the records.
    pub offset_at-place : (i : ℕ) → i ≤ length es → offset_at d i ≡ place es i
    unfolding offset_at
    offset_at-place i h = rw same_table (table-entry 0 es i h (omega arith) ∙ omega arith)

    pub any_descent-false :
        (count index : ℕ) → count + index ≤ length es → any_descent d count index ≡ false
    unfolding any_descent
    any_descent-false zero index h = refl
    any_descent-false (suc count) index h = ground (
      arith,
      offset_at-place index (omega arith),
      offset_at-place (index + 1) (omega arith),
      place_mono es index,
      ap (place es) (add-one index),
      any_descent-false count (index + 1) (omega arith),
    )

-- The frame of an encoding reads back as the encoding, and nothing is left.
module _ (e : Bytes) (fits : length e ≤ u32_max) where
  abbrev frame_start : Reader
  frame_start = reader_new (frame e)

  frame-Rests : Rests frame_start (be_bytes 4 (length e) ++ e)
  unfolding frame
  frame-Rests = record { at = refl; within = omega arith; fits = omega (arith, length-frame e) }

  frame_body-Rests : Rests (advance frame_start 4) (e ++ [])
  frame_body-Rests = rw append-nil (be-Rests frame_start e 4 (length e) frame-Rests)

  abbrev frame_end : Reader
  frame_end = advance (advance frame_start 4) (length e)

  pub read_frame-frame : read_frame frame_start ≡ ok (e, frame_end)
  unfolding read_frame read_count array
  read_frame-frame =
      bind_step read_count take_len frame_start
        (u32_prefix frame_start e (length e) fits frame-Rests)
      ∙ array_prefix (advance frame_start 4) [] (length e) e refl frame_body-Rests

  pub finish-frame : finish frame_end ≡ ok tt
  finish-frame =
      finish_empty frame_end
        (advance-Rests (advance frame_start 4) e [] (length e) refl frame_body-Rests)
