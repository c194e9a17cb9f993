-- ===== src/Chain/Range/Encode.antt =====
-- write_range puts offsets and lengths into place after the fact, and writes the layout of Spec.
use ztreamer.Prelude.{
  ℕ, zero, suc, ◌+◌, ◌-◌, ◌*◌, ◌≤◌, ◌≡◌, refl, sym, ap, ◌∙◌, true, List, [], ◌∷◌, ◌++◌, arith, leb,
  length, drop, length-append, drop-drop, take-append, drop-append, Bytes, ok, ok-step, u32_max,
}
use mathlib.Core.List.{append_assoc, append-nil}
use ztreamer.Chain.Endian.{be_bytes, length-be_bytes}
use ztreamer.Chain.Codec.{put_u32}
use ztreamer.Chain.Range.{RangeRecord, write_at, set_u32, zero_words, write_records}
use ztreamer.Chain.Range.Spec.{frame, body, table, Encodes, length-frame}

pub length-zero_words : (n : ℕ) → length (zero_words n) ≡ 4 * n
unfolding zero_words
length-zero_words zero = omega arith
length-zero_words (suc n) = omega (arith, length-zero_words n)

drop_past : (p m q : Bytes) (n : ℕ) → n ≡ length m → drop (length p + n) (p ++ (m ++ q)) ≡ q
drop_past p m q n e =
    rw (e, drop-drop (length p) (length m) (p ++ (m ++ q)), drop-append p (m ++ q), drop-append m q)

write_at_mid :
    (p m q xs : Bytes)
    → length xs ≡ length m
    → write_at (p ++ (m ++ q)) (length p) xs ≡ p ++ (xs ++ q)
unfolding write_at
write_at_mid p m q xs e = rw (take-append p (m ++ q), drop_past p m q (length xs) e)

set_u32_mid :
    (p m q : Bytes) (v : ℕ)
    → v ≤ u32_max
    → length m ≡ 4
    → set_u32 (p ++ (m ++ q)) (length p) v ≡ ok (p ++ (be_bytes 4 v ++ q))
unfolding set_u32
set_u32_mid p m q v fits e =
    let t : leb v u32_max ≡ true = ground arith in
    rw (t, write_at_mid p m q (be_bytes 4 v) (length-be_bytes 4 v ∙ sym e))

module _ {R : Type 0} (trait : RangeRecord R) (offsets_start body_start : ℕ) where
  module _ (index : ℕ) (r : R) (rs : List R) (e p z b : Bytes) where
    abbrev marked : Bytes
    marked = p ++ (be_bytes 4 (length b) ++ (z ++ b))

    abbrev unmarked : Bytes
    unmarked = p ++ ((0 ∷ 0 ∷ 0 ∷ 0 ∷ z) ++ b)

    mark :
        offsets_start + index * 4 ≡ length p
        → body_start ≡ length p + 4 + length z
        → length b + length (frame e) ≤ u32_max
        → set_u32 unmarked (offsets_start + index * 4) (length unmarked - body_start) ≡ ok marked
    mark at start fits =
        let value : length unmarked - body_start ≡ length b =
          omega (arith, length-append p (0 ∷ 0 ∷ 0 ∷ 0 ∷ (z ++ b)), length-append z b) in
        rw (at, value) (set_u32_mid p (0 ∷ 0 ∷ 0 ∷ 0 ∷ []) (z ++ b) (length b) (omega arith) refl)

    fill :
        length b + length (frame e) ≤ u32_max
        → set_u32
            ((marked ++ put_u32 0) ++ e)
            (length marked)
            (length ((marked ++ put_u32 0) ++ e) - length (marked ++ put_u32 0))
          ≡ ok (marked ++ frame e)
    unfolding put_u32 frame
    fill fits =
        let value : length ((marked ++ put_u32 0) ++ e) - length (marked ++ put_u32 0) ≡ length e =
          omega (arith, length-append (marked ++ put_u32 0) e) in
        let small : length e ≤ u32_max = omega (arith, length-frame e) in
        rw (value, append_assoc marked (put_u32 0) e)
          (set_u32_mid marked (be_bytes 4 0) e (length e) small (length-be_bytes 4 0))

    moved : marked ++ frame e ≡ (p ++ be_bytes 4 (length b)) ++ (z ++ (b ++ frame e))
    moved = simp append_assoc

    -- One turn of the loop, on a record that encodes to `e`: the table at the end of `p` grows by
    -- the offset of the record, and the body `b` by its frame.
    write_step :
        trait.write_to r ≡ ok e
        → offsets_start + index * 4 ≡ length p
        → body_start ≡ length p + 4 + length z
        → length b + length (frame e) ≤ u32_max
        → write_records trait offsets_start body_start index (r ∷ rs) unmarked
          ≡ write_records trait offsets_start body_start
              (index + 1)
              rs
              ((p ++ be_bytes 4 (length b)) ++ (z ++ (b ++ frame e)))
    unfolding write_records
    write_step w at start fits =
        ok-step _ (mark at start fits)
        ∙ ok-step _ w
        ∙ ok-step _ (fill fits)
        ∙ ap (write_records trait offsets_start body_start (index + 1) rs) moved

  write_end :
      (index : ℕ) (p b : Bytes)
      → offsets_start + index * 4 ≡ length p
      → body_start ≡ length p + 4
      → length b ≤ u32_max
      → write_records trait offsets_start body_start index [] (p ++ ((0 ∷ 0 ∷ 0 ∷ 0 ∷ []) ++ b))
        ≡ ok (p ++ (be_bytes 4 (length b) ++ b))
  unfolding write_records
  write_end index p b at start fits =
      let value : length (p ++ (0 ∷ 0 ∷ 0 ∷ 0 ∷ b)) - body_start ≡ length b =
        omega (arith, length-append p (0 ∷ 0 ∷ 0 ∷ 0 ∷ b)) in
      rw (at, value) (set_u32_mid p (0 ∷ 0 ∷ 0 ∷ 0 ∷ []) b (length b) fits refl)

  -- The loop fills the zeros of the table and appends the framed records.
  pub write_records-layout :
      (rs : List R) (es : List Bytes) (index : ℕ) (p b : Bytes)
      → Encodes trait rs es
      → offsets_start + index * 4 ≡ length p
      → body_start ≡ length p + 4 * (length rs + 1)
      → length b + length (body es) ≤ u32_max
      → write_records trait offsets_start body_start index rs
          (p ++ (zero_words (suc (length rs)) ++ b))
        ≡ ok (p ++ (table (length b) es ++ (b ++ body es)))
  unfolding zero_words table body
  write_records-layout [] [] index p b enc at start fits =
      write_end index p b at (omega arith) (omega arith) ∙ rw append-nil
  write_records-layout [] (e ∷ es) index p b enc at start fits = absurd enc
  write_records-layout (r ∷ rs) [] index p b enc at start fits = absurd enc
  write_records-layout (r ∷ rs) (e ∷ es) index p b enc at start fits =
      let zs = zero_words (suc (length rs)) in
      let p' = p ++ be_bytes 4 (length b) in
      let b' = b ++ frame e in
      let parts = length-append (frame e) (body es) in
      let whole = length-append b (frame e) in
      let longer = length-append p (be_bytes 4 (length b)) in
      let four = length-be_bytes 4 (length b) in
      let zeros = length-zero_words (suc (length rs)) in
      write_step index r rs e p zs b enc.0 at (omega (arith, zeros)) (omega (arith, parts))
      ∙ write_records-layout rs es (index + 1) p' b' enc.1 (omega (arith, longer, four))
          (omega (arith, longer, four)) (omega (arith, parts, whole))
      ∙ rw whole (simp append_assoc)
