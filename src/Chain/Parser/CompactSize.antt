-- ===== src/Chain/Parser/CompactSize.antt =====
-- The compact sizes of the parser, against the encoding written directly.
use ztreamer.Prelude.{
  ℕ, ◌+◌, ◌^◌, ◌≤◌, ◌<◌, ◌≡◌, refl, sym, ap, ◌∙◌, true, false, inl, inr, Bool-cases, [], ◌++◌,
  arith, ltb, leb, if◌then◌else◌, length, Bytes, Result, ok,
}
use ztreamer.Chain.Endian.{le_bytes, from_le, from_le-le_bytes, length-le_bytes}
use ztreamer.Chain.Cursor.{
  Reader, ◌>>=ᵣ◌, bind_step, pure, fail, Rests, advance, advance-Rests, take_prefix,
}
use ztreamer.Chain.Parser.Input.{
  TransactionParseError, truncated, length_limit, take_bytes, take_array, le_u32, canonical,
  compact_value, compact_size,
}

-- What stands behind the first byte, and the first byte.
abbrev pub compact_tail : ℕ → Bytes
compact_tail n =
    if ltb n 253
    then []
    else if ltb n 0x1_0000
    then le_bytes 2 n
    else if ltb n 0x1_0000_0000
    then le_bytes 4 n
    else le_bytes 8 n

abbrev pub compact_head : ℕ → ℕ
compact_head n =
    if ltb n 253
    then n
    else if ltb n 0x1_0000
    then 253
    else if ltb n 0x1_0000_0000
    then 254
    else 255

-- The shortest compact size of a number.
unfoldable pub compact_bytes : ℕ → Bytes
compact_bytes n = le_bytes 1 (compact_head n) ++ compact_tail n

take_array_prefix :
    (r : Reader) (n : ℕ) (xs rest : Bytes)
    → n ≡ length xs
    → Rests r (xs ++ rest)
    → take_array n r ≡ ok (xs, advance r n)
unfolding take_array take_bytes
take_array_prefix r n xs rest e h = take_prefix length_limit truncated r n xs rest e h

canonical_ok :
    (start least value : ℕ) (r : Reader)
    → least ≤ value
    → canonical start least value r ≡ ok (value, r)
unfolding canonical
canonical_ok start least value r h = ground (arith, h)

-- The `bytes` bytes of a canonical value.
long_prefix :
    (start least k n : ℕ) (r : Reader) (rest : Bytes)
    → least ≤ n
    → n < 256 ^ k
    → Rests r (le_bytes k n ++ rest)
    → (take_array k >>=ᵣ λ b. canonical start least (from_le b)) r ≡ ok (n, advance r k)
long_prefix start least k n r rest low high h =
    bind_step (take_array k) (λ b. canonical start least (from_le b)) r
      (take_array_prefix r k (le_bytes k n) rest (sym (length-le_bytes k n)) h)
    ∙ rw (from_le-le_bytes k n high) (canonical_ok start least n (advance r k) low)

le_u32_prefix :
    (r : Reader) (n : ℕ) (rest : Bytes)
    → n < 256 ^ 4
    → Rests r (le_bytes 4 n ++ rest)
    → le_u32 r ≡ ok (n, advance r 4)
unfolding le_u32
le_u32_prefix r n rest high h =
    bind_step (take_array 4) (λ b. pure (from_le b)) r
      (take_array_prefix r 4 (le_bytes 4 n) rest (sym (length-le_bytes 4 n)) h)
    ∙ rw (from_le-le_bytes 4 n high) refl

module _ (start n : ℕ) (r : Reader) (rest : Bytes) (h : Rests r (compact_tail n ++ rest))
    (fits : n < 2 ^ 64) where
  abbrev IsRead : Type 0
  IsRead = compact_value start (compact_head n) r ≡ ok (n, advance r (length (compact_tail n)))

  short_value : (k : ℕ) → ltb k 253 ≡ true → compact_value start k r ≡ ok (k, r)
  unfolding compact_value
  short_value k a = rw (a, compact_value) refl

  one_byte : ltb n 253 ≡ true → IsRead
  one_byte a =
      let same : r.offset ≡ r.offset + 0 = omega arith in
      let here : Reader → Result TransactionParseError (ℕ × Reader) = λ s. ok (n, s) in
      rw a (short_value n a ∙ ap (λ k. here (record { bytes = r.bytes; offset = k })) same)

  two_bytes : ltb n 253 ≡ false → ltb n 0x1_0000 ≡ true → IsRead
  unfolding compact_value
  two_bytes a b =
      rw (a, b, length-le_bytes 2 n)
        (long_prefix start 253 2 n r rest (ground (arith, a)) (ground (arith, b)) (rw (a, b) at h))

  four_bytes : ltb n 253 ≡ false → ltb n 0x1_0000 ≡ false → ltb n 0x1_0000_0000 ≡ true → IsRead
  unfolding compact_value
  four_bytes a b c =
      rw (a, b, c, length-le_bytes 4 n)
        (bind_step le_u32 (λ value. canonical start 0x1_0000 value) r
            (le_u32_prefix r n rest (ground (arith, c)) (rw (a, b, c) at h))
          ∙ canonical_ok start 0x1_0000 n (advance r 4) (ground (arith, b)))

  eight_bytes : ltb n 253 ≡ false → ltb n 0x1_0000 ≡ false → ltb n 0x1_0000_0000 ≡ false → IsRead
  unfolding compact_value
  eight_bytes a b c =
      rw (a, b, c, length-le_bytes 8 n)
        (long_prefix start 0x1_0000_0000 8 n r rest (ground (arith, c)) (omega (arith, fits))
          (rw (a, b, c) at h))

  compact_value_prefix : IsRead
  compact_value_prefix = elim (Bool-cases (ltb n 253)) [
    | inl a ↦ one_byte a
    | inr a ↦ elim (Bool-cases (ltb n 0x1_0000)) [
      | inl b ↦ two_bytes a b
      | inr b ↦ elim (Bool-cases (ltb n 0x1_0000_0000)) [
        | inl c ↦ four_bytes a b c
        | inr c ↦ eight_bytes a b c
      ]
    ]
  ]

compact_head-lt : (n : ℕ) → compact_head n < 256 ^ 1
compact_head-lt n = ground arith

length-compact_bytes : (n : ℕ) → length (compact_bytes n) ≡ 1 + length (compact_tail n)
unfolding compact_bytes le_bytes
length-compact_bytes n = omega arith

-- The reader before the first byte, and behind it.
first_Rests :
    (n : ℕ) (r : Reader) (rest : Bytes)
    → Rests r (compact_bytes n ++ rest)
    → Rests r (le_bytes 1 (compact_head n) ++ (compact_tail n ++ rest))
unfolding compact_bytes le_bytes
first_Rests n r rest h = h

limited :
    (max start n : ℕ) (s : Reader)
    → n ≤ max
    → (if leb n max then pure n else fail (length_limit start)) s ≡ ok (n, s)
limited max start n s le = let fits : leb n max ≡ true = ground (arith, le) in rw fits refl

-- The shortest form of a number up to `max`, which is a u64, reads back as the number, and no byte
-- behind it is read.
pub compact_size-compact_bytes :
    (max n : ℕ) (r : Reader) (rest : Bytes)
    → n ≤ max
    → n < 2 ^ 64
    → Rests r (compact_bytes n ++ rest)
    → compact_size max r ≡ ok (n, advance r (length (compact_bytes n)))
unfolding compact_size
compact_size-compact_bytes max n r rest le fits h =
    let h₁ = first_Rests n r rest h in
    let h₂ =
      advance-Rests r (le_bytes 1 (compact_head n)) (compact_tail n ++ rest) 1
        (sym (length-le_bytes 1 (compact_head n))) h₁ in
    let first =
      take_array_prefix r 1 (le_bytes 1 (compact_head n)) (compact_tail n ++ rest)
        (sym (length-le_bytes 1 (compact_head n))) h₁ in
    let value = compact_value_prefix r.offset n (advance r 1) rest h₂ fits in
    let end : r.offset + 1 + length (compact_tail n) ≡ r.offset + length (compact_bytes n) =
      omega (arith, length-compact_bytes n) in
    rw (first, from_le-le_bytes 1 (compact_head n) (compact_head-lt n), value, sym end)
      (limited max r.offset n (advance (advance r 1) (length (compact_tail n))) le)
