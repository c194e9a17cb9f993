-- ===== src/Chain/Codec.antt =====
-- The Reader and the writers of crates/chain/src/codec/mod.rs.
use ztreamer.Prelude.{
  ℕ, zero, suc, List, [], ◌∷◌, ◌^◌, ◌≤◌, ◌<◌, ◌≡◌, sym, ◌∙◌, Bool, true, false, Option, some, ◌++◌,
  arith, ◌==◌, if◌then◌else◌, length, Bytes, Result, ok, err, option_bind, u32_max, u64_max,
  try_into,
}
use ztreamer.Chain.Types.{CodecError, truncated, bad_length, trailing_bytes, invalid_record}
use ztreamer.Chain.Endian.{be_bytes, from_be, from_be-be_bytes, length-be_bytes}
use ztreamer.Chain.Cursor.{
  Reader, Read, ◌>>=ᵣ◌, bind_step, pure, fail, take_with, remaining, Rests, advance, advance-Rests,
  take_prefix,
}

-- `Reader::new`
abbrev pub reader_new : Bytes → Reader
reader_new bytes = record { bytes = bytes; offset = 0 }

unfoldable pub take_len : ℕ → Read CodecError Bytes
take_len = take_with (λ _. bad_length) (λ _. truncated)

-- `Reader::array::<N>`
unfoldable pub array : ℕ → Read CodecError Bytes
array = take_len

-- `Reader::u8` takes the one byte of the array.
unfoldable pub read_u8 : Read CodecError ℕ
read_u8 = array 1 >>=ᵣ λ b. pure (from_be b)

unfoldable pub read_u16 : Read CodecError ℕ
read_u16 = array 2 >>=ᵣ λ b. pure (from_be b)

unfoldable pub read_u32 : Read CodecError ℕ
read_u32 = array 4 >>=ᵣ λ b. pure (from_be b)

unfoldable pub read_u64 : Read CodecError ℕ
read_u64 = array 8 >>=ᵣ λ b. pure (from_be b)

unfoldable pub read_count : Read CodecError ℕ
read_count = read_u32

-- `Reader::bytes`
unfoldable pub read_bytes : Read CodecError Bytes
read_bytes = read_count >>=ᵣ take_len

unfoldable pub finish : Reader → Result CodecError (Unit {0})
finish r = if remaining r == 0 then ok tt else err trailing_bytes

unfoldable pub take_bool : Read CodecError Bool
take_bool = read_u8 >>=ᵣ λ b.
    if b == 0 then pure false else if b == 1 then pure true else fail invalid_record

-- `(0..count).map(|_| item(reader)).collect()`
unfoldable pub read_items {ℓ} : {A : Type ℓ} → ℕ → Read CodecError A → Read CodecError (List A)
read_items zero item = pure []
read_items (suc count) item = item >>=ᵣ λ x. read_items count item >>=ᵣ λ xs. pure (x ∷ xs)

-- What a loop over the values appends.
abbrev pub put_items {ℓ} : {A : Type ℓ} → (A → Bytes) → List A → Bytes
put_items write [] = []
put_items write (x ∷ xs) = write x ++ put_items write xs

-- `u8::from`
abbrev pub of_bool : Bool → ℕ
of_bool false = 0
of_bool true = 1

unfoldable pub put_u32 : ℕ → Bytes
put_u32 n = be_bytes 4 n

-- `put_count` panics on a count that is no u32; `none` is the panic.
unfoldable pub put_count : ℕ → Option Bytes
put_count n = option_bind (try_into u32_max n) λ c. some (be_bytes 4 c)

unfoldable pub put_bytes : Bytes → Option Bytes
put_bytes value = option_bind (put_count (length value)) λ head. some (head ++ value)

module _ (r : Reader) (rest : Bytes) where
  pub array_prefix :
      (n : ℕ) (xs : Bytes) → n ≡ length xs → Rests r (xs ++ rest) → array n r ≡ ok (xs, advance r n)
  unfolding array take_len
  array_prefix n xs e h = take_prefix (λ _. bad_length) (λ _. truncated) r n xs rest e h

  int_prefix :
      (k n : ℕ)
      → n < 256 ^ k
      → Rests r (be_bytes k n ++ rest)
      → (array k >>=ᵣ λ b. pure (from_be b)) r ≡ ok (n, advance r k)
  int_prefix k n lt h =
      bind_step (array k) (λ b. pure (from_be b)) r
        (array_prefix k (be_bytes k n) (sym (length-be_bytes k n)) h)
      ∙ rw (from_be-be_bytes k n lt)

  pub u8_prefix :
      (n : ℕ) → n < 256 → Rests r (be_bytes 1 n ++ rest) → read_u8 r ≡ ok (n, advance r 1)
  unfolding read_u8
  u8_prefix n lt h = int_prefix 1 n lt h

  pub u16_prefix :
      (n : ℕ) → n < 65536 → Rests r (be_bytes 2 n ++ rest) → read_u16 r ≡ ok (n, advance r 2)
  unfolding read_u16
  u16_prefix n lt h = int_prefix 2 n lt h

  pub u32_prefix :
      (n : ℕ) → n ≤ u32_max → Rests r (be_bytes 4 n ++ rest) → read_u32 r ≡ ok (n, advance r 4)
  unfolding read_u32
  u32_prefix n lt h = int_prefix 4 n (omega arith) h

  pub u64_prefix :
      (n : ℕ) → n ≤ u64_max → Rests r (be_bytes 8 n ++ rest) → read_u64 r ≡ ok (n, advance r 8)
  unfolding read_u64
  u64_prefix n lt h = int_prefix 8 n (omega arith) h

  pub be-Rests : (k n : ℕ) → Rests r (be_bytes k n ++ rest) → Rests (advance r k) rest
  be-Rests k n h = advance-Rests r (be_bytes k n) rest k (sym (length-be_bytes k n)) h
