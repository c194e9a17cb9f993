-- ===== src/Chain/Cursor.antt =====
-- A cursor over an encoded value: the Reader of crates/chain/src/codec/mod.rs, and its twin in
-- crates/chain/src/parser.rs, which differ in the errors of `take` only.
use ztreamer.Prelude.{
  ℕ, ◌+◌, ◌-◌, ◌≤◌, ◌≡◌, refl, ap, ◌∙◌, true, ◌&&◌, Option, none, some, ◌++◌, arith, leb,
  if◌then◌else◌, length, take, drop, length-append, length-take, length-drop, drop-drop,
  take-append, drop-append, Bytes, Result, ok, err, ◌>>=◌, ok_or, usize_max, word_add,
}

pub record Reader : Type 0 where
  pub bytes : Bytes
  pub offset : ℕ

-- A method that reads through `&mut self` and may fail.
abbrev pub Read {ℓ} : Type 0 → Type ℓ → Type ℓ
Read E A = Reader → Result E (A × Reader)

module _ {ℓ κ} {E : Type 0} {A : Type ℓ} {B : Type κ} where
  abbrev pub continue : Result E (A × Reader) → (A → Read E B) → Result E (B × Reader)
  continue (ok (a, r)) f = f a r
  continue (err e) f = err e

  infixl 5 ◌>>=ᵣ◌
  abbrev pub ◌>>=ᵣ◌ : Read E A → (A → Read E B) → Read E B
  ◌>>=ᵣ◌ m f r = continue (m r) f

  -- A read that succeeds is passed over.
  pub bind_step :
      (m : Read E A) (f : A → Read E B) (r : Reader) {a : A} {r' : Reader}
      → m r ≡ ok (a, r')
      → (m >>=ᵣ f) r ≡ f a r'
  bind_step m f r e = ap (λ x. continue x f) e

  -- A read of two parts that succeeds has read both.
  pub bind_inv :
      (m : Read E A) (f : A → Read E B) (r : Reader) {b : B} {r' : Reader}
      → (m >>=ᵣ f) r ≡ ok (b, r')
      → (a : A) × (s : Reader) × (m r ≡ ok (a, s)) × (f a s ≡ ok (b, r'))
  bind_inv m f r {b} {r'} h = go (m r) refl h
    where
      go :
          (x : Result E (A × Reader))
          → m r ≡ x
          → continue x f ≡ ok (b, r')
          → (a : A) × (s : Reader) × (m r ≡ ok (a, s)) × (f a s ≡ ok (b, r'))
      go (ok (a, s)) e k = (a, s, e, k)
      go (err x) e k = cc

module _ {ℓ} {E : Type 0} {A : Type ℓ} where
  abbrev pub pure : A → Read E A
  pure a r = ok (a, r)

  abbrev pub fail : E → Read E A
  fail e r = err e

-- `bytes.get(from..to)`
unfoldable pub slice : Bytes → ℕ → ℕ → Option Bytes
slice bytes from to =
    if leb from to && leb to (length bytes) then some (take (to - from) (drop from bytes)) else none

module _ {E : Type 0} (overflow : ℕ → E) (short : ℕ → E) where
  -- `Reader::take` of either module; the errors are given the offset.
  unfoldable pub take_with : ℕ → Read E Bytes
  take_with len r = ok_or (word_add usize_max r.offset len) (overflow r.offset) >>= λ end.
      ok_or (slice r.bytes r.offset end) (short r.offset) >>= λ value.
      ok (value, record r { offset = end })

-- The bytes that are left.
abbrev pub remaining : Reader → ℕ
remaining r = length r.bytes - r.offset

-- The reader stands before `rest`, in a value that fits the address space.
pub record Rests (r : Reader) (rest : Bytes) : Type 0 where
  pub at : drop r.offset r.bytes ≡ rest
  pub within : r.offset ≤ length r.bytes
  pub fits : length r.bytes ≤ usize_max

abbrev pub advance : Reader → ℕ → Reader
advance r n = record { bytes = r.bytes; offset = r.offset + n }

-- The reader before `xs ++ rest`.
module _ (r : Reader) (xs rest : Bytes) where
  pub room : Rests r (xs ++ rest) → r.offset + length xs + length rest ≡ length r.bytes
  room h =
      omega (arith, h.within, ap length h.at, length-append xs rest, length-drop r.offset r.bytes)

  slice_prefix : Rests r (xs ++ rest) → slice r.bytes r.offset (r.offset + length xs) ≡ some xs
  unfolding slice
  slice_prefix h =
      let e : r.offset + length xs - r.offset ≡ length xs = omega arith in
      let p : leb r.offset (r.offset + length xs) ≡ true = ground arith in
      let q : leb (r.offset + length xs) (length r.bytes) ≡ true = ground (arith, room h) in
      rw (p, q, e, h.at) (ap some (take-append xs rest))

  pub advance-Rests : (n : ℕ) → n ≡ length xs → Rests r (xs ++ rest) → Rests (advance r n) rest
  advance-Rests n e h = record {
    at = rw e (drop-drop r.offset (length xs) r.bytes ∙ rw h.at (drop-append xs rest));
    within = omega (arith, room h);
    fits = h.fits;
  }

module _ {E : Type 0} (overflow short : ℕ → E) (r : Reader) where
  -- A `take` of what stands next succeeds.
  pub take_prefix :
      (n : ℕ) (xs rest : Bytes)
      → n ≡ length xs
      → Rests r (xs ++ rest)
      → take_with overflow short n r ≡ ok (xs, advance r n)
  unfolding take_with
  take_prefix n xs rest e h =
      let p : leb (r.offset + length xs) usize_max ≡ true =
        ground (arith, room r xs rest h, h.fits) in
      rw (e, p, slice_prefix r xs rest h)

  -- A `take` that succeeds has moved by the length asked for, inside the value, and returns that
  -- many bytes.
  pub take_inv :
      (n : ℕ) (value : Bytes) (r' : Reader)
      → take_with overflow short n r ≡ ok (value, r')
      → (r' ≡ advance r n)
        × (r.offset + n ≤ length r.bytes)
        × (value ≡ take n (drop r.offset r.bytes))
        × (length value ≡ n)
  unfolding take_with slice
  take_inv n value r' h =
      let e : r.offset + n - r.offset ≡ n = omega arith in
      let (p, q, v) = parts h in
      (
        p,
        q,
        v ∙ rw e,
        ground (
          arith,
          v,
          e,
          length-take (r.offset + n - r.offset) (drop r.offset r.bytes),
          length-drop r.offset r.bytes,
          q,
        ),
      )
    where
      parts :
          take_with overflow short n r ≡ ok (value, r')
          → (r' ≡ advance r n)
            × (r.offset + n ≤ length r.bytes)
            × (value ≡ take (r.offset + n - r.offset) (drop r.offset r.bytes))
      parts h = ground arith
