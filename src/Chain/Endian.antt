-- ===== src/Chain/Endian.antt =====
-- Integers as byte arrays: `to_be_bytes`, `from_be_bytes`, `from_le_bytes` of the standard library.
use ztreamer.Prelude.{
  ℕ, zero, suc, ◌+◌, ◌*◌, ◌/◌, ◌%◌, ◌^◌, ◌<◌, ◌≡◌, refl, ap, ◌∙◌, [], ◌∷◌, arith, length, All,
  length-append, All-append, Bytes,
}
use mathlib.Core.List.{reverse, reverse-cons, reverse-reverse}
use native.Mathlib.Nat.{pow-suc}

abbrev pub IsByte : ℕ → Type 0
IsByte b = b < 256

unfoldable pub le_bytes : ℕ → ℕ → Bytes
le_bytes zero n = []
le_bytes (suc k) n = n % 256 ∷ le_bytes k (n / 256)

unfoldable pub from_le : Bytes → ℕ
from_le [] = 0
from_le (b ∷ bs) = b + 256 * from_le bs

abbrev pub be_bytes : ℕ → ℕ → Bytes
be_bytes k n = reverse (le_bytes k n)

abbrev pub from_be : Bytes → ℕ
from_be bs = from_le (reverse bs)

pub length-le_bytes : (k n : ℕ) → length (le_bytes k n) ≡ k
unfolding le_bytes
length-le_bytes zero n = refl
length-le_bytes (suc k) n = ap suc (length-le_bytes k (n / 256))

div_bound : (k n : ℕ) → n < 256 ^ suc k → n / 256 < 256 ^ k
div_bound k n h = omega (arith, pow-suc 256 k)

pub from_le-le_bytes : (k n : ℕ) → n < 256 ^ k → from_le (le_bytes k n) ≡ n
unfolding le_bytes from_le
from_le-le_bytes zero n h = omega arith
from_le-le_bytes (suc k) n h = omega (arith, from_le-le_bytes k (n / 256) (div_bound k n h))

pub from_be-be_bytes : (k n : ℕ) → n < 256 ^ k → from_be (be_bytes k n) ≡ n
from_be-be_bytes k n h = rw reverse-reverse (from_le-le_bytes k n h)

length-reverse : (xs : Bytes) → length (reverse xs) ≡ length xs
length-reverse [] = refl
length-reverse (x ∷ xs) =
    ap length (reverse-cons x xs)
    ∙ length-append (reverse xs) (x ∷ [])
    ∙ omega (arith, length-reverse xs)

pub length-be_bytes : (k n : ℕ) → length (be_bytes k n) ≡ k
length-be_bytes k n = length-reverse (le_bytes k n) ∙ length-le_bytes k n

pub from_le-lt : (bs : Bytes) → All IsByte bs → from_le bs < 256 ^ length bs
unfolding from_le
from_le-lt [] h = omega arith
from_le-lt (b ∷ bs) h = omega (arith, from_le-lt bs h.1, pow-suc 256 (length bs))

All-reverse : (bs : Bytes) → All IsByte bs → All IsByte (reverse bs)
All-reverse [] h = tt
All-reverse (b ∷ bs) h =
    rw (reverse-cons b bs) (All-append IsByte (reverse bs) (b ∷ []) (All-reverse bs h.1) (h.0, tt))

pub from_be-lt : (bs : Bytes) → All IsByte bs → from_be bs < 256 ^ length bs
from_be-lt bs h = rw (← length-reverse bs) (from_le-lt (reverse bs) (All-reverse bs h))
