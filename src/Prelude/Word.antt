-- ===== src/Prelude/Word.antt =====
-- Machine words: the checked and saturating operations of `u32`, `u64` and `usize` (64 bits).
use Prim.Native.Nat.{ℕ, ◌+◌, ◌-◌, ◌*◌, ◌%◌, ◌^◌}
use mathlib.Core.Option.{Option, none, some}
use ztreamer.Prelude.Tests.{leb, if◌then◌else◌}

abbrev pub u32_max : ℕ
u32_max = 0xffff_ffff

abbrev pub u64_max : ℕ
u64_max = 0xffff_ffff_ffff_ffff

abbrev pub usize_max : ℕ
usize_max = u64_max

-- `try_from` into a narrower unsigned type with the largest value `top`.
abbrev pub try_into : ℕ → ℕ → Option ℕ
try_into top n = if leb n top then some n else none

-- `checked_add`, `checked_mul` and `checked_sub` of the unsigned type with the largest value `top`.
abbrev pub word_add : ℕ → ℕ → ℕ → Option ℕ
word_add top a b = try_into top (a + b)

-- The plain `+` of a `usize`, which wraps in a release build.
abbrev pub usize_add : ℕ → ℕ → ℕ
usize_add a b = (a + b) % 2 ^ 64

abbrev pub word_mul : ℕ → ℕ → ℕ → Option ℕ
word_mul top a b = try_into top (a * b)

abbrev pub word_sub : ℕ → ℕ → Option ℕ
word_sub a b = if leb b a then some (a - b) else none
