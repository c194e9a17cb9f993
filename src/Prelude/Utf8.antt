-- ===== src/Prelude/Utf8.antt =====
-- `String::from_utf8` of the standard library: a string is its bytes, and this tells which bytes are one.
use Prim.Native.Nat.{ℕ, zero, suc}
use mathlib.Core.Bool.{Bool, true, false, ◌&&◌}
use mathlib.Core.Option.{Option, none, some}
use mathlib.Core.List.{[], ◌∷◌}
use ztreamer.Prelude.Tests.{ltb, leb, ◌==◌, if◌then◌else◌}
use ztreamer.Prelude.Lists.{Bytes}

-- How many bytes follow a first byte, and the bounds of the next one.
abbrev leading : ℕ → Option (ℕ × ℕ × ℕ)
leading b =
    if ltb b 0x80
    then some (0, 0x80, 0xbf)
    else if ltb b 0xc2
    then none
    else if ltb b 0xe0
    then some (1, 0x80, 0xbf)
    else if b == 0xe0
    then some (2, 0xa0, 0xbf)
    else if b == 0xed
    then some (2, 0x80, 0x9f)
    else if ltb b 0xf0
    then some (2, 0x80, 0xbf)
    else if b == 0xf0
    then some (3, 0x90, 0xbf)
    else if ltb b 0xf4
    then some (3, 0x80, 0xbf)
    else if b == 0xf4
    then some (3, 0x80, 0x8f)
    else none

-- `left` bytes of a character are missing, the next one within the bounds.
unfoldable pub utf8_from : ℕ → ℕ → ℕ → Bytes → Bool
utf8_from zero lo hi [] = true
utf8_from (suc left) lo hi [] = false
utf8_from zero lo hi (b ∷ bs) = elim (leading b) [
  | none ↦ false
  | some (left, lo', hi') ↦ utf8_from left lo' hi' bs
]
utf8_from (suc left) lo hi (b ∷ bs) = (leb lo b && leb b hi) && utf8_from left 0x80 0xbf bs

unfoldable pub is_utf8 : Bytes → Bool
unfolding utf8_from
is_utf8 bytes = utf8_from 0 0x80 0xbf bytes
