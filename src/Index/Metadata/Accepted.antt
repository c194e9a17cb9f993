-- ===== src/Index/Metadata/Accepted.antt =====
-- What decode_state of crates/index/src/index/metadata.rs accepts.
use ztreamer.Prelude.{
  ok_inj, ℕ, zero, suc, ◌+◌, ◌^◌, ◌≤◌, ◌<◌, ◌≡◌, refl, Bool, false, not, ◌||◌, Option, none, some,
  [], ◌∷◌, arith, length, get_elem?, take, drop, length-take, length-drop, All, Bytes, ok,
  >>=-eq-ok, guard_inv, u32_max, if◌then◌else◌, ◌==◌, ltb,
}
use mathlib.Core.Path.{subst}
use ztreamer.Chain.Endian.{IsByte, from_be, from_be-lt}
use ztreamer.Index.Metadata.StateRow.{IsSealed, IsVerified, IsState}
use ztreamer.Index.Error.{metadata}
use ztreamer.Index.State.{BlockId, IndexState}
use ztreamer.Index.Metadata.{
  state_len, read_verified, bad_sealed, bad_verified, u32_at, byte_at, decode_state,
}

IsSealed-inv : (sealed : Option ℕ) (tip : ℕ) → bad_sealed sealed tip ≡ false → IsSealed sealed tip
IsSealed-inv none tip h = tt
IsSealed-inv (some s) tip h = ground arith

IsVerified-inv :
    (verified sealed : Option ℕ) → bad_verified verified sealed ≡ false → IsVerified verified sealed
IsVerified-inv none sealed h = tt
IsVerified-inv (some v) none h = absurd (cc h)
IsVerified-inv (some v) (some s) h = ground arith

All-take : (n : ℕ) (bytes : Bytes) → All IsByte bytes → All IsByte (take n bytes)
All-take zero bytes h = tt
All-take (suc n) [] h = tt
All-take (suc n) (b ∷ bs) h = (h.0, All-take n bs h.1)

All-drop : (n : ℕ) (bytes : Bytes) → All IsByte bytes → All IsByte (drop n bytes)
All-drop zero bytes h = h
All-drop (suc n) [] h = tt
All-drop (suc n) (b ∷ bs) h = All-drop n bs h.1

word_lt :
    (bytes : Bytes)
    → All IsByte bytes
    → (n start : ℕ) → start + n ≤ length bytes
    → from_be (take n (drop start bytes)) < 256 ^ n
word_lt bytes small n start room =
    let sized : length (take n (drop start bytes)) ≡ n =
      omega (arith, length-take n (drop start bytes), length-drop start bytes) in
    subst (λ k. from_be (take n (drop start bytes)) < 256 ^ k) sized
      (from_be-lt (take n (drop start bytes))
        (All-take n (drop start bytes) (All-drop start bytes small)))

u32_at-le :
    (bytes : Bytes)
    → All IsByte bytes
    → (start : ℕ) → start + 4 ≤ length bytes
    → u32_at bytes start ≤ u32_max
u32_at-le bytes small start room = omega (arith, word_lt bytes small 4 start room)

long_enough :
    (version : Option ℕ) (n expected : ℕ) → state_len version ≡ ok expected → n ≡ expected → 62 ≤ n
long_enough none n expected h e = absurd (cc h)
long_enough (some v) n expected h e = ground arith

sized_inv : (b : Bool) (n expected : ℕ) → (not (n == expected) || b) ≡ false → n ≡ expected
sized_inv b n expected h = ground arith

-- Where the decoder accepts a row, the state has a tip and keeps the rules of the index: its sealed and
-- verified heights end ranges, in order below the tip.
pub decode_state-IsState :
    (bytes : Bytes) (s : IndexState)
    → All IsByte bytes
    → decode_state bytes ≡ ok s
    → (tip : BlockId) × IsState tip s
unfolding decode_state
decode_state-IsState bytes s small h =
    let sealed : Option ℕ = if byte_at bytes 37 == 1 then some (u32_at bytes 38) else none in
    let (expected, first, h₁) = >>=-eq-ok (state_len (get_elem? bytes 0)) _ h in
    let (sized, h₂) =
      guard_inv (not (length bytes == expected) || ltb 1 (byte_at bytes 37)) metadata _ h₁ in
    let (ends, h₃) = guard_inv (bad_sealed sealed (u32_at bytes 1)) metadata _ h₂ in
    let (verified, read, h₄) = >>=-eq-ok (read_verified bytes (get_elem? bytes 62)) _ h₃ in
    let (good, made) = guard_inv (bad_verified verified sealed) metadata _ h₄ in
    let long : 62 ≤ length bytes =
      long_enough (get_elem? bytes 0) (length bytes) expected first
        (sized_inv (ltb 1 (byte_at bytes 37)) (length bytes) expected sized) in
    let built : IsState (record { height = u32_at bytes 1; hash = take 32 (drop 5 bytes) })
        (record {
          durable_tip = some (record { height = u32_at bytes 1; hash = take 32 (drop 5 bytes) });
          sealed_through = sealed;
          verified_through = verified;
          generation = from_be (take 8 (drop 42 bytes));
          tree_sizes = record {
            sapling = u32_at bytes 50;
            orchard = u32_at bytes 54;
            ironwood = u32_at bytes 58;
          };
        }) =
      record {
        at = refl;
        height = u32_at-le bytes small 1 (omega arith);
        hash = omega (arith, length-take 32 (drop 5 bytes), length-drop 5 bytes);
        sealed = IsSealed-inv sealed (u32_at bytes 1) ends;
        verified = IsVerified-inv verified sealed good;
        generation = omega (arith, word_lt bytes small 8 42 (omega arith));
        sizes = record {
          sapling_fits = u32_at-le bytes small 50 (omega arith);
          orchard_fits = u32_at-le bytes small 54 (omega arith);
          ironwood_fits = u32_at-le bytes small 58 (omega arith);
        };
      } in
    (
      record { height = u32_at bytes 1; hash = take 32 (drop 5 bytes) },
      subst (IsState (record { height = u32_at bytes 1; hash = take 32 (drop 5 bytes) }))
          (ok_inj _ s made) built,
    )
