-- ===== src/Index/Metadata/StateRow.antt =====
-- The state row: what the decoder accepts, and that it reads back what was written.
use ztreamer.Prelude.{
  ℕ, ◌+◌, ◌%◌, ◌≤◌, ◌≡◌, refl, sym, ap, ◌∙◌, false, Option, none, some, arith, Bytes, ok, u32_max,
  u64_max,
}
use mathlib.Core.Path.{subst}
use ztreamer.Chain.Codec.{of_bool}
use ztreamer.Chain.TreeSizes.{TreeSizes, IsU32Sizes}
use ztreamer.Chain.Types.{range_size}
use ztreamer.Chain.Endian.{le_bytes, from_be-be_bytes, length-be_bytes}
use ztreamer.Chain.Message.RoundTrip.{IsDigest}
use ztreamer.Index.State.{BlockId, IndexState}
use ztreamer.Index.Metadata.{
  bad_sealed, bad_verified, u32_at, is_some, version_of, verified_bytes, unwrap_or_default,
  encode_state, decode_state,
}
use ztreamer.Index.Metadata.RowFields.{row, Reads, row-Reads}

-- The sealed ranges end at the end of a range, at or below the tip.
abbrev pub IsSealed : Option ℕ → ℕ → Type 0
IsSealed none tip = Unit
IsSealed (some s) tip = (s ≤ tip) × (s % range_size ≡ 999)

-- The verified ranges end at the end of a sealed range.
abbrev pub IsVerified : Option ℕ → Option ℕ → Type 0
IsVerified none sealed = Unit
IsVerified (some v) none = ⊥
IsVerified (some v) (some s) = (v ≤ s) × (v % range_size ≡ 999)

-- A state with a tip, as the rules of the index want it, within its integer types.
pub record IsState (tip : BlockId) (s : IndexState) : Type 0 where
  pub at : s.durable_tip ≡ some tip
  pub height : tip.height ≤ u32_max
  pub hash : IsDigest tip.hash
  pub sealed : IsSealed s.sealed_through tip.height
  pub verified : IsVerified s.verified_through s.sealed_through
  pub generation : s.generation ≤ u64_max
  pub sizes : IsU32Sizes s.tree_sizes

good_sealed : (s tip : ℕ) → IsSealed (some s) tip → bad_sealed (some s) tip ≡ false
good_sealed s tip h = ground arith

good_verified : (v s : ℕ) → IsVerified (some v) (some s) → bad_verified (some v) (some s) ≡ false
good_verified v s h = ground arith

module _ (bytes : Bytes) (height : ℕ) (hash : Bytes) (generation : ℕ) (sizes : TreeSizes) where
  state_with : Option ℕ → Option ℕ → IndexState
  state_with sealed verified = record {
    durable_tip = some (record { height = height; hash = hash });
    sealed_through = sealed;
    verified_through = verified;
    generation = generation;
    tree_sizes = sizes;
  }

  decoded :
      (sealed verified : Option ℕ)
      → height ≤ u32_max
      → Reads bytes
          (version_of verified)
          height
          hash
          (of_bool (is_some sealed))
          (unwrap_or_default sealed)
          generation
          sizes
          (verified_bytes verified)
      → IsSealed sealed height
      → IsVerified verified sealed
      → decode_state bytes ≡ ok (state_with sealed verified)
  unfolding decode_state state_with le_bytes
  decoded none none low r hs hv =
      rw
        (
          r.first, r.size, r.flagged, r.tip_height, r.verified_flag, r.tip_hash, r.generation_at,
          r.sapling_at, r.orchard_at, r.ironwood_at,
        )
        refl
  decoded (some s) none low r hs hv =
      rw
        (
          r.first,
          r.size,
          r.flagged,
          r.tip_height,
          r.sealed_at,
          good_sealed s height hs,
          r.verified_flag,
          r.tip_hash,
          r.generation_at,
          r.sapling_at,
          r.orchard_at,
          r.ironwood_at,
        )
        refl
  decoded none (some v) low r hs hv = absurd hv
  decoded (some s) (some v) low r hs hv =
      let last : u32_at bytes 63 ≡ v = r.verified_at ∙ from_be-be_bytes 4 v (omega arith) in
      rw
        (
          r.first,
          r.size ∙ ap (λ n. 63 + n) (length-be_bytes 4 v),
          r.flagged,
          r.tip_height,
          r.sealed_at,
          good_sealed s height hs,
          r.verified_flag,
          last,
          good_verified v s hv,
          r.tip_hash,
          r.generation_at,
          r.sapling_at,
          r.orchard_at,
          r.ironwood_at,
        )
        refl

sealed_fits :
    (sealed : Option ℕ) (tip : ℕ)
    → IsSealed sealed tip
    → tip ≤ u32_max
    → unwrap_or_default sealed ≤ u32_max
sealed_fits none tip h le = omega arith
sealed_fits (some s) tip h le = omega arith

chosen {ℓ κ} :
    {A : Type ℓ} {B : Type κ} (o : Option A) (f : A → B) (a : A) (b : B)
    → o ≡ some a
    → elim o as (λ _. Option B) [ none ↦ none | some x ↦ some (f x) ] ≡ some b
    → f a ≡ b
chosen none f a b e h = absurd (cc h)
chosen (some x) f a b e h = cc

-- A state with its tip, that keeps the rules of the index within its integer types, decodes from its
-- row.
pub decode_state-encode_state :
    (tip : BlockId) (s : IndexState) (bytes : Bytes)
    → IsState tip s
    → encode_state s ≡ some bytes
    → decode_state bytes ≡ ok s
unfolding encode_state row state_with
decode_state-encode_state tip s bytes w h =
    let r =
      row-Reads tip.height tip.hash s.generation s.tree_sizes w.height w.hash w.generation w.sizes
        (version_of s.verified_through) (of_bool (is_some s.sealed_through))
        (unwrap_or_default s.sealed_through) (verified_bytes s.verified_through)
        (sealed_fits s.sealed_through tip.height w.sealed w.height) in
    let made =
      decoded _ tip.height tip.hash s.generation s.tree_sizes s.sealed_through s.verified_through
        w.height r w.sealed w.verified in
    let same = chosen s.durable_tip _ tip bytes w.at h in
    subst (λ b. decode_state b ≡ ok s) same
      (made ∙ ap (λ o. ok (record s { durable_tip = o })) (sym w.at))
