-- ===== src/Chain/Range/Sound.antt =====
-- What encode_range checks: it writes nothing but a linked range of 1,000 records.
use ztreamer.Prelude.{
  ℕ, ◌+◌, ◌%◌, ◌≤◌, ◌≡◌, refl, Bool, true, false, not, ◌&&◌, inl, inr, List, [], ◌∷◌, arith, ◌==◌,
  Bool-cases, length, Bytes, bytes_eq, bytes_eq_iff, ok, >>=-eq-ok, guard_inv, u32_max,
}
use ztreamer.Chain.Types.{Hash, CompactBlockRecord, range_size}
use ztreamer.Chain.Record.{Prost}
use ztreamer.Chain.Range.{of_records, is_next, check_links, write_range, encode_range}
use ztreamer.Chain.Range.Links.{Continues, IsRange}

is_next_inv :
    (last height : ℕ) → is_next last height ≡ true → (height ≡ last + 1) × (last + 1 ≤ u32_max)
unfolding is_next
is_next_inv last height h = ground (arith, h)

both : (a b : Bool) → (a && b) ≡ true → (a ≡ true) × (b ≡ true)
both true b h = (refl, h)
both false b h = cc

module _ (prost : Prost) where
  links_step :
      (height : ℕ) (hash : Hash) (r : CompactBlockRecord) (rs : List CompactBlockRecord)
      (out : ℕ × Hash)
      → check_links (of_records prost) height hash (r ∷ rs) ≡ ok out
      → (is_next height r.height && bytes_eq r.previous_hash hash ≡ true)
        × (check_links (of_records prost) r.height r.hash rs ≡ ok out)
  unfolding check_links of_records
  links_step height hash r rs out h =
      elim (Bool-cases (is_next height r.height && bytes_eq r.previous_hash hash)) [
        | inl good ↦ (good, rw good at h)
        | inr bad ↦ absurd (let e = rw bad at h in cc)
      ]

  pub links_sound :
      (height : ℕ) (hash : Hash) (rs : List CompactBlockRecord) (out : ℕ × Hash)
      → check_links (of_records prost) height hash rs ≡ ok out
      → height ≤ u32_max
      → Continues height hash rs × (height + length rs ≤ u32_max)
  links_sound height hash [] out h fits = (tt, omega (arith, fits))
  links_sound height hash (r ∷ rs) out h fits =
      let (good, more) = links_step height hash r rs out h in
      let (next, linked) = both _ _ good in
      let (at, room) = is_next_inv height r.height next in
      let (rest, end) = links_sound r.height r.hash rs out more (omega (arith, at, room)) in
      ((at, (bytes_eq_iff r.previous_hash hash).0 linked, rest), omega (arith, at, end))

  -- Where `encode_range` succeeds, its records are a linked range: 1,000 of them, from a height that is a
  -- multiple of 1,000, each at the next height and behind the hash of the one before it. The first
  -- height is a u32.
  pub encode_range-IsRange :
      (first : CompactBlockRecord) (rest : List CompactBlockRecord) (bytes : Bytes)
      → first.height ≤ u32_max
      → encode_range prost (first ∷ rest) ≡ ok bytes
      → IsRange first rest
  unfolding encode_range write_range of_records
  encode_range-IsRange first rest bytes fits h =
      let (full, h₁) = guard_inv (not (length (first ∷ rest) == range_size)) _ _ h in
      let (aligned, h₂) = guard_inv (not (first.height % range_size == 0)) _ _ h₁ in
      let (out, linked, h₃) =
        >>=-eq-ok (check_links (of_records prost) first.height first.hash rest) _ h₂ in
      let (chain, end) = links_sound first.height first.hash rest out linked fits in
      let count : length rest ≡ 999 = ground (arith, full) in
      record {
        count = count;
        aligned = ground (arith, aligned);
        fits = omega (arith, end, count);
        linked = chain;
      }
