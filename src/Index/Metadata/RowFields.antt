-- ===== src/Index/Metadata/RowFields.antt =====
-- The fields of the state row of crates/index/src/index/metadata.rs, at their places.
use ztreamer.Prelude.{
  ℕ, ◌+◌, ◌≤◌, ◌≡◌, refl, sym, ap, ◌∙◌, some, ◌∷◌, ◌++◌, arith, length, get_elem?, take, drop,
  length-append, drop-append, take-append, drop-drop, get_elem?-drop, Bytes, u32_max, u64_max,
}
use ztreamer.Chain.TreeSizes.{TreeSizes, IsU32Sizes}
use ztreamer.Chain.Endian.{le_bytes, be_bytes, from_be, from_be-be_bytes}
use ztreamer.Chain.Message.RoundTrip.{IsDigest}
use ztreamer.Index.Metadata.{u32_at}

module _ (hash rest : Bytes) (digest : IsDigest hash) where
  behind : (n : ℕ) → drop (32 + n) (hash ++ rest) ≡ drop n rest
  behind n =
      rw (← digest) (drop-drop (length hash) n (hash ++ rest) ∙ ap (drop n) (drop-append hash rest))

  pub within : take 32 (hash ++ rest) ≡ hash
  within = rw (← digest) (take-append hash rest)

-- The fields of a row, at their places.
module _ (v height : ℕ) (hash : Bytes) (flag sealed generation sapling orchard ironwood : ℕ)
    (tail : Bytes) (digest : IsDigest hash) where
  abbrev behind_hash : Bytes
  behind_hash =
      flag
      ∷ (be_bytes 4 sealed
          ++ (be_bytes 8 generation
              ++ (be_bytes 4 sapling ++ (be_bytes 4 orchard ++ (be_bytes 4 ironwood ++ tail)))))

  unfoldable pub row : Bytes
  row = v ∷ (be_bytes 4 height ++ (hash ++ behind_hash))

  row_height : height ≤ u32_max → u32_at row 1 ≡ height
  unfolding row le_bytes
  row_height fits = from_be-be_bytes 4 height (omega arith)

  row_hash : take 32 (drop 5 row) ≡ hash
  unfolding row le_bytes
  row_hash = within hash behind_hash digest

  row_flag : get_elem? row 37 ≡ some flag
  unfolding row le_bytes
  row_flag =
      sym (get_elem?-drop 32 0 (hash ++ behind_hash))
      ∙ ap (λ t. get_elem? t 0) (behind hash behind_hash digest 0)

  row_sealed : sealed ≤ u32_max → u32_at row 38 ≡ sealed
  unfolding row le_bytes
  row_sealed fits =
      ap (λ t. from_be (take 4 t)) (behind hash behind_hash digest 1)
      ∙ from_be-be_bytes 4 sealed (omega arith)

  row_generation : generation ≤ u64_max → from_be (take 8 (drop 42 row)) ≡ generation
  unfolding row le_bytes
  row_generation fits =
      ap (λ t. from_be (take 8 t)) (behind hash behind_hash digest 5)
      ∙ from_be-be_bytes 8 generation (omega arith)

  row_sapling : sapling ≤ u32_max → u32_at row 50 ≡ sapling
  unfolding row le_bytes
  row_sapling fits =
      ap (λ t. from_be (take 4 t)) (behind hash behind_hash digest 13)
      ∙ from_be-be_bytes 4 sapling (omega arith)

  row_orchard : orchard ≤ u32_max → u32_at row 54 ≡ orchard
  unfolding row le_bytes
  row_orchard fits =
      ap (λ t. from_be (take 4 t)) (behind hash behind_hash digest 17)
      ∙ from_be-be_bytes 4 orchard (omega arith)

  row_ironwood : ironwood ≤ u32_max → u32_at row 58 ≡ ironwood
  unfolding row le_bytes
  row_ironwood fits =
      ap (λ t. from_be (take 4 t)) (behind hash behind_hash digest 21)
      ∙ from_be-be_bytes 4 ironwood (omega arith)

  row_tail : drop 62 row ≡ tail
  unfolding row le_bytes
  row_tail = behind hash behind_hash digest 25

  length-row : length row ≡ 62 + length tail
  unfolding row le_bytes
  length-row = omega (arith, digest, length-append hash behind_hash)

  row_version : get_elem? row 0 ≡ some v
  unfolding row
  row_version = refl

  row_verified : u32_at row 63 ≡ u32_at tail 1
  row_verified = ap (λ t. from_be (take 4 t)) (drop-drop 62 1 row ∙ ap (drop 1) row_tail)

  row_byte : get_elem? row 62 ≡ get_elem? tail 0
  row_byte = sym (get_elem?-drop 62 0 row) ∙ ap (λ t. get_elem? t 0) row_tail

-- What the decoder reads in a row.
pub record Reads (bytes : Bytes) (v height : ℕ) (hash : Bytes) (flag sealed generation : ℕ)
    (sizes : TreeSizes) (tail : Bytes) : Type 0 where
  pub first : get_elem? bytes 0 ≡ some v
  pub size : length bytes ≡ 62 + length tail
  pub flagged : get_elem? bytes 37 ≡ some flag
  pub tip_height : u32_at bytes 1 ≡ height
  pub tip_hash : take 32 (drop 5 bytes) ≡ hash
  pub sealed_at : u32_at bytes 38 ≡ sealed
  pub generation_at : from_be (take 8 (drop 42 bytes)) ≡ generation
  pub sapling_at : u32_at bytes 50 ≡ sizes.sapling
  pub orchard_at : u32_at bytes 54 ≡ sizes.orchard
  pub ironwood_at : u32_at bytes 58 ≡ sizes.ironwood
  pub verified_flag : get_elem? bytes 62 ≡ get_elem? tail 0
  pub verified_at : u32_at bytes 63 ≡ u32_at tail 1

module _ (height : ℕ) (hash : Bytes) (generation : ℕ) (sizes : TreeSizes) (low : height ≤ u32_max)
    (digest : IsDigest hash) (gen : generation ≤ u64_max) (fit : IsU32Sizes sizes) where
  pub row-Reads :
      (v flag sealed : ℕ) (tail : Bytes)
      → sealed ≤ u32_max
      → Reads
          (row v height hash flag sealed generation sizes.sapling sizes.orchard sizes.ironwood tail
            digest)
          v
          height
          hash
          flag
          sealed
          generation
          sizes
          tail
  row-Reads v flag sealed tail fits = record {
    first =
        row_version v height hash flag sealed generation sizes.sapling sizes.orchard sizes.ironwood
          tail digest;
    size =
        length-row v height hash flag sealed generation sizes.sapling sizes.orchard sizes.ironwood
          tail digest;
    flagged =
        row_flag v height hash flag sealed generation sizes.sapling sizes.orchard sizes.ironwood
          tail digest;
    tip_height =
        row_height v height hash flag sealed generation sizes.sapling sizes.orchard sizes.ironwood
          tail digest low;
    tip_hash =
        row_hash v height hash flag sealed generation sizes.sapling sizes.orchard sizes.ironwood
          tail digest;
    sealed_at =
        row_sealed v height hash flag sealed generation sizes.sapling sizes.orchard sizes.ironwood
          tail digest fits;
    generation_at =
        row_generation v height hash flag sealed generation sizes.sapling sizes.orchard
          sizes.ironwood tail digest gen;
    sapling_at =
        row_sapling v height hash flag sealed generation sizes.sapling sizes.orchard sizes.ironwood
          tail digest fit.sapling_fits;
    orchard_at =
        row_orchard v height hash flag sealed generation sizes.sapling sizes.orchard sizes.ironwood
          tail digest fit.orchard_fits;
    ironwood_at =
        row_ironwood v height hash flag sealed generation sizes.sapling sizes.orchard sizes.ironwood
          tail digest fit.ironwood_fits;
    verified_flag =
        row_byte v height hash flag sealed generation sizes.sapling sizes.orchard sizes.ironwood
          tail digest;
    verified_at =
        row_verified v height hash flag sealed generation sizes.sapling sizes.orchard sizes.ironwood
          tail digest;
  }
