-- ===== src/Chain/Stored.antt =====
-- From the raw bytes of a block to its stored record and back: parser.rs, types.rs and codec/mod.rs of
-- crates/chain/src.
use ztreamer.Prelude.{
  ℕ, ◌+◌, ◌≤◌, ◌<◌, ◌≡◌, refl, sym, ap, ◌∙◌, ◌⊎◌, inl, inr, true, Bool-cases, err, Option, none,
  some, arith, length, All, Bytes, ok, option_bind, u32_max,
}
use ztreamer.Chain.TreeSizes
use ztreamer.Chain.TreeSizes.{TreeSizes}
use ztreamer.Chain.Types.{
  bad_length, CompactBlockRecord, ParsedCompactBlock, additions, record_of, into_record,
  record_additions, check, max_record_bytes,
}
use ztreamer.Chain.Message.{to_proto}
use ztreamer.Chain.Message.RoundTrip.{IsDigest, IsRecord}
use ztreamer.Chain.Record.{Prost, encode, decode, envelope, record_too_long}
use ztreamer.Chain.Record.RoundTrip.{decode-encode}
use ztreamer.Chain.Parser.Block.{RawIndexBlock, parse_block}
use ztreamer.Chain.Parser.Collected.{IsFit}
use ztreamer.Chain.Parser.Parsed.{parse_block-IsFit}

into_record_inv :
    (p : ParsedCompactBlock) (before : TreeSizes) (r : CompactBlockRecord)
    → into_record p before ≡ some r
    → (sizes : TreeSizes) × (record_of p sizes ≡ r)
      × (TreeSizes.checked_add before (additions p) ≡ some sizes)
unfolding into_record
into_record_inv p before r h = go (TreeSizes.checked_add before (additions p)) refl h
  where
    go :
        (o : Option TreeSizes)
        → TreeSizes.checked_add before (additions p) ≡ o
        → option_bind o (λ sizes. some (record_of p sizes)) ≡ some r
        → (sizes : TreeSizes) × (record_of p sizes ≡ r)
          × (TreeSizes.checked_add before (additions p) ≡ some sizes)
    go none e k = cc
    go (some sizes) e k = let same : record_of p sizes ≡ r = cc in (sizes, same, e)

record_of-IsRecord :
    (block : RawIndexBlock) (p : ParsedCompactBlock) (sizes : TreeSizes)
    → All IsDigest block.txids
    → IsDigest block.hash
    → block.height ≤ u32_max
    → parse_block block ≡ ok p
    → IsRecord (record_of p sizes)
unfolding record_of
record_of-IsRecord block p sizes ids hash fits h =
    let (fit, same_height, same_hash, parent) = parse_block-IsFit block p ids h in
    record {
      height = omega (arith, fits, same_height);
      hash = rw same_hash hash;
      previous_hash = parent;
      transactions = fit.well_formed;
    }

record_sum :
    (p : ParsedCompactBlock) (before sizes : TreeSizes)
    → IsFit p
    → TreeSizes.checked_add before (additions p) ≡ some sizes
    → TreeSizes.checked_add before (record_additions (record_of p sizes))
      ≡ some (record_of p sizes).end_tree_sizes
unfolding record_of
record_sum p before sizes fit added =
    ap (λ more. TreeSizes.checked_add before more) (fit.counted sizes) ∙ added

too_long : (n : ℕ) → record_too_long n ≡ true → max_record_bytes < 73 + n
unfolding record_too_long
too_long n h = ground (arith, h)

module _ (prost : Prost) where
  abbrev payload_of : CompactBlockRecord → Bytes
  payload_of r = prost.encode_message (to_proto r)

  -- A record that passes `check` is refused for its length alone.
  encode_checked :
      (r : CompactBlockRecord)
      → check r ≡ ok tt
      → ((max_record_bytes < 73 + length (payload_of r)) × (encode prost r ≡ err bad_length))
        ⊎ (encode prost r ≡ ok (envelope r.height r.hash r.previous_hash (payload_of r)))
  unfolding encode
  encode_checked r checked = elim (Bool-cases (record_too_long (length (payload_of r)))) [
    | inl long ↦ inl (too_long (length (payload_of r)) long, rw (checked, long) refl)
    | inr short ↦ inr (rw (checked, short) refl)
  ]

  -- Let the block's ids and hash have 32 bytes and its height be a u32, and let prost read back the message
  -- of the record that the parsed block has after some tree sizes. The record is above `max_record_bytes`
  -- with its envelope and then refused with `bad_length`, or it encodes and decodes to itself; and its tree
  -- sizes are those before it and the additions that it counts.
  pub decode-encode-parse_block :
      (block : RawIndexBlock) (p : ParsedCompactBlock) (before : TreeSizes) (r : CompactBlockRecord)
      → All IsDigest block.txids
      → IsDigest block.hash
      → block.height ≤ u32_max
      → parse_block block ≡ ok p
      → into_record p before ≡ some r
      → prost.decode_message (prost.encode_message (to_proto r)) ≡ some (to_proto r)
      → (TreeSizes.checked_add before (record_additions r) ≡ some r.end_tree_sizes)
        × (((max_record_bytes < 73 + length (prost.encode_message (to_proto r)))
              × (encode prost r ≡ err bad_length))
            ⊎ ((bytes : Bytes) × (encode prost r ≡ ok bytes) × (decode prost bytes ≡ ok r)))
  decode-encode-parse_block block p before r ids hash fits parsed made reads =
      let (sizes, same, added) = into_record_inv p before r made in
      let fit = (parse_block-IsFit block p ids parsed).0 in
      let w : IsRecord r = rw (sym same) (record_of-IsRecord block p sizes ids hash fits parsed) in
      let checked : check r ≡ ok tt = rw (sym same) (fit.checked sizes) in
      (
        rw (sym same) (record_sum p before sizes fit added),
        elim (encode_checked r checked) [
          | inl refused ↦ inl refused
          | inr encoded ↦ inr (
            envelope r.height r.hash r.previous_hash (payload_of r),
            encoded,
            decode-encode prost r _ w reads encoded,
          )
        ],
      )
