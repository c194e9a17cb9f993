-- ===== src/Tests/Codec.antt =====
-- The theorems of the codec, at records of the tests.
use ztreamer.Prelude.{
  try_map, ℕ, zero, suc, ◌+◌, ◌≤◌, ◌<◌, ◌≡◌, refl, ap, ◌∙◌, ◌⊎◌, true, none, some, List, [], ◌∷◌,
  arith, length, get_elem?, All, Bytes, ok, u32_max,
}
use ztreamer.Chain.TreeSizes.{
  TreeSizes, checked_add, checked_sub, follows, total, checked_sub-checked_add, checked_add-none,
}
use ztreamer.Chain.Types.{CompactBlockRecord, max_record_bytes, check, has_payload}
use ztreamer.Chain.Message.{to_proto}
use ztreamer.Chain.Message.RoundTrip.{IsRecord}
use ztreamer.Chain.Record.{encode, decode, envelope}
use ztreamer.Chain.Record.RoundTrip.{decode-encode, length-encode}
use ztreamer.Chain.Range.{RangeDecoder, encode_range, decoder_new, full_records, record_as}
use ztreamer.Chain.Range.Links.{Continues, IsRange}
use ztreamer.Chain.Range.Sound.{encode_range-IsRange}
use ztreamer.Chain.Range.Whole.{IsEncodable, ReadsBack, record_as-encode_range}
use ztreamer.Chain.Views.{
  decode_encoded_view, encoded_from_record, decode_message_view, decode_encoded_view-encode,
  decode_message_view-encode,
}
use ztreamer.Index.Encoding.{encode_block, encode_blocks, encode_blocks-try_map}
use ztreamer.Tests.Blocks.{
  test_hash, test_record, test_prost, test_record-IsRecord, test_record-ReadsBack,
  test_record-IsEncodable,
}

-- `count` records from `height` on.
run : ℕ → ℕ → List CompactBlockRecord
run zero height = []
run (suc count) height = test_record height ∷ run count (height + 1)

run-All :
    (P : CompactBlockRecord → Type 0) (count height : ℕ)
    → height + count ≤ u32_max
    → ((h : ℕ) → h ≤ u32_max → P (test_record h))
    → All P (run count height)
unfolding run
run-All P zero height fits each = tt
run-All P (suc count) height fits each =
    (each height (omega arith), run-All P count (height + 1) (omega arith) each)

run-Continues : (count height : ℕ) → Continues height test_hash (run count (height + 1))
unfolding run
run-Continues zero height = tt
run-Continues (suc count) height = (refl, refl, run-Continues count (height + 1))

length-run : (count height : ℕ) → length (run count height) ≡ count
unfolding run
length-run zero height = refl
length-run (suc count) height = ap suc (length-run count (height + 1))

get_elem?-run :
    (count height i : ℕ)
    → i < count
    → get_elem? (run count height) i ≡ some (test_record (height + i))
unfolding run
get_elem?-run zero height i lt = absurd (omega arith)
get_elem?-run (suc count) height zero lt = ap (λ h. some (test_record h)) (omega arith)
get_elem?-run (suc count) height (suc i) lt =
    get_elem?-run count (height + 1) i (omega arith) ∙ ap (λ h. some (test_record h)) (omega arith)

abbrev first_record : CompactBlockRecord
first_record = test_record 3_000

abbrev other_records : List CompactBlockRecord
other_records = run 999 3_001

other_records-IsRange : IsRange first_record other_records
other_records-IsRange = record {
  count = length-run 999 3_001;
  aligned = omega arith;
  fits = omega arith;
  linked = run-Continues 999 3_000;
}

records-IsRecord : All IsRecord (first_record ∷ other_records)
records-IsRecord = (
  test_record-IsRecord 3_000 (omega arith),
  run-All _ 999 3_001 (omega arith) test_record-IsRecord,
)

records-IsEncodable : All (IsEncodable test_prost) (first_record ∷ other_records)
records-IsEncodable = (
  test_record-IsEncodable 3_000,
  run-All _ 999 3_001 (omega arith) (λ h fits. test_record-IsEncodable h),
)

records-ReadsBack : All (ReadsBack test_prost) (first_record ∷ other_records)
records-ReadsBack = (
  test_record-ReadsBack 3_000,
  run-All _ 999 3_001 (omega arith) (λ h fits. test_record-ReadsBack h),
)

record_500 : get_elem? (first_record ∷ other_records) 500 ≡ some (test_record 3_500)
record_500 = get_elem?-run 999 3_001 499 (omega arith)

record_as-encode_range_example :
    (bytes : Bytes) × (d : RangeDecoder) × (encode_range test_prost (first_record ∷ other_records)
      ≡ ok bytes)
    × (decoder_new bytes ≡ ok d)
    × (record_as (full_records test_prost) d 500 ≡ ok (test_record 3_500))
record_as-encode_range_example =
    record_as-encode_range test_prost first_record other_records 500 (test_record 3_500)
      other_records-IsRange records-IsRecord records-IsEncodable records-ReadsBack record_500

packed : (bytes : Bytes) × (encode_range test_prost (first_record ∷ other_records) ≡ ok bytes)
packed =
    let (bytes, d, made, accepted, found) =
      record_as-encode_range test_prost first_record other_records 500 (test_record 3_500)
        other_records-IsRange records-IsRecord records-IsEncodable records-ReadsBack record_500 in
    (bytes, made)

encode_range-IsRange_example : IsRange first_record other_records
encode_range-IsRange_example =
    encode_range-IsRange test_prost first_record other_records packed.0 (omega arith) packed.1

abbrev encoded : Bytes
encoded = envelope 41 test_hash test_hash (41 ∷ [])

encode-encoded : encode test_prost (test_record 41) ≡ ok encoded
unfolding encode check has_payload to_proto
encode-encoded = refl

decode-encode_example : decode test_prost encoded ≡ ok (test_record 41)
decode-encode_example =
    decode-encode test_prost (test_record 41) encoded (test_record-IsRecord 41 (omega arith))
      (test_record-ReadsBack 41) encode-encoded

length-encode_example : (length encoded ≡ 74) × (length encoded ≤ max_record_bytes)
length-encode_example =
    length-encode test_prost (test_record 41) encoded (test_record-IsRecord 41 (omega arith))
      encode-encoded

abbrev small : TreeSizes
small = record { sapling = 4; orchard = 5; ironwood = 6 }

abbrev large : TreeSizes
large = record { sapling = 1; orchard = u32_max; ironwood = 0 }

abbrev twice : TreeSizes
twice = record { sapling = 8; orchard = 10; ironwood = 12 }

small-twice : checked_add small small ≡ some twice
unfolding checked_add
small-twice = refl

small-large : checked_add small large ≡ none
unfolding checked_add
small-large = refl

checked_sub-checked_add_example :
    (checked_sub twice small ≡ some small)
    × (follows twice small ≡ true)
    × (total twice ≡ total small + total small)
checked_sub-checked_add_example = checked_sub-checked_add small small twice small-twice

checked_add-none_example : (u32_max < 4 + 1) ⊎ ((u32_max < 5 + u32_max) ⊎ (u32_max < 6 + 0))
checked_add-none_example = checked_add-none small large small-large

decode_encoded_view-encode_example :
    decode_encoded_view test_prost encoded ≡ ok (encoded_from_record test_prost (test_record 41))
decode_encoded_view-encode_example =
    decode_encoded_view-encode test_prost (test_record 41) encoded
      (test_record-IsRecord 41 (omega arith)) encode-encoded

decode_message_view-encode_example :
    decode_message_view test_prost encoded ≡ ok (to_proto (test_record 41))
decode_message_view-encode_example =
    decode_message_view-encode test_prost (test_record 41) encoded
      (test_record-IsRecord 41 (omega arith)) (test_record-ReadsBack 41) encode-encoded

abbrev three_records : List CompactBlockRecord
three_records = test_record 1 ∷ test_record 2 ∷ test_record 3 ∷ []

encode_blocks-try_map_example :
    encode_blocks test_prost 2 three_records
    ≡ some (try_map (encode_block test_prost) three_records)
encode_blocks-try_map_example = encode_blocks-try_map test_prost 2 three_records
