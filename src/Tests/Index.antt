-- ===== src/Tests/Index.antt =====
-- The theorems of the index, at two blocks that are written into empty tables and then replaced.
use ztreamer.Prelude.{
  ℕ, Bool, ltb, leb, if◌then◌else◌, err, length, All, ◌+◌, ◌≡◌, refl, ◌∙◌, ok-step, none, some,
  List, [], ◌∷◌, ◌++◌, arith, get_elem?, take, Bytes, ok, ok_or, try_map, try_fold, bytes_eq,
}
use ztreamer.Chain.Types.{CompactBlockRecord, check, has_payload}
use ztreamer.Chain.Message.{to_proto}
use ztreamer.Chain.Record.{encode, decode, envelope}
use ztreamer.Chain.Record.RoundTrip.{decode-encode}
use ztreamer.Chain.Range.{full_records}
use ztreamer.Chain.Range.Links.{Continues}
use ztreamer.Index.Error.{coverage}
use ztreamer.Index.State.{IndexState, next_height, next_range_start}
use ztreamer.Index.Builder.{WriteBatch}
use ztreamer.Index.Encoding.{EncodedBatch, encode_block, encode_blocks, encode_batch}
use ztreamer.Index.Metadata.{encode_state}
use ztreamer.Index.Tables.{default_state, state_key, heights_from, get_state, read}
use ztreamer.Index.Writer.{
  Writer, id_of, start, start_latest, put_hash, put_hashes, set_tip, seal_ranges, put_row,
  put_mutable_blocks, put_block, delete_block, delete_mutable_block, commit,
}
use ztreamer.Index.Writer.Stored.{Holds, read-Holds}
use ztreamer.Index.Writes.{check_suffix, append, write_encoded, replace_mutable_suffix}
use ztreamer.Index.Writes.Written.{write_encoded-Holds}
use ztreamer.Index.Writes.Guards.{IsLinked}
use ztreamer.Index.Writes.Hashes.{answer_after}
use ztreamer.Index.Writes.Replace.{ReadsBack}
use ztreamer.Index.Writes.Replaced.{replace_mutable_suffix-Holds}
use ztreamer.Index.Snapshot.{read_blocks}
use ztreamer.Index.Snapshot.Refined.{read_blocks-Holds}
use ztreamer.Tests.Blocks.{
  test_hash, test_record, test_prost, test_record-IsRecord, test_record-ReadsBack,
}
use ztreamer.Tests.Store.{HeightLog, HashLog, RowLog, test_heed, test_heed-IsHeed, no_tables}

abbrev two_records : List CompactBlockRecord
two_records = test_record 0 ∷ test_record 1 ∷ []

abbrev two_batch : WriteBatch
two_batch = record { base_generation = 0; seal_through = none; records = two_records }

two_encoded : (e : EncodedBatch) × (encode_batch test_prost two_batch 1 ≡ some (ok e))
unfolding encode_batch encode_blocks encode_block encode try_map check has_payload to_proto
two_encoded = (_, refl)

no_tables-Holds :
    Holds test_heed test_prost (record { tables = no_tables; state = default_state }) [] []
unfolding next_range_start
no_tables-Holds = record {
  low = 0;
  unwritten = 0;
  stored = record {
    aligned = refl;
    order = omega arith;
    room = omega arith;
    fits = omega arith;
    heights = λ h r at. absurd (cc at);
    in_range = λ h r at lt. absurd (cc at);
    in_row = λ h r at ge lt. absurd (cc at);
    waits = tt;
  };
  starts = refl;
  tip = refl;
}

two_written :
    (w : Writer HeightLog HashLog RowLog) × (write_encoded test_heed test_prost no_tables
        two_encoded.0
      ≡ ok w)
unfolding two_encoded write_encoded start start_latest get_state append next_height put_hashes
    put_hash try_fold set_tip seal_ranges put_mutable_blocks put_row commit encode_state bytes_eq
two_written = (_, refl)

two_records-ReadsBack : All (ReadsBack test_heed test_prost) two_records
two_records-ReadsBack = (
  (test_record-IsRecord 0 (omega arith), test_record-ReadsBack 0),
  ((test_record-IsRecord 1 (omega arith), test_record-ReadsBack 1), tt),
)

two_records-IsLinked : IsLinked two_records
two_records-IsLinked = (refl, refl, tt)

write_encoded-Holds_example :
    (default_state.generation ≡ 0)
    × Holds test_heed test_prost two_written.0 [] ([] ++ two_records)
    × IsLinked ([] ++ two_records)
    × (test_heed.hashes.get two_written.0.tables.hash_to_height test_hash
        ≡ answer_after
            (test_heed.hashes.get no_tables.hash_to_height test_hash)
            test_hash
            two_records)
unfolding get_state
write_encoded-Holds_example =
    write_encoded-Holds test_heed test_prost test_heed-IsHeed no_tables default_state two_batch 1
      two_encoded.0 [] two_written.0 test_hash refl no_tables-Holds tt two_records-IsLinked
      two_records-ReadsBack two_encoded.1 two_written.1

-- Both records have the same hash, and the second one is found.
found_1 :
    answer_after (test_heed.hashes.get no_tables.hash_to_height test_hash) test_hash two_records
    ≡ ok (some 1)
unfolding bytes_eq
found_1 = refl

read-Holds_example :
    read test_heed (full_records test_prost) two_written.0.tables two_written.0.state 1
    ≡ ok_or (get_elem? two_records 1) (coverage 1)
read-Holds_example =
    read-Holds test_heed test_prost two_written.0 two_records 1 write_encoded-Holds_example.1

abbrev row_1 : Bytes
row_1 = envelope 1 test_hash test_hash (1 ∷ [])

decode-row_1 : decode test_prost row_1 ≡ ok (test_record 1)
unfolding encode check has_payload to_proto
decode-row_1 =
    decode-encode test_prost (test_record 1) row_1 (test_record-IsRecord 1 (omega arith))
      (test_record-ReadsBack 1) refl

read_0 :
    read test_heed (full_records test_prost) two_written.0.tables two_written.0.state 0
    ≡ ok (test_record 0)
read_0 = read-Holds test_heed test_prost two_written.0 two_records 0 write_encoded-Holds_example.1

-- The state and the tables behind a replacement of the second block by itself.
state_after : IndexState
unfolding two_written two_encoded
state_after = record two_written.0.state { generation = 2 }

state_row : (bytes : Bytes) × (encode_state state_after ≡ some bytes)
unfolding state_after encode_state two_written two_encoded
state_row = (_, refl)

writer_after : Writer HeightLog HashLog RowLog
unfolding state_after two_written two_encoded state_row
writer_after =
    let t = two_written.0.tables in
    record {
      tables = record t {
        metadata = (state_key, some state_row.0) ∷ t.metadata;
        mutable_blocks = (1, some row_1) ∷ ((1, none) ∷ t.mutable_blocks);
        hash_to_height = (test_hash, some 1) ∷ ((test_hash, none) ∷ t.hash_to_height);
      };
      state = state_after;
    }

two_replaced :
    replace_mutable_suffix test_heed test_prost two_written.0
      (id_of (test_record 0))
      (test_record 1 ∷ [])
      none
    ≡ ok writer_after
unfolding state_row writer_after state_after two_written two_encoded replace_mutable_suffix
    delete_mutable_block delete_block put_block set_tip put_hash put_row try_fold seal_ranges commit
    encode_state bytes_eq encode check has_payload to_proto check_suffix heights_from
two_replaced = ok-step _ read_0 ∙ rw decode-row_1 refl

replace_mutable_suffix-Holds_example :
    ((r : CompactBlockRecord) × (get_elem? two_records 0 ≡ some r)
      × (id_of r ≡ id_of (test_record 0)))
    × Holds test_heed test_prost writer_after [] (take (0 + 1) two_records ++ (test_record 1 ∷ []))
    × Continues 0 test_hash (test_record 1 ∷ [])
replace_mutable_suffix-Holds_example =
    replace_mutable_suffix-Holds test_heed test_prost test_heed-IsHeed two_written.0 writer_after
      (id_of (test_record 0)) (test_record 1 ∷ []) none two_records write_encoded-Holds_example.1
      ((test_record-IsRecord 1 (omega arith), test_record-ReadsBack 1), tt) two_replaced

-- The heights are collected, at most two of them.
abbrev collect : List ℕ → CompactBlockRecord → List ℕ × Bool
collect heights r = (r.height ∷ heights, ltb (length heights) 1)

read_blocks-Holds_example :
    read_blocks
      (full_records test_prost)
      collect
      test_heed
      (record { tables = two_written.0.tables; state = two_written.0.state })
      1
      0
      []
    ≡ (if leb 2 1 then err (coverage 1) else if leb 2 0 then err (coverage 0) else ok (0 ∷ 1 ∷ []))
read_blocks-Holds_example =
    read_blocks-Holds test_heed test_prost collect two_written.0 two_records 1 0 []
      write_encoded-Holds_example.1
