-- ===== src/Tests/Parser.antt =====
-- The theorems of the parser, at a block with one transaction of version 5.
use ztreamer.Prelude.{◌+◌, ◌<◌, ◌≡◌, ◌⊎◌, refl, some, [], ◌∷◌, ◌++◌, arith, length, Bytes, ok, err}
use ztreamer.Chain.TreeSizes.{no_sizes, checked_add}
use ztreamer.Chain.Message.{to_proto}
use ztreamer.Chain.Record.{Prost, encode, decode}
use ztreamer.Chain.Stored.{decode-encode-parse_block}
use ztreamer.Chain.Types.{
  bad_length, record_of, additions, into_record, record_additions, max_record_bytes,
  CompactBlockRecord, ParsedCompactBlock, has_payload,
}
use ztreamer.Chain.Endian.{le_bytes, from_le}
use ztreamer.Chain.Message.RoundTrip.{IsDigest}
use ztreamer.Chain.Cursor.{take_with, slice, advance, Rests}
use ztreamer.Chain.Codec.{reader_new}
use ztreamer.Chain.Parser.Input.{
  take_bytes, skip, take_array, le_u32, canonical, compact_value, compact_size, read_vector_count,
  skip_items, ensure_items, version_group, parse_finish, times, repeat,
}
use ztreamer.Chain.Parser.Pools.{
  transparent_bundle, sapling_output, spend_nullifier, sapling_v5, sapling_v5_rest, actions,
  actions_rest,
}
use ztreamer.Chain.Parser.Transaction.{
  version_5, parse_version, parse_transaction_from, parse_transaction, v5_group_id,
}
use ztreamer.Chain.Parser.Block.{
  RawIndexBlock, no_transactions, add_transaction, into_block, parse_transactions, parse_header,
  parse_block, parse_stored, parse_stored_block,
}
use ztreamer.Chain.Parser.CompactSize.{compact_bytes, compact_size-compact_bytes}
use ztreamer.Chain.Parser.Collected.{IsFit}
use ztreamer.Chain.Parser.Parsed.{parse_block-IsFit, parse_stored_block-IsFit}
use ztreamer.Tests.Blocks.{copies, test_hash}

-- No inputs, outputs or spends, one Sapling output, no actions.
abbrev raw_transaction : Bytes
raw_transaction =
    le_bytes 4 0x8000_0005
    ++ (le_bytes 4 v5_group_id
        ++ (copies 12 0 ++ (0 ∷ 0 ∷ 0 ∷ 1 ∷ copies 756 7 ++ (copies 264 0 ++ (0 ∷ [])))))

abbrev pub raw_block : RawIndexBlock
raw_block = record {
  height = 5;
  hash = test_hash;
  bytes =
      copies 4 0
      ++ (copies 32 7
          ++ (copies 64 0 ++ (le_bytes 4 1_700 ++ (copies 36 0 ++ (0 ∷ 1 ∷ raw_transaction)))));
  txids = copies 32 9 ∷ [];
}

abbrev pub parsed_block : ParsedCompactBlock
parsed_block = record {
  height = 5;
  hash = test_hash;
  previous_hash = copies 32 7;
  time = 1_700;
  transactions =
      record {
        index = 0;
        txid = copies 32 9;
        sapling_spends = [];
        sapling_outputs =
            record { cmu = copies 32 7; ephemeral_key = copies 32 7; ciphertext = copies 52 7 }
            ∷ [];
        orchard_actions = [];
        ironwood_actions = [];
      }
      ∷ [];
  sapling_additions = 1;
  orchard_additions = 0;
  ironwood_additions = 0;
}

parse_stored_block-parsed :
    parse_stored_block 5 test_hash (copies 32 7) 1_700 ((raw_transaction, copies 32 9) ∷ [])
    ≡ ok parsed_block
unfolding take_with slice take_bytes skip take_array le_u32 canonical compact_value compact_size
    read_vector_count skip_items ensure_items version_group parse_finish times repeat
    transparent_bundle sapling_output spend_nullifier sapling_v5 sapling_v5_rest actions
    actions_rest version_5 parse_version parse_transaction_from parse_transaction no_transactions
    add_transaction into_block parse_stored parse_stored_block le_bytes from_le has_payload
parse_stored_block-parsed = refl

pub parse_block-parsed : parse_block raw_block ≡ ok parsed_block
unfolding take_with slice take_bytes skip take_array le_u32 canonical compact_value compact_size
    read_vector_count skip_items ensure_items version_group parse_finish times repeat
    transparent_bundle sapling_output spend_nullifier sapling_v5 sapling_v5_rest actions
    actions_rest version_5 parse_version parse_transaction_from no_transactions add_transaction
    into_block parse_transactions parse_header parse_block le_bytes from_le has_payload
parse_block-parsed = refl

parse_block-IsFit_example :
    IsFit parsed_block
    × (5 ≡ raw_block.height)
    × (test_hash ≡ raw_block.hash)
    × IsDigest (copies 32 7)
parse_block-IsFit_example = parse_block-IsFit raw_block parsed_block (refl, tt) parse_block-parsed

parse_stored_block-IsFit_example :
    IsFit parsed_block
    × (parsed_block.height ≡ 5)
    × (parsed_block.hash ≡ test_hash)
    × (parsed_block.previous_hash ≡ copies 32 7)
    × (parsed_block.time ≡ 1_700)
parse_stored_block-IsFit_example =
    parse_stored_block-IsFit 5 test_hash (copies 32 7) 1_700 ((raw_transaction, copies 32 9) ∷ [])
      parsed_block (refl, tt) parse_stored_block-parsed

before_size : Rests (reader_new (253 ∷ 0 ∷ 1 ∷ 9 ∷ [])) (compact_bytes 256 ++ (9 ∷ []))
unfolding compact_bytes le_bytes
before_size = record { at = refl; within = omega arith; fits = omega arith }

compact_size-compact_bytes_example :
    compact_size 300 (reader_new (253 ∷ 0 ∷ 1 ∷ 9 ∷ []))
    ≡ ok (256, advance (reader_new (253 ∷ 0 ∷ 1 ∷ 9 ∷ [])) (length (compact_bytes 256)))
compact_size-compact_bytes_example =
    compact_size-compact_bytes 300 256 (reader_new (253 ∷ 0 ∷ 1 ∷ 9 ∷ [])) (9 ∷ []) (omega arith)
      (omega arith) before_size

abbrev pub parsed_record : CompactBlockRecord
parsed_record = record {
  height = 5;
  hash = test_hash;
  previous_hash = copies 32 7;
  time = 1_700;
  transactions = parsed_block.transactions;
  end_tree_sizes = record { sapling = 1; orchard = 0; ironwood = 0 };
}

-- prost for the record of the block alone.
abbrev block_prost : Prost
block_prost = record {
  encode_message = λ message. message.height ∷ [];
  decode_message = λ bytes. some (to_proto parsed_record);
}

into_record-parsed : into_record parsed_block no_sizes ≡ some parsed_record
unfolding into_record record_of additions checked_add
into_record-parsed = refl

block_prost-reads :
    block_prost.decode_message (block_prost.encode_message (to_proto parsed_record))
    ≡ some (to_proto parsed_record)
block_prost-reads = refl

decode-encode-parse_block_example :
    (checked_add no_sizes (record_additions parsed_record) ≡ some parsed_record.end_tree_sizes)
    × (((max_record_bytes < 73 + 1) × (encode block_prost parsed_record ≡ err bad_length))
        ⊎ ((bytes : Bytes) × (encode block_prost parsed_record ≡ ok bytes)
            × (decode block_prost bytes ≡ ok parsed_record)))
decode-encode-parse_block_example =
    decode-encode-parse_block block_prost raw_block parsed_block no_sizes parsed_record (refl, tt)
      refl (omega arith) parse_block-parsed into_record-parsed block_prost-reads
