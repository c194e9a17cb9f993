-- ===== src/Tests/Blocks.antt =====
-- Blocks and records for the tests: a chain whose block hashes are all the same.
use ztreamer.Prelude.{ℕ, zero, suc, ◌≤◌, refl, Option, none, some, [], ◌∷◌, Bytes, u32_max}
use ztreamer.Chain.TreeSizes.{TreeSizes}
use ztreamer.Chain.Types.{
  Hash, CompactTransaction, ParsedCompactBlock, CompactBlockRecord, has_payload, check,
}
use ztreamer.Chain.Message.{CompactBlock, to_proto}
use ztreamer.Chain.Message.RoundTrip.{IsRecord}
use ztreamer.Chain.Record.{Prost, encode}
use ztreamer.Chain.Range.Whole.{IsEncodable, ReadsBack}

abbrev pub copies : ℕ → ℕ → Bytes
copies zero byte = []
copies (suc n) byte = byte ∷ copies n byte

abbrev pub test_hash : Hash
test_hash = copies 32 7

abbrev pub test_transaction : CompactTransaction
test_transaction = record {
  index = 1;
  txid = copies 32 9;
  sapling_spends = copies 32 2 ∷ [];
  sapling_outputs =
      record { cmu = copies 32 3; ephemeral_key = copies 32 4; ciphertext = copies 52 5 } ∷ [];
  orchard_actions =
      record {
        nullifier = copies 32 1;
        commitment = copies 32 2;
        ephemeral_key = copies 32 3;
        ciphertext = copies 52 4;
      }
      ∷ [];
  ironwood_actions = [];
}

abbrev pub test_block : ℕ → ParsedCompactBlock
test_block height = record {
  height = height;
  hash = test_hash;
  previous_hash = test_hash;
  time = 5;
  transactions = test_transaction ∷ [];
  sapling_additions = 1;
  orchard_additions = 1;
  ironwood_additions = 0;
}

abbrev pub test_sizes : TreeSizes
test_sizes = record { sapling = 1; orchard = 1; ironwood = 0 }

abbrev pub test_record : ℕ → CompactBlockRecord
test_record height = record {
  height = height;
  hash = test_hash;
  previous_hash = test_hash;
  time = 5;
  transactions = test_transaction ∷ [];
  end_tree_sizes = test_sizes;
}

pub test_record-IsRecord : (height : ℕ) → height ≤ u32_max → IsRecord (test_record height)
test_record-IsRecord height fits = record {
  height = fits;
  hash = refl;
  previous_hash = refl;
  transactions = (
    record {
      txid = refl;
      spends = (refl, tt);
      outputs = (record { cmu = refl; ephemeral_key = refl; ciphertext = refl }, tt);
      actions = (
        record { nullifier = refl; commitment = refl; ephemeral_key = refl; ciphertext = refl },
        tt,
      );
      ironwood = tt;
    },
    tt,
  );
}

-- A stand-in for prost that writes the height alone, enough for the records of the tests.
abbrev pub test_prost : Prost
test_prost = record {
  encode_message = λ message. message.height ∷ [];
  decode_message = decode_height;
}
  where
    decode_height : Bytes → Option CompactBlock
    decode_height (height ∷ []) = some (to_proto (test_record height))
    decode_height bytes = none

pub test_record-ReadsBack : (height : ℕ) → ReadsBack test_prost (test_record height)
unfolding to_proto
test_record-ReadsBack height = refl

pub test_record-IsEncodable : (height : ℕ) → IsEncodable test_prost (test_record height)
unfolding encode check has_payload
test_record-IsEncodable height = (_, refl)
