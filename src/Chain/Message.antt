-- ===== src/Chain/Message.antt =====
-- crates/chain/src/protobuf.rs: index records and the compact-block messages of
-- crates/protocol/proto/lightwalletd/compact_formats.proto.
pub mod RoundTrip
use ztreamer.Prelude.{
  ℕ, Option, some, List, [], map, ◌==◌, if◌then◌else◌, length, Bytes, Result, ok, err, ◌>>=◌, ok_or,
  try_map, u32_max, try_into,
}
use ztreamer.Chain.Types.{
  Digest, CompactTransaction, CompactBlockRecord, CodecError, invalid_record,
}
use ztreamer.Chain.Types

pub record ChainMetadata : Type 0 where
  pub sapling_commitment_tree_size : ℕ
  pub orchard_commitment_tree_size : ℕ
  pub ironwood_commitment_tree_size : ℕ

pub record CompactSaplingSpend : Type 0 where
  pub nf : Bytes

pub record SaplingOutput : Type 0 where
  pub cmu : Bytes
  pub ephemeral_key : Bytes
  pub ciphertext : Bytes

pub record CompactOrchardAction : Type 0 where
  pub nullifier : Bytes
  pub cmx : Bytes
  pub ephemeral_key : Bytes
  pub ciphertext : Bytes

-- `vin` and `vout` as pairs of their two fields.
pub record CompactTx : Type 0 where
  pub index : ℕ
  pub txid : Bytes
  pub fee : ℕ
  pub spends : List CompactSaplingSpend
  pub outputs : List SaplingOutput
  pub actions : List CompactOrchardAction
  pub ironwood_actions : List CompactOrchardAction
  pub vin : List (Bytes × ℕ)
  pub vout : List (ℕ × Bytes)

pub record CompactBlock : Type 0 where
  pub height : ℕ
  pub hash : Bytes
  pub prev_hash : Bytes
  pub time : ℕ
  pub header : Bytes
  pub vtx : List CompactTx
  pub chain_metadata : Option ChainMetadata

unfoldable pub action : Types.CompactShieldedAction → CompactOrchardAction
action a = record {
  nullifier = a.nullifier;
  cmx = a.commitment;
  ephemeral_key = a.ephemeral_key;
  ciphertext = a.ciphertext;
}

unfoldable pub output : Types.CompactSaplingOutput → SaplingOutput
output o = record { cmu = o.cmu; ephemeral_key = o.ephemeral_key; ciphertext = o.ciphertext }

unfoldable pub spend : Digest → CompactSaplingSpend
spend nf = record { nf = nf }

unfoldable pub transaction : CompactTransaction → CompactTx
unfolding action output spend
transaction tx = record {
  index = tx.index;
  txid = tx.txid;
  fee = 0;
  spends = map spend tx.sapling_spends;
  outputs = map output tx.sapling_outputs;
  actions = map action tx.orchard_actions;
  ironwood_actions = map action tx.ironwood_actions;
  vin = [];
  vout = [];
}

unfoldable pub to_proto : CompactBlockRecord → CompactBlock
to_proto r = record {
  height = r.height;
  hash = r.hash;
  prev_hash = r.previous_hash;
  time = r.time;
  header = [];
  vtx = map transaction r.transactions;
  chain_metadata = some (record {
    sapling_commitment_tree_size = r.end_tree_sizes.sapling;
    orchard_commitment_tree_size = r.end_tree_sizes.orchard;
    ironwood_commitment_tree_size = r.end_tree_sizes.ironwood;
  });
}

-- `array::<N>` of protobuf.rs
unfoldable pub to_array : ℕ → Bytes → Result CodecError Bytes
to_array n bytes = if length bytes == n then ok bytes else err invalid_record

unfoldable pub decode_action : CompactOrchardAction → Result CodecError Types.CompactShieldedAction
decode_action a = do
  nullifier ← to_array 32 a.nullifier
  commitment ← to_array 32 a.cmx
  ephemeral_key ← to_array 32 a.ephemeral_key
  ciphertext ← to_array 52 a.ciphertext
  ok (record {
    nullifier = nullifier;
    commitment = commitment;
    ephemeral_key = ephemeral_key;
    ciphertext = ciphertext;
  })

unfoldable pub decode_output : SaplingOutput → Result CodecError Types.CompactSaplingOutput
decode_output o = do
  cmu ← to_array 32 o.cmu
  ephemeral_key ← to_array 32 o.ephemeral_key
  ciphertext ← to_array 52 o.ciphertext
  ok (record { cmu = cmu; ephemeral_key = ephemeral_key; ciphertext = ciphertext })

unfoldable pub decode_transaction : CompactTx → Result CodecError CompactTransaction
decode_transaction tx = do
  txid ← to_array 32 tx.txid
  spends ← try_map (λ s. to_array 32 s.nf) tx.spends
  outputs ← try_map decode_output tx.outputs
  actions ← try_map decode_action tx.actions
  ironwood ← try_map decode_action tx.ironwood_actions
  ok (record {
    index = tx.index;
    txid = txid;
    sapling_spends = spends;
    sapling_outputs = outputs;
    orchard_actions = actions;
    ironwood_actions = ironwood;
  })

unfoldable pub from_proto : CompactBlock → Result CodecError CompactBlockRecord
from_proto block = do
  trees ← ok_or block.chain_metadata invalid_record
  height ← ok_or (try_into u32_max block.height) invalid_record
  hash ← to_array 32 block.hash
  previous_hash ← to_array 32 block.prev_hash
  transactions ← try_map decode_transaction block.vtx
  ok (record {
    height = height;
    hash = hash;
    previous_hash = previous_hash;
    time = block.time;
    transactions = transactions;
    end_tree_sizes = record {
      sapling = trees.sapling_commitment_tree_size;
      orchard = trees.orchard_commitment_tree_size;
      ironwood = trees.ironwood_commitment_tree_size;
    };
  })
