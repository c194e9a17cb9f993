-- ===== src/Chain/Parser/Pools.antt =====
-- The transparent, Sprout, Sapling and Orchard parts of a transaction: crates/chain/src/parser.rs.
use ztreamer.Prelude.{ℕ, ◌-◌, ◌+◌, Bool, true, false, ◌||◌, List, ltb, if◌then◌else◌}
use ztreamer.Chain.Types.{Digest, CompactSaplingOutput, CompactShieldedAction}
use ztreamer.Chain.Cursor.{◌>>=ᵣ◌, pure}
use ztreamer.Chain.Parser.Input.{
  Parse, max_transaction_bytes, skip, take_array, compact_size, read_vector_count, skip_items,
  ensure_items, times, repeat,
}

unfoldable pub transparent_input : Parse (Unit {0})
transparent_input =
    skip 36 >>=ᵣ λ _. compact_size max_transaction_bytes >>=ᵣ λ script. skip script >>=ᵣ λ _. skip 4

unfoldable pub transparent_output : Parse (Unit {0})
transparent_output = skip 8 >>=ᵣ λ _. compact_size max_transaction_bytes >>=ᵣ λ script. skip script

unfoldable pub transparent_bundle : Parse (Unit {0})
unfolding transparent_input transparent_output
transparent_bundle = read_vector_count >>=ᵣ λ inputs. repeat inputs transparent_input >>=ᵣ λ _.
    read_vector_count >>=ᵣ λ outputs. repeat outputs transparent_output

abbrev pub bctv14_joinsplit_bytes : ℕ
bctv14_joinsplit_bytes = 1_802

abbrev pub groth16_joinsplit_bytes : ℕ
groth16_joinsplit_bytes = 1_698

unfoldable pub joinsplits : ℕ → Parse (Unit {0})
joinsplits item_size = read_vector_count >>=ᵣ λ count.
    skip_items count item_size >>=ᵣ λ _. if ltb 0 count then skip 96 else pure tt

abbrev pub sapling_v4_spend_bytes : ℕ
sapling_v4_spend_bytes = 384

abbrev pub sapling_spend_prefix_bytes : ℕ
sapling_spend_prefix_bytes = 96

abbrev pub sapling_output_prefix_bytes : ℕ
sapling_output_prefix_bytes = 756

abbrev pub sapling_v4_output_bytes : ℕ
sapling_v4_output_bytes = 948

abbrev pub compact_ciphertext_bytes : ℕ
compact_ciphertext_bytes = 52

unfoldable pub sapling_output : Bool → Parse CompactSaplingOutput
sapling_output includes_proof = skip 32 >>=ᵣ λ _. take_array 32 >>=ᵣ λ cmu.
    take_array 32 >>=ᵣ λ ephemeral_key. take_array 52 >>=ᵣ λ ciphertext.
    skip (580 - compact_ciphertext_bytes + 80) >>=ᵣ λ _.
    (if includes_proof
      then skip (sapling_v4_output_bytes - sapling_output_prefix_bytes)
      else pure tt)
    >>=ᵣ λ _. pure (record { cmu = cmu; ephemeral_key = ephemeral_key; ciphertext = ciphertext })

-- A spend with `before` bytes before its nullifier and `after` behind it.
unfoldable pub spend_nullifier : ℕ → ℕ → Parse Digest
spend_nullifier before after =
    skip before >>=ᵣ λ _. take_array 32 >>=ᵣ λ nullifier. skip after >>=ᵣ λ _. pure nullifier

unfoldable pub sapling_v4 : Parse (List Digest × List CompactSaplingOutput)
unfolding spend_nullifier
sapling_v4 = read_vector_count >>=ᵣ λ spend_count.
    ensure_items spend_count sapling_v4_spend_bytes >>=ᵣ λ _.
    times spend_count (spend_nullifier 64 (sapling_v4_spend_bytes - 96)) >>=ᵣ λ spends.
    read_vector_count >>=ᵣ λ output_count.
    ensure_items output_count sapling_v4_output_bytes >>=ᵣ λ _.
    times output_count (sapling_output true) >>=ᵣ λ outputs.
    joinsplits groth16_joinsplit_bytes >>=ᵣ λ _.
    (if ltb 0 spend_count || ltb 0 output_count then skip 64 else pure tt) >>=ᵣ λ _.
    pure (spends, outputs)

-- What stands behind the spends and outputs of version 5.
unfoldable pub sapling_v5_rest : ℕ → ℕ → Parse (Unit {0})
sapling_v5_rest spend_count output_count =
    if ltb 0 spend_count || ltb 0 output_count
    then (skip 8 >>=ᵣ λ _. (if ltb 0 spend_count then skip 32 else pure tt) >>=ᵣ λ _.
        skip_items spend_count (192 + 64) >>=ᵣ λ _. skip_items output_count 192 >>=ᵣ λ _. skip 64)
    else pure tt

unfoldable pub sapling_v5 : Parse (List Digest × List CompactSaplingOutput)
unfolding spend_nullifier sapling_v5_rest
sapling_v5 = read_vector_count >>=ᵣ λ spend_count.
    ensure_items spend_count sapling_spend_prefix_bytes >>=ᵣ λ _.
    times spend_count (spend_nullifier 32 (sapling_spend_prefix_bytes - 64)) >>=ᵣ λ spends.
    read_vector_count >>=ᵣ λ output_count.
    ensure_items output_count sapling_output_prefix_bytes >>=ᵣ λ _.
    times output_count (sapling_output false) >>=ᵣ λ outputs.
    sapling_v5_rest spend_count output_count >>=ᵣ λ _. pure (spends, outputs)

abbrev pub orchard_action_bytes : ℕ
orchard_action_bytes = 820

unfoldable pub shielded_action : Parse CompactShieldedAction
shielded_action = skip 32 >>=ᵣ λ _. take_array 32 >>=ᵣ λ nullifier. skip 32 >>=ᵣ λ _.
    take_array 32 >>=ᵣ λ commitment. take_array 32 >>=ᵣ λ ephemeral_key.
    take_array 52 >>=ᵣ λ ciphertext. skip (580 - compact_ciphertext_bytes + 80) >>=ᵣ λ _.
    pure (record {
      nullifier = nullifier;
      commitment = commitment;
      ephemeral_key = ephemeral_key;
      ciphertext = ciphertext;
    })

-- The flags, the balance, the anchor, the proof and the signatures behind the actions.
unfoldable pub actions_rest : ℕ → Parse (Unit {0})
actions_rest count =
    if ltb 0 count
    then (skip (1 + 8 + 32) >>=ᵣ λ _. compact_size max_transaction_bytes >>=ᵣ λ proof.
        skip proof >>=ᵣ λ _. skip_items count 64 >>=ᵣ λ _. skip 64)
    else pure tt

unfoldable pub actions : Parse (List CompactShieldedAction)
unfolding shielded_action actions_rest
actions = read_vector_count >>=ᵣ λ count. ensure_items count orchard_action_bytes >>=ᵣ λ _.
    times count shielded_action >>=ᵣ λ found. actions_rest count >>=ᵣ λ _. pure found
