-- ===== src/Chain/Parser/Shielded.antt =====
-- What the parser reads of the pools of a transaction: arrays of the right lengths.
use ztreamer.Prelude.{
  ℕ, Bool, true, false, ◌||◌, List, ltb, ◌==◌, if◌then◌else◌, All, ◌%◌, ◌/◌, ◌^◌,
}
use ztreamer.Chain.Types.{Hash, Digest, CompactSaplingOutput}
use ztreamer.Chain.Message.RoundTrip.{IsDigest, IsOutput, IsAction, IsTransaction}
use ztreamer.Chain.Parser.Input.{max_transaction_bytes, skip}
use ztreamer.Chain.Cursor.{pure}
use ztreamer.Chain.Parser.Pools.{
  transparent_input, transparent_output, transparent_bundle, joinsplits, sapling_output,
  spend_nullifier, sapling_v4, sapling_v5_rest, sapling_v5, shielded_action, actions_rest, actions,
}
use ztreamer.Chain.Parser.Transaction.{
  Shielded, version_1, version_2, version_3, version_4, version_5, version_6, parse_version,
  parse_transaction_from,
}
use ztreamer.Chain.Parser.Reads.{
  Reads, Anything, Reads-bind, Reads-pure, Reads-fail, Reads-if, skip-Reads, take_array-Reads,
  le_u32-Reads, compact_size-Reads, read_vector_count-Reads, skip_items-Reads, ensure_items-Reads,
  version_group-Reads, times-Reads, repeat-Reads,
}

skip_if-Reads : (b : Bool) (n : ℕ) → Reads (if b then skip n else pure tt) Anything
skip_if-Reads b n = Reads-if b _ _ (skip-Reads n) (Reads-pure tt tt)

transparent_input-Reads : Reads transparent_input Anything
unfolding transparent_input
transparent_input-Reads = Reads-bind _ _ (skip-Reads 36) (λ _ h.
    Reads-bind _ _ (compact_size-Reads max_transaction_bytes)
      (λ script k. Reads-bind _ _ (skip-Reads script) (λ _ l. skip-Reads 4)))

transparent_output-Reads : Reads transparent_output Anything
unfolding transparent_output
transparent_output-Reads = Reads-bind _ _ (skip-Reads 8) (λ _ h.
    Reads-bind _ _ (compact_size-Reads max_transaction_bytes) (λ script k. skip-Reads script))

transparent_bundle-Reads : Reads transparent_bundle Anything
unfolding transparent_bundle
transparent_bundle-Reads = Reads-bind _ _ read_vector_count-Reads (λ inputs h.
    Reads-bind _ _ (repeat-Reads inputs transparent_input transparent_input-Reads) (λ _ k.
      Reads-bind _ _ read_vector_count-Reads
        (λ outputs l. repeat-Reads outputs transparent_output transparent_output-Reads)))

joinsplits-Reads : (size : ℕ) → Reads (joinsplits size) Anything
unfolding joinsplits
joinsplits-Reads size = Reads-bind _ _ read_vector_count-Reads (λ count h.
    Reads-bind _ _ (skip_items-Reads count size) (λ _ k. skip_if-Reads (ltb 0 count) 96))

sapling_output-Reads : (proof : Bool) → Reads (sapling_output proof) IsOutput
unfolding sapling_output
sapling_output-Reads proof = Reads-bind _ _ (skip-Reads 32) (λ _ a.
    Reads-bind _ _ (take_array-Reads 32) (λ cmu b. Reads-bind _ _ (take_array-Reads 32) (λ key c.
      Reads-bind _ _ (take_array-Reads 52) (λ ciphertext d. Reads-bind _ _ (skip-Reads 608) (λ _ e.
        Reads-bind _ _ (skip_if-Reads proof 192)
          (λ _ f. Reads-pure _ (record { cmu = b; ephemeral_key = c; ciphertext = d })))))))

spend_nullifier-Reads : (before after : ℕ) → Reads (spend_nullifier before after) IsDigest
unfolding spend_nullifier
spend_nullifier-Reads before after = Reads-bind _ _ (skip-Reads before) (λ _ a.
    Reads-bind _ _ (take_array-Reads 32)
      (λ nullifier b. Reads-bind _ _ (skip-Reads after) (λ _ c. Reads-pure nullifier b)))

abbrev pub IsSapling : List Digest × List CompactSaplingOutput → Type 0
IsSapling found = All IsDigest found.0 × All IsOutput found.1

sapling_v4-Reads : Reads sapling_v4 IsSapling
unfolding sapling_v4
sapling_v4-Reads = Reads-bind _ _ read_vector_count-Reads (λ spend_count a.
    Reads-bind _ _ (ensure_items-Reads spend_count 384) (λ _ b.
      Reads-bind _ _ (times-Reads spend_count _ (spend_nullifier-Reads 64 288)) (λ spends c.
        Reads-bind _ _ read_vector_count-Reads (λ output_count d.
          Reads-bind _ _ (ensure_items-Reads output_count 948) (λ _ e.
            Reads-bind _ _ (times-Reads output_count _ (sapling_output-Reads true)) (λ outputs f.
              Reads-bind _ _ (joinsplits-Reads 1_698) (λ _ g.
                Reads-bind _ _ (skip_if-Reads (ltb 0 spend_count || ltb 0 output_count) 64)
                  (λ _ h. Reads-pure _ (c.0, f.0)))))))))

sapling_v5_rest-Reads : (spends outputs : ℕ) → Reads (sapling_v5_rest spends outputs) Anything
unfolding sapling_v5_rest
sapling_v5_rest-Reads spends outputs =
    Reads-if (ltb 0 spends || ltb 0 outputs) _ _
      (Reads-bind _ _ (skip-Reads 8) (λ _ a.
        Reads-bind _ _ (skip_if-Reads (ltb 0 spends) 32) (λ _ b.
          Reads-bind _ _ (skip_items-Reads spends 256)
            (λ _ c. Reads-bind _ _ (skip_items-Reads outputs 192) (λ _ d. skip-Reads 64)))))
      (Reads-pure tt tt)

sapling_v5-Reads : Reads sapling_v5 IsSapling
unfolding sapling_v5
sapling_v5-Reads = Reads-bind _ _ read_vector_count-Reads (λ spend_count a.
    Reads-bind _ _ (ensure_items-Reads spend_count 96) (λ _ b.
      Reads-bind _ _ (times-Reads spend_count _ (spend_nullifier-Reads 32 32)) (λ spends c.
        Reads-bind _ _ read_vector_count-Reads (λ output_count d.
          Reads-bind _ _ (ensure_items-Reads output_count 756) (λ _ e.
            Reads-bind _ _ (times-Reads output_count _ (sapling_output-Reads false)) (λ outputs f.
              Reads-bind _ _ (sapling_v5_rest-Reads spend_count output_count)
                (λ _ g. Reads-pure _ (c.0, f.0))))))))

shielded_action-Reads : Reads shielded_action IsAction
unfolding shielded_action
shielded_action-Reads = Reads-bind _ _ (skip-Reads 32) (λ _ a.
    Reads-bind _ _ (take_array-Reads 32) (λ nullifier b. Reads-bind _ _ (skip-Reads 32) (λ _ c.
      Reads-bind _ _ (take_array-Reads 32) (λ commitment d.
        Reads-bind _ _ (take_array-Reads 32) (λ key e.
          Reads-bind _ _ (take_array-Reads 52) (λ ciphertext f.
            Reads-bind _ _ (skip-Reads 608) (λ _ g.
              Reads-pure _
                (record { nullifier = b; commitment = d; ephemeral_key = e; ciphertext = f }))))))))

actions_rest-Reads : (count : ℕ) → Reads (actions_rest count) Anything
unfolding actions_rest
actions_rest-Reads count =
    Reads-if (ltb 0 count) _ _
      (Reads-bind _ _ (skip-Reads 41) (λ _ a.
        Reads-bind _ _ (compact_size-Reads max_transaction_bytes) (λ proof b.
          Reads-bind _ _ (skip-Reads proof)
            (λ _ c. Reads-bind _ _ (skip_items-Reads count 64) (λ _ d. skip-Reads 64)))))
      (Reads-pure tt tt)

actions-Reads : Reads actions (λ found. All IsAction found)
unfolding actions
actions-Reads = Reads-bind _ _ read_vector_count-Reads (λ count a.
    Reads-bind _ _ (ensure_items-Reads count 820) (λ _ b.
      Reads-bind _ _ (times-Reads count _ shielded_action-Reads)
        (λ found c. Reads-bind _ _ (actions_rest-Reads count) (λ _ d. Reads-pure found c.0))))

abbrev pub IsShielded : Shielded → Type 0
IsShielded (spends, outputs, orchard, ironwood) =
    All IsDigest spends × All IsOutput outputs × All IsAction orchard × All IsAction ironwood

version_1-Reads : Reads version_1 IsShielded
unfolding version_1
version_1-Reads =
    Reads-bind _ _ transparent_bundle-Reads
      (λ _ a. Reads-bind _ _ (skip-Reads 4) (λ _ b. Reads-pure _ (tt, tt, tt, tt)))

version_2-Reads : Reads version_2 IsShielded
unfolding version_2
version_2-Reads = Reads-bind _ _ transparent_bundle-Reads (λ _ a.
    Reads-bind _ _ (skip-Reads 4)
      (λ _ b. Reads-bind _ _ (joinsplits-Reads 1_802) (λ _ c. Reads-pure _ (tt, tt, tt, tt))))

version_3-Reads : Reads version_3 IsShielded
unfolding version_3
version_3-Reads = Reads-bind _ _ (version_group-Reads _) (λ _ a.
    Reads-bind _ _ transparent_bundle-Reads (λ _ b.
      Reads-bind _ _ (skip-Reads 8)
        (λ _ c. Reads-bind _ _ (joinsplits-Reads 1_802) (λ _ d. Reads-pure _ (tt, tt, tt, tt)))))

version_4-Reads : Reads version_4 IsShielded
unfolding version_4
version_4-Reads = Reads-bind _ _ (version_group-Reads _) (λ _ a.
    Reads-bind _ _ transparent_bundle-Reads (λ _ b.
      Reads-bind _ _ (skip-Reads 16)
        (λ _ c. Reads-bind _ _ sapling_v4-Reads (λ sapling d. Reads-pure _ (d.0, d.1, tt, tt)))))

version_5-Reads : Reads version_5 IsShielded
unfolding version_5
version_5-Reads = Reads-bind _ _ (version_group-Reads _) (λ _ a.
    Reads-bind _ _ (skip-Reads 12) (λ _ b. Reads-bind _ _ transparent_bundle-Reads (λ _ c.
      Reads-bind _ _ sapling_v5-Reads
        (λ sapling d. Reads-bind _ _ actions-Reads (λ orchard e. Reads-pure _ (d.0, d.1, e, tt))))))

version_6-Reads : Reads version_6 IsShielded
unfolding version_6
version_6-Reads = Reads-bind _ _ (version_group-Reads _) (λ _ a.
    Reads-bind _ _ (skip-Reads 12) (λ _ b. Reads-bind _ _ transparent_bundle-Reads (λ _ c.
      Reads-bind _ _ sapling_v5-Reads (λ sapling d. Reads-bind _ _ actions-Reads (λ orchard e.
        Reads-bind _ _ actions-Reads (λ ironwood f. Reads-pure _ (d.0, d.1, e, f)))))))

parse_version-Reads :
    (version : ℕ) (overwintered : Bool) (header : ℕ)
    → Reads (parse_version version overwintered header) IsShielded
unfolding parse_version
parse_version-Reads version false header =
    Reads-if (version == 1) _ _ version_1-Reads
      (Reads-if (version == 2) _ _ version_2-Reads (Reads-fail _))
parse_version-Reads version true header = Reads-if (version == 3) _ _ version_3-Reads (
    Reads-if (version == 4) _ _ version_4-Reads (
      Reads-if (version == 5) _ _ version_5-Reads
        (Reads-if (version == 6) _ _ version_6-Reads (Reads-fail _))))

-- From a reader that is not past its end, `parse_transaction_from` either fails, or returns a
-- transaction whose arrays have their lengths, and a reader that follows in the same bytes.
pub parse_transaction_from-Reads :
    (txid : Hash) (index : ℕ)
    → IsDigest txid
    → Reads (parse_transaction_from txid index) IsTransaction
unfolding parse_transaction_from
parse_transaction_from-Reads txid index id = Reads-bind _ _ le_u32-Reads (λ header h.
    Reads-bind _ _ (parse_version-Reads (header % 2 ^ 31) (ltb 0 (header / 2 ^ 31)) header)
      (λ found k.
        let (spends, outputs, orchard, ironwood) = k in
        Reads-pure _ (record {
          txid = id;
          spends = spends;
          outputs = outputs;
          actions = orchard;
          ironwood = ironwood;
        })))
