-- ===== src/Chain/Parser/Transaction.antt =====
-- One transaction of any version: parse_transaction_from of crates/chain/src/parser.rs.
use ztreamer.Prelude.{
  ℕ, ◌%◌, ◌^◌, ◌/◌, Bool, true, false, List, [], ltb, ◌==◌, if◌then◌else◌, length, Bytes, Result,
  ok, err, ◌>>=◌,
}
use ztreamer.Chain.Types.{
  Hash, Digest, CompactSaplingOutput, CompactShieldedAction, CompactTransaction,
}
use ztreamer.Chain.Cursor.{◌>>=ᵣ◌, pure, fail}
use ztreamer.Chain.Codec.{reader_new}
use ztreamer.Chain.Parser.Input.{
  TransactionParseError, too_large, unsupported_header, Parse, max_transaction_bytes, skip, le_u32,
  version_group, parse_finish,
}
use ztreamer.Chain.Parser.Pools.{
  transparent_bundle, bctv14_joinsplit_bytes, joinsplits, sapling_v4, sapling_v5, actions,
}

abbrev pub overwinter_group_id : ℕ
overwinter_group_id = 0x03c4_8270

abbrev pub sapling_group_id : ℕ
sapling_group_id = 0x892f_2085

abbrev pub v5_group_id : ℕ
v5_group_id = 0x26a7_270a

abbrev pub v6_group_id : ℕ
v6_group_id = 0xd884_b698

-- The shielded parts of a transaction.
abbrev pub Shielded : Type 0
Shielded =
    List Digest
    × List CompactSaplingOutput
    × List CompactShieldedAction
    × List CompactShieldedAction

abbrev no_shielded : Shielded
no_shielded = ([], [], [], [])

unfoldable pub version_1 : Parse Shielded
version_1 = transparent_bundle >>=ᵣ λ _. skip 4 >>=ᵣ λ _. pure no_shielded

unfoldable pub version_2 : Parse Shielded
version_2 = transparent_bundle >>=ᵣ λ _.
    skip 4 >>=ᵣ λ _. joinsplits bctv14_joinsplit_bytes >>=ᵣ λ _. pure no_shielded

unfoldable pub version_3 : Parse Shielded
version_3 = version_group overwinter_group_id >>=ᵣ λ _. transparent_bundle >>=ᵣ λ _.
    skip 8 >>=ᵣ λ _. joinsplits bctv14_joinsplit_bytes >>=ᵣ λ _. pure no_shielded

unfoldable pub version_4 : Parse Shielded
version_4 = version_group sapling_group_id >>=ᵣ λ _. transparent_bundle >>=ᵣ λ _.
    skip 16 >>=ᵣ λ _. sapling_v4 >>=ᵣ λ sapling. pure (sapling.0, sapling.1, [], [])

unfoldable pub version_5 : Parse Shielded
version_5 = version_group v5_group_id >>=ᵣ λ _. skip 12 >>=ᵣ λ _. transparent_bundle >>=ᵣ λ _.
    sapling_v5 >>=ᵣ λ sapling. actions >>=ᵣ λ orchard. pure (sapling.0, sapling.1, orchard, [])

unfoldable pub version_6 : Parse Shielded
version_6 = version_group v6_group_id >>=ᵣ λ _. skip 12 >>=ᵣ λ _. transparent_bundle >>=ᵣ λ _.
    sapling_v5 >>=ᵣ λ sapling.
    actions >>=ᵣ λ orchard. actions >>=ᵣ λ ironwood. pure (sapling.0, sapling.1, orchard, ironwood)

-- The `match` on the version and the overwintered flag.
unfoldable pub parse_version : ℕ → Bool → ℕ → Parse Shielded
unfolding version_1 version_2 version_3 version_4 version_5 version_6
parse_version version false header =
    if version == 1
    then version_1
    else if version == 2
    then version_2
    else fail (unsupported_header header)
parse_version version true header =
    if version == 3
    then version_3
    else if version == 4
    then version_4
    else if version == 5
    then version_5
    else if version == 6
    then version_6
    else fail (unsupported_header header)

unfoldable pub parse_transaction_from : Hash → ℕ → Parse CompactTransaction
unfolding parse_version
parse_transaction_from txid index = le_u32 >>=ᵣ λ header.
    parse_version (header % 2 ^ 31) (ltb 0 (header / 2 ^ 31)) header >>=ᵣ λ found.
    let (spends, outputs, orchard, ironwood) = found in
    pure (record {
      index = index;
      txid = txid;
      sapling_spends = spends;
      sapling_outputs = outputs;
      orchard_actions = orchard;
      ironwood_actions = ironwood;
    })

unfoldable pub parse_transaction :
    Bytes → Hash → ℕ → Result TransactionParseError CompactTransaction
parse_transaction bytes txid index =
    if ltb max_transaction_bytes (length bytes)
    then err too_large
    else (parse_transaction_from txid index (reader_new bytes) >>= λ read.
        parse_finish read.1 >>= λ _. ok read.0)
