-- ===== src/Tests/Meta.antt =====
-- The rows of the metadata: a record of range metadata, the state of an index and the identity of its chain.
use ztreamer.Prelude.{◌+◌, ◌≡◌, refl, true, none, some, [], ◌∷◌, arith, Bytes, ok}
use ztreamer.Prelude.Utf8.{is_utf8}
use ztreamer.Chain.Endian.{le_bytes}
use ztreamer.Chain.Codec.{put_count, put_bytes}
use ztreamer.Snapshot.Entry.{
  FieldElements, orchard_pool, SubtreeRoot, ManifestEntry, put_subtree_roots, encode_entry,
}
use ztreamer.Index.State.{BlockId, IndexState}
use ztreamer.Index.Metadata.{
  encode_state, decode_state, identity_row, read_identity, check_identity,
}
use ztreamer.Index.Metadata.StateRow.{IsState, decode_state-encode_state}
use ztreamer.Index.Metadata.Accepted.{decode_state-IsState}
use ztreamer.Index.Metadata.Identity.{read_identity-identity_row}
use ztreamer.Index.RangeMeta.{
  verified, RangeMeta, put_option, put_node_id, put_attested, encode_meta, decode_meta,
}
use ztreamer.Index.RangeMeta.RoundTrip.{IsMeta, decode_meta-encode_meta}
use ztreamer.Index.Tables.{get_state}
use ztreamer.Index.Writer.Committed.{get_state-commit}
use ztreamer.Index.Writer.{Writer, commit, seal_loop}
use ztreamer.Index.Writer.Batch.{seal_loop_lem}
use ztreamer.Tests.Blocks.{copies, test_hash, test_sizes, test_prost}
use ztreamer.Tests.Store.{HeightLog, HashLog, RowLog, test_heed-IsHeed, test_heed, no_tables}

-- Each 32 bytes are an element.
abbrev all_elements : FieldElements
all_elements = record { is_node = λ pool bytes. true; is_root = λ pool bytes. true }

abbrev test_root : SubtreeRoot
test_root = record { index = 3; root = record { pool = orchard_pool; to_bytes = copies 32 6 } }

abbrev meta_entry : ManifestEntry
meta_entry = record {
  range_version = 1;
  start_height = 1_000;
  end_height = 1_999;
  end_hash = test_hash;
  end_tree_sizes = test_sizes;
  frontiers = record { sapling = 1 ∷ []; orchard = 2 ∷ []; ironwood = [] };
  subtree_roots = test_root ∷ [];
  blob_digest = copies 32 8;
  blob_len = 4_096;
  epoch_end = true;
}

-- A node at `a`, of version `1`.
abbrev test_meta : RangeMeta
test_meta = record {
  entry = meta_entry;
  state = verified;
  verified_by = some (record { url = 97 ∷ []; version = 49 ∷ [] });
  verified_at = some 1_700_000_000;
  attested = some (record {
    end_hash = test_hash;
    roots = record { sapling = some (copies 32 1); orchard = none; ironwood = none };
    subtree_roots = test_root ∷ [];
  });
  sampled_heights = 1_004 ∷ 1_500 ∷ [];
}

test_meta-IsMeta : IsMeta all_elements test_meta
unfolding is_utf8
test_meta-IsMeta = record {
  entry = record {
    range_version = omega arith;
    start_height = omega arith;
    end_height = omega arith;
    end_hash = refl;
    sizes = record {
      sapling_fits = omega arith;
      orchard_fits = omega arith;
      ironwood_fits = omega arith;
    };
    subtree_roots = (record { index = omega arith; bytes = refl; node = refl }, tt);
    blob_digest = refl;
    blob_len = omega arith;
  };
  verified_by = record { url = refl; version = refl };
  verified_at = omega arith;
  attested = record {
    end_hash = refl;
    sapling = record { length_32 = refl; element = refl };
    orchard = tt;
    ironwood = tt;
    subtree_roots = (record { index = omega arith; bytes = refl; node = refl }, tt);
  };
  sampled_heights = (omega arith, (omega arith, tt));
}

test_row : (bytes : Bytes) × (encode_meta test_meta ≡ some bytes)
unfolding encode_meta encode_entry put_option put_node_id put_attested put_subtree_roots put_count
    put_bytes
test_row = (_, refl)

decode_meta-encode_meta_example : decode_meta all_elements test_row.0 ≡ ok test_meta
unfolding test_row le_bytes
decode_meta-encode_meta_example =
    decode_meta-encode_meta all_elements test_meta test_row.0 test_meta-IsMeta test_row.1
      (omega arith)

abbrev test_tip : BlockId
test_tip = record { height = 4_500; hash = test_hash }

abbrev test_state : IndexState
test_state = record {
  durable_tip = some test_tip;
  sealed_through = some 3_999;
  verified_through = some 1_999;
  generation = 12;
  tree_sizes = test_sizes;
}

test_state-IsState : IsState test_tip test_state
test_state-IsState = record {
  at = refl;
  height = omega arith;
  hash = refl;
  sealed = (omega arith, refl);
  verified = (omega arith, refl);
  generation = omega arith;
  sizes = record {
    sapling_fits = omega arith;
    orchard_fits = omega arith;
    ironwood_fits = omega arith;
  };
}

state_bytes : (bytes : Bytes) × (encode_state test_state ≡ some bytes)
unfolding encode_state
state_bytes = (_, refl)

decode_state-encode_state_example : decode_state state_bytes.0 ≡ ok test_state
decode_state-encode_state_example =
    decode_state-encode_state test_tip test_state state_bytes.0 test_state-IsState state_bytes.1

decode_state-IsState_example : (tip : BlockId) × IsState tip test_state
unfolding state_bytes le_bytes
decode_state-IsState_example =
    decode_state-IsState state_bytes.0 test_state (omega arith) decode_state-encode_state_example

-- The name `Main`.
abbrev main_net : Bytes
main_net = 77 ∷ 97 ∷ 105 ∷ 110 ∷ []

read_identity-identity_row_example :
    (read_identity (some (identity_row main_net test_hash))
      ≡ ok (record { network = main_net; genesis_hash = test_hash }))
    × (check_identity main_net test_hash (some (identity_row main_net test_hash)) ≡ ok none)
unfolding is_utf8
read_identity-identity_row_example = read_identity-identity_row main_net test_hash refl refl

seal_loop_lem_example :
    seal_loop test_heed test_prost
      (4_294_968 + 1)
      (record { tables = no_tables; state = test_state })
      3_999
      4_000
      []
    ≡ seal_loop test_heed test_prost 4_294_968
        (record { tables = no_tables; state = test_state })
        3_999
        4_000
        []
seal_loop_lem_example =
    seal_loop_lem test_heed test_prost 4_294_968 1
      (record { tables = no_tables; state = test_state }) 3_999 4_000 [] (omega arith) (omega arith)

before_commit : Writer HeightLog HashLog RowLog
before_commit = record { tables = no_tables; state = test_state }

committed : (w : Writer HeightLog HashLog RowLog) × (commit test_heed before_commit ≡ ok w)
unfolding commit before_commit encode_state
committed = (_, refl)

committed-IsState : IsState test_tip committed.0.state
unfolding committed before_commit
committed-IsState = record {
  at = refl;
  height = omega arith;
  hash = refl;
  sealed = (omega arith, refl);
  verified = (omega arith, refl);
  generation = omega arith;
  sizes = record {
    sapling_fits = omega arith;
    orchard_fits = omega arith;
    ironwood_fits = omega arith;
  };
}

get_state-commit_example :
    (get_state test_heed committed.0.tables.metadata ≡ ok committed.0.state)
    × (committed.0.state
        ≡ record before_commit.state { generation = before_commit.state.generation + 1 })
    × (committed.0.tables ≡ record before_commit.tables { metadata = committed.0.tables.metadata })
get_state-commit_example =
    get_state-commit test_heed before_commit committed.0 test_tip test_heed-IsHeed committed.1
      committed-IsState
