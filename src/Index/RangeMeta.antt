-- ===== src/Index/RangeMeta.antt =====
-- The records of the range_meta table: crates/index/src/index/range_meta.rs.
pub mod RoundTrip
use ztreamer.Prelude.{
  ℕ, not, Option, none, some, List, [], ◌∷◌, ◌++◌, ◌==◌, if◌then◌else◌, length, Bytes, Result, ok,
  err, ◌>>=◌, option_bind,
}
use ztreamer.Prelude.Utf8.{is_utf8}
use ztreamer.Chain.Types.{Hash, CodecError, invalid_record, version}
use ztreamer.Chain.Endian.{be_bytes}
use ztreamer.Chain.Cursor.{Read, ◌>>=ᵣ◌, pure, fail}
use ztreamer.Chain.Codec.{
  reader_new, array, read_u8, read_u32, read_u64, read_count, read_bytes, read_items, take_bool,
  put_items, put_count, put_bytes, finish,
}
use ztreamer.Snapshot.Entry.{
  FieldElements, Pool, sapling_pool, orchard_pool, ironwood_pool, SubtreeRoot, ManifestEntry,
  put_subtree_roots, take_subtree_roots, encode_entry, decode_entry,
}

abbrev pub format_version : ℕ
format_version = 1

pub data VerifyState : Type 0 where
  unverified verified rejected : VerifyState

-- `VerifyState::tag`
abbrev pub state_tag : VerifyState → ℕ
state_tag unverified = 0
state_tag verified = 2
state_tag rejected = 3

-- `VerifyState::from_tag`
abbrev pub state_from_tag : ℕ → Result CodecError VerifyState
state_from_tag t =
    if t == 0
    then ok unverified
    else if t == 2
    then ok verified
    else if t == 3
    then ok rejected
    else err invalid_record

pub record NodeId : Type 0 where
  pub url : Bytes
  pub version : Bytes

-- zakura's roots are their 32 bytes.
pub record PoolRoots : Type 0 where
  pub sapling : Option Bytes
  pub orchard : Option Bytes
  pub ironwood : Option Bytes

pub record Attested : Type 0 where
  pub end_hash : Hash
  pub roots : PoolRoots
  pub subtree_roots : List SubtreeRoot

pub record RangeMeta : Type 0 where
  pub entry : ManifestEntry
  pub state : VerifyState
  pub verified_by : Option NodeId
  pub verified_at : Option ℕ
  pub attested : Option Attested
  pub sampled_heights : List ℕ

-- `put_option` and `take_option`; `none` of a writer is the panic of `put_count`.
module _ {ℓ} {A : Type ℓ} where
  unfoldable pub put_option : (A → Option Bytes) → Option A → Option Bytes
  put_option put none = some (0 ∷ [])
  put_option put (some a) = option_bind (put a) λ bytes. some (1 ∷ bytes)

  unfoldable pub take_option : Read CodecError A → Read CodecError (Option A)
  take_option take =
      take_bool >>=ᵣ λ flag. if flag then (take >>=ᵣ λ a. pure (some a)) else pure none

unfoldable pub put_node_id : NodeId → Option Bytes
put_node_id node =
    option_bind (put_bytes node.url)
      λ url. option_bind (put_bytes node.version) λ v. some (url ++ v)

unfoldable pub put_attested : Attested → Option Bytes
unfolding put_option
put_attested a = option_bind (put_option some a.roots.sapling) λ sapling.
    option_bind (put_option some a.roots.orchard) λ orchard.
      option_bind (put_option some a.roots.ironwood) λ ironwood.
        option_bind (put_subtree_roots a.subtree_roots)
          λ roots. some (a.end_hash ++ (sapling ++ (orchard ++ (ironwood ++ roots))))

-- `RangeMeta::encode`
unfoldable pub encode_meta : RangeMeta → Option Bytes
unfolding put_option put_node_id put_attested
encode_meta m = option_bind (encode_entry m.entry) λ entry.
    option_bind (put_option put_node_id m.verified_by) λ by.
      option_bind (put_option (λ at. some (be_bytes 8 at)) m.verified_at) λ at.
        option_bind (put_option put_attested m.attested) λ attested.
          option_bind (put_count (length m.sampled_heights)) λ count. some (
            format_version
            ∷ (entry
                ++ (state_tag m.state
                    ∷ (by
                        ++ (at
                            ++ (attested
                                ++ (count ++ put_items (λ h. be_bytes 4 h) m.sampled_heights)))))))

unfoldable pub take_string : Read CodecError Bytes
take_string = read_bytes >>=ᵣ λ bytes. if is_utf8 bytes then pure bytes else fail invalid_record

unfoldable pub take_state : Read CodecError VerifyState
take_state = read_u8 >>=ᵣ λ t r. state_from_tag t >>= λ state. ok (state, r)

unfoldable pub take_node_id : Read CodecError NodeId
take_node_id =
    take_string >>=ᵣ λ url. take_string >>=ᵣ λ v. pure (record { url = url; version = v })

module _ (z : FieldElements) where
  -- `take_root`
  unfoldable pub take_tree_root : Pool → Read CodecError Bytes
  take_tree_root pool =
      array 32 >>=ᵣ λ bytes. if z.is_root pool bytes then pure bytes else fail invalid_record

  unfoldable pub take_attested : Read CodecError Attested
  unfolding take_option
  take_attested = array 32 >>=ᵣ λ end_hash.
      take_option (take_tree_root sapling_pool) >>=ᵣ λ sapling.
      take_option (take_tree_root orchard_pool) >>=ᵣ λ orchard.
      take_option (take_tree_root ironwood_pool) >>=ᵣ λ ironwood.
      take_subtree_roots z >>=ᵣ λ subtree_roots. pure (record {
        end_hash = end_hash;
        roots = record { sapling = sapling; orchard = orchard; ironwood = ironwood };
        subtree_roots = subtree_roots;
      })

  -- What `decode` reads behind the version.
  unfoldable pub take_meta : Read CodecError RangeMeta
  take_meta = decode_entry z >>=ᵣ λ entry. take_state >>=ᵣ λ state.
      take_option take_node_id >>=ᵣ λ verified_by. take_option read_u64 >>=ᵣ λ verified_at.
      take_option take_attested >>=ᵣ λ attested. read_count >>=ᵣ λ count.
      read_items count read_u32 >>=ᵣ λ sampled_heights. pure (record {
        entry = entry;
        state = state;
        verified_by = verified_by;
        verified_at = verified_at;
        attested = attested;
        sampled_heights = sampled_heights;
      })

  unfoldable pub take_versioned : Read CodecError RangeMeta
  take_versioned =
      read_u8 >>=ᵣ λ v. if not (v == format_version) then fail (version v) else take_meta

  -- `RangeMeta::decode`
  unfoldable pub decode_meta : Bytes → Result CodecError RangeMeta
  unfolding take_versioned
  decode_meta bytes = take_versioned (reader_new bytes) >>= λ read. finish read.1 >>= λ _. ok read.0
