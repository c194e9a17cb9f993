-- ===== src/Snapshot/Entry.antt =====
-- The entry of a snapshot manifest in the layout of the index: crates/snapshot/src/manifest_entry/mod.rs
-- and crates/snapshot/src/pool.rs. The node types of zakura and sapling are parameters.
pub mod RoundTrip
use ztreamer.Prelude.{
  ℕ, Bool, not, ◌&&◌, ◌||◌, Option, none, some, List, [], ◌∷◌, ◌++◌, ◌==◌, if◌then◌else◌, length,
  Bytes, bytes_eq, Result, ok, err, ◌>>=◌, ok_or, option_bind,
}
use ztreamer.Chain.TreeSizes.{TreeSizes}
use ztreamer.Chain.Types.{Hash, CodecError, invalid_record, is_empty}
use ztreamer.Chain.Endian.{be_bytes}
use ztreamer.Chain.Cursor.{Read, ◌>>=ᵣ◌, pure}
use ztreamer.Chain.Codec.{
  array, read_u8, read_u16, read_u32, read_u64, read_count, read_bytes, read_items, take_bool,
  put_items, put_count, put_bytes, of_bool,
}

pub data Pool : Type 0 where
  sapling_pool orchard_pool ironwood_pool : Pool

-- Which 32 bytes are a node, and which a tree root, of each pool.
pub record FieldElements : Type 0 where
  pub is_node : Pool → Bytes → Bool
  pub is_root : Pool → Bytes → Bool

-- The variant is the pool, and the node is its bytes.
pub record SubtreeNode : Type 0 where
  pub pool : Pool
  pub to_bytes : Bytes

pub record SubtreeRoot : Type 0 where
  pub index : ℕ
  pub root : SubtreeNode

pub record Frontiers : Type 0 where
  pub sapling : Bytes
  pub orchard : Bytes
  pub ironwood : Bytes

pub record ManifestEntry : Type 0 where
  pub range_version : ℕ
  pub start_height : ℕ
  pub end_height : ℕ
  pub end_hash : Hash
  pub end_tree_sizes : TreeSizes
  pub frontiers : Frontiers
  pub subtree_roots : List SubtreeRoot
  pub blob_digest : Bytes
  pub blob_len : ℕ
  pub epoch_end : Bool

pub data BlobMismatch : Type 0 where
  len : ℕ → ℕ → BlobMismatch
  digest : BlobMismatch

-- `ManifestEntry::check_blob`; `blake3` is the hash function of that library.
unfoldable pub check_blob : (Bytes → Bytes) → ManifestEntry → Bytes → Result BlobMismatch (Unit {0})
check_blob blake3 entry blob =
    if not (length blob == entry.blob_len)
    then err (len entry.blob_len (length blob))
    else if bytes_eq (blake3 blob) entry.blob_digest
    then ok tt
    else err digest

-- `Frontiers::follows`
unfoldable pub frontiers_follow : Frontiers → Frontiers → Bool
frontiers_follow f before =
    (is_empty before.sapling || not (is_empty f.sapling))
    && ((is_empty before.orchard || not (is_empty f.orchard))
        && (is_empty before.ironwood || not (is_empty f.ironwood)))

-- `Pool::tag`
abbrev pub tag : Pool → ℕ
tag sapling_pool = 0
tag orchard_pool = 1
tag ironwood_pool = 2

-- `Pool::from_tag`
abbrev pub from_tag : ℕ → Option Pool
from_tag n =
    if n == 0
    then some sapling_pool
    else if n == 1
    then some orchard_pool
    else if n == 2
    then some ironwood_pool
    else none

-- `SubtreeNode::encode_into`
unfoldable pub put_node : SubtreeNode → Bytes
put_node node = tag node.pool ∷ node.to_bytes

unfoldable pub put_root : SubtreeRoot → Bytes
unfolding put_node
put_root root = be_bytes 2 root.index ++ put_node root.root

-- `none` is the panic of `put_count`.
unfoldable pub put_subtree_roots : List SubtreeRoot → Option Bytes
unfolding put_root
put_subtree_roots roots =
    option_bind (put_count (length roots)) λ count. some (count ++ put_items put_root roots)

-- `ManifestEntry::encode_into`
unfoldable pub encode_entry : ManifestEntry → Option Bytes
encode_entry e = option_bind (put_bytes e.frontiers.sapling) λ sapling.
    option_bind (put_bytes e.frontiers.orchard) λ orchard.
      option_bind (put_bytes e.frontiers.ironwood) λ ironwood.
        option_bind (put_subtree_roots e.subtree_roots) λ roots. some (
          e.range_version
          ∷ (be_bytes 4 e.start_height
              ++ (be_bytes 4 e.end_height
                  ++ (e.end_hash
                      ++ (be_bytes 4 e.end_tree_sizes.sapling
                          ++ (be_bytes 4 e.end_tree_sizes.orchard
                              ++ (be_bytes 4 e.end_tree_sizes.ironwood
                                  ++ (sapling
                                      ++ (orchard
                                          ++ (ironwood
                                              ++ (roots
                                                  ++ (e.blob_digest
                                                      ++ (be_bytes 8 e.blob_len
                                                          ++ (of_bool e.epoch_end ∷ []))))))))))))))

module _ (z : FieldElements) where
  -- `Pool::read_node`
  unfoldable pub read_node : Pool → Bytes → Option SubtreeNode
  read_node pool bytes =
      if z.is_node pool bytes then some (record { pool = pool; to_bytes = bytes }) else none

  -- `SubtreeNode::decode_from`
  unfoldable pub take_node : Read CodecError SubtreeNode
  unfolding read_node
  take_node = read_u8 >>=ᵣ λ t. array 32 >>=ᵣ λ bytes r.
      ok_or (option_bind (from_tag t) λ pool. read_node pool bytes) invalid_record >>= λ node.
      ok (node, r)

  unfoldable pub take_root : Read CodecError SubtreeRoot
  take_root =
      read_u16 >>=ᵣ λ index. take_node >>=ᵣ λ root. pure (record { index = index; root = root })

  unfoldable pub take_subtree_roots : Read CodecError (List SubtreeRoot)
  take_subtree_roots = read_count >>=ᵣ λ count. read_items count take_root

  -- `ManifestEntry::decode_from`
  unfoldable pub decode_entry : Read CodecError ManifestEntry
  decode_entry = read_u8 >>=ᵣ λ range_version. read_u32 >>=ᵣ λ start_height.
      read_u32 >>=ᵣ λ end_height. array 32 >>=ᵣ λ end_hash. read_u32 >>=ᵣ λ sapling_size.
      read_u32 >>=ᵣ λ orchard_size. read_u32 >>=ᵣ λ ironwood_size. read_bytes >>=ᵣ λ sapling.
      read_bytes >>=ᵣ λ orchard. read_bytes >>=ᵣ λ ironwood.
      take_subtree_roots >>=ᵣ λ subtree_roots. array 32 >>=ᵣ λ blob_digest.
      read_u64 >>=ᵣ λ blob_len. take_bool >>=ᵣ λ epoch_end. pure (record {
        range_version = range_version;
        start_height = start_height;
        end_height = end_height;
        end_hash = end_hash;
        end_tree_sizes = record {
          sapling = sapling_size;
          orchard = orchard_size;
          ironwood = ironwood_size;
        };
        frontiers = record { sapling = sapling; orchard = orchard; ironwood = ironwood };
        subtree_roots = subtree_roots;
        blob_digest = blob_digest;
        blob_len = blob_len;
        epoch_end = epoch_end;
      })
