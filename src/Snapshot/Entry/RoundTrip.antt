-- ===== src/Snapshot/Entry/RoundTrip.antt =====
-- An entry that was written reads back.
use ztreamer.Prelude.{
  ◌≤◌, ◌<◌, ◌≡◌, refl, true, some, List, [], ◌∷◌, arith, length, All, Bytes, u32_max, u64_max,
}
use ztreamer.Chain.TreeSizes.{IsU32Sizes}
use ztreamer.Chain.Message.RoundTrip.{IsDigest}
use ztreamer.Chain.Codec.{
  array, read_u8, read_u16, read_u32, read_u64, read_count, read_bytes, take_bool, put_count,
  put_bytes,
}
use ztreamer.Chain.Prints.{
  Prints, exact, bind-Prints, map-Prints, then-Prints, array-Prints, u8-Prints, u16-Prints,
  u32-Prints, u64-Prints, count-Prints, bytes-Prints, bool-Prints, items-Prints, option_bind_inv,
}
use ztreamer.Snapshot.Entry.{
  FieldElements, Pool, sapling_pool, orchard_pool, ironwood_pool, SubtreeRoot, ManifestEntry, tag,
  from_tag, put_node, put_root, put_subtree_roots, encode_entry, take_node, take_root,
  take_subtree_roots, decode_entry,
}

module _ (z : FieldElements) where
  -- What the Rust types of a subtree root say.
  pub record IsSubtreeRoot (root : SubtreeRoot) : Type 0 where
    pub index : root.index < 65_536
    pub bytes : length root.root.to_bytes ≡ 32
    pub node : z.is_node root.root.pool root.root.to_bytes ≡ true

  -- What the Rust types of an entry say.
  pub record IsEntry (e : ManifestEntry) : Type 0 where
    pub range_version : e.range_version < 256
    pub start_height : e.start_height ≤ u32_max
    pub end_height : e.end_height ≤ u32_max
    pub end_hash : IsDigest e.end_hash
    pub sizes : IsU32Sizes e.end_tree_sizes
    pub subtree_roots : All IsSubtreeRoot e.subtree_roots
    pub blob_digest : IsDigest e.blob_digest
    pub blob_len : e.blob_len ≤ u64_max

  tag_small : (pool : Pool) → tag pool < 256
  tag_small sapling_pool = omega arith
  tag_small orchard_pool = omega arith
  tag_small ironwood_pool = omega arith

  from_tag-tag : (pool : Pool) → from_tag (tag pool) ≡ some pool
  from_tag-tag sapling_pool = refl
  from_tag-tag orchard_pool = refl
  from_tag-tag ironwood_pool = refl

  node-Prints :
      (root : SubtreeRoot)
      → IsSubtreeRoot root
      → Prints (take_node z) (put_node root.root) root.root
  unfolding take_node put_node
  node-Prints root w =
      bind-Prints read_u8 _ (u8-Prints (tag root.root.pool) (tag_small root.root.pool)) (
        then-Prints (array 32) _ (array-Prints 32 root.root.to_bytes w.bytes)
          (λ r. rw (from_tag-tag root.root.pool) (rw w.node refl)))

  root-Prints :
      (root : SubtreeRoot) → IsSubtreeRoot root → Prints (take_root z) (put_root root) root
  unfolding take_root put_root put_node
  root-Prints root w = bind-Prints read_u16 _ (u16-Prints root.index w.index) (
      map-Prints (take_node z) (λ node. record { index = root.index; root = node })
        (unfold put_node in node-Prints root w))

  roots-Prints :
      (roots : List SubtreeRoot)
      → All IsSubtreeRoot roots
      → All (λ root. Prints (take_root z) (put_root root) root) roots
  roots-Prints [] w = tt
  roots-Prints (root ∷ roots) w = (root-Prints root w.0, roots-Prints roots w.1)

  pub subtree_roots-Prints :
      (roots : List SubtreeRoot) (written : Bytes)
      → All IsSubtreeRoot roots
      → put_subtree_roots roots ≡ some written
      → Prints (take_subtree_roots z) written roots
  unfolding put_subtree_roots take_subtree_roots
  subtree_roots-Prints roots written w h =
      let (count, first, e) = option_bind_inv (put_count (length roots)) _ h in
      exact (take_subtree_roots z) (cc e) (
        bind-Prints read_count _ (count-Prints (length roots) count first)
          (items-Prints put_root (take_root z) roots (roots-Prints roots w)))

  -- What an entry writes reads back as the entry.
  pub entry-Prints :
      (e : ManifestEntry) (written : Bytes)
      → IsEntry e
      → encode_entry e ≡ some written
      → Prints (decode_entry z) written e
  unfolding encode_entry decode_entry
  entry-Prints e written w h =
      let (sapling, p₁, h₁) = option_bind_inv (put_bytes e.frontiers.sapling) _ h in
      let (orchard, p₂, h₂) = option_bind_inv (put_bytes e.frontiers.orchard) _ h₁ in
      let (ironwood, p₃, h₃) = option_bind_inv (put_bytes e.frontiers.ironwood) _ h₂ in
      let (roots, p₄, h₄) = option_bind_inv (put_subtree_roots e.subtree_roots) _ h₃ in
      exact (decode_entry z) (cc h₄) (
        bind-Prints read_u8 _ (u8-Prints e.range_version w.range_version) (
          bind-Prints read_u32 _ (u32-Prints e.start_height w.start_height) (
            bind-Prints read_u32 _ (u32-Prints e.end_height w.end_height) (
              bind-Prints (array 32) _ (array-Prints 32 e.end_hash w.end_hash) (
                bind-Prints read_u32 _ (u32-Prints e.end_tree_sizes.sapling w.sizes.sapling_fits) (
                  bind-Prints read_u32 _ (u32-Prints e.end_tree_sizes.orchard w.sizes.orchard_fits)
                    (bind-Prints read_u32 _
                      (u32-Prints e.end_tree_sizes.ironwood w.sizes.ironwood_fits)
                      (bind-Prints read_bytes _ (bytes-Prints e.frontiers.sapling sapling p₁) (
                        bind-Prints read_bytes _ (bytes-Prints e.frontiers.orchard orchard p₂) (
                          bind-Prints read_bytes _ (bytes-Prints e.frontiers.ironwood ironwood p₃) (
                            bind-Prints (take_subtree_roots z) _
                              (subtree_roots-Prints e.subtree_roots roots w.subtree_roots p₄)
                              (bind-Prints (array 32) _
                                (array-Prints 32 e.blob_digest w.blob_digest)
                                (bind-Prints read_u64 _ (u64-Prints e.blob_len w.blob_len)
                                  (map-Prints take_bool _ (bool-Prints e.epoch_end)))))))))))))))
