-- ===== src/Index/RangeMeta/RoundTrip.antt =====
-- A record of the range_meta table that was written decodes to itself.
use mathlib.Core.List.{append-nil}
use ztreamer.Prelude.{
  ℕ, ◌≤◌, ◌<◌, ◌≡◌, refl, sym, ◌∙◌, true, false, Option, none, some, List, [], ◌∷◌, ◌++◌, arith,
  length, All, Bytes, u32_max, u64_max, usize_max, ok, ok-step,
}
use ztreamer.Prelude.Utf8.{is_utf8}
use ztreamer.Chain.Types.{CodecError}
use ztreamer.Chain.Endian.{be_bytes}
use ztreamer.Chain.Message.RoundTrip.{IsDigest}
use ztreamer.Chain.Cursor.{Read, Rests}
use ztreamer.Chain.Codec.{
  reader_new, array, read_u8, read_u32, read_u64, read_count, read_bytes, read_items, take_bool,
  put_count, put_bytes, finish,
}
use ztreamer.Chain.Prints.{
  Prints, exact, bind-Prints, map-Prints, then-Prints, pure-Prints, array-Prints, u8-Prints,
  u32-Prints, u64-Prints, count-Prints, bytes-Prints, bool-Prints, items-Prints, option_bind_inv,
}
use ztreamer.Snapshot.Entry.{
  FieldElements, Pool, sapling_pool, orchard_pool, ironwood_pool, put_subtree_roots,
  take_subtree_roots, encode_entry, decode_entry,
}
use ztreamer.Snapshot.Entry.RoundTrip.{IsSubtreeRoot, IsEntry, subtree_roots-Prints, entry-Prints}
use ztreamer.Index.RangeMeta.{
  VerifyState, unverified, verified, rejected, state_tag, state_from_tag, NodeId, Attested,
  RangeMeta, put_option, take_option, put_node_id, put_attested, encode_meta, take_string,
  take_state, take_node_id, take_tree_root, take_attested, take_meta, take_versioned, decode_meta,
}

-- A value that is there meets `P`.
abbrev pub IsSome {ℓ κ} : {A : Type ℓ} → (A → Type κ) → Option A → Type κ
IsSome P none = Unit
IsSome P (some a) = P a

pub record IsNodeId (node : NodeId) : Type 0 where
  pub url : is_utf8 node.url ≡ true
  pub version : is_utf8 node.version ≡ true

module _ (z : FieldElements) where
  pub record IsRoot (pool : Pool) (bytes : Bytes) : Type 0 where
    pub length_32 : length bytes ≡ 32
    pub element : z.is_root pool bytes ≡ true

  pub record IsAttested (a : Attested) : Type 0 where
    pub end_hash : IsDigest a.end_hash
    pub sapling : IsSome (IsRoot sapling_pool) a.roots.sapling
    pub orchard : IsSome (IsRoot orchard_pool) a.roots.orchard
    pub ironwood : IsSome (IsRoot ironwood_pool) a.roots.ironwood
    pub subtree_roots : All (IsSubtreeRoot z) a.subtree_roots

  -- What the Rust types of a record say.
  pub record IsMeta (m : RangeMeta) : Type 0 where
    pub entry : IsEntry z m.entry
    pub verified_by : IsSome IsNodeId m.verified_by
    pub verified_at : IsSome (λ at. at ≤ u64_max) m.verified_at
    pub attested : IsSome IsAttested m.attested
    pub sampled_heights : All (λ h. h ≤ u32_max) m.sampled_heights

option-Prints {ℓ κ} :
    {A : Type ℓ} (P : A → Type κ) (put : A → Option Bytes) (take : Read CodecError A) (o : Option A)
    (written : Bytes)
    → ((a : A) (bytes : Bytes) → P a → put a ≡ some bytes → Prints take bytes a)
    → IsSome P o
    → put_option put o ≡ some written
    → Prints (take_option take) written o
unfolding put_option take_option
option-Prints P put take none written each w h =
    exact _ (cc h) (bind-Prints take_bool _ (bool-Prints false) (pure-Prints none))
option-Prints P put take (some a) written each w h =
    let (bytes, first, e) = option_bind_inv (put a) _ h in
    exact _ (cc e) (
      bind-Prints take_bool _ (bool-Prints true)
        (map-Prints take (λ v. some v) (each a bytes w first)))

string-Prints :
    (value written : Bytes)
    → is_utf8 value ≡ true
    → put_bytes value ≡ some written
    → Prints take_string written value
unfolding take_string
string-Prints value written valid h =
    then-Prints read_bytes _ (bytes-Prints value written h) (λ r. rw valid refl)

node_id-Prints :
    (node : NodeId) (written : Bytes)
    → IsNodeId node
    → put_node_id node ≡ some written
    → Prints take_node_id written node
unfolding put_node_id take_node_id
node_id-Prints node written w h =
    let (url, p₁, h₁) = option_bind_inv (put_bytes node.url) _ h in
    let (v, p₂, e) = option_bind_inv (put_bytes node.version) _ h₁ in
    exact _ (cc e) (
      bind-Prints take_string _ (string-Prints node.url url w.url p₁)
        (map-Prints take_string _ (string-Prints node.version v w.version p₂)))

tag_small : (s : VerifyState) → state_tag s < 256
tag_small unverified = omega arith
tag_small verified = omega arith
tag_small rejected = omega arith

state_from_tag-state_tag : (s : VerifyState) → state_from_tag (state_tag s) ≡ ok s
state_from_tag-state_tag unverified = refl
state_from_tag-state_tag verified = refl
state_from_tag-state_tag rejected = refl

state-Prints : (s : VerifyState) → Prints take_state (state_tag s ∷ []) s
unfolding take_state
state-Prints s =
    then-Prints read_u8 _ (u8-Prints (state_tag s) (tag_small s))
      (λ r. rw (state_from_tag-state_tag s) refl)

heights-Prints :
    (hs : List ℕ) → All (λ h. h ≤ u32_max) hs → All (λ h. Prints read_u32 (be_bytes 4 h) h) hs
heights-Prints [] w = tt
heights-Prints (h ∷ hs) w = (u32-Prints h w.0, heights-Prints hs w.1)

module _ (z : FieldElements) where
  root-Prints :
      (pool : Pool) (root bytes : Bytes)
      → IsRoot z pool root
      → some root ≡ some bytes
      → Prints (take_tree_root z pool) bytes root
  unfolding take_tree_root
  root-Prints pool root bytes w h =
      exact _ (cc h)
        (then-Prints (array 32) _ (array-Prints 32 root w.length_32) (λ r. rw w.element refl))

  attested-Prints :
      (a : Attested) (written : Bytes)
      → IsAttested z a
      → put_attested a ≡ some written
      → Prints (take_attested z) written a
  unfolding put_attested take_attested
  attested-Prints a written w h =
      let (sapling, p₁, h₁) = option_bind_inv (put_option some a.roots.sapling) _ h in
      let (orchard, p₂, h₂) = option_bind_inv (put_option some a.roots.orchard) _ h₁ in
      let (ironwood, p₃, h₃) = option_bind_inv (put_option some a.roots.ironwood) _ h₂ in
      let (roots, p₄, e) = option_bind_inv (put_subtree_roots a.subtree_roots) _ h₃ in
      exact _ (cc e) (
        bind-Prints (array 32) _ (array-Prints 32 a.end_hash w.end_hash) (
          bind-Prints (take_option (take_tree_root z sapling_pool)) _
            (tree_root sapling_pool a.roots.sapling sapling w.sapling p₁)
            (bind-Prints (take_option (take_tree_root z orchard_pool)) _
              (tree_root orchard_pool a.roots.orchard orchard w.orchard p₂)
              (bind-Prints (take_option (take_tree_root z ironwood_pool)) _
                (tree_root ironwood_pool a.roots.ironwood ironwood w.ironwood p₃)
                (map-Prints (take_subtree_roots z) _
                  (subtree_roots-Prints z a.subtree_roots roots w.subtree_roots p₄))))))
    where
      tree_root :
          (pool : Pool) (o : Option Bytes) (bytes : Bytes)
          → IsSome (IsRoot z pool) o
          → put_option some o ≡ some bytes
          → Prints (take_option (take_tree_root z pool)) bytes o
      tree_root pool o bytes w h =
          option-Prints (IsRoot z pool) some (take_tree_root z pool) o bytes (root-Prints pool) w h

  meta-Prints :
      (m : RangeMeta) (written : Bytes)
      → IsMeta z m
      → encode_meta m ≡ some written
      → Prints (take_versioned z) written m
  unfolding encode_meta take_versioned take_meta
  meta-Prints m written w h =
      let (entry, p₁, h₁) = option_bind_inv (encode_entry m.entry) _ h in
      let (by, p₂, h₂) = option_bind_inv (put_option put_node_id m.verified_by) _ h₁ in
      let (at, p₃, h₃) =
        option_bind_inv (put_option (λ at. some (be_bytes 8 at)) m.verified_at) _ h₂ in
      let (attested, p₄, h₄) = option_bind_inv (put_option put_attested m.attested) _ h₃ in
      let (count, p₅, e) = option_bind_inv (put_count (length m.sampled_heights)) _ h₄ in
      exact _ (cc e) (
        bind-Prints read_u8 _ (u8-Prints 1 (omega arith)) (
          bind-Prints (decode_entry z) _ (entry-Prints z m.entry entry w.entry p₁) (
            bind-Prints take_state _ (state-Prints m.state) (
              bind-Prints (take_option take_node_id) _
                (option-Prints IsNodeId put_node_id take_node_id m.verified_by by node_id-Prints
                  w.verified_by p₂)
                (bind-Prints (take_option read_u64) _
                  (option-Prints (λ at. at ≤ u64_max) (λ at. some (be_bytes 8 at)) read_u64
                    m.verified_at at (λ a bytes fits e. exact read_u64 (cc e) (u64-Prints a fits))
                    w.verified_at p₃)
                  (bind-Prints (take_option (take_attested z)) _
                    (option-Prints (IsAttested z) put_attested (take_attested z) m.attested attested
                      attested-Prints w.attested p₄)
                    (bind-Prints read_count _ (count-Prints (length m.sampled_heights) count p₅) (
                      map-Prints (read_items (length m.sampled_heights) read_u32) _ (
                        items-Prints (λ h. be_bytes 4 h) read_u32 m.sampled_heights
                          (heights-Prints m.sampled_heights w.sampled_heights))))))))))

  -- A record that the Rust types allow, and whose encoding did not panic and fits a usize, decodes to
  -- itself.
  pub decode_meta-encode_meta :
      (m : RangeMeta) (bytes : Bytes)
      → IsMeta z m
      → encode_meta m ≡ some bytes
      → length bytes ≤ usize_max
      → decode_meta z bytes ≡ ok m
  unfolding decode_meta finish
  decode_meta-encode_meta m bytes w h fits =
      let start : Rests (reader_new bytes) (bytes ++ []) = record {
        at = sym (append-nil bytes);
        within = omega arith;
        fits = fits;
      } in
      ok-step _ ((meta-Prints m bytes w h).run (reader_new bytes) [] start) ∙ ground arith
