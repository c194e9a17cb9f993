-- ===== src/Index/Writes.antt =====
-- The writes of an index: an append, the two reorg replacements and an install of
-- crates/index/src/index/writer.rs, and the methods of Index in crates/index/src/index/mod.rs that make them.
pub mod Append
pub mod Guards
pub mod Hashes
pub mod Written
pub mod Replace
pub mod Deleted
pub mod Replaced
pub mod Cut
use ztreamer.Prelude.{
  ℕ, ◌+◌, ◌-◌, Bool, true, false, not, ◌||◌, ◌&&◌, Option, none, some, List, [], ◌∷◌, ◌++◌, ltb,
  ◌==◌, if◌then◌else◌, take, last?, Bytes, bytes_eq, Result, ok, err, ◌>>=◌, ok_or, map_err,
  try_map, try_fold, u32_max, word_add,
}
use ztreamer.Chain.TreeSizes.{TreeSizes}
use ztreamer.Chain.Types.{Hash, CompactBlockRecord, range_size}
use ztreamer.Chain.Record.{Prost}
use ztreamer.Chain.Range.{full_records, range_format_version}
use ztreamer.Snapshot.Entry.{ManifestEntry, check_blob}
use ztreamer.Index.Error.{
  IndexError, codec, stale_batch, overflow, sealed, replacement, metadata, bad_range_meta,
  range_end_hash, range_blob, bad_blob, panicked, generation,
}
use ztreamer.Index.State.{BlockId, IndexState, next_height, install_parent_hash}
use ztreamer.Index.Encoding.{EncodedBlock, EncodedBatch}
use ztreamer.Index.RangeMeta.{RangeMeta, VerifyState, rejected, unverified, verified}
use ztreamer.Index.Tables.{
  Heed, Tables, sealed_range_new, heights_from, range_start, get_state, read, is_sealed,
}
use ztreamer.Index.Tables.Checked.{
  RangeChain, CheckedRange, check_chain, links_to, check_entry_blob,
}
use ztreamer.Index.Writer.{
  Writer, id_of, set_tip, start, start_install, put_block, delete_block, delete_mutable_block,
  put_new_hashes, put_hashes, put_mutable_blocks, delete_ranges_from, put_sealed_range, put_meta,
  seal_ranges, commit,
}

abbrev pub wrong_tip : IndexState → Hash → Bool
wrong_tip s previous_hash = elim s.durable_tip [
  | none ↦ false
  | some tip ↦ not (bytes_eq previous_hash tip.hash)
]

abbrev pub last_of : EncodedBlock → List EncodedBlock → EncodedBlock
last_of first [] = first
last_of first (b ∷ bs) = last_of b bs

-- The records are a chain from the height on, behind the hash; the height above the last one.
unfoldable pub check_suffix : ℕ → Hash → List CompactBlockRecord → Result IndexError ℕ
check_suffix expected previous_hash [] = ok expected
check_suffix expected previous_hash (r ∷ rs) =
    if not (r.height == expected) || not (bytes_eq r.previous_hash previous_hash)
    then err (replacement expected)
    else (ok_or (word_add u32_max expected 1) overflow >>= λ next. check_suffix next r.hash rs)

-- `windows(2).any(..)`: some record does not continue the one before it.
abbrev pub follows_not : CompactBlockRecord → CompactBlockRecord → Bool
follows_not r next =
    not (elim (word_add u32_max r.height 1) [ none ↦ false | some height ↦ height == next.height ])
    || not (bytes_eq next.previous_hash r.hash)

unfoldable pub any_break : CompactBlockRecord → List CompactBlockRecord → Bool
any_break r [] = false
any_break r (next ∷ rs) = follows_not r next || any_break next rs

abbrev pub any_break_in : List CompactBlockRecord → Bool
any_break_in [] = false
any_break_in (r ∷ rs) = any_break r rs

abbrev pub sizes_eq : TreeSizes → TreeSizes → Bool
sizes_eq a b = a.sapling == b.sapling && (a.orchard == b.orchard && a.ironwood == b.ironwood)

abbrev pub is_rejected : VerifyState → Bool
is_rejected unverified = false
is_rejected verified = false
is_rejected rejected = true

-- The metadata does not describe the range at `first` that ends with `last`.
unfoldable pub misdescribes : ManifestEntry → VerifyState → ℕ → CompactBlockRecord → Bool
misdescribes entry state first last =
    not (entry.range_version == range_format_version)
    || (not (entry.start_height == first)
        || (not (entry.end_height == last.height)
            || (not (bytes_eq entry.end_hash last.hash)
                || (not (sizes_eq entry.end_tree_sizes last.end_tree_sizes) || is_rejected state))))

module _ {T H M : Type 0} (lmdb : Heed T H M) (prost : Prost) where
  -- `IndexWriter::append`
  unfoldable pub append : Writer T H M → EncodedBatch → Result IndexError (Writer T H M)
  append w batch = elim batch.blocks [
    | [] ↦ err panicked
    | first ∷ rest ↦ ok_or (next_height w.state) overflow >>= λ expected.
        if not (first.height == expected) || wrong_tip w.state first.previous_hash
        then err (stale_batch batch.base_generation)
        else (put_hashes lmdb w (first ∷ rest) >>= λ w₁.
            let last = last_of first rest in
            let w₂ =
              set_tip w₁ (record { height = last.height; hash = last.hash }) batch.end_tree_sizes in
            seal_ranges lmdb prost w₂ batch.seal_through (first ∷ rest) >>= λ sealed.
            put_mutable_blocks lmdb sealed.0 sealed.1 >>= λ w₃. commit lmdb w₃)
  ]

  -- The tip and its tree sizes, seal and commit.
  finish_replacement :
      Writer T H M → BlockId → TreeSizes → Option ℕ → Result IndexError (Writer T H M)
  finish_replacement w tip sizes seal_through =
      seal_ranges lmdb prost (set_tip w tip sizes) seal_through [] >>= λ sealed.
      commit lmdb sealed.0

  -- `IndexWriter::read`
  abbrev pub read_block : Writer T H M → ℕ → Result IndexError CompactBlockRecord
  read_block w height = read lmdb (full_records prost) w.tables w.state height

  -- `IndexWriter::replace_mutable_suffix`
  unfoldable pub replace_mutable_suffix :
      Writer T H M → BlockId → List CompactBlockRecord → Option ℕ → Result IndexError (Writer T H M)
  unfolding check_suffix finish_replacement
  replace_mutable_suffix w ancestor records seal_through =
      if elim w.state.sealed_through [ none ↦ false | some s ↦ ltb ancestor.height s ]
      then err (sealed (ancestor.height + 1))
      else (read_block w ancestor.height >>= λ ancestor_record.
          if not (bytes_eq ancestor_record.hash ancestor.hash)
          then err (replacement ancestor.height)
          else (ok_or (word_add u32_max ancestor.height 1) overflow >>= λ delete_start.
              check_suffix delete_start ancestor.hash records >>= λ _.
              ok_or w.state.durable_tip metadata >>= λ old_tip.
              if ltb old_tip.height ancestor.height
              then err (replacement ancestor.height)
              else (try_fold (delete_mutable_block lmdb prost) w
                    (heights_from delete_start (old_tip.height + 1 - delete_start))
                  >>= λ w₁. try_fold (put_block lmdb prost) w₁ records >>= λ w₂.
                      elim (last? records) [
                        | none ↦
                            finish_replacement w₂ ancestor ancestor_record.end_tree_sizes
                              seal_through
                        | some r ↦ finish_replacement w₂ (id_of r) r.end_tree_sizes seal_through
                      ])))

  -- `IndexWriter::replace_deep_suffix`
  unfoldable pub replace_deep_suffix :
      Writer T H M → BlockId → List CompactBlockRecord → Option ℕ → Result IndexError (Writer T H M)
  unfolding any_break finish_replacement
  replace_deep_suffix w common_ancestor records seal_through =
      ok_or w.state.durable_tip metadata >>= λ old_tip.
      read_block w common_ancestor.height >>= λ common.
      if not (bytes_eq common.hash common_ancestor.hash)
      then err (replacement common_ancestor.height)
      else (let affected_start = range_start common_ancestor.height in
          try_map (read_block w) (heights_from affected_start (old_tip.height + 1 - affected_start))
          >>= λ old.
              let canonical = take (common_ancestor.height - affected_start + 1) old ++ records in
              if any_break_in canonical
              then err (replacement common_ancestor.height)
              else (try_fold (delete_block lmdb) w old >>= λ w₁.
                  delete_ranges_from lmdb w₁ affected_start >>= λ w₂.
                  try_fold (put_block lmdb prost) w₂ canonical >>= λ w₃.
                  ok_or (last? canonical) panicked >>= λ tip.
                  finish_replacement w₃ (id_of tip) tip.end_tree_sizes seal_through))

  -- `IndexWriter::install`
  unfoldable pub install :
      Writer T H M → ℕ → Bytes → RangeChain → RangeMeta → Result IndexError (Writer T H M)
  unfolding misdescribes
  install w first blob chain meta =
      if misdescribes meta.entry meta.state first chain.last
      then err (bad_range_meta first)
      else (put_new_hashes lmdb w chain.ids >>= λ w₁.
          put_sealed_range lmdb w₁ first blob meta >>= λ w₂.
          commit lmdb (set_tip w₂ (id_of chain.last) chain.last.end_tree_sizes))

  -- `Index::write_encoded` and `Index::write`
  unfoldable pub write_encoded : Tables T H M → EncodedBatch → Result IndexError (Writer T H M)
  write_encoded tables batch = start lmdb tables batch.base_generation >>= λ w. append w batch

  -- `Index::install_sealed_range`; `genesis_previous` is zakura's GENESIS_PREVIOUS_BLOCK_HASH.
  unfoldable pub install_sealed_range :
      (Bytes → Bytes)
      → Hash
      → Tables T H M
      → ℕ
      → Bytes
      → RangeMeta
      → Result IndexError (Writer T H M)
  install_sealed_range blake3 genesis_previous tables first blob meta =
      start_install lmdb tables first >>= λ w.
      map_err (bad_blob first) (check_blob blake3 meta.entry blob) >>= λ _.
      map_err codec (sealed_range_new first blob) >>= λ r.
      check_chain prost r (install_parent_hash genesis_previous w.state) w.state.tree_sizes >>= λ c.
      ok_or c panicked >>= λ chain. install w first blob chain meta

  -- `Index::install_checked_range`
  unfoldable pub install_checked_range :
      Hash → Tables T H M → CheckedRange → RangeMeta → Result IndexError (Writer T H M)
  install_checked_range genesis_previous tables range meta =
      start_install lmdb tables range.start >>= λ w.
      map_err (bad_blob range.start) (check_entry_blob range meta.entry) >>= λ _.
      ok_or range.checked_chain panicked >>= λ chain.
      if not (links_to chain (install_parent_hash genesis_previous w.state) w.state.tree_sizes)
      then err (range_blob range.start)
      else install w range.start range.blob_bytes chain meta

  -- `Index::put_range_meta`
  unfoldable pub put_range_meta : Tables T H M → ℕ → RangeMeta → Result IndexError (Tables T H M)
  put_range_meta tables first meta =
      ok_or (word_add u32_max first (range_size - 1)) overflow >>= λ end.
      get_state lmdb tables.metadata >>= λ s.
      if not (first == range_start first)
        || (not (meta.entry.start_height == first)
            || (not (meta.entry.end_height == end) || not (is_sealed s end)))
      then err (bad_range_meta first)
      else (lmdb.hashes.get tables.hash_to_height meta.entry.end_hash >>= λ found.
          if elim found [ none ↦ true | some height ↦ not (height == end) ]
          then err (range_end_hash first)
          else (put_meta lmdb tables.range_meta first meta >>= λ metas.
              ok (record tables { range_meta = metas })))

  -- `Index::snapshot`: the state of the tables, at a known generation.
  unfoldable pub snapshot : Tables T H M → ℕ → Result IndexError IndexState
  snapshot tables expected = get_state lmdb tables.metadata >>= λ s.
      if not (s.generation == expected) then err (generation expected s.generation) else ok s
