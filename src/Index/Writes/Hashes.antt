-- ===== src/Index/Writes/Hashes.antt =====
-- The hash index after an append: IndexWriter::append of crates/index/src/index/writer.rs.
use ztreamer.Prelude.{
  ℕ, zero, suc, ◌+◌, ◌-◌, ◌≡◌, sym, ap, ◌∙◌, inl, inr, not, ◌||◌, Option, none, some, List, [], ◌∷◌,
  ◌++◌, ◌==◌, if◌then◌else◌, length, min, Result, ok, bytes_eq, >>=-eq-ok, guard_inv, if_inv,
  ok_inj, ok_or, map_err, try_fold, u32_max, u64_max, word_add,
}
use ztreamer.Chain.Types.{Hash, CompactBlockRecord, range_size}
use ztreamer.Chain.Record.{Prost}
use ztreamer.Chain.Range.{encode_range_from_bytes}
use ztreamer.Index.Error.{IndexError, codec, overflow, panicked}
use ztreamer.Index.State.{BlockId, next_height, next_range_start}
use ztreamer.Index.Encoding.{EncodedBlock, EncodedBatch}
use ztreamer.Index.Metadata.{encode_state}
use ztreamer.Index.Tables.{Heed, state_key, heights_from, read_checked, delete_range}
use ztreamer.Index.Tables.Laws.{IsHeed}
use ztreamer.Index.Writer.{
  Writer, set_tip, put_hash, put_hashes, put_row, put_mutable_blocks, first_new, pull_rows, beyond,
  seal_range, seal_loop, seal_ranges, seal_fuel, commit,
}
use ztreamer.Index.Writer.Stored.{Pending}
use ztreamer.Index.Writes.{last_of, wrong_tip, append}

-- What a lookup of the hash answers once the records are put: the last one with the hash wins.
abbrev pub answer_after :
    Result IndexError (Option ℕ) → Hash → List CompactBlockRecord → Result IndexError (Option ℕ)
answer_after before hash [] = before
answer_after before hash (r ∷ rs) =
    answer_after (if bytes_eq r.hash hash then ok (some r.height) else before) hash rs

module _ {T H M : Type 0} (lmdb : Heed T H M) (prost : Prost) where
  abbrev SameHashes : Writer T H M → Writer T H M → Type 0
  SameHashes w w' = w'.tables.hash_to_height ≡ w.tables.hash_to_height

  seal_range-hashes :
      (w w' : Writer T H M) (first end : ℕ) (blocks left : List EncodedBlock)
      → seal_range lmdb prost w first end blocks ≡ ok (w', left)
      → SameHashes w w'
  unfolding seal_range
  seal_range-hashes w w' first end blocks left ran =
      let heights = heights_from first (min (first_new end blocks) (end + 1) - first) in
      let (rows, p₀, h₀) =
        >>=-eq-ok (read_checked lmdb prost w.tables.mutable_blocks heights first) _ ran in
      let (pulled, p₁, h₁) = >>=-eq-ok (pull_rows first (range_size - length rows) blocks) _ h₀ in
      let (packed, p₂, h₂) =
        >>=-eq-ok (map_err codec (encode_range_from_bytes (rows ++ pulled.0))) _ h₁ in
      let (ranges, p₃, h₃) =
        >>=-eq-ok (lmdb.heights.put w.tables.sealed_ranges first packed) _ h₂ in
      let (rest, p₄, h₄) = >>=-eq-ok (delete_range lmdb w.tables.mutable_blocks heights) _ h₃ in
      ap (λ x. x.0.tables.hash_to_height) (sym (ok_inj _ (w', left) h₄))

  seal_loop-hashes :
      (fuel : ℕ) (w w' : Writer T H M) (through first : ℕ) (blocks left : List EncodedBlock)
      → seal_loop lmdb prost fuel w through first blocks ≡ ok (w', left)
      → SameHashes w w'
  unfolding seal_loop
  seal_loop-hashes zero w w' through first blocks left ran =
      ap (λ x. x.0.tables.hash_to_height) (sym (ok_inj (w, blocks) (w', left) ran))
  seal_loop-hashes (suc fuel) w w' through first blocks left ran =
      let (end, p₀, h₀) =
        >>=-eq-ok (ok_or (word_add u32_max first (range_size - 1)) overflow) _ ran in
      elim (if_inv (beyond w.state through end) _ _ h₀) [
        | inl (past, h₁) ↦
            ap (λ x. x.0.tables.hash_to_height) (sym (ok_inj (w, blocks) (w', left) h₁))
        | inr (within, h₁) ↦
            let (next, p₁, h₂) = >>=-eq-ok (seal_range lmdb prost w first end blocks) _ h₁ in
            let (first', p₂, h₃) = >>=-eq-ok (ok_or (word_add u32_max end 1) overflow) _ h₂ in
            seal_loop-hashes fuel next.0 w' through first' next.1 left h₃
            ∙ seal_range-hashes w next.0 first end blocks next.1 p₁
      ]

  seal_ranges-hashes :
      (w w' : Writer T H M) (through : Option ℕ) (blocks left : List EncodedBlock)
      → seal_ranges lmdb prost w through blocks ≡ ok (w', left)
      → SameHashes w w'
  unfolding seal_ranges
  seal_ranges-hashes w w' none blocks left ran =
      ap (λ x. x.0.tables.hash_to_height) (sym (ok_inj (w, blocks) (w', left) ran))
  seal_ranges-hashes w w' (some through) blocks left ran =
      let (first, p, h) = >>=-eq-ok (ok_or (next_range_start w.state) overflow) _ ran in
      seal_loop-hashes seal_fuel w w' through first blocks left h

  put_mutable_blocks-hashes :
      (w w' : Writer T H M) (blocks : List EncodedBlock)
      → put_mutable_blocks lmdb w blocks ≡ ok w'
      → SameHashes w w'
  unfolding put_mutable_blocks put_row try_fold
  put_mutable_blocks-hashes w w' [] ran = ap (λ x. x.tables.hash_to_height) (sym (ok_inj w w' ran))
  put_mutable_blocks-hashes w w' (b ∷ bs) ran =
      let (next, p, h) = >>=-eq-ok (put_row lmdb w b.height b.bytes) _ ran in
      let (table, q, h') =
        >>=-eq-ok (lmdb.heights.put w.tables.mutable_blocks b.height b.bytes) _ p in
      put_mutable_blocks-hashes next w' bs h
      ∙ ap (λ x. x.tables.hash_to_height) (sym (ok_inj _ next h'))

  commit-hashes : (w w' : Writer T H M) → commit lmdb w ≡ ok w' → SameHashes w w'
  unfolding commit
  commit-hashes w w' ran =
      let (generation, p₀, h₀) =
        >>=-eq-ok (ok_or (word_add u64_max w.state.generation 1) overflow) _ ran in
      let (bytes, p₁, h₁) =
        >>=-eq-ok (ok_or (encode_state (record w.state { generation = generation })) panicked) _
          h₀ in
      let (metas, p₂, h₂) = >>=-eq-ok (lmdb.rows.put w.tables.metadata state_key bytes) _ h₁ in
      ap (λ x. x.tables.hash_to_height) (sym (ok_inj _ w' h₂))

  put_hashes_lem :
      IsHeed lmdb
      → (w w' : Writer T H M) (p : ℕ) (bs : List EncodedBlock) (rs : List CompactBlockRecord)
        (hash : Hash)
      → Pending lmdb prost p bs rs
      → put_hashes lmdb w bs ≡ ok w'
      → lmdb.hashes.get w'.tables.hash_to_height hash
        ≡ answer_after (lmdb.hashes.get w.tables.hash_to_height hash) hash rs
  unfolding put_hashes put_hash try_fold
  put_hashes_lem laws w w' p [] [] hash waits ran =
      ap (λ x. lmdb.hashes.get x.tables.hash_to_height hash) (sym (ok_inj w w' ran))
  put_hashes_lem laws w w' p [] (r ∷ rs) hash waits ran = absurd waits
  put_hashes_lem laws w w' p (b ∷ bs) [] hash waits ran = absurd waits
  put_hashes_lem laws w w' p (b ∷ bs) (r ∷ rs) hash (at, height, same, decoded, waits) ran =
      let (next, ran₁, h) =
        >>=-eq-ok (put_hash lmdb w (record { height = b.height; hash = b.hash })) _ ran in
      let (table, q, h') =
        >>=-eq-ok (lmdb.hashes.put w.tables.hash_to_height b.hash b.height) _ ran₁ in
      let put : lmdb.hashes.get next.tables.hash_to_height hash ≡ (
          if bytes_eq b.hash hash
          then ok (some b.height)
          else lmdb.hashes.get w.tables.hash_to_height hash) =
        ap (λ x. lmdb.hashes.get x.tables.hash_to_height hash) (sym (ok_inj _ next h'))
        ∙ laws.hashes.get-put w.tables.hash_to_height b.hash b.height table hash q in
      put_hashes_lem laws next w' (p + 1) bs rs hash waits h
      ∙ ap (λ before. answer_after before hash rs)
          (put
            ∙ ap
                (λ k.
                  if bytes_eq k hash
                  then ok (some b.height)
                  else lmdb.hashes.get w.tables.hash_to_height hash)
                same
            ∙ ap
                (λ n.
                  if bytes_eq r.hash hash
                  then ok (some n)
                  else lmdb.hashes.get w.tables.hash_to_height hash)
                (at ∙ sym height))

  -- After an append every lookup of a hash answers as if the records had been put, one after the other.
  pub append-hashes :
      IsHeed lmdb
      → (w w' : Writer T H M) (batch : EncodedBatch) (p : ℕ) (records : List CompactBlockRecord)
        (hash : Hash)
      → Pending lmdb prost p batch.blocks records
      → append lmdb prost w batch ≡ ok w'
      → lmdb.hashes.get w'.tables.hash_to_height hash
        ≡ answer_after (lmdb.hashes.get w.tables.hash_to_height hash) hash records
  unfolding append set_tip
  append-hashes laws w w' batch p records hash waits ran = go batch.blocks waits ran
    where
      go :
          (blocks : List EncodedBlock)
          → Pending lmdb prost p blocks records
          → append lmdb prost w (record batch { blocks = blocks }) ≡ ok w'
          → lmdb.hashes.get w'.tables.hash_to_height hash
            ≡ answer_after (lmdb.hashes.get w.tables.hash_to_height hash) hash records
      go [] waits ran = absurd (cc ran)
      go (b ∷ bs) waits ran =
          let (expected, p₀, h₀) = >>=-eq-ok (ok_or (next_height w.state) overflow) _ ran in
          let (fits_on, h₁) =
            guard_inv (not (b.height == expected) || wrong_tip w.state b.previous_hash) _ _ h₀ in
          let (w₁, p₂, h₂) = >>=-eq-ok (put_hashes lmdb w (b ∷ bs)) _ h₁ in
          let tip : BlockId = record {
            height = (last_of b bs).height;
            hash = (last_of b bs).hash;
          } in
          let w₂ = set_tip w₁ tip batch.end_tree_sizes in
          let (sealed, p₃, h₃) =
            >>=-eq-ok (seal_ranges lmdb prost w₂ batch.seal_through (b ∷ bs)) _ h₂ in
          let (w₃, p₄, h₄) = >>=-eq-ok (put_mutable_blocks lmdb sealed.0 sealed.1) _ h₃ in
          ap (λ t. lmdb.hashes.get t hash)
            (commit-hashes w₃ w' h₄
              ∙ put_mutable_blocks-hashes sealed.0 w₃ sealed.1 p₄
              ∙ seal_ranges-hashes w₂ sealed.0 batch.seal_through (b ∷ bs) sealed.1 p₃)
          ∙ put_hashes_lem laws w w₁ p (b ∷ bs) records hash waits p₂
