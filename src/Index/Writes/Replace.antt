-- ===== src/Index/Writes/Replace.antt =====
-- What a replacement of the mutable suffix leaves in the tables: IndexWriter::replace_mutable_suffix of
-- crates/index/src/index/writer.rs.
use mathlib.Core.Path.{subst}
use mathlib.Core.List.{append-nil, append_assoc}
use ztreamer.Prelude.{
  ℕ, ◌+◌, ◌≤◌, ◌≡◌, refl, sym, ap, ◌∙◌, true, false, not, ◌||◌, Option, none, some, List, [], ◌∷◌,
  ◌++◌, arith, ltb, leb, ◌==◌, length, length-append, get_elem?, last?, All, bytes_eq, bytes_eq_iff,
  ok, >>=-eq-ok, guard_inv, ok_inj, try_fold, ok_or, map_err, u32_max, word_add,
}
use ztreamer.Chain.Types.{Hash, CompactBlockRecord}
use ztreamer.Chain.Message.{to_proto}
use ztreamer.Chain.Message.RoundTrip.{IsRecord}
use ztreamer.Chain.Record.{Prost, encode}
use ztreamer.Chain.Record.RoundTrip.{decode-encode}
use ztreamer.Chain.Range.Links.{Continues}
use ztreamer.Index.Error.{overflow, codec}
use ztreamer.Index.State.{BlockId, IndexState, next_range_start, height_above}
use ztreamer.Index.Encoding.{EncodedBlock}
use ztreamer.Index.Tables.{Heed}
use ztreamer.Index.Tables.Laws.{IsHeed}
use ztreamer.Index.Writer.{Writer, put_row, put_block, with_mutable}
use ztreamer.Index.Writer.Stored.{TipIs, Pending, Stored, above_tip_lem}
use ztreamer.Index.Writer.Batch.{ok_or-some, word_add_lem}
use ztreamer.Index.Writer.RowsPut.{write_row-Stored}
use ztreamer.Index.Writer.Sealed.{map_err_ok}
use ztreamer.Index.Writes.{check_suffix}
use ztreamer.Index.Writes.Append.{At, put_hash-same, Stored-same, Stored-append}

-- A suffix that passes is at consecutive heights, within a u32.
pub check_suffix-At :
    (expected next : ℕ) (hash : Hash) (rs : List CompactBlockRecord)
    → expected ≤ u32_max
    → check_suffix expected hash rs ≡ ok next
    → At expected rs × (expected + length rs ≤ u32_max)
unfolding check_suffix
check_suffix-At expected next hash [] le ran = (tt, omega arith)
check_suffix-At expected next hash (r ∷ rs) le ran =
    let (fits_on, h₀) =
      guard_inv (not (r.height == expected) || not (bytes_eq r.previous_hash hash)) _ _ ran in
    let (above, p₁, h₁) = >>=-eq-ok (ok_or (word_add u32_max expected 1) overflow) _ h₀ in
    let (is, small) = word_add_lem u32_max expected 1 above (ok_or-some _ above p₁) in
    let (more, room) = check_suffix-At above next r.hash rs small h₁ in
    ((ground (arith, fits_on), subst (λ n. At n rs) is more), omega (arith, room, is))

-- A suffix that passes continues the chain behind its parent.
pub check_suffix-Continues :
    (expected next height : ℕ) (hash : Hash) (rs : List CompactBlockRecord)
    → expected ≡ height + 1
    → check_suffix expected hash rs ≡ ok next
    → Continues height hash rs
unfolding check_suffix
check_suffix-Continues expected next height hash [] at ran = tt
check_suffix-Continues expected next height hash (r ∷ rs) at ran =
    let (fits_on, h₀) =
      guard_inv (not (r.height == expected) || not (bytes_eq r.previous_hash hash)) _ _ ran in
    let (above, p₁, h₁) = >>=-eq-ok (ok_or (word_add u32_max expected 1) overflow) _ h₀ in
    let is = (word_add_lem u32_max expected 1 above (ok_or-some _ above p₁)).0 in
    let same : r.height ≡ expected = ground (arith, fits_on) in
    (
      same ∙ at,
      (bytes_eq_iff r.previous_hash hash).0 (ground (arith, fits_on)),
      check_suffix-Continues above next r.height r.hash rs (omega (arith, is, same)) h₁,
    )

-- Nothing is sealed above the ancestor.
pub sealed_below :
    (s : IndexState) (low height : ℕ)
    → next_range_start s ≡ some low
    → (elim s.sealed_through [ none ↦ false | some through ↦ ltb height through ]) ≡ false
    → low ≤ height + 1
unfolding next_range_start
sealed_below s low height starts below = go s.sealed_through starts below
  where
    go :
        (o : Option ℕ)
        → height_above o ≡ some low
        → (elim o [ none ↦ false | some through ↦ ltb height through ]) ≡ false
        → low ≤ height + 1
    go none e h = ground (arith, e)
    go (some through) e h = ground (arith, e, h)

-- The tip is at the end of the chain.
pub tip_height_lem :
    (s : IndexState) (chain : List CompactBlockRecord) (old_tip : BlockId)
    → TipIs (last? chain) s
    → ((i : ℕ) (r : CompactBlockRecord) → get_elem? chain i ≡ some r → r.height ≡ i)
    → s.durable_tip ≡ some old_tip
    → old_tip.height + 1 ≡ length chain
tip_height_lem s chain old_tip tip heights is =
    let above : (h : ℕ) → ltb old_tip.height h ≡ leb (length chain) h = λ h.
      ap (λ (o : Option BlockId). elim o [ none ↦ true | some t ↦ ltb t.height h ]) (sym is)
      ∙ above_tip_lem s chain h tip heights in
    ground (arith, above old_tip.height, above (old_tip.height + 1))

module _ {T H M : Type 0} (lmdb : Heed T H M) (prost : Prost) where
  -- The records are well formed, and prost reads back their messages.
  abbrev pub ReadsBack : CompactBlockRecord → Type 0
  ReadsBack r =
      IsRecord r × (prost.decode_message (prost.encode_message (to_proto r)) ≡ some (to_proto r))

  put_block-Stored :
      IsHeed lmdb
      → (w w' : Writer T H M) (low : ℕ) (chain : List CompactBlockRecord) (r : CompactBlockRecord)
      → Stored lmdb prost w.tables.sealed_ranges w.tables.mutable_blocks low (length chain) [] chain
      → r.height ≡ length chain
      → ReadsBack r
      → length chain ≤ u32_max
      → put_block lmdb prost w r ≡ ok w'
      → Stored lmdb prost w'.tables.sealed_ranges w'.tables.mutable_blocks low
          (length chain + 1)
          []
          (chain ++ (r ∷ []))
        × (w'.state ≡ w.state)
  unfolding put_block put_row
  put_block-Stored laws w w' low chain r s at good fits ran =
      let (bytes, p₀, h₀) = >>=-eq-ok (map_err codec (encode prost r)) _ ran in
      let (w₁, p₁, h₁) = >>=-eq-ok (put_row lmdb w r.height bytes) _ h₀ in
      let (rows, put, made) =
        >>=-eq-ok (lmdb.heights.put w.tables.mutable_blocks r.height bytes) _ p₁ in
      let after = put_hash-same lmdb prost w₁ w' (record { height = r.height; hash = r.hash }) h₁ in
      let b : EncodedBlock = record {
        height = r.height;
        hash = r.hash;
        previous_hash = r.previous_hash;
        bytes = bytes;
      } in
      let waits : Pending lmdb prost (length chain) (b ∷ []) (r ∷ []) =
        (at, at, refl, decode-encode prost r bytes good.0 good.1 (map_err_ok _ bytes p₀), tt) in
      let more =
        Stored-append lmdb prost w.tables.sealed_ranges w.tables.mutable_blocks low (b ∷ []) chain
          (r ∷ []) s waits (omega (arith, fits)) in
      let written =
        write_row-Stored lmdb prost laws w.tables.sealed_ranges w.tables.mutable_blocks rows low
          (length chain) b [] (chain ++ (r ∷ [])) more put in
      let same = ok_inj (with_mutable w rows) w₁ made in
      (
        Stored-same lmdb prost w₁ w' low (length chain + 1) [] (chain ++ (r ∷ [])) after (
            subst
              (λ x.
                Stored lmdb prost x.tables.sealed_ranges x.tables.mutable_blocks low
                  (length chain + 1) [] (chain ++ (r ∷ [])))
              same written),
        after.2 ∙ ap (λ x. x.state) (sym same),
      )

  pub put_blocks-Stored :
      IsHeed lmdb
      → (w w' : Writer T H M) (low : ℕ) (chain rs : List CompactBlockRecord)
      → Stored lmdb prost w.tables.sealed_ranges w.tables.mutable_blocks low (length chain) [] chain
      → At (length chain) rs
      → All ReadsBack rs
      → length chain + length rs ≤ u32_max + 1
      → try_fold (put_block lmdb prost) w rs ≡ ok w'
      → Stored lmdb prost w'.tables.sealed_ranges w'.tables.mutable_blocks low
          (length (chain ++ rs))
          []
          (chain ++ rs)
        × (w'.state ≡ w.state)
  unfolding try_fold
  put_blocks-Stored laws w w' low chain [] s at good fits ran =
      let same = ok_inj w w' ran in
      (
        subst
            (λ x.
              Stored lmdb prost x.tables.sealed_ranges x.tables.mutable_blocks low
                (length (chain ++ [])) [] (chain ++ []))
            same
            (subst
              (λ l.
                Stored lmdb prost w.tables.sealed_ranges w.tables.mutable_blocks low (length l) []
                  l)
              (sym (append-nil chain)) s),
        ap (λ x. x.state) (sym same),
      )
  put_blocks-Stored laws w w' low chain (r ∷ rs) s at good fits ran =
      let (next, p, h) = >>=-eq-ok (put_block lmdb prost w r) _ ran in
      let (one, state) =
        put_block-Stored laws w next low chain r s at.0 good.0 (omega (arith, fits)) p in
      let n : length chain + 1 ≡ length (chain ++ (r ∷ [])) =
        omega (arith, length-append chain (r ∷ [])) in
      let (more, state') =
        put_blocks-Stored laws next w' low (chain ++ (r ∷ [])) rs
          (subst
            (λ k.
              Stored lmdb prost next.tables.sealed_ranges next.tables.mutable_blocks low k []
                (chain ++ (r ∷ [])))
            n one)
          (subst (λ k. At k rs) n at.1) good.1 (omega (arith, fits, n)) h in
      (
        subst
            (λ l.
              Stored lmdb prost w'.tables.sealed_ranges w'.tables.mutable_blocks low (length l) []
                l)
            (append_assoc chain (r ∷ []) rs) more,
        state' ∙ state,
      )
