-- ===== src/Index/Writes/Replaced.antt =====
-- The chain behind a replacement of the mutable suffix: IndexWriter::replace_mutable_suffix of
-- crates/index/src/index/writer.rs.
use mathlib.Core.Path.{subst}
use mathlib.Core.List.{append-nil}
use ztreamer.Prelude.{
  ℕ, zero, suc, ◌+◌, ◌-◌, ◌≤◌, ◌≡◌, refl, sym, ap, ◌∙◌, Bool, true, false, not, Option, none, some,
  List, [], ◌∷◌, ◌++◌, arith, ltb, length, length-take, get_elem?, get_elem?-lt, element, take,
  last?, last?-cons, All, bytes_eq, eq_of_bytes_eq, ok, >>=-eq-ok, guard_inv, try_fold, ok_or,
  u32_max, word_add,
}
use ztreamer.Chain.TreeSizes.{TreeSizes}
use ztreamer.Chain.Types.{CompactBlockRecord}
use ztreamer.Chain.Record.{Prost}
use ztreamer.Chain.Range.Links.{Continues}
use ztreamer.Index.Error.{overflow, coverage, metadata}
use ztreamer.Index.State.{BlockId, next_range_start}
use ztreamer.Index.Tables.{Heed, heights_from}
use ztreamer.Index.Tables.Laws.{IsHeed}
use ztreamer.Index.Writer.{Writer, id_of, set_tip, put_block, delete_mutable_block, seal_ranges}
use ztreamer.Index.Writer.Stored.{TipIs, Stored, Holds, all_written, read-Holds}
use ztreamer.Index.Writer.Batch.{ok_or-some, word_add_lem, seal_ranges-Holds}
use ztreamer.Index.Writer.Unbatched.{seal_ranges-nil}
use ztreamer.Index.Writes.{check_suffix, finish_replacement, read_block, replace_mutable_suffix}
use ztreamer.Index.Writes.Append.{At, last?-append, commit-Holds}
use ztreamer.Index.Writes.Replace.{
  check_suffix-At, check_suffix-Continues, sealed_below, tip_height_lem, ReadsBack,
  put_blocks-Stored,
}
use ztreamer.Index.Writes.Deleted.{deletes-Below}
use ztreamer.Index.Writes.Cut.{cut-Stored}

no_last : (rs : List CompactBlockRecord) → last? rs ≡ none → rs ≡ []
no_last [] h = refl
no_last (r ∷ rs) h = let (x, last, at) = last?-cons r rs in absurd (cc (h, last))

ok_or_coverage :
    {A : Type 0} (o : Option A) (a : A) (h : ℕ) → ok_or o (coverage h) ≡ ok a → o ≡ some a
ok_or_coverage none a h e = absurd (cc e)
ok_or_coverage (some b) a h e = cc e

ok_or_metadata : {A : Type 0} (o : Option A) (a : A) → ok_or o metadata ≡ ok a → o ≡ some a
ok_or_metadata none a e = absurd (cc e)
ok_or_metadata (some b) a e = cc e

same_id :
    (r : CompactBlockRecord) (id : BlockId)
    → r.height ≡ id.height
    → not (bytes_eq r.hash id.hash) ≡ false
    → id_of r ≡ id
same_id r id height hash =
    λ i. record { height = height i; hash = eq_of_bytes_eq r.hash id.hash (not_false _ hash) i }
  where
    not_false : (b : Bool) → not b ≡ false → b ≡ true
    not_false true h = refl
    not_false false h = absurd (cc h)

module _ {T H M : Type 0} (lmdb : Heed T H M) (prost : Prost) where
  finish_replacement-Holds :
      IsHeed lmdb
      → (w w' : Writer T H M) (low : ℕ) (tip : BlockId) (sizes : TreeSizes) (through : Option ℕ)
        (chain : List CompactBlockRecord) (r : CompactBlockRecord)
      → Stored lmdb prost w.tables.sealed_ranges w.tables.mutable_blocks low (length chain) [] chain
      → next_range_start w.state ≡ some low
      → last? chain ≡ some r
      → tip ≡ id_of r
      → sizes ≡ r.end_tree_sizes
      → finish_replacement lmdb prost w tip sizes through ≡ ok w'
      → Holds lmdb prost w' [] chain
  unfolding finish_replacement set_tip next_range_start
  finish_replacement-Holds laws w w' low tip sizes through chain r s starts last same same_sizes
        ran =
      let (done, p, h) =
        >>=-eq-ok (seal_ranges lmdb prost (set_tip w tip sizes) through []) _ ran in
      let begun : Holds lmdb prost (set_tip w tip sizes) [] chain = record {
        low = low;
        unwritten = length chain;
        stored = s;
        starts = starts;
        tip =
            subst (λ o. TipIs o (set_tip w tip sizes).state) (sym last) (ap some same, same_sizes);
      } in
      let sealed =
        seal_ranges-Holds lmdb prost laws (set_tip w tip sizes) done.0 through [] done.1 chain begun
          p in
      let empty = seal_ranges-nil lmdb prost (set_tip w tip sizes) done.0 through done.1 p in
      (commit-Holds lmdb prost done.0 w' chain
        (subst (λ l. Holds lmdb prost done.0 l chain) (sym empty) sealed) h).0

  -- The tables hold the chain, with the rows behind the ancestor replaced by the records.
  replaced-Stored :
      IsHeed lmdb
      → (w w₁ w₂ : Writer T H M) (low n : ℕ) (chain records : List CompactBlockRecord)
      → Stored lmdb prost w.tables.sealed_ranges w.tables.mutable_blocks low (length chain) [] chain
      → low ≤ n
      → n ≤ length chain
      → At n records
      → n + length records ≤ u32_max + 1
      → All (ReadsBack lmdb prost) records
      → try_fold (delete_mutable_block lmdb prost) w (heights_from n (length chain - n)) ≡ ok w₁
      → try_fold (put_block lmdb prost) w₁ records ≡ ok w₂
      → Stored lmdb prost w₂.tables.sealed_ranges w₂.tables.mutable_blocks low
          (length (take n chain ++ records))
          []
          (take n chain ++ records)
        × (w₂.state ≡ w.state)
  replaced-Stored laws w w₁ w₂ low n chain records s ge le at fits good deleted put =
      let below =
        deletes-Below lmdb prost laws n (length chain - n) w w₁
          (λ h from lt.
            let (r, place) = element chain h (omega (arith, lt, le)) in
            (
              r,
              s.heights h r place,
              s.in_row h r place (omega (arith, from, ge)) (omega (arith, lt, le)),
            ))
          deleted in
      let len : n ≡ length (take n chain) = omega (arith, length-take n chain, le) in
      let (stored, state) =
        put_blocks-Stored lmdb prost laws w₁ w₂ low (take n chain) records
          (cut-Stored lmdb prost w w₁ low n chain s ge le below) (subst (λ k. At k records) len at)
          good (omega (arith, len, fits)) put in
      let (ranges, kept, same) = below in (stored, state ∙ kept)

  last?-take :
      (n : ℕ) (chain : List CompactBlockRecord) (r : CompactBlockRecord)
      → get_elem? chain n ≡ some r
      → last? (take (suc n) chain) ≡ some r
  last?-take n [] r at = absurd (cc at)
  last?-take zero (x ∷ xs) r at = at
  last?-take (suc n) (x ∷ []) r at = absurd (cc at)
  last?-take (suc n) (x ∷ y ∷ ys) r at = last?-take n (y ∷ ys) r at

  -- The end of a replacement, behind the checks.
  replaced-Holds :
      IsHeed lmdb
      → (w w₁ w₂ w' : Writer T H M) (ancestor : BlockId) (common : CompactBlockRecord)
        (records : List CompactBlockRecord) (through : Option ℕ) (chain : List CompactBlockRecord)
        (n count : ℕ)
      → (holds : Holds lmdb prost w [] chain) → All (ReadsBack lmdb prost) records
      → holds.low ≤ n
      → n ≡ ancestor.height + 1
      → count ≡ length chain - n
      → get_elem? chain ancestor.height ≡ some common
      → id_of common ≡ ancestor
      → At n records
      → n + length records ≤ u32_max + 1
      → try_fold (delete_mutable_block lmdb prost) w (heights_from n count) ≡ ok w₁
      → try_fold (put_block lmdb prost) w₁ records ≡ ok w₂
      → (elim (last? records) [
        | none ↦ finish_replacement lmdb prost w₂ ancestor common.end_tree_sizes through
        | some r ↦ finish_replacement lmdb prost w₂ (id_of r) r.end_tree_sizes through
      ])
        ≡ ok w'
      → Holds lmdb prost w' [] (take n chain ++ records)
  replaced-Holds laws w w₁ w₂ w' ancestor common records through chain n count holds good ge is
        counts at same rows fits deleted put ran =
      let s = holds.stored in
      let all = all_written lmdb prost holds.unwritten chain s.room s.waits in
      let (stored, state) =
        replaced-Stored laws w w₁ w₂ holds.low n chain records
          (subst
            (λ k.
              Stored lmdb prost w.tables.sealed_ranges w.tables.mutable_blocks holds.low k [] chain)
            all s)
          ge (omega (arith, get_elem?-lt chain ancestor.height common at, is)) rows fits good
          (subst (λ k. try_fold (delete_mutable_block lmdb prost) w (heights_from n k) ≡ ok w₁)
            counts deleted)
          put in
      finish (last? records) refl ran stored (ap next_range_start state ∙ holds.starts)
    where
      above : n ≡ suc ancestor.height
      above = omega (arith, is)

      finish :
          (o : Option CompactBlockRecord)
          → last? records ≡ o
          → (elim o [
            | none ↦ finish_replacement lmdb prost w₂ ancestor common.end_tree_sizes through
            | some r ↦ finish_replacement lmdb prost w₂ (id_of r) r.end_tree_sizes through
          ])
            ≡ ok w'
          → Stored lmdb prost w₂.tables.sealed_ranges w₂.tables.mutable_blocks holds.low
              (length (take n chain ++ records))
              []
              (take n chain ++ records)
          → next_range_start w₂.state ≡ some holds.low
          → Holds lmdb prost w' [] (take n chain ++ records)
      finish (some r) last ran stored starts =
          finish_replacement-Holds laws w₂ w' holds.low (id_of r) r.end_tree_sizes through
            (take n chain ++ records) r stored starts (last?-append (take n chain) records r last)
            refl refl ran
      finish none last ran stored starts =
          finish_replacement-Holds laws w₂ w' holds.low ancestor common.end_tree_sizes through
            (take n chain ++ records) common stored starts
            (ap (λ l. last? (take n chain ++ l)) (no_last records last)
              ∙ ap last? (append-nil (take n chain))
              ∙ ap (λ k. last? (take k chain)) above
              ∙ last?-take ancestor.height chain common at)
            (sym same) refl ran

  -- Over databases that keep their laws, and for well-formed records whose messages prost reads back, where a
  -- replacement of the mutable suffix of a chain succeeds, the ancestor is the block of the chain at
  -- its height, the records continue it, each at the next height and linked to the block before, and the
  -- tables hold the chain up to it with the records behind it.
  pub replace_mutable_suffix-Holds :
      IsHeed lmdb
      → (w w' : Writer T H M) (ancestor : BlockId) (records : List CompactBlockRecord)
        (through : Option ℕ) (chain : List CompactBlockRecord)
      → Holds lmdb prost w [] chain
      → All (ReadsBack lmdb prost) records
      → replace_mutable_suffix lmdb prost w ancestor records through ≡ ok w'
      → ((r : CompactBlockRecord) × (get_elem? chain ancestor.height ≡ some r)
          × (id_of r ≡ ancestor))
        × Holds lmdb prost w' [] (take (ancestor.height + 1) chain ++ records)
        × Continues ancestor.height ancestor.hash records
  unfolding replace_mutable_suffix
  replace_mutable_suffix-Holds laws w w' ancestor records through chain holds good ran =
      let (open_suffix, h₀) =
        guard_inv (elim w.state.sealed_through [ none ↦ false | some s ↦ ltb ancestor.height s ]) _
          _ ran in
      let (common, p₁, h₁) = >>=-eq-ok (read_block lmdb prost w ancestor.height) _ h₀ in
      let (same_hash, h₂) = guard_inv (not (bytes_eq common.hash ancestor.hash)) _ _ h₁ in
      let (from, p₃, h₃) = >>=-eq-ok (ok_or (word_add u32_max ancestor.height 1) overflow) _ h₂ in
      let (next, p₄, h₄) = >>=-eq-ok (check_suffix from ancestor.hash records) _ h₃ in
      let (old_tip, p₅, h₅) = >>=-eq-ok (ok_or w.state.durable_tip metadata) _ h₄ in
      let (above, h₆) = guard_inv (ltb old_tip.height ancestor.height) _ _ h₅ in
      let (w₁, deleted, h₇) =
        >>=-eq-ok
          (try_fold (delete_mutable_block lmdb prost) w
            (heights_from from (old_tip.height + 1 - from)))
          _ h₆ in
      let (w₂, put, h₈) = >>=-eq-ok (try_fold (put_block lmdb prost) w₁ records) _ h₇ in
      let n = (word_add_lem u32_max ancestor.height 1 from (ok_or-some _ from p₃)) in
      let place =
        ok_or_coverage (get_elem? chain ancestor.height) common ancestor.height
          (sym (read-Holds lmdb prost w chain ancestor.height holds) ∙ p₁) in
      let suffix = check_suffix-At from next ancestor.hash records n.1 p₄ in
      let same =
        same_id common ancestor (holds.stored.heights ancestor.height common place) same_hash in
      let end =
        tip_height_lem w.state chain old_tip holds.tip holds.stored.heights
          (ok_or_metadata w.state.durable_tip old_tip p₅) in
      (
        (common, place, same),
        subst (λ k. Holds lmdb prost w' [] (take k chain ++ records)) n.0
            (replaced-Holds laws w w₁ w₂ w' ancestor common records through chain from
              (old_tip.height + 1 - from) holds good
              (omega (
                arith,
                sealed_below w.state holds.low ancestor.height holds.starts open_suffix,
                n.0,
              ))
              n.0 (omega (arith, end)) place same suffix.0 (omega (arith, suffix.1)) deleted put
              h₈),
        check_suffix-Continues from next ancestor.height ancestor.hash records n.0 p₄,
      )
