-- ===== src/Index/Writes/Deleted.antt =====
-- The rows that a replacement of crates/index/src/index/writer.rs deletes.
use ztreamer.Prelude.{
  ℕ, zero, suc, ◌+◌, ◌≤◌, ◌<◌, ◌≡◌, sym, ap, ◌∙◌, ◌≢◌, arith, ok, >>=-eq-ok, ok_inj, ok-step,
  try_fold, map_err,
}
use ztreamer.Chain.Types.{CompactBlockRecord}
use ztreamer.Chain.Record.{Prost}
use ztreamer.Index.Error.{codec}
use ztreamer.Index.Tables.{Heed, heights_from}
use ztreamer.Index.Tables.Laws.{IsHeed, delete_other}
use ztreamer.Index.Writer.{Writer, delete_block, delete_mutable_block, with_mutable, with_hashes}
use ztreamer.Index.Writer.Stored.{RowAt}

module _ {T H M : Type 0} (lmdb : Heed T H M) (prost : Prost) where
  -- The rows below a height are as they were.
  abbrev pub Below : ℕ → Writer T H M → Writer T H M → Type 0
  Below h w w' =
      (w'.tables.sealed_ranges ≡ w.tables.sealed_ranges)
      × (w'.state ≡ w.state)
      × ((j : ℕ)
          → j < h
          → lmdb.heights.get w'.tables.mutable_blocks j
            ≡ lmdb.heights.get w.tables.mutable_blocks j)

  -- Each row of an interval holds a block of its height.
  abbrev pub HasRows : T → ℕ → ℕ → Type 0
  HasRows rows low top =
      (h : ℕ)
      → low ≤ h
      → h < top
      → (r : CompactBlockRecord) × (r.height ≡ h) × RowAt lmdb prost rows h r

  -- A delete leaves the other rows.
  delete_mutable_block-other :
      IsHeed lmdb
      → (w w' : Writer T H M) (h : ℕ) (r : CompactBlockRecord) → r.height ≡ h
      → RowAt lmdb prost w.tables.mutable_blocks h r
      → delete_mutable_block lmdb prost w h ≡ ok w'
      → (w'.tables.sealed_ranges ≡ w.tables.sealed_ranges)
        × (w'.state ≡ w.state)
        × ((j : ℕ)
            → j ≢ h
            → lmdb.heights.get w'.tables.mutable_blocks j
              ≡ lmdb.heights.get w.tables.mutable_blocks j)
  unfolding delete_mutable_block delete_block
  delete_mutable_block-other laws w w' h r at (e, got, decoded) ran =
      let ran' : delete_block lmdb w r ≡ ok w' =
        sym (ok-step _ got ∙ ok-step _ (ap (map_err codec) decoded)) ∙ ran in
      let (hashes, p₀, h₀) = >>=-eq-ok (lmdb.hashes.delete w.tables.hash_to_height r.hash) _ ran' in
      let (rows, p₁, h₁) = >>=-eq-ok (lmdb.heights.delete w.tables.mutable_blocks r.height) _ h₀ in
      let same = sym (ok_inj (with_mutable (with_hashes w hashes) rows) w' h₁) in
      (
        ap (λ x. x.tables.sealed_ranges) same,
        ap (λ x. x.state) same,
        λ j ne.
            ap (λ x. lmdb.heights.get x.tables.mutable_blocks j) same
            ∙ delete_other lmdb.heights laws.heights w.tables.mutable_blocks r.height rows j p₁
                (λ e. ne (sym e ∙ at)),
      )

  pub deletes-Below :
      IsHeed lmdb
      → (h count : ℕ) (w w' : Writer T H M) → HasRows w.tables.mutable_blocks h (h + count)
      → try_fold (delete_mutable_block lmdb prost) w (heights_from h count) ≡ ok w'
      → Below h w w'
  unfolding try_fold heights_from
  deletes-Below laws h zero w w' has ran =
      let same = sym (ok_inj w w' ran) in
      (
        ap (λ x. x.tables.sealed_ranges) same,
        ap (λ x. x.state) same,
        λ j lt. ap (λ x. lmdb.heights.get x.tables.mutable_blocks j) same,
      )
  deletes-Below laws h (suc count) w w' has ran =
      let (next, p, k) = >>=-eq-ok (delete_mutable_block lmdb prost w h) _ ran in
      let (r, at, row) = has h (omega arith) (omega arith) in
      let (ranges, state, other) = delete_mutable_block-other laws w next h r at row p in
      let (ranges', state', below) =
        deletes-Below laws (h + 1) count next w'
          (λ i ge lt.
            let (x, place, (e, got, decoded)) = has i (omega arith) (omega arith) in
            (x, place, (e, other i (λ q. omega arith) ∙ got, decoded)))
          k in
      (ranges' ∙ ranges, state' ∙ state, λ j lt. below j (omega arith) ∙ other j (λ q. omega arith))
