-- ===== src/Index/Writer/RowsPut.antt =====
-- The rows of a batch that no range took: put_mutable_blocks of crates/index/src/index/writer.rs.
use mathlib.Core.Path.{subst}
use ztreamer.Prelude.{
  ℕ, ◌+◌, ◌≤◌, ◌<◌, ◌≡◌, refl, sym, ap, ◌∙◌, inl, inr, some, List, [], ◌∷◌, arith, ltb, ltb→lt,
  Bool-cases, get_elem?, drop, get_elem?-lt, get_elem?-drop, drop-drop, Bytes, ok, >>=-eq-ok,
  ok_inj, try_fold,
}
use ztreamer.Chain.Types.{CompactBlockRecord}
use ztreamer.Chain.Record.{Prost, decode}
use ztreamer.Index.Encoding.{EncodedBlock}
use ztreamer.Index.Tables.{Heed}
use ztreamer.Index.Tables.Laws.{IsHeed, put_same, put_other}
use ztreamer.Index.Writer.{Writer, put_row, put_mutable_blocks, with_mutable}
use ztreamer.Index.Writer.Stored.{RowAt, Pending, Stored, Holds}

module _ {T H M : Type 0} (lmdb : Heed T H M) (prost : Prost) where
  pending_head :
      (p : ℕ) (b : EncodedBlock) (bs : List EncodedBlock) (l : List CompactBlockRecord)
      → Pending lmdb prost p (b ∷ bs) l
      → (r : CompactBlockRecord) × (rs : List CompactBlockRecord) × (l ≡ r ∷ rs)
        × (b.height ≡ p)
        × (decode prost b.bytes ≡ ok r)
        × Pending lmdb prost (p + 1) bs rs
  pending_head p b bs [] waits = absurd waits
  pending_head p b bs (r ∷ rs) (at, height, hash, decoded, waits) =
      (r, rs, refl, at, decoded, waits)

  -- The rows with one more, which is the block `r` of the chain.
  put_row-Stored :
      IsHeed lmdb
      → (rows rows' : T) (low p : ℕ) (chain : List CompactBlockRecord) (r : CompactBlockRecord)
        (bytes : Bytes)
      → ((h : ℕ) (x : CompactBlockRecord)
          → get_elem? chain h ≡ some x
          → low ≤ h
          → h < p
          → RowAt lmdb prost rows h x)
      → get_elem? chain p ≡ some r
      → decode prost bytes ≡ ok r
      → lmdb.heights.put rows p bytes ≡ ok rows'
      → (h : ℕ) (x : CompactBlockRecord) → get_elem? chain h ≡ some x
      → low ≤ h
      → h < p + 1
      → RowAt lmdb prost rows' h x
  put_row-Stored laws rows rows' low p chain r bytes row at decoded put h x place ge lt =
      elim (Bool-cases (ltb h p)) [
        | inl old ↦
            let (e, got, read) = row h x place ge (ltb→lt h p old) in
            (
              e,
              put_other lmdb.heights laws.heights rows p bytes rows' h put
                    (λ e. ground (arith, old, e))
                  ∙ got,
              read,
            )
        | inr new ↦
            let here : p ≡ h = ground (arith, new, lt) in
            let same : r ≡ x = cc (here, place, at) in
            (
              bytes,
              ap (lmdb.heights.get rows') (sym here)
                  ∙ put_same lmdb.heights laws.heights rows p bytes rows' put,
              decoded ∙ ap ok same,
            )
      ]

  -- The first of the blocks that wait is written.
  pub write_row-Stored :
      IsHeed lmdb
      → (sealed rows rows' : T) (low p : ℕ) (b : EncodedBlock) (bs : List EncodedBlock)
        (chain : List CompactBlockRecord)
      → Stored lmdb prost sealed rows low p (b ∷ bs) chain
      → lmdb.heights.put rows b.height b.bytes ≡ ok rows'
      → Stored lmdb prost sealed rows' low (p + 1) bs chain
  write_row-Stored laws sealed rows rows' low p b bs chain s put =
      let (r, rs, front, at, decoded, waits) = pending_head p b bs (drop p chain) s.waits in
      let here : get_elem? chain p ≡ some r =
        ap (get_elem? chain) (omega arith)
        ∙ sym (get_elem?-drop p 0 chain)
        ∙ ap (λ l. get_elem? l 0) front in
      record {
        aligned = s.aligned;
        order = omega (arith, s.order);
        room = omega (arith, get_elem?-lt chain p r here);
        fits = s.fits;
        heights = s.heights;
        in_range = s.in_range;
        in_row =
            put_row-Stored laws rows rows' low p chain r b.bytes s.in_row here decoded
              (subst (λ n. lmdb.heights.put rows n b.bytes ≡ ok rows') at put);
        waits =
            subst (Pending lmdb prost (p + 1) bs)
              (ap (drop 1) (sym front) ∙ sym (drop-drop p 1 chain)) waits;
      }

  put_row-Holds :
      IsHeed lmdb
      → (w w' : Writer T H M) (b : EncodedBlock) (bs : List EncodedBlock)
        (chain : List CompactBlockRecord)
      → Holds lmdb prost w (b ∷ bs) chain
      → put_row lmdb w b.height b.bytes ≡ ok w'
      → Holds lmdb prost w' bs chain
  unfolding put_row
  put_row-Holds laws w w' b bs chain holds ran =
      let (rows, put, h) =
        >>=-eq-ok (lmdb.heights.put w.tables.mutable_blocks b.height b.bytes) _ ran in
      subst (λ x. Holds lmdb prost x bs chain) (ok_inj (with_mutable w rows) w' h)
        (record {
          low = holds.low;
          unwritten = holds.unwritten + 1;
          stored =
              write_row-Stored laws w.tables.sealed_ranges w.tables.mutable_blocks rows holds.low
                holds.unwritten b bs chain holds.stored put;
          starts = holds.starts;
          tip = holds.tip;
        })

  -- With the rows of the batch that were not sealed, all blocks are written.
  pub put_mutable_blocks-Holds :
      IsHeed lmdb
      → (w w' : Writer T H M) (blocks : List EncodedBlock) (chain : List CompactBlockRecord)
      → Holds lmdb prost w blocks chain
      → put_mutable_blocks lmdb w blocks ≡ ok w'
      → Holds lmdb prost w' [] chain
  unfolding put_mutable_blocks try_fold
  put_mutable_blocks-Holds laws w w' [] chain holds ran =
      subst (λ x. Holds lmdb prost x [] chain) (ok_inj w w' ran) holds
  put_mutable_blocks-Holds laws w w' (b ∷ bs) chain holds ran =
      let (next, p, h) = >>=-eq-ok (put_row lmdb w b.height b.bytes) _ ran in
      put_mutable_blocks-Holds laws next w' bs chain (put_row-Holds laws w next b bs chain holds p)
        h
