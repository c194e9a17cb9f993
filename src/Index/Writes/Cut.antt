-- ===== src/Index/Writes/Cut.antt =====
-- The chain without its last blocks, in crates/index/src/index/writer.rs.
use ztreamer.Prelude.{
  ℕ, ◌≤◌, ◌≡◌, sym, ap, ◌∙◌, some, List, [], ◌∷◌, arith, length, length-take, length-drop,
  get_elem?, get_elem?-take, get_elem?-lt, take, drop,
}
use ztreamer.Chain.Types.{CompactBlockRecord}
use ztreamer.Chain.Record.{Prost}
use ztreamer.Index.Tables.{Heed, range_start}
use ztreamer.Index.Writer.{Writer}
use ztreamer.Index.Writer.Stored.{Pending, Stored}
use ztreamer.Index.Writes.Deleted.{Below}

module _ {T H M : Type 0} (lmdb : Heed T H M) (prost : Prost) where
  -- With the rows from `n` on gone, the tables hold the first `n` blocks.
  pub cut-Stored :
      (w w' : Writer T H M) (low n : ℕ) (chain : List CompactBlockRecord)
      → Stored lmdb prost w.tables.sealed_ranges w.tables.mutable_blocks low (length chain) [] chain
      → low ≤ n
      → n ≤ length chain
      → Below lmdb prost n w w'
      → Stored lmdb prost w'.tables.sealed_ranges w'.tables.mutable_blocks low
          (length (take n chain))
          []
          (take n chain)
  cut-Stored w w' low n chain s ge le (ranges, state, below) = record {
    aligned = s.aligned;
    order = omega (arith, len);
    room = omega arith;
    fits = omega (arith, len, s.fits);
    heights = λ h r at. s.heights h r (inside h r at ∙ at);
    in_range = λ h r at lt.
        let (packed, d, got, made, reads) = s.in_range h r (inside h r at ∙ at) lt in
        (packed, d, ap (λ t. lmdb.heights.get t (range_start h)) ranges ∙ got, made, reads);
    in_row = λ h r at from lt.
        let (e, got, decoded) = s.in_row h r (inside h r at ∙ at) from (omega (arith, lt, len)) in
        (e, below h (omega (arith, lt, len)) ∙ got, decoded);
    waits =
        nothing (drop (length (take n chain)) (take n chain))
          (omega (arith, length-drop (length (take n chain)) (take n chain)));
  }
    where
      len : length (take n chain) ≡ n
      len = omega (arith, length-take n chain)

      inside :
          (h : ℕ) (r : CompactBlockRecord)
          → get_elem? (take n chain) h ≡ some r
          → get_elem? chain h ≡ get_elem? (take n chain) h
      inside h r at =
          sym (get_elem?-take n h chain (omega (arith, get_elem?-lt (take n chain) h r at, len)))

      nothing :
          (l : List CompactBlockRecord)
          → length l ≡ 0
          → Pending lmdb prost (length (take n chain)) [] l
      nothing [] e = tt
      nothing (x ∷ l) e = absurd (omega (arith, e))
