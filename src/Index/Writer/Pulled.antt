-- ===== src/Index/Writer/Pulled.antt =====
-- The rows that seal_range of crates/index/src/index/writer.rs packs: those of the table, and those of the batch.
use mathlib.Core.Path.{subst}
use ztreamer.Prelude.{
  ℕ, zero, suc, ◌+◌, ◌-◌, ◌≤◌, ◌<◌, ◌≡◌, sym, ap, ◌∙◌, inl, inr, some, List, [], ◌∷◌, ◌++◌, arith,
  leb, Bool-cases, length, get_elem?, take, drop, element, drop-element, length-take, length-drop,
  drop-drop, take-add, Bytes, ok, >>=-eq-ok, try_map-nil, try_map-cons, try_fold, ok-step, map_err,
  min,
}
use ztreamer.Chain.Types.{CompactBlockRecord, range_size, check}
use ztreamer.Chain.Record.{Prost, decode}
use ztreamer.Chain.Range.{}
use ztreamer.Chain.Range.Rows.{Decodes, length-Decodes}
use ztreamer.Index.Error.{codec}
use ztreamer.Index.Encoding.{EncodedBlock}
use ztreamer.Index.Tables.{Heed, heights_from, checked_row, read_checked, delete_range}
use ztreamer.Index.Tables.Laws.{IsHeed, delete_other}
use ztreamer.Index.Writer.{first_new, pull_rows}
use ztreamer.Index.Writer.Stored.{RowAt, Pending, all_written}

-- Behind the rows that a range takes stand the blocks of the batch, if it takes any.
pulled_from :
    (low p count n : ℕ) (chain : List CompactBlockRecord)
    → low ≤ p
    → count ≡ min p (low + 999 + 1) - low
    → n ≡ count
    → take (1000 - count) (drop count (drop low chain)) ≡ take (1000 - n) (drop p chain)
pulled_from low p count n chain order is same = elim (Bool-cases (leb p (low + 1000))) [
  | inl le ↦
      ap (λ k. take (1000 - k) (drop count (drop low chain))) (sym same)
      ∙ ap (take (1000 - n))
          (sym (drop-drop low count chain) ∙ ap (λ k. drop k chain) (ground (arith, is, le)))
  | inr gt ↦
      let none_left : 1000 - count ≡ 0 = ground (arith, is, gt) in
      let none_pulled : 1000 - n ≡ 0 = omega (arith, none_left) in
      ap (λ k. take k (drop count (drop low chain))) none_left
      ∙ sym (ap (λ k. take k (drop p chain)) none_pulled)
]

module _ {T H M : Type 0} (lmdb : Heed T H M) (prost : Prost) where
  pub first_new_lem :
      (p end : ℕ) (blocks : List EncodedBlock) (chain : List CompactBlockRecord)
      → p ≤ length chain
      → end < length chain
      → Pending lmdb prost p blocks (drop p chain)
      → min (first_new end blocks) (end + 1) ≡ min p (end + 1)
  first_new_lem p end [] chain room below waits =
      omega (arith, all_written lmdb prost p chain room waits)
  first_new_lem p end (b ∷ bs) chain room below waits =
      ap (λ n. min n (end + 1)) (go (drop p chain) waits)
    where
      go : (l : List CompactBlockRecord) → Pending lmdb prost p (b ∷ bs) l → b.height ≡ p
      go [] waits = absurd waits
      go (r ∷ rs) waits = waits.0

  checked_row-decode :
      (table : T) (start h : ℕ) (r : CompactBlockRecord) (bytes : Bytes)
      → RowAt lmdb prost table h r
      → checked_row lmdb prost table start h ≡ ok bytes
      → decode prost bytes ≡ ok r
  unfolding checked_row
  checked_row-decode table start h r bytes (e, got, decoded) ran =
      let read = sym (ok-step _ got ∙ ok-step _ (ap (map_err codec) decoded)) ∙ ran in
      let (u, checked, same) = >>=-eq-ok (map_err codec (check r)) _ read in
      let e≡bytes : e ≡ bytes = cc same in subst (λ x. decode prost x ≡ ok r) e≡bytes decoded

  -- The rows that a check read are those of the chain.
  pub rows_Decodes :
      (table : T) (start low p : ℕ) (chain : List CompactBlockRecord)
      → ((h : ℕ) (r : CompactBlockRecord)
          → get_elem? chain h ≡ some r
          → low ≤ h
          → h < p
          → RowAt lmdb prost table h r)
      → p ≤ length chain
      → (h count : ℕ) (rows : List Bytes) → low ≤ h
      → h + count ≤ p
      → read_checked lmdb prost table (heights_from h count) start ≡ ok rows
      → Decodes prost rows (take count (drop h chain))
  unfolding read_checked heights_from
  rows_Decodes table start low p chain row room h zero rows ge le ran =
      subst (λ l. Decodes prost l []) (try_map-nil (checked_row lmdb prost table start) ran) tt
  rows_Decodes table start low p chain row room h (suc count) rows ge le ran =
      let (e, es, first, rest, same) =
        try_map-cons (checked_row lmdb prost table start) h (heights_from (h + 1) count) ran in
      let (r, at) = element chain h (omega arith) in
      let here = checked_row-decode table start h r e (row h r at ge (omega arith)) first in
      let more =
        rows_Decodes table start low p chain row room (h + 1) count es (omega arith) (omega arith)
          rest in
      subst (λ l. Decodes prost l (take (suc count) (drop h chain))) same
        (rw (drop-element chain h r at) (here, more))

  -- The rows that were pulled from the batch, and what is left in it.
  pub pull_rows-Pending :
      (start p count : ℕ) (blocks : List EncodedBlock) (rs : List CompactBlockRecord)
      (es : List Bytes) (left : List EncodedBlock)
      → Pending lmdb prost p blocks rs
      → pull_rows start count blocks ≡ ok (es, left)
      → Decodes prost es (take count rs)
        × (count ≤ length rs)
        × Pending lmdb prost (p + count) left (drop count rs)
  unfolding pull_rows
  pull_rows-Pending start p zero blocks rs es left waits ran =
      let no_rows : [] ≡ es = cc ran in
      let all_left : blocks ≡ left = cc ran in
      let same : p ≡ p + 0 = omega arith in
      (
        subst (λ l. Decodes prost l []) no_rows tt,
        omega arith,
        subst (λ l. Pending lmdb prost (p + 0) l rs) all_left
            (subst (λ n. Pending lmdb prost n blocks rs) same waits),
      )
  pull_rows-Pending start p (suc count) [] rs es left waits ran = absurd (cc ran)
  pull_rows-Pending start p (suc count) (b ∷ bs) [] es left waits ran = absurd waits
  pull_rows-Pending start p (suc count) (b ∷ bs) (r ∷ rs) es left (at, height, hash, decoded, waits)
        ran =
      let (pulled, p₀, h₀) = >>=-eq-ok (pull_rows start count bs) _ ran in
      let (more, room, left') =
        pull_rows-Pending start (p + 1) count bs rs pulled.0 pulled.1 waits p₀ in
      let one_more : b.bytes ∷ pulled.0 ≡ es = cc h₀ in
      let rest_left : pulled.1 ≡ left = cc h₀ in
      let same : p + 1 + count ≡ p + suc count = omega arith in
      (
        subst (λ l. Decodes prost l (r ∷ take count rs)) one_more (decoded, more),
        omega (arith, room),
        subst (λ l. Pending lmdb prost (p + suc count) l (drop count rs)) rest_left
            (subst (λ n. Pending lmdb prost n pulled.1 (drop count rs)) same left'),
      )

  Decodes-append :
      (es fs : List Bytes) (rs ss : List CompactBlockRecord)
      → Decodes prost es rs
      → Decodes prost fs ss
      → Decodes prost (es ++ fs) (rs ++ ss)
  Decodes-append [] fs [] ss d e = e
  Decodes-append [] fs (r ∷ rs) ss d e = absurd d
  Decodes-append (x ∷ es) fs [] ss d e = absurd d
  Decodes-append (x ∷ es) fs (r ∷ rs) ss d e = (d.0, Decodes-append es fs rs ss d.1 e)

  pub delete_range_other :
      IsHeed lmdb
      → (h count : ℕ) (table table' : T) (j : ℕ)
      → delete_range lmdb table (heights_from h count) ≡ ok table'
      → h + count ≤ j
      → lmdb.heights.get table' j ≡ lmdb.heights.get table j
  unfolding delete_range heights_from try_fold
  delete_range_other laws h zero table table' j ran le = ap (λ t. lmdb.heights.get t j) (cc ran)
  delete_range_other laws h (suc count) table table' j ran le =
      let (middle, p₀, h₀) = >>=-eq-ok (lmdb.heights.delete table h) _ ran in
      delete_range_other laws (h + 1) count middle table' j h₀ (omega arith)
      ∙ delete_other lmdb.heights laws.heights table h middle j p₀ (λ e. omega arith)

  -- The rows of a range and those pulled from the batch are the thousand blocks of the chain.
  pub range_rows :
      (low p : ℕ) (chain : List CompactBlockRecord) (rows es : List Bytes)
      → low ≤ p
      → (count : ℕ) → count ≡ min p (low + 999 + 1) - low
      → low + 999 < length chain
      → p ≤ length chain
      → Decodes prost rows (take count (drop low chain))
      → Decodes prost es (take (range_size - length rows) (drop p chain))
      → (length rows ≡ count) × Decodes prost (rows ++ es) (take 1000 (drop low chain))
  range_rows low p chain rows es order count is below room d e =
      let n : length rows ≡ count = omega (
        arith,
        length-Decodes prost rows (take count (drop low chain)) d,
        length-take count (drop low chain),
        length-drop low chain,
      ) in
      let whole : count + (1000 - count) ≡ 1000 = omega arith in
      let split : take 1000 (drop low chain)
          ≡ take count (drop low chain) ++ take (range_size - length rows) (drop p chain) =
        sym (ap (λ k. take k (drop low chain)) whole)
        ∙ take-add count (1000 - count) (drop low chain)
        ∙ ap (λ l. take count (drop low chain) ++ l)
            (pulled_from low p count (length rows) chain order is n) in
      (
        n,
        subst (Decodes prost (rows ++ es)) (sym split) (
            Decodes-append rows es (take count (drop low chain))
              (take (range_size - length rows) (drop p chain)) d e),
      )
