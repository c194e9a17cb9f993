-- ===== src/Index/Writer/Unbatched.antt =====
-- Sealing without a batch, as in the replacements of crates/index/src/index/writer.rs: no block appears.
use ztreamer.Prelude.{
  ℕ, zero, suc, ◌+◌, ◌-◌, ◌≡◌, refl, ap, ◌∙◌, inl, inr, Option, none, some, List, [], ◌++◌, length,
  Bytes, ok, >>=-eq-ok, if_inv, ok_inj, pair_inj, ok_or, map_err, u32_max, word_add, min,
}
use ztreamer.Chain.Types.{range_size}
use ztreamer.Chain.Record.{Prost}
use ztreamer.Chain.Range.{encode_range_from_bytes}
use ztreamer.Index.Error.{codec, overflow}
use ztreamer.Index.State.{next_range_start}
use ztreamer.Index.Encoding.{EncodedBlock}
use ztreamer.Index.Tables.{Heed, heights_from, read_checked, delete_range}
use ztreamer.Index.Writer.{
  Writer, beyond, first_new, pull_rows, seal_range, seal_fuel, seal_loop, seal_ranges,
}

pull_rows-nil :
    (start count : ℕ) (es : List Bytes) (left : List EncodedBlock)
    → pull_rows start count [] ≡ ok (es, left)
    → [] ≡ left
unfolding pull_rows
pull_rows-nil start zero es left ran = (pair_inj [] es [] left (ok_inj ([], []) (es, left) ran)).1
pull_rows-nil start (suc count) es left ran = absurd (cc ran)

module _ {T H M : Type 0} (lmdb : Heed T H M) (prost : Prost) where
  seal_range-nil :
      (w w' : Writer T H M) (first end : ℕ) (left : List EncodedBlock)
      → seal_range lmdb prost w first end [] ≡ ok (w', left)
      → [] ≡ left
  unfolding seal_range
  seal_range-nil w w' first end left ran =
      let heights = heights_from first (min (first_new end []) (end + 1) - first) in
      let (rows, p₀, h₀) =
        >>=-eq-ok (read_checked lmdb prost w.tables.mutable_blocks heights first) _ ran in
      let (pulled, p₁, h₁) = >>=-eq-ok (pull_rows first (range_size - length rows) []) _ h₀ in
      let (packed, p₂, h₂) =
        >>=-eq-ok (map_err codec (encode_range_from_bytes (rows ++ pulled.0))) _ h₁ in
      let (ranges, p₃, h₃) =
        >>=-eq-ok (lmdb.heights.put w.tables.sealed_ranges first packed) _ h₂ in
      let (rest, p₄, h₄) = >>=-eq-ok (delete_range lmdb w.tables.mutable_blocks heights) _ h₃ in
      pull_rows-nil first (range_size - length rows) pulled.0 pulled.1 p₁
      ∙ (pair_inj _ w' pulled.1 left (ok_inj _ (w', left) h₄)).1

  seal_loop-nil :
      (fuel : ℕ) (w w' : Writer T H M) (through first : ℕ) (blocks left : List EncodedBlock)
      → [] ≡ blocks
      → seal_loop lmdb prost fuel w through first blocks ≡ ok (w', left)
      → [] ≡ left
  unfolding seal_loop
  seal_loop-nil zero w w' through first blocks left empty ran =
      empty ∙ (pair_inj w w' blocks left (ok_inj (w, blocks) (w', left) ran)).1
  seal_loop-nil (suc fuel) w w' through first blocks left empty ran =
      let (end, p₀, h₀) =
        >>=-eq-ok (ok_or (word_add u32_max first (range_size - 1)) overflow) _ ran in
      elim (if_inv (beyond w.state through end) _ _ h₀) [
        | inl (past, h₁) ↦ empty ∙ (pair_inj w w' blocks left (ok_inj (w, blocks) (w', left) h₁)).1
        | inr (within, h₁) ↦
            let (next, p₁, h₂) = >>=-eq-ok (seal_range lmdb prost w first end blocks) _ h₁ in
            let (first', p₂, h₃) = >>=-eq-ok (ok_or (word_add u32_max end 1) overflow) _ h₂ in
            let none_left =
              seal_range-nil w next.0 first end next.1
                (ap (seal_range lmdb prost w first end) empty ∙ p₁) in
            seal_loop-nil fuel next.0 w' through first' next.1 left none_left h₃
      ]

  pub seal_ranges-nil :
      (w w' : Writer T H M) (through : Option ℕ) (left : List EncodedBlock)
      → seal_ranges lmdb prost w through [] ≡ ok (w', left)
      → [] ≡ left
  unfolding seal_ranges
  seal_ranges-nil w w' none left ran = (pair_inj w w' [] left (ok_inj (w, []) (w', left) ran)).1
  seal_ranges-nil w w' (some through) left ran =
      let (first, p, h) = >>=-eq-ok (ok_or (next_range_start w.state) overflow) _ ran in
      seal_loop-nil seal_fuel w w' through first [] left refl h
