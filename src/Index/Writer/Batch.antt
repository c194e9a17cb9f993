-- ===== src/Index/Writer/Batch.antt =====
-- The loop of `seal_ranges` and the rows of a batch: IndexWriter of crates/index/src/index/writer.rs.
use mathlib.Core.Path.{subst}
use native.Mathlib.Nat.{suc-add}
use ztreamer.Prelude.{
  ℕ, zero, suc, ◌+◌, ◌-◌, ◌*◌, ◌≤◌, ◌<◌, ◌≡◌, sym, ap, ◌∙◌, inl, inr, Bool, true, false, ◌||◌,
  Option, none, some, List, arith, ltb, leb→lt, if◌then◌else◌, length, get_elem?, last?, ok,
  >>=-eq-ok, >>=-cong, if_inv, ok_inj, pair_inj, ok_or, u32_max, word_add,
}
use ztreamer.Chain.Types.{CompactBlockRecord, range_size}
use ztreamer.Chain.Record.{Prost}
use ztreamer.Index.Error.{IndexError, overflow}
use ztreamer.Index.State.{next_range_start, height_above}
use ztreamer.Index.Encoding.{EncodedBlock}
use ztreamer.Index.Tables.{Heed}
use ztreamer.Index.Tables.Laws.{IsHeed}
use ztreamer.Index.Writer.{Writer, beyond, seal_fuel, seal_range, seal_loop, seal_ranges}
use ztreamer.Index.Writer.Stored.{Stored, Holds, TipIs, TipIs-same, above_tip_lem}
use ztreamer.Index.Writer.Sealed.{join_lem, seal_range-Stored}

pub ok_or-some :
    {A : Type 0} (o : Option A) (a : A) → ok_or {E = IndexError} o overflow ≡ ok a → o ≡ some a
ok_or-some none a h = absurd (cc h)
ok_or-some (some b) a h = cc h

pub word_add_lem : (top a b c : ℕ) → word_add top a b ≡ some c → (c ≡ a + b) × (c ≤ top)
word_add_lem top a b c h = (ground (arith, h), ground (arith, h))

module _ {T H M : Type 0} (lmdb : Heed T H M) (prost : Prost) where
  beyond_lem :
      (w : Writer T H M) (through end : ℕ) (chain : List CompactBlockRecord)
      → TipIs (last? chain) w.state
      → ((i : ℕ) (r : CompactBlockRecord) → get_elem? chain i ≡ some r → r.height ≡ i)
      → beyond w.state through end ≡ false
      → end < length chain
  beyond_lem w through end chain tip heights within =
      leb→lt (length chain) end
        (sym (above_tip_lem w.state chain end tip heights) ∙ or_right (ltb through end) _ within)
    where
      or_right : (a b : Bool) → (a || b) ≡ false → b ≡ false
      or_right true b h = absurd (cc h)
      or_right false b h = h

  -- One turn of the loop.
  seal_step-Holds :
      IsHeed lmdb
      → (w w' : Writer T H M) (through first end first' : ℕ) (blocks left : List EncodedBlock)
        (chain : List CompactBlockRecord)
      → Holds lmdb prost w blocks chain
      → next_range_start w.state ≡ some first
      → end ≡ first + 999
      → beyond w.state through end ≡ false
      → seal_range lmdb prost w first end blocks ≡ ok (w', left)
      → word_add u32_max end 1 ≡ some first'
      → Holds lmdb prost w' left chain × (next_range_start w'.state ≡ some first')
  unfolding next_range_start height_above
  seal_step-Holds laws w w' through first end first' blocks left chain holds starts is within ran
        next =
      let low : holds.low ≡ first = cc (holds.starts, starts) in
      let stored : Stored lmdb prost w.tables.sealed_ranges w.tables.mutable_blocks first
          holds.unwritten blocks chain =
        subst
          (λ n.
            Stored lmdb prost w.tables.sealed_ranges w.tables.mutable_blocks n holds.unwritten
              blocks chain)
          low holds.stored in
      let below = beyond_lem w through end chain holds.tip holds.stored.heights within in
      let ((p', stored'), state) =
        seal_range-Stored lmdb prost laws w w' first holds.unwritten blocks left chain stored
          (omega (arith, below, is))
          (subst (λ n. seal_range lmdb prost w first n blocks ≡ ok (w', left)) is ran) in
      let (tip, (sizes, seals)) =
        join_lem (record w.state { sealed_through = some (first + 999) }) first (first + 999) in
      let after : next_range_start w'.state ≡ some first' =
        ap next_range_start state
        ∙ ap height_above seals
        ∙ ap (λ n. word_add u32_max n 1) (sym is)
        ∙ next in
      (
        record {
          low = first + 1000;
          unwritten = p';
          stored = stored';
          starts = after ∙ ap some (omega (arith, (word_add_lem u32_max end 1 first' next).0, is));
          tip =
              TipIs-same (last? chain) w.state w'.state (ap (λ s. s.durable_tip) state ∙ tip)
                (ap (λ s. s.tree_sizes) state ∙ sizes) holds.tip;
        },
        after,
      )

  moved :
      (w w' : Writer T H M) (blocks left : List EncodedBlock) (chain : List CompactBlockRecord)
      → w ≡ w'
      → blocks ≡ left
      → Holds lmdb prost w blocks chain
      → Holds lmdb prost w' left chain
  moved w w' blocks left chain same same_left holds =
      subst (λ x. Holds lmdb prost x left chain) same
        (subst (λ l. Holds lmdb prost w l chain) same_left holds)

  seal_loop-Holds :
      IsHeed lmdb
      → (fuel : ℕ) (w w' : Writer T H M) (through first : ℕ) (blocks left : List EncodedBlock)
        (chain : List CompactBlockRecord)
      → Holds lmdb prost w blocks chain
      → next_range_start w.state ≡ some first
      → seal_loop lmdb prost fuel w through first blocks ≡ ok (w', left)
      → Holds lmdb prost w' left chain
  unfolding seal_loop
  seal_loop-Holds laws zero w w' through first blocks left chain holds starts ran =
      let (same, same_left) = pair_inj w w' blocks left (ok_inj (w, blocks) (w', left) ran) in
      moved w w' blocks left chain same same_left holds
  seal_loop-Holds laws (suc fuel) w w' through first blocks left chain holds starts ran =
      let (end, p₀, h₀) =
        >>=-eq-ok (ok_or (word_add u32_max first (range_size - 1)) overflow) _ ran in
      let is = (word_add_lem u32_max first 999 end (ok_or-some _ end p₀)).0 in
      elim (if_inv (beyond w.state through end) _ _ h₀) [
        | inl (past, h₁) ↦
            let (same, same_left) = pair_inj w w' blocks left (ok_inj (w, blocks) (w', left) h₁) in
            moved w w' blocks left chain same same_left holds
        | inr (within, h₁) ↦
            let (next, p₁, h₂) = >>=-eq-ok (seal_range lmdb prost w first end blocks) _ h₁ in
            let (first', p₂, h₃) = >>=-eq-ok (ok_or (word_add u32_max end 1) overflow) _ h₂ in
            let (holds', starts') =
              seal_step-Holds laws w next.0 through first end first' blocks next.1 chain holds
                starts is within p₁ (ok_or-some _ first' p₂) in
            seal_loop-Holds laws fuel next.0 w' through first' next.1 left chain holds' starts' h₃
      ]

  -- Sealing keeps what a transaction holds: the chain is the same, in more ranges and fewer rows.
  pub seal_ranges-Holds :
      IsHeed lmdb
      → (w w' : Writer T H M) (through : Option ℕ) (blocks left : List EncodedBlock)
        (chain : List CompactBlockRecord)
      → Holds lmdb prost w blocks chain
      → seal_ranges lmdb prost w through blocks ≡ ok (w', left)
      → Holds lmdb prost w' left chain
  unfolding seal_ranges
  seal_ranges-Holds laws w w' none blocks left chain holds ran =
      let (same, same_left) = pair_inj w w' blocks left (ok_inj (w, blocks) (w', left) ran) in
      moved w w' blocks left chain same same_left holds
  seal_ranges-Holds laws w w' (some through) blocks left chain holds ran =
      let (first, p, h) = >>=-eq-ok (ok_or (next_range_start w.state) overflow) _ ran in
      seal_loop-Holds laws seal_fuel w w' through first blocks left chain holds
        (ok_or-some _ first p) h

  -- From a u32 height, fuel that passes the largest u32 at 1,000 heights a turn is enough: with more of it, the
  -- loop does the same.
  pub seal_loop_lem :
      (fuel more : ℕ) (w : Writer T H M) (through first : ℕ) (blocks : List EncodedBlock)
      → first ≤ u32_max
      → u32_max < first + 1000 * fuel
      → seal_loop lmdb prost (fuel + more) w through first blocks
        ≡ seal_loop lmdb prost fuel w through first blocks
  unfolding seal_loop
  seal_loop_lem zero more w through first blocks small enough = absurd (omega arith)
  seal_loop_lem (suc fuel) more w through first blocks small enough = rw suc-add (
      >>=-cong (ok_or (word_add u32_max first (range_size - 1)) overflow) _ _ (λ end p.
        ap (λ rest. if beyond w.state through end then ok (w, blocks) else rest)
          (>>=-cong (seal_range lmdb prost w first end blocks) _ _ (λ next q.
            >>=-cong (ok_or (word_add u32_max end 1) overflow) _ _ (λ first' q'.
              let (is, below) = word_add_lem u32_max first 999 end (ok_or-some _ end p) in
              let (is', below') = word_add_lem u32_max end 1 first' (ok_or-some _ first' q') in
              seal_loop_lem fuel more next.0 through first' next.1 below'
                (omega (arith, is, is', enough)))))))
