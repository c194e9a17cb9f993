-- ===== src/Index/Snapshot/Refined.antt =====
-- `read_blocks` of crates/index/src/index/snapshot.rs on tables that hold a chain.
use mathlib.Core.Path.{subst}
use native.Mathlib.Nat.{zero-add}
use native.Mathlib.Numerals.{add-one}
use ztreamer.Prelude.{
  ℕ, zero, suc, ◌+◌, ◌-◌, ◌<◌, ◌≡◌, refl, sym, ap, ◌∙◌, inl, inr, Bool, true, false, Option, none,
  some, List, [], ◌∷◌, arith, ltb, leb, leb→lt, ◌==◌, ==_iff, if◌then◌else◌, min, max, length,
  get_elem?, element, last?-cons, Bytes, ok, err, ok_inj, ok_or, ok-step,
}
use ztreamer.Chain.Types.{CompactBlockRecord, range_size}
use ztreamer.Chain.Record.{Prost}
use ztreamer.Chain.Range.{RangeDecoder, full_records, decoder_new}
use ztreamer.Index.Error.{coverage}
use ztreamer.Index.State.{BlockId}
use ztreamer.Index.Tables.{Heed, range_start, range_read}
use ztreamer.Index.Writer.{Writer, id_of}
use ztreamer.Index.Writer.Stored.{TipIs, Holds, is_sealed_lem, find_lem, range_read_lem, read-Holds}
use ztreamer.Index.Snapshot.{next_of, going, emit_chunk, read_chunk, read_loop, read_blocks}
use ztreamer.Index.Snapshot.Visited.{
  steps, blocks_at, Reaches, reached, not_yet, after, emit_all, Leaves, emit_one, emit_chunk-Leaves,
}
use ztreamer.Index.Snapshot.Directions.{
  chunk_lem, in_same, bounded, next_inside, no_value, zero_leb, ltb-leb, direction, tests, if_true,
  if_false, some_ok,
}

module _ {S T H M : Type 0} (lmdb : Heed T H M) (prost : Prost)
    (emit : S → CompactBlockRecord → S × Bool) where
  -- Below the sealed height, the range of a height gives the blocks of the chain at its other heights.
  range_reads :
      (w : Writer T H M) (chain : List CompactBlockRecord) (height : ℕ) (packed : Bytes)
      (d : RangeDecoder)
      → (holds : Holds lmdb prost w [] chain) → height < holds.low
      → lmdb.heights.get w.tables.sealed_ranges (range_start height) ≡ ok (some packed)
      → decoder_new packed ≡ ok d
      → (h : ℕ) → range_start h ≡ range_start height
      → h < length chain
      → (r : CompactBlockRecord) × (get_elem? chain h ≡ some r)
        × (range_read (full_records prost) (record { start = range_start height; decoder = d }) h
            ≡ ok r)
  range_reads w chain height packed d holds below got new h same inside =
      let (r, at) = element chain h inside in
      let (packed', d', got', new', reads) =
        holds.stored.in_range h r at (in_same h height holds.low holds.stored.aligned below same) in
      let same_bytes : packed ≡ packed' =
        some_ok packed packed'
          (sym got ∙ ap (lmdb.heights.get w.tables.sealed_ranges) (sym same) ∙ got') in
      let same_decoder : d ≡ d' = ok_inj d d' (sym new ∙ ap decoder_new same_bytes ∙ new') in
      (
        r,
        at,
        subst
            (λ (x : ℕ × RangeDecoder).
              range_read (full_records prost) (record { start = x.0; decoder = x.1 }) h ≡ ok r)
            (λ i. (same i, sym same_decoder i)) (range_read_lem lmdb prost d' h r reads),
      )

  going_lem :
      (chain : List CompactBlockRecord) (ascending : Bool) (n height : ℕ) (out : S × Bool) (all : S)
      → all ≡ (
          if out.1
          then emit_all emit (blocks_at chain (steps ascending n (next_of ascending height))) out.0
          else out.0)
      → Leaves emit chain height n ascending all (going out height)
  going_lem chain ascending n height (s, true) all e = (refl, e)
  going_lem chain ascending n height (s, false) all e = e

  -- One turn of the loop.
  read_chunk-Leaves :
      (w : Writer T H M) (chain : List CompactBlockRecord) (ascending : Bool) (height end n : ℕ)
      (s : S)
      → Holds lmdb prost w [] chain
      → Reaches ascending height end n
      → height < length chain
      → end < length chain
      → (out : S × Option ℕ) × (k : ℕ) × (count : ℕ) × (c : ℕ) × (read_chunk
            (full_records prost)
            emit
            lmdb
            (record { tables = w.tables; state = w.state })
            ascending
            end
            height
            s
          ≡ ok out)
        × (k + count ≡ n)
        × Reaches ascending c end count
        × Leaves emit chain c count ascending
            (emit_all emit (blocks_at chain (steps ascending (suc n) height)) s)
            out
  unfolding read_chunk
  read_chunk-Leaves w chain ascending height end n s holds reaches inside inside' =
      elim (is_sealed_lem w.state holds.low height holds.starts) [
        | inl (sealed, below) ↦
            let (r, at) = element chain height inside in
            let (packed, d, got, new, reads) = holds.stored.in_range height r at below in
            let (c, k, count, is, to, from, sum, short, same) =
              chunk_lem ascending height end n d reaches (omega (arith, holds.stored.fits)) in
            let (out, ran, leaves) =
              emit_chunk-Leaves emit prost chain
                (record { start = range_start height; decoder = d }) ascending range_size k count
                height c s to short
                (λ h i j a b.
                  let (start, lower) = same h i j a b in
                  range_reads w chain height packed d holds below got new h start
                    (bounded h height end (length chain) lower inside inside')) in
            let total : k + suc count ≡ suc n = omega (arith, sum) in
            (
              out,
              k,
              count,
              c,
              if_true _ _ _ sealed
                  ∙ ok-step _ (find_lem lmdb prost w.tables.sealed_ranges height packed d got new)
                  ∙ ap
                      (λ e.
                        emit_chunk (full_records prost) emit range_size
                          (record { start = range_start height; decoder = d }) ascending e height s)
                      is
                  ∙ ran,
              sum,
              from,
              subst
                  (λ m.
                    Leaves emit chain c count ascending
                      (emit_all emit (blocks_at chain (steps ascending m height)) s) out)
                  total leaves,
            )
        | inr (open_row, above) ↦
            let (r, at) = element chain height inside in
            let got =
              read-Holds lmdb prost w chain height holds ∙ ap (λ o. ok_or o (coverage height)) at in
            (
              going (emit s r) height,
              0,
              n,
              height,
              if_false _ _ _ open_row ∙ ok-step _ got,
              zero-add n,
              reaches,
              going_lem chain ascending n height (emit s r) _
                  (emit_one emit chain ascending n height r s at),
            )
      ]

  loop_lem :
      (w : Writer T H M) (chain : List CompactBlockRecord) (ascending : Bool)
      (fuel height end n : ℕ) (s : S)
      → Holds lmdb prost w [] chain
      → Reaches ascending height end n
      → height < length chain
      → end < length chain
      → n < fuel
      → read_loop
          (full_records prost)
          emit
          lmdb
          (record { tables = w.tables; state = w.state })
          fuel
          ascending
          end
          height
          s
        ≡ ok (emit_all emit (blocks_at chain (steps ascending (suc n) height)) s)
  unfolding read_loop
  loop_lem w chain ascending zero height end n s holds reaches inside inside' lt =
      absurd (omega arith)
  loop_lem w chain ascending (suc fuel) height end n s holds reaches inside inside' lt =
      let (out, k, count, c, ran, sum, from, leaves) =
        read_chunk-Leaves w chain ascending height end n s holds reaches inside inside' in
      ok-step _ ran
      ∙ behind out c count leaves from (λ m more s'.
        subst
          (λ k.
            read_loop (full_records prost) emit lmdb (record { tables = w.tables; state = w.state })
              fuel ascending end (next_of ascending c) s'
            ≡ ok (emit_all emit (blocks_at chain (steps ascending k (next_of ascending c))) s'))
          (sym more)
          (loop_lem w chain ascending fuel (next_of ascending c) end m s' holds
            (after ascending c end m (subst (Reaches ascending c end) more from))
            (next_inside ascending height end n c count m (length chain) reaches from
              (omega (arith, sum)) more inside inside')
            inside' (omega (arith, lt, sum, more))))
    where
      all : S
      all = emit_all emit (blocks_at chain (steps ascending (suc n) height)) s

      behind :
          (out : S × Option ℕ) (c count : ℕ)
          → Leaves emit chain c count ascending all out
          → Reaches ascending c end count
          → ((m : ℕ)
              → count ≡ suc m
              → (s' : S)
              → read_loop
                  (full_records prost)
                  emit
                  lmdb
                  (record { tables = w.tables; state = w.state })
                  fuel
                  ascending
                  end
                  (next_of ascending c)
                  s'
                ≡ ok (
                    emit_all emit
                      (blocks_at chain (steps ascending count (next_of ascending c)))
                      s'))
          → (elim out.1 [
            | none ↦ ok out.0
            | some h ↦
                let rest =
                  read_loop
                    (full_records prost)
                    emit
                    lmdb
                    (record { tables = w.tables; state = w.state })
                    fuel
                    ascending
                    end
                    (next_of ascending h)
                    out.0 in
                if h == end then ok out.0 else rest
          ])
            ≡ ok all
      behind (s', none) c count leaves from ih = ap ok (sym leaves)
      behind (s', some h) c zero (here, e) from ih =
          if_true _ _ _ ((==_iff h end).1 (here ∙ reached ascending c end from)) ∙ ap ok (sym e)
      behind (s', some h) c (suc m) (here, e) from ih =
          if_false _ _ _ (ap (λ x. x == end) here ∙ not_yet ascending c end m from)
          ∙ ap
              (λ x.
                read_loop (full_records prost) emit lmdb
                  (record { tables = w.tables; state = w.state }) fuel ascending end
                  (next_of ascending x) s')
              here
          ∙ ih m refl s'
          ∙ ap ok (sym e)

  -- A read of blocks of a chain that the tables hold gives them to the caller one after the other, in either
  -- direction, from the first to the last height, until the caller stops; a height above the tip is an error,
  -- the first one before the last.
  pub read_blocks-Holds :
      (w : Writer T H M) (chain : List CompactBlockRecord) (start end : ℕ) (s : S)
      → Holds lmdb prost w [] chain
      → read_blocks
          (full_records prost)
          emit
          lmdb
          (record { tables = w.tables; state = w.state })
          start
          end
          s
        ≡ (if leb (length chain) start
            then err (coverage start)
            else if leb (length chain) end
            then err (coverage end)
            else ok (
                emit_all emit
                  (blocks_at chain
                    (steps (leb start end) (max start end - min start end + 1) start))
                  s))
  unfolding read_blocks
  read_blocks-Holds w [] start end s holds =
      no_value _ (coverage start) _ holds.tip ∙ sym (if_true _ _ _ (zero_leb start))
  read_blocks-Holds w (x ∷ xs) start end s holds =
      let (r, last, at) = last?-cons x xs in
      let tip : w.state.durable_tip ≡ some (id_of r) =
        (subst (λ o. TipIs o w.state) last holds.tip).0 in
      let above : (h : ℕ) → ltb r.height h ≡ leb (suc (length xs)) h =
        λ h. ltb-leb r.height (length xs) h (holds.stored.heights (length xs) r at) in
      ok-step _ (ap (λ (o : Option BlockId). ok_or o (coverage start)) tip)
      ∙ tests (ltb r.height start) (leb (suc (length xs)) start) (ltb r.height end)
          (leb (suc (length xs)) end) _ _ _ _ (above start) (above end)
          (λ in_start in_end.
            loop_lem w (x ∷ xs) (leb start end) (max start end - min start end + 1) start end
              (max start end - min start end) s holds (direction start end)
              (leb→lt (suc (length xs)) start in_start) (leb→lt (suc (length xs)) end in_end)
              (omega arith)
            ∙ ap (λ k. ok (emit_all emit (blocks_at (x ∷ xs) (steps (leb start end) k start)) s))
                (sym (add-one (max start end - min start end))))
