-- ===== src/Index/Writer/Stored.antt =====
-- The chain that the tables hold: each block in exactly one of the sealed ranges, the mutable rows and the
-- rows that wait in the batch; and what a read returns.
use mathlib.Core.Path.{subst}
use ztreamer.Prelude.{
  ℕ, ◌+◌, ◌-◌, ◌%◌, ◌≤◌, ◌<◌, ◌≡◌, refl, ap, ◌∙◌, ◌⊎◌, inl, inr, Bool, true, false, Option, none,
  some, List, [], ◌∷◌, arith, ltb, leb, leb→le, leb→lt, Bool-cases, length, get_elem?, drop, last?,
  last?-cons, length-drop, get_elem?-none, element, Bytes, ok, ◌>>=◌, ok_or, ok-step, map_err,
  u32_max,
}
use ztreamer.Chain.Types.{CompactBlockRecord, range_size}
use ztreamer.Chain.Record.{Prost, decode}
use ztreamer.Chain.Range.{RangeDecoder, decoder_new, record_as, full_records}
use ztreamer.Index.Error.{codec, coverage}
use ztreamer.Index.State.{BlockId, IndexState, next_range_start, height_above}
use ztreamer.Index.Encoding.{EncodedBlock}
use ztreamer.Index.Tables.{
  Heed, range_start, find, sealed_range_new, range_read, read, above_tip, is_sealed,
}
use ztreamer.Index.Writer.{Writer, id_of}

-- The tip and its tree sizes are those of the last block.
abbrev pub TipIs : Option CompactBlockRecord → IndexState → Type 0
TipIs none s = s.durable_tip ≡ none
TipIs (some r) s = (s.durable_tip ≡ some (id_of r)) × (s.tree_sizes ≡ r.end_tree_sizes)

pub TipIs-same :
    (o : Option CompactBlockRecord) (s t : IndexState)
    → t.durable_tip ≡ s.durable_tip
    → t.tree_sizes ≡ s.tree_sizes
    → TipIs o s
    → TipIs o t
TipIs-same none s t tip sizes h = tip ∙ h
TipIs-same (some r) s t tip sizes h = (tip ∙ h.0, sizes ∙ h.1)

-- The seal state tells which heights are below the next range.
pub is_sealed_lem :
    (s : IndexState) (low h : ℕ)
    → next_range_start s ≡ some low
    → ((is_sealed s h ≡ true) × (h < low)) ⊎ ((is_sealed s h ≡ false) × (low ≤ h))
unfolding next_range_start
is_sealed_lem s low h e = go s.sealed_through e
  where
    below : (o : Option ℕ) → Bool
    below o = elim o [ none ↦ false | some sealed ↦ leb h sealed ]

    go :
        (o : Option ℕ)
        → height_above o ≡ some low
        → ((below o ≡ true) × (h < low)) ⊎ ((below o ≡ false) × (low ≤ h))
    go none e = inr (refl, ground (arith, e))
    go (some sealed) e = elim (Bool-cases (leb h sealed)) [
      | inl le ↦ inl (le, ground (arith, e, le))
      | inr gt ↦ inr (gt, ground (arith, e, gt))
    ]

-- The durable tip tells which heights are in the chain.
pub above_tip_lem :
    (s : IndexState) (chain : List CompactBlockRecord) (h : ℕ)
    → TipIs (last? chain) s
    → ((i : ℕ) (r : CompactBlockRecord) → get_elem? chain i ≡ some r → r.height ≡ i)
    → above_tip s h ≡ leb (length chain) h
above_tip_lem s [] h t heights =
    ap (λ (o : Option BlockId). elim o [ none ↦ true | some tip ↦ ltb tip.height h ]) t
    ∙ ground arith
above_tip_lem s (x ∷ xs) h t heights =
    let (r, last, at) = last?-cons x xs in
    let tip : s.durable_tip ≡ some (id_of r) = (subst (λ o. TipIs o s) last t).0 in
    ap (λ (o : Option BlockId). elim o [ none ↦ true | some tip ↦ ltb tip.height h ]) tip
    ∙ ground (arith, heights (length xs) r at)

module _ {T H M : Type 0} (lmdb : Heed T H M) (prost : Prost) where
  -- The record at the height stands in its packed range.
  abbrev pub SealedAt : T → ℕ → CompactBlockRecord → Type 0
  SealedAt table h r =
      (packed : Bytes) × (d : RangeDecoder) × (lmdb.heights.get table (range_start h)
        ≡ ok (some packed))
      × (decoder_new packed ≡ ok d)
      × (record_as (full_records prost) d (h - range_start h) ≡ ok r)

  -- The row at the height is the record.
  abbrev pub RowAt : T → ℕ → CompactBlockRecord → Type 0
  RowAt table h r = (e : Bytes) × (lmdb.heights.get table h ≡ ok (some e)) × (decode prost e ≡ ok r)

  -- The blocks that wait are the records, from a height on.
  abbrev pub Pending : ℕ → List EncodedBlock → List CompactBlockRecord → Type 0
  Pending p [] [] = Unit
  Pending p [] (r ∷ rs) = ⊥
  Pending p (b ∷ bs) [] = ⊥
  Pending p (b ∷ bs) (r ∷ rs) =
      (b.height ≡ p)
      × (r.height ≡ p)
      × (b.hash ≡ r.hash)
      × (decode prost b.bytes ≡ ok r)
      × Pending (p + 1) bs rs

  -- The ranges hold the blocks below `low`, the rows those from there to `p`, and the batch the others.
  pub record Stored (sealed rows : T) (low p : ℕ) (blocks : List EncodedBlock)
      (chain : List CompactBlockRecord) : Type 0 where
    pub aligned : low % range_size ≡ 0
    pub order : low ≤ p
    pub room : p ≤ length chain
    pub fits : length chain ≤ u32_max + 1
    pub heights : (h : ℕ) (r : CompactBlockRecord) → get_elem? chain h ≡ some r → r.height ≡ h
    pub in_range :
        (h : ℕ) (r : CompactBlockRecord)
        → get_elem? chain h ≡ some r
        → h < low
        → SealedAt sealed h r
    pub in_row :
        (h : ℕ) (r : CompactBlockRecord)
        → get_elem? chain h ≡ some r
        → low ≤ h
        → h < p
        → RowAt rows h r
    pub waits : Pending p blocks (drop p chain)

  -- The transaction holds the chain, apart from the blocks that wait in the batch.
  pub record Holds (w : Writer T H M) (blocks : List EncodedBlock) (chain : List CompactBlockRecord)
      : Type 0 where
    pub low : ℕ
    pub unwritten : ℕ
    pub stored : Stored w.tables.sealed_ranges w.tables.mutable_blocks low unwritten blocks chain
    pub starts : next_range_start w.state ≡ some low
    pub tip : TipIs (last? chain) w.state

  -- Where no block waits, all are written.
  pub all_written :
      (p : ℕ) (chain : List CompactBlockRecord)
      → p ≤ length chain
      → Pending p [] (drop p chain)
      → p ≡ length chain
  all_written p chain room waits = go (drop p chain) (length-drop p chain) waits
    where
      go :
          (l : List CompactBlockRecord)
          → length l ≡ length chain - p
          → Pending p [] l
          → p ≡ length chain
      go [] e waits = omega (arith, e, room)
      go (r ∷ rs) e waits = absurd waits

  pub find_lem :
      (table : T) (h : ℕ) (packed : Bytes) (d : RangeDecoder)
      → lmdb.heights.get table (range_start h) ≡ ok (some packed)
      → decoder_new packed ≡ ok d
      → find lmdb table h ≡ ok (some (record { start = range_start h; decoder = d }))
  unfolding find sealed_range_new
  find_lem table h packed d got new = rw (got, new) refl

  pub range_read_lem :
      (d : RangeDecoder) (h : ℕ) (r : CompactBlockRecord)
      → record_as (full_records prost) d (h - range_start h) ≡ ok r
      → range_read (full_records prost) (record { start = range_start h; decoder = d }) h ≡ ok r
  unfolding range_read range_start
  range_read_lem d h r read =
      let le : leb (h - h % range_size) h ≡ true = ground arith in rw le read

  sealed_read :
      (table : T) (h : ℕ) (r : CompactBlockRecord)
      → SealedAt table h r
      → (find lmdb table h >>= λ found. ok_or found (coverage h) >>= λ range.
          map_err codec (range_read (full_records prost) range h))
        ≡ ok r
  sealed_read table h r (packed, d, got, new, at) =
      ok-step _ (find_lem table h packed d got new) ∙ ap (map_err codec) (range_read_lem d h r at)

  row_read :
      (table : T) (h : ℕ) (r : CompactBlockRecord)
      → RowAt table h r
      → (lmdb.heights.get table h >>= λ found.
          ok_or found (coverage h) >>= λ bytes. map_err codec (decode prost bytes))
        ≡ ok r
  row_read table h r (e, got, decoded) = ok-step _ got ∙ ap (map_err codec) decoded

  -- A read of a state whose tables hold a chain returns the block of the chain at the height, and
  -- the coverage error above its end.
  pub read-Holds :
      (w : Writer T H M) (chain : List CompactBlockRecord) (h : ℕ)
      → Holds w [] chain
      → read lmdb (full_records prost) w.tables w.state h ≡ ok_or (get_elem? chain h) (coverage h)
  unfolding read full_records
  read-Holds w chain h holds = elim (Bool-cases (leb (length chain) h)) [
    | inl above ↦
        rw
          (
            above_tip_lem w.state chain h holds.tip holds.stored.heights,
            above,
            get_elem?-none chain h (leb→le (length chain) h above),
          )
          refl
    | inr below ↦
        let (r, at) = element chain h (leb→lt (length chain) h below) in
        rw (above_tip_lem w.state chain h holds.tip holds.stored.heights, below, at)
          (elim (is_sealed_lem w.state holds.low h holds.starts) [
            | inl (sealed, lt) ↦
                rw sealed (sealed_read w.tables.sealed_ranges h r (holds.stored.in_range h r at lt))
            | inr (unsealed, ge) ↦ rw unsealed (
                row_read w.tables.mutable_blocks h r (
                  holds.stored.in_row h r at ge (
                    omega (
                      arith,
                      all_written holds.unwritten chain holds.stored.room holds.stored.waits,
                      leb→lt (length chain) h below,
                    ))))
          ])
  ]
