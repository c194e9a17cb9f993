-- ===== src/Index/Writer/Sealed.antt =====
-- Sealing of IndexWriter, crates/index/src/index/writer.rs: what a range that was sealed holds, and that the
-- chain in the tables stays.
use mathlib.Core.Path.{subst}
use ztreamer.Prelude.{
  ℕ, ◌+◌, ◌-◌, ◌%◌, ◌≤◌, ◌<◌, ◌≡◌, sym, ap, ◌∙◌, ◌≢◌, inl, inr, some, List, ◌∷◌, ◌++◌, arith, ltb,
  ltb→lt, Bool-cases, length, get_elem?, take, drop, get_elem?-take, get_elem?-drop, element,
  drop-element, length-drop, drop-drop, Bytes, Result, ok, err, >>=-eq-ok, ok_inj, pair_inj,
  map_err, u32_max, min,
}
use ztreamer.Chain.Types.{CompactBlockRecord, CodecError, range_size}
use ztreamer.Chain.Record.{Prost}
use ztreamer.Chain.Range.{
  RangeDecoder, encode_range_from_bytes, decoder_new, record_as, full_records,
}
use ztreamer.Chain.Range.Rows.{Decodes, record_as-encode_range_from_bytes}
use ztreamer.Index.Error.{codec}
use ztreamer.Index.State.{IndexState}
use ztreamer.Index.Encoding.{EncodedBlock}
use ztreamer.Index.Tables.{Heed, range_start, heights_from, read_checked, delete_range}
use ztreamer.Index.Tables.Laws.{IsHeed, put_same, put_other}
use ztreamer.Index.Writer.{Writer, first_new, pull_rows, join_verified, seal_range}
use ztreamer.Index.Writer.Stored.{SealedAt, Pending, Stored}
use ztreamer.Index.Writer.Pulled.{
  first_new_lem, rows_Decodes, pull_rows-Pending, delete_range_other, range_rows,
}

pub join_lem :
    (s : IndexState) (first end : ℕ)
    → ((join_verified s first end).durable_tip ≡ s.durable_tip)
      × (((join_verified s first end).tree_sizes ≡ s.tree_sizes)
          × ((join_verified s first end).sealed_through ≡ s.sealed_through))
unfolding join_verified
join_lem s first end = ground arith

range_start_below : (low h : ℕ) → h < low → low ≢ range_start h
unfolding range_start
range_start_below low h lt = λ e. omega arith

range_start_in : (low h : ℕ) → low % range_size ≡ 0 → low ≤ h → h < low + 1000 → range_start h ≡ low
unfolding range_start
range_start_in low h aligned ge lt = omega arith

pub map_err_ok : {A : Type 0} (m : Result CodecError A) (a : A) → map_err codec m ≡ ok a → m ≡ ok a
map_err_ok (ok b) a h = cc h
map_err_ok (err e) a h = absurd (cc h)

module _ {T H M : Type 0} (lmdb : Heed T H M) (prost : Prost) where
  -- The packed rows hold the thousand blocks from `low` on.
  packed_reads :
      (low : ℕ) (chain : List CompactBlockRecord) (es : List Bytes) (packed : Bytes)
      (first : CompactBlockRecord)
      → get_elem? chain low ≡ some first
      → first.height ≤ u32_max
      → Decodes prost es (take 1000 (drop low chain))
      → encode_range_from_bytes es ≡ ok packed
      → (d : RangeDecoder) × (decoder_new packed ≡ ok d)
        × ((h : ℕ) (r : CompactBlockRecord)
            → get_elem? chain h ≡ some r
            → low ≤ h
            → h < low + 1000
            → record_as (full_records prost) d (h - low) ≡ ok r)
  packed_reads low chain es packed first at fits rows encoded =
      let front : take 1000 (drop low chain) ≡ first ∷ take 999 (drop (low + 1) chain) =
        ap (take 1000) (drop-element chain low first at) in
      let (range, (d, made, begins, reads)) =
        record_as-encode_range_from_bytes prost first (take 999 (drop (low + 1) chain)) es packed
          (subst (Decodes prost es) front rows) fits encoded in
      (
        d,
        made,
        λ h r place ge lt. reads (h - low) r (
            ap (λ l. get_elem? l (h - low)) (sym front)
            ∙ get_elem?-take 1000 (h - low) (drop low chain) (omega arith)
            ∙ get_elem?-drop low (h - low) chain
            ∙ ap (get_elem? chain) (omega arith)
            ∙ place),
      )

  -- With the packed range at `low`, the ranges hold a thousand blocks more.
  sealed_more :
      IsHeed lmdb
      → (table table' : T) (low : ℕ) (chain : List CompactBlockRecord) (packed : Bytes)
        (d : RangeDecoder)
      → low % range_size ≡ 0
      → ((h : ℕ) (r : CompactBlockRecord)
          → get_elem? chain h ≡ some r
          → h < low
          → SealedAt lmdb prost table h r)
      → decoder_new packed ≡ ok d
      → ((h : ℕ) (r : CompactBlockRecord)
          → get_elem? chain h ≡ some r
          → low ≤ h
          → h < low + 1000
          → record_as (full_records prost) d (h - low) ≡ ok r)
      → lmdb.heights.put table low packed ≡ ok table'
      → (h : ℕ) (r : CompactBlockRecord) → get_elem? chain h ≡ some r
      → h < low + 1000
      → SealedAt lmdb prost table' h r
  sealed_more laws table table' low chain packed d aligned sealed made reads stored h r at lt =
      elim (Bool-cases (ltb h low)) [
        | inl old ↦
            let (packed', d', got, new, read) = sealed h r at (ltb→lt h low old) in
            (
              packed',
              d',
              put_other lmdb.heights laws.heights table low packed table' (range_start h) stored
                    (range_start_below low h (ltb→lt h low old))
                  ∙ got,
              new,
              read,
            )
        | inr new ↦
            let ge : low ≤ h = ground (arith, new) in
            let start = range_start_in low h aligned ge lt in
            (
              packed,
              d,
              ap (lmdb.heights.get table') start
                  ∙ put_same lmdb.heights laws.heights table low packed table' stored,
              made,
              ap (record_as (full_records prost) d) (ap (λ n. h - n) start) ∙ reads h r at ge lt,
            )
      ]

  -- Sealing the next range, whose last block is in the chain: the tables hold the chain as before, with a
  -- thousand blocks more in the ranges.
  pub seal_range-Stored :
      IsHeed lmdb
      → (w w' : Writer T H M) (low p : ℕ) (blocks left : List EncodedBlock)
        (chain : List CompactBlockRecord)
      → Stored lmdb prost w.tables.sealed_ranges w.tables.mutable_blocks low p blocks chain
      → low + 999 < length chain
      → seal_range lmdb prost w low (low + 999) blocks ≡ ok (w', left)
      → ((p' : ℕ) × Stored lmdb prost w'.tables.sealed_ranges w'.tables.mutable_blocks
            (low + 1000)
            p'
            left
            chain)
        × (w'.state
            ≡ join_verified (record w.state { sealed_through = some (low + 999) }) low (low + 999))
  unfolding seal_range
  seal_range-Stored laws w w' low p blocks left chain s below ran =
      let count : ℕ = min (first_new (low + 999) blocks) (low + 999 + 1) - low in
      let is : count ≡ min p (low + 999 + 1) - low =
        ap (λ n. n - low)
          (first_new_lem lmdb prost p (low + 999) blocks chain s.room below s.waits) in
      let (rows, read, h₀) =
        >>=-eq-ok (read_checked lmdb prost w.tables.mutable_blocks (heights_from low count) low) _
          ran in
      let (pulled, pull, h₁) = >>=-eq-ok (pull_rows low (range_size - length rows) blocks) _ h₀ in
      let (packed, pack, h₂) =
        >>=-eq-ok (map_err codec (encode_range_from_bytes (rows ++ pulled.0))) _ h₁ in
      let (ranges, put, h₃) = >>=-eq-ok (lmdb.heights.put w.tables.sealed_ranges low packed) _ h₂ in
      let (rest, deleted, h₄) =
        >>=-eq-ok (delete_range lmdb w.tables.mutable_blocks (heights_from low count)) _ h₃ in
      let front =
        rows_Decodes lmdb prost w.tables.mutable_blocks low low p chain s.in_row s.room low count
          rows (omega arith) (omega (arith, is, s.order)) read in
      let (back, taken, waits) =
        pull_rows-Pending lmdb prost low p (range_size - length rows) blocks (drop p chain) pulled.0
          pulled.1 s.waits pull in
      let (n, whole) =
        range_rows lmdb prost low p chain rows pulled.0 s.order count is below s.room front back in
      let (first, first_at) = element chain low (omega (arith, below)) in
      let (d, made, reads) =
        packed_reads low chain (rows ++ pulled.0) packed first first_at
          (omega (arith, s.heights low first first_at, s.fits, below)) whole
          (map_err_ok _ packed pack) in
      let next : Writer T H M = record {
        tables = record w.tables { sealed_ranges = ranges; mutable_blocks = rest };
        state =
            join_verified (record w.state { sealed_through = some (low + 999) }) low (low + 999);
      } in
      let p' : ℕ = p + (range_size - length rows) in
      let stored : Stored lmdb prost ranges rest (low + 1000) p' pulled.1 chain = record {
        aligned = omega (arith, s.aligned);
        order = omega (arith, n, is, s.order);
        room = omega (arith, taken, length-drop p chain, s.room);
        fits = s.fits;
        heights = s.heights;
        in_range =
            sealed_more laws w.tables.sealed_ranges ranges low chain packed d s.aligned s.in_range
              made reads put;
        in_row = λ h r at ge lt.
            let (e, got, decoded) =
              s.in_row h r at (omega (arith, ge)) (omega (arith, ge, lt, n, is)) in
            (
              e,
              delete_range_other lmdb prost laws low count w.tables.mutable_blocks rest h deleted
                    (omega (arith, ge, n, is))
                  ∙ got,
              decoded,
            );
        waits =
            subst (Pending lmdb prost p' pulled.1)
              (sym (drop-drop p (range_size - length rows) chain)) waits;
      } in
      let (same, same_left) =
        pair_inj next w' pulled.1 left (ok_inj (next, pulled.1) (w', left) h₄) in
      (
        (
          p',
          subst
              (λ x.
                Stored lmdb prost x.tables.sealed_ranges x.tables.mutable_blocks (low + 1000) p'
                  left chain)
              same
              (subst (λ l. Stored lmdb prost ranges rest (low + 1000) p' l chain) same_left stored),
        ),
        ap (λ x. x.state) (sym same),
      )
