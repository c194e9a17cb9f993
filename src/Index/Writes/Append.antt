-- ===== src/Index/Writes/Append.antt =====
-- What an append leaves in the tables: IndexWriter::append of crates/index/src/index/writer.rs, behind
-- WriteBatch::encode of crates/index/src/index/batch.rs.
use mathlib.Core.Path.{subst}
use ztreamer.Prelude.{
  ℕ, zero, suc, ◌+◌, ◌-◌, ◌≤◌, ◌<◌, ◌≡◌, refl, sym, ap, ◌∙◌, inl, inr, not, ◌||◌, Option, none,
  some, List, [], ◌∷◌, ◌++◌, arith, leb, ◌==◌, Bool-cases, length, length-append, get_elem?,
  get_elem?-append, drop-append, last?, ok, >>=-eq-ok, guard_inv, ok_inj, try_fold, ok_or, u32_max,
  u64_max, word_add,
}
use ztreamer.Chain.TreeSizes.{TreeSizes}
use ztreamer.Chain.Types.{CompactBlockRecord}
use ztreamer.Chain.Record.{Prost}
use ztreamer.Index.Error.{overflow, panicked}
use ztreamer.Index.State.{BlockId, IndexState, next_height, next_range_start}
use ztreamer.Index.Encoding.{EncodedBlock, EncodedBatch}
use ztreamer.Index.Tables.{Heed, state_key}
use ztreamer.Index.Tables.Laws.{IsHeed}
use ztreamer.Index.Writer.{
  Writer, set_tip, put_hash, put_hashes, put_mutable_blocks, seal_ranges, commit,
}
use ztreamer.Index.Writer.Stored.{TipIs, TipIs-same, Pending, Stored, Holds, all_written}
use ztreamer.Index.Metadata.{encode_state}
use ztreamer.Index.Writer.Batch.{ok_or-some, word_add_lem, seal_ranges-Holds}
use ztreamer.Index.Writer.RowsPut.{put_mutable_blocks-Holds}
use ztreamer.Index.Writes.{last_of, wrong_tip, append}

pub get_elem?-append-right :
    (xs ys : List CompactBlockRecord) (i : ℕ)
    → length xs ≤ i
    → get_elem? (xs ++ ys) i ≡ get_elem? ys (i - length xs)
get_elem?-append-right [] ys i le = ap (get_elem? ys) (omega arith)
get_elem?-append-right (x ∷ xs) ys zero le = absurd (omega arith)
get_elem?-append-right (x ∷ xs) ys (suc i) le =
    get_elem?-append-right xs ys i (omega arith) ∙ ap (get_elem? ys) (omega arith)

pub last?-append :
    (xs ys : List CompactBlockRecord) (r : CompactBlockRecord)
    → last? ys ≡ some r
    → last? (xs ++ ys) ≡ some r
last?-append [] ys r h = h
last?-append (x ∷ []) [] r h = absurd (cc h)
last?-append (x ∷ []) (y ∷ ys) r h = h
last?-append (x ∷ y ∷ xs) ys r h = last?-append (y ∷ xs) ys r h

-- The records are at the heights from `p` on.
abbrev pub At : ℕ → List CompactBlockRecord → Type 0
At p [] = Unit
At p (r ∷ rs) = (r.height ≡ p) × At (p + 1) rs

get_elem?-At :
    (p : ℕ) (rs : List CompactBlockRecord) (i : ℕ) (r : CompactBlockRecord)
    → At p rs
    → get_elem? rs i ≡ some r
    → r.height ≡ p + i
get_elem?-At p [] i r h e = absurd (cc e)
get_elem?-At p (x ∷ rs) zero r h e =
    ap (λ (o : Option CompactBlockRecord). elim o [ none ↦ p | some y ↦ y.height ]) (sym e)
    ∙ h.0
    ∙ omega arith
get_elem?-At p (x ∷ rs) (suc i) r h e = get_elem?-At (p + 1) rs i r h.1 e ∙ omega arith

module _ {T H M : Type 0} (lmdb : Heed T H M) (prost : Prost) where
  Pending-At :
      (p : ℕ) (bs : List EncodedBlock) (rs : List CompactBlockRecord)
      → Pending lmdb prost p bs rs
      → At p rs
  Pending-At p [] [] h = tt
  Pending-At p [] (r ∷ rs) h = absurd h
  Pending-At p (b ∷ bs) [] h = absurd h
  Pending-At p (b ∷ bs) (r ∷ rs) (at, height, hash, decoded, waits) =
      (height, Pending-At (p + 1) bs rs waits)

  Pending-last :
      (p : ℕ) (b : EncodedBlock) (bs : List EncodedBlock) (rs : List CompactBlockRecord)
      → Pending lmdb prost p (b ∷ bs) rs
      → (r : CompactBlockRecord) × (last? rs ≡ some r)
        × ((last_of b bs).height ≡ r.height)
        × ((last_of b bs).hash ≡ r.hash)
  Pending-last p b bs [] h = absurd h
  Pending-last p b [] (r ∷ []) (at, height, hash, decoded, waits) = (r, refl, at ∙ sym height, hash)
  Pending-last p b [] (r ∷ s ∷ rs) (at, height, hash, decoded, waits) = absurd waits
  Pending-last p b (c ∷ bs) (r ∷ []) (at, height, hash, decoded, waits) = absurd waits
  Pending-last p b (c ∷ bs) (r ∷ s ∷ rs) (at, height, hash, decoded, waits) =
      Pending-last (p + 1) c bs (s ∷ rs) waits

  -- The chain with the blocks of a batch, none of them written yet.
  pub Stored-append :
      (sealed rows : T) (low : ℕ) (blocks : List EncodedBlock)
      (chain records : List CompactBlockRecord)
      → Stored lmdb prost sealed rows low (length chain) [] chain
      → Pending lmdb prost (length chain) blocks records
      → length chain + length records ≤ u32_max + 1
      → Stored lmdb prost sealed rows low (length chain) blocks (chain ++ records)
  Stored-append sealed rows low blocks chain records s waits fits = record {
    aligned = s.aligned;
    order = s.order;
    room = omega (arith, length-append chain records);
    fits = omega (arith, length-append chain records, fits);
    heights = λ h r at. elim (Bool-cases (leb (length chain) h)) [
      | inl new ↦
          get_elem?-At (length chain) records (h - length chain) r
            (Pending-At (length chain) blocks records waits)
            (sym (get_elem?-append-right chain records h (ground (arith, new))) ∙ at)
          ∙ ground (arith, new)
      | inr old ↦ s.heights h r (inside h (ground (arith, old)) ∙ at)
    ];
    in_range = λ h r at lt. s.in_range h r (inside h (omega (arith, lt, s.order)) ∙ at) lt;
    in_row = λ h r at ge lt. s.in_row h r (inside h lt ∙ at) ge lt;
    waits =
        subst (Pending lmdb prost (length chain) blocks) (sym (drop-append chain records)) waits;
  }
    where
      inside : (h : ℕ) → h < length chain → get_elem? chain h ≡ get_elem? (chain ++ records) h
      inside h lt = sym (get_elem?-append chain records h lt)

  -- The hash index is a table of its own.
  abbrev pub SameRows : Writer T H M → Writer T H M → Type 0
  SameRows w w' =
      (w'.tables.sealed_ranges ≡ w.tables.sealed_ranges)
      × (w'.tables.mutable_blocks ≡ w.tables.mutable_blocks)
      × (w'.state ≡ w.state)

  pub Stored-same :
      (w w' : Writer T H M) (low p : ℕ) (blocks : List EncodedBlock)
      (chain : List CompactBlockRecord)
      → SameRows w w'
      → Stored lmdb prost w.tables.sealed_ranges w.tables.mutable_blocks low p blocks chain
      → Stored lmdb prost w'.tables.sealed_ranges w'.tables.mutable_blocks low p blocks chain
  Stored-same w w' low p blocks chain (ranges, rows, state) s =
      subst (λ t. Stored lmdb prost t w'.tables.mutable_blocks low p blocks chain) (sym ranges)
        (subst (λ t. Stored lmdb prost w.tables.sealed_ranges t low p blocks chain) (sym rows) s)

  pub put_hash-same :
      (w w' : Writer T H M) (id : BlockId) → put_hash lmdb w id ≡ ok w' → SameRows w w'
  unfolding put_hash
  put_hash-same w w' id ran =
      let (table, p, h) =
        >>=-eq-ok (lmdb.hashes.put w.tables.hash_to_height id.hash id.height) _ ran in
      let same = sym (ok_inj _ w' h) in
      (
        ap (λ x. x.tables.sealed_ranges) same,
        ap (λ x. x.tables.mutable_blocks) same,
        ap (λ x. x.state) same,
      )

  put_hashes-same :
      (w w' : Writer T H M) (bs : List EncodedBlock) → put_hashes lmdb w bs ≡ ok w' → SameRows w w'
  unfolding put_hashes try_fold
  put_hashes-same w w' [] ran =
      let same = sym (ok_inj w w' ran) in
      (
        ap (λ x. x.tables.sealed_ranges) same,
        ap (λ x. x.tables.mutable_blocks) same,
        ap (λ x. x.state) same,
      )
  put_hashes-same w w' (b ∷ bs) ran =
      let (next, p, h) =
        >>=-eq-ok (put_hash lmdb w (record { height = b.height; hash = b.hash })) _ ran in
      let (a₁, a₂, a₃) = put_hash-same w next (record { height = b.height; hash = b.hash }) p in
      let (b₁, b₂, b₃) = put_hashes-same next w' bs h in (b₁ ∙ a₁, b₂ ∙ a₂, b₃ ∙ a₃)

  -- A commit changes the metadata and the generation only.
  pub commit-Holds :
      (w w' : Writer T H M) (chain : List CompactBlockRecord)
      → Holds lmdb prost w [] chain
      → commit lmdb w ≡ ok w'
      → Holds lmdb prost w' [] chain × (w'.state.generation ≡ w.state.generation + 1)
  unfolding commit next_range_start
  commit-Holds w w' chain holds ran =
      let (generation, p₀, h₀) =
        >>=-eq-ok (ok_or (word_add u64_max w.state.generation 1) overflow) _ ran in
      let s : IndexState = record w.state { generation = generation } in
      let (bytes, p₁, h₁) = >>=-eq-ok (ok_or (encode_state s) panicked) _ h₀ in
      let (metas, p₂, h₂) = >>=-eq-ok (lmdb.rows.put w.tables.metadata state_key bytes) _ h₁ in
      let written : Writer T H M = record {
        tables = record w.tables { metadata = metas };
        state = s;
      } in
      let kept : Holds lmdb prost written [] chain = record {
        low = holds.low;
        unwritten = holds.unwritten;
        stored = holds.stored;
        starts = holds.starts;
        tip = TipIs-same (last? chain) w.state s refl refl holds.tip;
      } in
      let same : written ≡ w' = ok_inj written w' h₂ in
      (
        subst (λ x. Holds lmdb prost x [] chain) same kept,
        ap (λ x. x.state.generation) (sym same)
            ∙ (word_add_lem u64_max w.state.generation 1 generation (ok_or-some _ generation p₀)).0,
      )

  -- A transaction behind an append to the hash index and a new tip, on the chain with the batch.
  append_start :
      (w w₁ : Writer T H M) (b : EncodedBlock) (bs : List EncodedBlock) (sizes : TreeSizes)
      (chain records : List CompactBlockRecord)
      → Holds lmdb prost w [] chain
      → Pending lmdb prost (length chain) (b ∷ bs) records
      → ((r : CompactBlockRecord) → last? records ≡ some r → sizes ≡ r.end_tree_sizes)
      → length chain + length records ≤ u32_max + 1
      → put_hashes lmdb w (b ∷ bs) ≡ ok w₁
      → Holds lmdb prost
          (set_tip w₁ (record { height = (last_of b bs).height; hash = (last_of b bs).hash }) sizes)
          (b ∷ bs)
          (chain ++ records)
  unfolding set_tip next_range_start
  append_start w w₁ b bs sizes chain records holds waits ends fits ran =
      let (ranges, rows, state) = put_hashes-same w w₁ (b ∷ bs) ran in
      let s = holds.stored in
      let all : holds.unwritten ≡ length chain =
        all_written lmdb prost holds.unwritten chain s.room s.waits in
      let (r, last, height, hash) = Pending-last (length chain) b bs records waits in
      record {
        low = holds.low;
        unwritten = length chain;
        stored =
            Stored-append w₁.tables.sealed_ranges w₁.tables.mutable_blocks holds.low (b ∷ bs) chain
              records
              (Stored-same w w₁ holds.low (length chain) [] chain (ranges, rows, state)
                (subst
                  (λ n.
                    Stored lmdb prost w.tables.sealed_ranges w.tables.mutable_blocks holds.low n []
                      chain)
                  all s))
              waits fits;
        starts = ap next_range_start state ∙ holds.starts;
        tip =
            subst
              (λ o.
                TipIs o
                  (set_tip w₁
                    (record { height = (last_of b bs).height; hash = (last_of b bs).hash })
                    sizes).state)
              (sym (last?-append chain records r last))
              (λ i. some (record { height = height i; hash = hash i }), ends r last);
      }

  -- An append to a chain that the tables hold.
  pub append-Holds :
      IsHeed lmdb
      → (w w' : Writer T H M) (batch : EncodedBatch) (chain records : List CompactBlockRecord)
      → Holds lmdb prost w [] chain
      → Pending lmdb prost (length chain) batch.blocks records
      → ((r : CompactBlockRecord)
          → last? records ≡ some r
          → batch.end_tree_sizes ≡ r.end_tree_sizes)
      → length chain + length records ≤ u32_max + 1
      → append lmdb prost w batch ≡ ok w'
      → Holds lmdb prost w' [] (chain ++ records)
  unfolding append
  append-Holds laws w w' batch chain records holds waits ends fits ran = go batch.blocks waits ran
    where
      go :
          (blocks : List EncodedBlock)
          → Pending lmdb prost (length chain) blocks records
          → append lmdb prost w (record batch { blocks = blocks }) ≡ ok w'
          → Holds lmdb prost w' [] (chain ++ records)
      go [] waits ran = absurd (cc ran)
      go (b ∷ bs) waits ran =
          let (expected, p₀, h₀) = >>=-eq-ok (ok_or (next_height w.state) overflow) _ ran in
          let (fits_on, h₁) =
            guard_inv (not (b.height == expected) || wrong_tip w.state b.previous_hash) _ _ h₀ in
          let (w₁, p₂, h₂) = >>=-eq-ok (put_hashes lmdb w (b ∷ bs)) _ h₁ in
          let (sealed, p₃, h₃) =
            >>=-eq-ok (seal_ranges lmdb prost _ batch.seal_through (b ∷ bs)) _ h₂ in
          let (w₃, p₄, h₄) = >>=-eq-ok (put_mutable_blocks lmdb sealed.0 sealed.1) _ h₃ in
          let start =
            append_start w w₁ b bs batch.end_tree_sizes chain records holds waits ends fits p₂ in
          let after =
            seal_ranges-Holds lmdb prost laws _ sealed.0 batch.seal_through (b ∷ bs) sealed.1
              (chain ++ records) start p₃ in
          (commit-Holds w₃ w' (chain ++ records)
            (put_mutable_blocks-Holds lmdb prost laws sealed.0 w₃ sealed.1 (chain ++ records) after
              p₄)
            h₄).0
