-- ===== src/Index/Writes/Guards.antt =====
-- What the guards of IndexWriter::append in crates/index/src/index/writer.rs ask of a batch.
use mathlib.Core.Path.{subst}
use ztreamer.Prelude.{
  ℕ, ◌+◌, ◌≡◌, refl, sym, ap, ◌∙◌, false, not, ◌||◌, Option, none, some, List, [], ◌∷◌, ◌++◌, arith,
  ◌==◌, length, get_elem?, last?, last?-cons, bytes_eq_iff, ok, >>=-eq-ok, guard_inv, ok_or,
}
use ztreamer.Chain.Types.{Hash, CompactBlockRecord}
use ztreamer.Chain.Record.{Prost}
use ztreamer.Chain.Range.Links.{Continues}
use ztreamer.Index.Error.{overflow}
use ztreamer.Index.State.{IndexState, next_height, height_above}
use ztreamer.Index.Encoding.{EncodedBlock, EncodedBatch}
use ztreamer.Index.Tables.{Heed}
use ztreamer.Index.Writer.{Writer, id_of}
use ztreamer.Index.Writer.Batch.{ok_or-some}
use ztreamer.Index.Writer.Stored.{TipIs, Holds}
use ztreamer.Index.Writes.{wrong_tip, append}
use ztreamer.Index.Writes.Replace.{tip_height_lem}

-- The hash of the parent is that of the block before, if there is one.
abbrev pub IsChild : Option CompactBlockRecord → Hash → Type 0
IsChild none previous_hash = Unit
IsChild (some r) previous_hash = previous_hash ≡ r.hash

-- Each record has the height above the record before it, and links to it.
abbrev pub IsLinked : List CompactBlockRecord → Type 0
IsLinked [] = Unit
IsLinked (r ∷ rs) = Continues r.height r.hash rs

Continues-append :
    (height : ℕ) (hash : Hash) (rs : List CompactBlockRecord) (last r : CompactBlockRecord)
    (qs : List CompactBlockRecord)
    → Continues height hash rs
    → last? rs ≡ some last
    → r.height ≡ last.height + 1
    → r.previous_hash ≡ last.hash
    → Continues r.height r.hash qs
    → Continues height hash (rs ++ (r ∷ qs))
Continues-append height hash [] last r qs c is above child more = absurd (cc is)
Continues-append height hash (x ∷ []) last r qs (at, link, c) is above child more =
    let same : x ≡ last = cc is in
    (
      at,
      link,
      (above ∙ ap (λ y. y.height + 1) (sym same), child ∙ ap (λ y. y.hash) (sym same), more),
    )
Continues-append height hash (x ∷ y ∷ rs) last r qs (at, link, c) is above child more =
    (at, link, Continues-append x.height x.hash (y ∷ rs) last r qs c is above child more)

-- Two linked runs, the second at the height above the first and with its last block as parent.
pub IsLinked-append :
    (chain : List CompactBlockRecord) (r : CompactBlockRecord) (rs : List CompactBlockRecord)
    → ((i : ℕ) (x : CompactBlockRecord) → get_elem? chain i ≡ some x → x.height ≡ i)
    → r.height ≡ length chain
    → IsChild (last? chain) r.previous_hash
    → IsLinked chain
    → IsLinked (r ∷ rs)
    → IsLinked (chain ++ (r ∷ rs))
IsLinked-append [] r rs heights at child linked more = more
IsLinked-append (x ∷ []) r rs heights at child linked more =
    (at ∙ omega (arith, heights 0 x refl), child, more)
IsLinked-append (x ∷ y ∷ chain) r rs heights at child linked more =
    let (last, is, there) = last?-cons x (y ∷ chain) in
    Continues-append x.height x.hash (y ∷ chain) last r rs linked is
      (at ∙ omega (arith, heights (length (y ∷ chain)) last there))
      (subst (λ o. IsChild o r.previous_hash) is child) more

next_height_lem :
    (s : IndexState) (chain : List CompactBlockRecord) (expected : ℕ)
    → TipIs (last? chain) s
    → ((i : ℕ) (r : CompactBlockRecord) → get_elem? chain i ≡ some r → r.height ≡ i)
    → next_height s ≡ some expected
    → expected ≡ length chain
unfolding next_height height_above
next_height_lem s [] expected tip heights h = let k = rw tip at h in ground (arith, k)
next_height_lem s (x ∷ chain) expected tip heights h =
    let (last, is, there) = last?-cons x chain in
    let known : s.durable_tip ≡ some (id_of last) = (subst (λ o. TipIs o s) is tip).0 in
    let k = rw known at h in
    ground (arith, k, tip_height_lem s (x ∷ chain) (id_of last) tip heights known)

wrong_tip_lem :
    (s : IndexState) (o : Option CompactBlockRecord) (previous_hash : Hash)
    → TipIs o s
    → wrong_tip s previous_hash ≡ false
    → IsChild o previous_hash
wrong_tip_lem s none previous_hash tip h = tt
wrong_tip_lem s (some r) previous_hash tip h =
    let k = rw tip.0 at h in (bytes_eq_iff previous_hash r.hash).0 (ground (arith, k))

module _ {T H M : Type 0} (lmdb : Heed T H M) (prost : Prost) where
  -- A batch that is appended starts at the end of the chain, with its last block as parent.
  pub append_guards :
      (w w' : Writer T H M) (batch : EncodedBatch) (chain : List CompactBlockRecord)
      → Holds lmdb prost w [] chain
      → append lmdb prost w batch ≡ ok w'
      → (b : EncodedBlock) × (bs : List EncodedBlock) × (batch.blocks ≡ b ∷ bs)
        × (b.height ≡ length chain)
        × IsChild (last? chain) b.previous_hash
  unfolding append
  append_guards w w' batch chain holds ran = go batch.blocks refl ran
    where
      go :
          (blocks : List EncodedBlock)
          → batch.blocks ≡ blocks
          → append lmdb prost w (record batch { blocks = blocks }) ≡ ok w'
          → (b : EncodedBlock) × (bs : List EncodedBlock) × (batch.blocks ≡ b ∷ bs)
            × (b.height ≡ length chain)
            × IsChild (last? chain) b.previous_hash
      go [] is ran = absurd (cc ran)
      go (b ∷ bs) is ran =
          let (expected, p, h) = >>=-eq-ok (ok_or (next_height w.state) overflow) _ ran in
          let fits =
            (guard_inv (not (b.height == expected) || wrong_tip w.state b.previous_hash) _ _ h).0 in
          let at =
            next_height_lem w.state chain expected holds.tip holds.stored.heights
              (ok_or-some _ expected p) in
          (
            b,
            bs,
            is,
            ground (arith, fits, at),
            wrong_tip_lem w.state (last? chain) b.previous_hash holds.tip (ground (arith, fits)),
          )
