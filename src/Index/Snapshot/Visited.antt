-- ===== src/Index/Snapshot/Visited.antt =====
-- What `read_blocks` of crates/index/src/index/snapshot.rs emits: the blocks of the chain, one after the other.
use mathlib.Core.Path.{subst}
use native.Mathlib.Nat.{zero-add, suc-add}
use ztreamer.Prelude.{
  ℕ, zero, suc, ◌+◌, ◌<◌, ◌≡◌, refl, sym, ap, ◌∙◌, inl, inr, Bool, true, false, Option, none, some,
  List, [], ◌∷◌, arith, ◌==◌, ==_iff, if◌then◌else◌, Bool-cases, get_elem?, ok, ok-step, map_err,
}
use ztreamer.Chain.Types.{CompactBlockRecord}
use ztreamer.Chain.Record.{Prost}
use ztreamer.Chain.Range.{full_records}
use ztreamer.Index.Error.{codec}
use ztreamer.Index.Tables.{SealedRange, range_read}
use ztreamer.Index.Snapshot.{next_of, emit_chunk}

-- `count` heights from one on, in the direction of the read.
abbrev pub steps : Bool → ℕ → ℕ → List ℕ
steps ascending zero height = []
steps ascending (suc count) height = height ∷ steps ascending count (next_of ascending height)

-- The blocks of the chain at the heights.
abbrev pub blocks_at : List CompactBlockRecord → List ℕ → List CompactBlockRecord
blocks_at chain [] = []
blocks_at chain (h ∷ hs) = elim (get_elem? chain h) [
  | none ↦ blocks_at chain hs
  | some r ↦ r ∷ blocks_at chain hs
]

-- From `height`, `end` is reached in `count` steps.
abbrev pub Reaches : Bool → ℕ → ℕ → ℕ → Type 0
Reaches true height end count = end ≡ height + count
Reaches false height end count = height ≡ end + count

no_steps : (ascending : Bool) (h : ℕ) → Reaches ascending h h 0
no_steps true h = omega arith
no_steps false h = omega arith

pub reached : (ascending : Bool) (h e : ℕ) → Reaches ascending h e 0 → h ≡ e
reached true h e r = omega (arith, r)
reached false h e r = omega (arith, r)

pub after :
    (ascending : Bool) (h e k : ℕ)
    → Reaches ascending h e (suc k)
    → Reaches ascending (next_of ascending h) e k
after true h e k r = omega (arith, r)
after false h e k r = omega (arith, r)

one_more :
    (ascending : Bool) (h e x i k : ℕ)
    → Reaches ascending h e (suc k)
    → Reaches ascending (next_of ascending h) x i
    → Reaches ascending h x (i + 1)
one_more true h e x i k r t = omega (arith, r, t)
one_more false h e x i k r t = omega (arith, r, t)

pub not_yet : (ascending : Bool) (h e k : ℕ) → Reaches ascending h e (suc k) → (h == e) ≡ false
not_yet true h e k r = ground (arith, r)
not_yet false h e k r = ground (arith, r)

module _ {S : Type 0} (emit : S → CompactBlockRecord → S × Bool) where
  -- The blocks are emitted until the caller stops.
  abbrev pub emit_all : List CompactBlockRecord → S → S
  emit_all [] s = s
  emit_all (b ∷ bs) s = if (emit s b).1 then emit_all bs (emit s b).0 else (emit s b).0

  -- What a chunk leaves of a read: nothing where the caller stopped, and else what is behind its end.
  abbrev pub Leaves : List CompactBlockRecord → ℕ → ℕ → Bool → S → S × Option ℕ → Type 0
  Leaves chain reached count ascending all (s, none) = all ≡ s
  Leaves chain reached count ascending all (s, some h) =
      (h ≡ reached)
      × (all ≡ emit_all (blocks_at chain (steps ascending count (next_of ascending reached))) s)

  pub emit_one :
      (chain : List CompactBlockRecord) (ascending : Bool) (count height : ℕ)
      (r : CompactBlockRecord) (s : S)
      → get_elem? chain height ≡ some r
      → emit_all (blocks_at chain (steps ascending (suc count) height)) s ≡ (
          if (emit s r).1
          then emit_all
              (blocks_at chain (steps ascending count (next_of ascending height)))
              (emit s r).0
          else (emit s r).0)
  emit_one chain ascending count height r s at =
      ap
        (λ (o : Option CompactBlockRecord).
          emit_all
            (elim o [
              | none ↦ blocks_at chain (steps ascending count (next_of ascending height))
              | some b ↦ b ∷ blocks_at chain (steps ascending count (next_of ascending height))
            ])
            s)
        at

  -- One chunk, whose range gives the blocks of the chain.
  pub emit_chunk-Leaves :
      (prost : Prost) (chain : List CompactBlockRecord) (range : SealedRange) (ascending : Bool)
      (fuel k count height end : ℕ) (s : S)
      → Reaches ascending height end k
      → k < fuel
      → ((h i j : ℕ)
          → Reaches ascending height h i
          → Reaches ascending h end j
          → (r : CompactBlockRecord) × (get_elem? chain h ≡ some r)
            × (range_read (full_records prost) range h ≡ ok r))
      → (out : S × Option ℕ) × (emit_chunk
            (full_records prost)
            emit
            fuel
            range
            ascending
            end
            height
            s
          ≡ ok out)
        × Leaves chain end count ascending
            (emit_all (blocks_at chain (steps ascending (k + suc count) height)) s)
            out
  unfolding emit_chunk
  emit_chunk-Leaves prost chain range ascending zero k count height end s reaches lt reads =
      absurd (omega arith)
  emit_chunk-Leaves prost chain range ascending (suc fuel) zero count height end s reaches lt
        reads =
      let (r, at, got) = reads height 0 0 (no_steps ascending height) reaches in
      let here : height ≡ end = reached ascending height end reaches in
      let first : emit_chunk (full_records prost) emit (suc fuel) range ascending end height s ≡ _ =
        ok-step _ (ap (map_err codec) got) in
      let one =
        ap (λ n. emit_all (blocks_at chain (steps ascending n height)) s) (zero-add (suc count))
        ∙ emit_one chain ascending count height r s at in
      elim (Bool-cases (emit s r).1) [
        | inl more ↦ (
          ((emit s r).0, some height),
          first ∙ rw (more, (==_iff height end).1 here) refl,
          (here, one ∙ rw (more, here) refl),
        )
        | inr stop ↦ (((emit s r).0, none), first ∙ rw stop refl, one ∙ rw stop refl)
      ]
  emit_chunk-Leaves prost chain range ascending (suc fuel) (suc k) count height end s reaches lt
        reads =
      let (r, at, got) = reads height 0 (suc k) (no_steps ascending height) reaches in
      let first : emit_chunk (full_records prost) emit (suc fuel) range ascending end height s ≡ _ =
        ok-step _ (ap (map_err codec) got) in
      let one =
        ap (λ n. emit_all (blocks_at chain (steps ascending n height)) s) (suc-add k (suc count))
        ∙ emit_one chain ascending (k + suc count) height r s at in
      elim (Bool-cases (emit s r).1) [
        | inl more ↦
            let (out, ran, leaves) =
              emit_chunk-Leaves prost chain range ascending fuel k count (next_of ascending height)
                end (emit s r).0 (after ascending height end k reaches) (omega (arith, lt))
                (λ h i j from to.
                  reads h (i + 1) j (one_more ascending height end h i k reaches from) to) in
            (
              out,
              first ∙ rw (more, not_yet ascending height end k reaches) ran,
              subst (λ x. Leaves chain end count ascending x out) (sym (one ∙ rw more refl)) leaves,
            )
        | inr stop ↦ (((emit s r).0, none), first ∙ rw stop refl, one ∙ rw stop refl)
      ]
