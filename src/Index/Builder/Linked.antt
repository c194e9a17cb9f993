-- ===== src/Index/Builder/Linked.antt =====
-- Batches of records that continue the chain of a builder.
use ztreamer.Prelude.{
  ℕ, ◌+◌, ◌≤◌, ◌≡◌, refl, sym, ap, ◌∙◌, Option, some, List, [], ◌∷◌, ◌++◌, arith, length,
  length-append,
}
use mathlib.Core.Path.{subst}
use ztreamer.Prelude.Tree
use ztreamer.Chain.TreeSizes.{TreeSizes}
use ztreamer.Chain.Types.{Hash, ParsedCompactBlock, CompactBlockRecord, into_record}
use ztreamer.Index.Builder.{OrderedBuilder}
use ztreamer.Index.Builder.Invariant.{Pending}
use ztreamer.Index.Builder.Take.{LinksTo, IsWithin}

-- The records are those of the pending blocks from `height` on: each has the next height, links to
-- the one before it, is at most at `through`, and has the tree sizes after its own additions.
abbrev pub IsBatch :
    Pending → Option ℕ → ℕ → Option Hash → TreeSizes → List CompactBlockRecord → Type 0
IsBatch m through height previous sizes [] = Unit
IsBatch m through height previous sizes (r ∷ rs) =
    (e : ParsedCompactBlock × ℕ) × (Tree.get height m ≡ some e)
    × (into_record e.0 sizes ≡ some r)
    × (r.height ≡ height)
    × IsWithin through r.height
    × LinksTo previous r.previous_hash
    × IsBatch m through (height + 1) (some r.hash) r.end_tree_sizes rs

abbrev pub last_hash? : Option Hash → List CompactBlockRecord → Option Hash
last_hash? previous [] = previous
last_hash? previous (r ∷ rs) = last_hash? (some r.hash) rs

abbrev pub last_sizes : TreeSizes → List CompactBlockRecord → TreeSizes
last_sizes sizes [] = sizes
last_sizes sizes (r ∷ rs) = last_sizes r.end_tree_sizes rs

-- The builder stands behind the records.
pub record StandsAfter (b : OrderedBuilder) (records : List CompactBlockRecord) (c : OrderedBuilder)
    : Type 0 where
  pub height : c.next_height ≡ b.next_height + length records
  pub hash : c.previous_hash ≡ last_hash? b.previous_hash records
  pub sizes : c.tree_sizes ≡ last_sizes b.tree_sizes records
  pub generation : c.generation ≡ b.generation
  pub kept : (h : ℕ) → c.next_height ≤ h → Tree.get h c.pending ≡ Tree.get h b.pending
  pub fewer : length c.pending + length records ≤ length b.pending

pub StandsAfter-refl : (b : OrderedBuilder) → StandsAfter b [] b
StandsAfter-refl b = record {
  height = omega arith;
  hash = refl;
  sizes = refl;
  generation = refl;
  kept = λ h le. refl;
  fewer = omega arith;
}

pub IsBatch-same :
    (m m' : Pending) (through : Option ℕ) (height : ℕ) (previous : Option Hash) (sizes : TreeSizes)
    (rs : List CompactBlockRecord)
    → ((h : ℕ) → height ≤ h → Tree.get h m' ≡ Tree.get h m)
    → IsBatch m' through height previous sizes rs
    → IsBatch m through height previous sizes rs
IsBatch-same m m' through height previous sizes [] same h = tt
IsBatch-same m m' through height previous sizes (r ∷ rs) same
      (e, there, record_is, at, within, link, more) =
    (
      e,
      sym (same height (omega arith)) ∙ there,
      record_is,
      at,
      within,
      link,
      IsBatch-same m m' through (height + 1) (some r.hash) r.end_tree_sizes rs
          (λ h le. same h (omega arith)) more,
    )

pub IsBatch-append :
    (m m' : Pending) (through : Option ℕ) (height : ℕ) (previous : Option Hash) (sizes : TreeSizes)
    (rs qs : List CompactBlockRecord)
    → IsBatch m through height previous sizes rs
    → IsBatch m' through (height + length rs) (last_hash? previous rs) (last_sizes sizes rs) qs
    → ((h : ℕ) → height + length rs ≤ h → Tree.get h m' ≡ Tree.get h m)
    → IsBatch m through height previous sizes (rs ++ qs)
IsBatch-append m m' through height previous sizes [] qs h more same =
    IsBatch-same m m' through height previous sizes qs (λ k le. same k (omega arith))
      (subst (λ k. IsBatch m' through k previous sizes qs) (omega arith) more)
IsBatch-append m m' through height previous sizes (r ∷ rs) qs (e, there, is, at, within, link, rest)
      more same =
    (
      e,
      there,
      is,
      at,
      within,
      link,
      IsBatch-append m m' through (height + 1) (some r.hash) r.end_tree_sizes rs qs rest
          (subst
            (λ k.
              IsBatch m' through k (last_hash? (some r.hash) rs) (last_sizes r.end_tree_sizes rs)
                qs)
            (omega arith) more)
          (λ k le. same k (omega arith)),
    )

pub last_hash?-append :
    (previous : Option Hash) (rs qs : List CompactBlockRecord)
    → last_hash? previous (rs ++ qs) ≡ last_hash? (last_hash? previous rs) qs
last_hash?-append previous [] qs = refl
last_hash?-append previous (r ∷ rs) qs = last_hash?-append (some r.hash) rs qs

pub last_sizes-append :
    (sizes : TreeSizes) (rs qs : List CompactBlockRecord)
    → last_sizes sizes (rs ++ qs) ≡ last_sizes (last_sizes sizes rs) qs
last_sizes-append sizes [] qs = refl
last_sizes-append sizes (r ∷ rs) qs = last_sizes-append r.end_tree_sizes rs qs

-- The same builder at another generation.
abbrev pub at_generation : ℕ → OrderedBuilder → OrderedBuilder
at_generation generation b = record b { generation = generation }

pub StandsAfter-trans :
    (b c d : OrderedBuilder) (rs qs : List CompactBlockRecord)
    → StandsAfter b rs (at_generation b.generation c)
    → StandsAfter c qs (at_generation c.generation d)
    → StandsAfter b (rs ++ qs) (at_generation b.generation d)
StandsAfter-trans b c d rs qs s t = record {
  height = omega (arith, s.height, t.height, length-append rs qs);
  hash = t.hash ∙ ap (λ h. last_hash? h qs) s.hash ∙ sym (last_hash?-append b.previous_hash rs qs);
  sizes = t.sizes ∙ ap (λ h. last_sizes h qs) s.sizes ∙ sym (last_sizes-append b.tree_sizes rs qs);
  generation = refl;
  kept = λ h le. t.kept h le ∙ s.kept h (omega (arith, le, t.height));
  fewer = omega (arith, s.fewer, t.fewer, length-append rs qs);
}
