-- ===== src/Snapshot/Epoch/Part.antt =====
-- Epoch::part_after: the entries of an epoch above a height, as an epoch.
use ztreamer.Prelude.{
  ℕ, zero, suc, ◌+◌, ◌<◌, ◌≡◌, refl, sym, ◌⊎◌, inl, inr, true, false, Bool-cases, Option-cases,
  Option, none, some, List, [], ◌∷◌, ◌++◌, arith, ◌==◌, ==_iff, length, drop, take, last?,
}
use ztreamer.Snapshot.Entry.{ManifestEntry}
use ztreamer.Snapshot.Epoch.{Epoch, position_of_end, ends_previous, part_after}
use ztreamer.Snapshot.Epoch.Grouping.{take-drop, last?-cons}

-- An entry that ends at the height.
pub record EndsAt (height : ℕ) (o : Option ManifestEntry) : Type 0 where
  pub entry : ManifestEntry
  pub is_entry : o ≡ some entry
  pub ends : entry.end_height ≡ height

-- The last entries of the epoch, behind one that ends at the height.
pub record IsPart (epoch : Epoch) (height : ℕ) (part : Epoch) : Type 0 where
  pub front : List ManifestEntry
  pub split : front ++ part.entries ≡ epoch.entries
  pub nonempty : 0 < length part.entries
  pub behind : part.previous ≡ last? front
  pub ends : EndsAt height part.previous
  pub rule : part.closed_by_rule ≡ epoch.closed_by_rule

found :
    (height : ℕ) (es : List ManifestEntry) (k : ℕ)
    → position_of_end height es ≡ some k
    → EndsAt height (last? (take (suc k) es))
unfolding position_of_end
found height [] k h = cc
found height (e ∷ es) k h = elim (Bool-cases (e.end_height == height)) [
  | inl here ↦
      let same : zero ≡ k = ground (arith, here, h) in
      rw (sym same) (record { entry = e; is_entry = refl; ends = (==_iff _ _).0 here })
  | inr other ↦ elim (Option-cases (position_of_end height es)) [
    | inl missing ↦ absurd (ground (arith, other, missing, h))
    | inr (j, there) ↦
        let same : suc j ≡ k = ground (arith, other, there, h) in
        let later = found height es j there in
        rw (sym same) (record {
          entry = later.entry;
          is_entry = last?-cons e (take (suc j) es) later.entry later.is_entry;
          ends = later.ends;
        })
  ]
]

previous_ends :
    (height : ℕ) (o : Option ManifestEntry) → ends_previous height o ≡ true → EndsAt height o
unfolding ends_previous
previous_ends height none h = cc
previous_ends height (some e) h = record { entry = e; is_entry = refl; ends = (==_iff _ _).0 h }

abbrev part_of : Epoch → ℕ → ManifestEntry → List ManifestEntry → Epoch
part_of epoch k x xs = record {
  entries = x ∷ xs;
  previous = last? (take (k + 1) epoch.entries);
  closed_by_rule = epoch.closed_by_rule;
}

module _ (epoch : Epoch) (height k : ℕ) where
  no_part :
      ends_previous height epoch.previous ≡ false
      → position_of_end height epoch.entries ≡ some k
      → drop (k + 1) epoch.entries ≡ []
      → part_after epoch height ≡ none
  unfolding part_after
  no_part inner there at = rw (inner, there, at, part_after) refl

  some_part :
      (x : ManifestEntry) (xs : List ManifestEntry)
      → ends_previous height epoch.previous ≡ false
      → position_of_end height epoch.entries ≡ some k
      → drop (k + 1) epoch.entries ≡ x ∷ xs
      → part_after epoch height ≡ some (part_of epoch k x xs)
  unfolding part_after
  some_part x xs inner there at = rw (inner, there, at, part_after) refl

-- `part_after` returns the epoch itself where the entry before it ends at the height, and otherwise its
-- last entries, at least one, behind one that ends at the height. The part keeps the rule of the epoch.
pub part_after-IsPart :
    (epoch part : Epoch) (height : ℕ)
    → part_after epoch height ≡ some part
    → ((part ≡ epoch) × EndsAt height epoch.previous) ⊎ IsPart epoch height part
unfolding part_after
part_after-IsPart epoch part height h = elim (Bool-cases (ends_previous height epoch.previous)) [
  | inl whole ↦ inl (ground (arith, whole, h), previous_ends height epoch.previous whole)
  | inr inner ↦ elim (Option-cases (position_of_end height epoch.entries)) [
    | inl missing ↦ absurd (ground (arith, inner, missing, h))
    | inr (k, there) ↦ inr (tail inner k there (drop (k + 1) epoch.entries) refl)
  ]
]
  where
    tail :
        ends_previous height epoch.previous ≡ false
        → (k : ℕ) → position_of_end height epoch.entries ≡ some k
        → (left : List ManifestEntry) → drop (k + 1) epoch.entries ≡ left
        → IsPart epoch height part
    tail inner k there [] at = absurd (cc (sym (no_part epoch height k inner there at), h))
    tail inner k there (x ∷ xs) at =
        let same : part_of epoch k x xs ≡ part =
          cc (some_part epoch height k x xs inner there at, h) in
        let next : k + 1 ≡ suc k = omega arith in
        rw (sym same) (record {
          front = take (k + 1) epoch.entries;
          split = rw (sym at) (take-drop (k + 1) epoch.entries);
          nonempty = omega arith;
          behind = refl;
          ends = rw next (found height epoch.entries k there);
          rule = refl;
        })
