-- ===== src/Snapshot/Epoch/Grouping.antt =====
-- The epochs are a partition of the entries, each closed by the rule as soon as it can be.
use ztreamer.Prelude.{
  ℕ, zero, suc, ◌+◌, ◌-◌, ◌≤◌, ◌<◌, ◌≡◌, refl, sym, ap, ◌⊎◌, inl, inr, true, false, Option, none,
  some, List, [], ◌∷◌, ◌++◌, arith, Bool-cases, Option-cases, length, take, drop, last?,
  length-take,
}
use ztreamer.Snapshot.Entry.{ManifestEntry}
use ztreamer.Snapshot.Epoch.{
  Epoch, rule_closes, max_ranges, total_of, added, closing_position, epoch_len, epoch_of,
  last_closes,
}

-- The rule closes at none of the entries, where `at` entries come before them.
abbrev pub IsOpen : ℕ → ℕ → List ManifestEntry → Type 0
IsOpen base at [] = Unit
IsOpen base at (e ∷ es) = (rule_closes (at + 1) (added base e) ≡ false) × IsOpen base (at + 1) es

IsOpen-take :
    (base at n : ℕ) (es : List ManifestEntry) → IsOpen base at es → IsOpen base at (take n es)
IsOpen-take base at zero es h = tt
IsOpen-take base at (suc n) [] h = tt
IsOpen-take base at (suc n) (e ∷ es) h = (h.0, IsOpen-take base (at + 1) n es h.1)

open_short :
    (base at : ℕ) (es : List ManifestEntry) → IsOpen base at es → at ≤ 9 → at + length es ≤ 9
unfolding rule_closes
open_short base at [] h le = omega (arith, le)
open_short base at (e ∷ es) h le =
    let room : at + 1 ≤ 9 = ground (arith, h.0) in
    omega (arith, open_short base (at + 1) es h.1 room)

-- Where the rule closes first, `n` entries on.
pub record Closes (base at : ℕ) (es : List ManifestEntry) (k : ℕ) : Type 0 where
  pub count : ℕ
  pub place : k ≡ at + count
  pub inside : count < length es
  pub before_open : IsOpen base at (take count es)
  pub entry : ManifestEntry
  pub is_last : last? (take (suc count) es) ≡ some entry
  pub closes : rule_closes (k + 1) (added base entry) ≡ true

pub last?-cons :
    (e : ManifestEntry) (es : List ManifestEntry) (l : ManifestEntry)
    → last? es ≡ some l
    → last? (e ∷ es) ≡ some l
last?-cons e [] l h = cc
last?-cons e (x ∷ xs) l h = h

closing_found :
    (base at : ℕ) (es : List ManifestEntry) (k : ℕ)
    → closing_position base at es ≡ some k
    → Closes base at es k
unfolding closing_position
closing_found base at [] k h = cc
closing_found base at (e ∷ es) k h = elim (Bool-cases (rule_closes (at + 1) (added base e))) [
  | inl here ↦
      let same : at ≡ k = ground (arith, here, h) in
      record {
        count = 0;
        place = omega (arith, same);
        inside = omega arith;
        before_open = tt;
        entry = e;
        is_last = refl;
        closes = rw (sym same) here;
      }
  | inr held ↦
      let later = closing_found base (at + 1) es k (ground (arith, held, h)) in
      record {
        count = suc later.count;
        place = omega (arith, later.place);
        inside = omega (arith, later.inside);
        before_open = (held, later.before_open);
        entry = later.entry;
        is_last = last?-cons e (take (suc later.count) es) later.entry later.is_last;
        closes = later.closes;
      }
]

closing_none :
    (base at : ℕ) (es : List ManifestEntry) → closing_position base at es ≡ none → IsOpen base at es
unfolding closing_position
closing_none base at [] h = tt
closing_none base at (e ∷ es) h = elim (Bool-cases (rule_closes (at + 1) (added base e))) [
  | inl here ↦ absurd (ground (arith, here, h))
  | inr held ↦ (held, closing_none base (at + 1) es (ground (arith, held, h)))
]

take-length : (es : List ManifestEntry) → take (length es) es ≡ es
take-length [] = refl
take-length (e ∷ es) = ap (λ xs. e ∷ xs) (take-length es)

drop-length : (es : List ManifestEntry) → drop (length es) es ≡ []
drop-length [] = refl
drop-length (e ∷ es) = drop-length es

pub take-drop : (n : ℕ) (es : List ManifestEntry) → take n es ++ drop n es ≡ es
take-drop zero es = refl
take-drop (suc n) [] = refl
take-drop (suc n) (e ∷ es) = ap (λ xs. e ∷ xs) (take-drop n es)

take-take : (n : ℕ) (es : List ManifestEntry) → take n (take (suc n) es) ≡ take n es
take-take zero es = refl
take-take (suc n) [] = refl
take-take (suc n) (e ∷ es) = ap (λ xs. e ∷ xs) (take-take n es)

-- The epoch that stands at the start of `rest`: not empty, of at most ten entries; the rule closes
-- it at no entry before its last, and closes it at its last unless no entry is left.
pub record IsEpoch (previous : Option ManifestEntry) (rest left : List ManifestEntry) (e : Epoch)
    : Type 0 where
  pub split : e.entries ++ left ≡ rest
  pub nonempty : 0 < length e.entries
  pub bounded : length e.entries ≤ max_ranges
  pub after : e.previous ≡ previous
  pub still_open : IsOpen (total_of previous) 0 (take (length e.entries - 1) e.entries)
  pub closed : (e.closed_by_rule ≡ true) ⊎ (left ≡ [])

epoch_len-none :
    (base : ℕ) (rest : List ManifestEntry)
    → closing_position base 0 rest ≡ none
    → epoch_len base rest ≡ length rest
unfolding epoch_len
epoch_len-none base rest h = rw (h, epoch_len) refl

epoch_len-some :
    (base : ℕ) (rest : List ManifestEntry) (k : ℕ)
    → closing_position base 0 rest ≡ some k
    → epoch_len base rest ≡ suc k
unfolding epoch_len
epoch_len-some base rest k h = rw (h, epoch_len) (omega arith)

module _ (previous : Option ManifestEntry) (x : ManifestEntry) (xs : List ManifestEntry) where
  abbrev rest : List ManifestEntry
  rest = x ∷ xs

  abbrev base : ℕ
  base = total_of previous

  abbrev Holds : ℕ → Type 0
  Holds len = IsEpoch previous rest (drop len rest) (epoch_of previous len rest)

  unclosed : closing_position base 0 rest ≡ none → Holds (length rest)
  unfolding epoch_of
  unclosed h =
      let held = closing_none base 0 rest h in
      let short = open_short base 0 rest held (omega arith) in
      record {
        split = take-drop (length rest) rest;
        nonempty = omega (arith, ap length (take-length rest));
        bounded = omega (arith, short, ap length (take-length rest));
        after = refl;
        still_open = IsOpen-take base 0 _ _ (IsOpen-take base 0 (length rest) rest held);
        closed = inr (drop-length rest);
      }

  closed_at : (k : ℕ) → closing_position base 0 rest ≡ some k → Holds (suc k)
  unfolding epoch_of last_closes
  closed_at k h =
      let c = closing_found base 0 rest k h in
      let same : c.count ≡ k = omega (arith, c.place) in
      let next : k + 1 ≡ suc k = omega arith in
      let count : length (take (suc k) rest) ≡ suc k =
        omega (arith, length-take (suc k) rest, c.inside, same) in
      let before : length (take (suc k) rest) - 1 ≡ k = omega (arith, count) in
      let held : IsOpen base 0 (take k rest) = rw (sym same) c.before_open in
      let short = open_short base 0 (take k rest) held (omega arith) in
      let last : last? (take (suc k) rest) ≡ some c.entry = rw (sym same) c.is_last in
      let closing : rule_closes (suc k) (added base c.entry) ≡ true = rw (sym next) c.closes in
      record {
        split = take-drop (suc k) rest;
        nonempty = omega (arith, count);
        bounded = omega (arith, count, short, length-take k rest, c.inside, same);
        after = refl;
        still_open = rw (before, take-take k rest) held;
        closed = inl (rw (last, closing) refl);
      }

  pub epoch_of-IsEpoch : Holds (epoch_len base rest)
  epoch_of-IsEpoch = elim (Option-cases (closing_position base 0 rest)) [
    | inl open_end ↦ rw (epoch_len-none base rest open_end) (unclosed open_end)
    | inr (k, at) ↦ rw (epoch_len-some base rest k at) (closed_at k at)
  ]
