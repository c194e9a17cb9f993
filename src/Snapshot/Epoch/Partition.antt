-- ===== src/Snapshot/Epoch/Partition.antt =====
-- What the iteration over the epochs of a manifest gives, from any entry on.
use ztreamer.Prelude.{
  ℕ, zero, suc, ◌+◌, ◌≤◌, ◌≡◌, refl, sym, ap, ◌∙◌, ◌⊎◌, inl, inr, none, some, List, [], ◌∷◌, ◌++◌,
  map, arith, length, drop, flatten, drop-drop, length-append, length-drop,
}
use ztreamer.Snapshot.Entry.{ManifestEntry}
use ztreamer.Snapshot.Epoch.{
  Epoch, Epochs, total_of, epoch_len, entry_before, epoch_of, next_epoch, all_epochs, starting_at,
}
use ztreamer.Snapshot.Epoch.Grouping.{IsEpoch, epoch_of-IsEpoch}

-- The epochs of the entries from `start` on.
pub data Partition (entries : List ManifestEntry) : ℕ → List Epoch → Type 0 where
  finished : {start : ℕ} → drop start entries ≡ [] → Partition entries start []
  grouped :
      {start next : ℕ} {e : Epoch} {es : List Epoch}
      → IsEpoch (entry_before entries start) (drop start entries) (drop next entries) e
      → Partition entries next es
      → Partition entries start (e ∷ es)

abbrev entries_of : Epoch → List ManifestEntry
entries_of e = e.entries

Partition-flatten :
    {entries : List ManifestEntry} {start : ℕ} {es : List Epoch}
    → Partition entries start es
    → flatten (map entries_of es) ≡ drop start entries
Partition-flatten (finished h) = sym h
Partition-flatten (grouped {e = e} h more) =
    ap (λ xs. e.entries ++ xs) (Partition-flatten more) ∙ h.split

List-cases :
    (xs : List ManifestEntry)
    → (xs ≡ []) ⊎ ((x : ManifestEntry) × (rest : List ManifestEntry) × (xs ≡ x ∷ rest))
List-cases [] = inl refl
List-cases (x ∷ rest) = inr (x, rest, refl)

module _ (s : Epochs) where
  next_end : drop s.start s.all_entries ≡ [] → next_epoch s ≡ (none, s)
  unfolding next_epoch
  next_end h = rw (h, next_epoch) refl

  abbrev len_of : List ManifestEntry → ℕ
  len_of rest = epoch_len (total_of (entry_before s.all_entries s.start)) rest

  next_some :
      (x : ManifestEntry) (xs : List ManifestEntry)
      → drop s.start s.all_entries ≡ x ∷ xs
      → next_epoch s ≡ (
        some (epoch_of (entry_before s.all_entries s.start) (len_of (x ∷ xs)) (x ∷ xs)),
        starting_at s.all_entries (s.start + len_of (x ∷ xs)),
      )
  unfolding next_epoch starting_at
  next_some x xs h = rw (h, next_epoch) refl

all_epochs-zero : (s : Epochs) → all_epochs zero s ≡ []
unfolding all_epochs
all_epochs-zero s = refl

all_epochs-end :
    (fuel : ℕ) (s s' : Epochs) → next_epoch s ≡ (none, s') → all_epochs (suc fuel) s ≡ []
unfolding all_epochs
all_epochs-end fuel s s' h = rw (h, all_epochs) refl

all_epochs-more :
    (fuel : ℕ) (s s' : Epochs) (e : Epoch)
    → next_epoch s ≡ (some e, s')
    → all_epochs (suc fuel) s ≡ e ∷ all_epochs fuel s'
unfolding all_epochs
all_epochs-more fuel s s' e h = rw (h, all_epochs) (ap (λ t. e ∷ all_epochs fuel t.1) h)

all_epochs-Partition :
    (fuel : ℕ) (entries : List ManifestEntry) (start : ℕ)
    → length (drop start entries) ≤ fuel
    → Partition entries start (all_epochs fuel (starting_at entries start))
unfolding starting_at
all_epochs-Partition zero entries start le =
    rw (all_epochs-zero (starting_at entries start)) (finished (nothing (drop start entries) le))
  where
    nothing : (xs : List ManifestEntry) → length xs ≤ 0 → xs ≡ []
    nothing [] le = refl
    nothing (x ∷ xs) le = absurd (omega (arith, le))
all_epochs-Partition (suc fuel) entries start le = elim (List-cases (drop start entries)) [
  | inl none_left ↦
      rw
        (all_epochs-end fuel (starting_at entries start) (starting_at entries start)
          (next_end (starting_at entries start) none_left))
        (finished none_left)
  | inr (x, xs, there) ↦
      let here = starting_at entries start in
      let len = epoch_len (total_of (entry_before entries start)) (x ∷ xs) in
      let epoch = epoch_of-IsEpoch (entry_before entries start) x xs in
      let left : drop (start + len) entries ≡ drop len (x ∷ xs) =
        drop-drop start len entries ∙ ap (drop len) there in
      let fewer : length (drop (start + len) entries) ≤ fuel = omega (
        arith,
        le,
        epoch.nonempty,
        ap length epoch.split,
        ap length there,
        ap length left,
        length-append (epoch_of (entry_before entries start) len (x ∷ xs)).entries
            (drop len (x ∷ xs)),
      ) in
      rw (all_epochs-more fuel here _ _ (next_some here x xs there))
        (grouped (rw (left, there) epoch) (all_epochs-Partition fuel entries (start + len) fewer))
]

-- From any entry on, the epochs that the iteration gives hold the entries that are left, in order and
-- each once. Each epoch has one to ten entries, follows the entry before it, is closed by the rule at no
-- entry before its last, and at its last unless it ends the manifest. As many turns as there are
-- entries are enough.
pub starting_at-Partition :
    (entries : List ManifestEntry) (start : ℕ)
    → Partition entries start (all_epochs (length entries) (starting_at entries start))
      × (flatten (map entries_of (all_epochs (length entries) (starting_at entries start)))
          ≡ drop start entries)
starting_at-Partition entries start =
    let parts =
      all_epochs-Partition (length entries) entries start
        (omega (arith, length-drop start entries)) in
    (parts, Partition-flatten parts)
