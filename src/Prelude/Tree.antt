-- ===== src/Prelude/Tree.antt =====
-- A BTreeMap with integer keys, as an association list. The programs here never iterate over it.
use Prim.Native.Nat.{ℕ, ◌+◌, ◌≤◌, ◌<◌}
use mathlib.Core.Path.{◌≡◌, refl, ap}
use mathlib.Core.Logic.{inl, inr}
use mathlib.Core.Bool.{false}
use mathlib.Core.Option.{Option, none, some}
use mathlib.Core.List.{List, [], ◌∷◌}
use native.Mathlib.Omega.{arith}
use ztreamer.Prelude.Tests.{◌==◌, ==_iff, Bool-cases, leb, if◌then◌else◌}
use ztreamer.Prelude.Lists.{length}

abbrev pub Tree {ℓ} : Type ℓ → Type ℓ
Tree V = List (ℕ × V)

module _ {ℓ} {V : Type ℓ} where
  unfoldable pub get : ℕ → Tree V → Option V
  get k [] = none
  get k ((j, v) ∷ m) = if j == k then some v else get k m

  unfoldable pub insert : ℕ → V → Tree V → Tree V
  insert k v [] = (k, v) ∷ []
  insert k v ((j, w) ∷ m) = if j == k then (k, v) ∷ m else (j, w) ∷ insert k v m

  unfoldable pub remove : ℕ → Tree V → Tree V
  remove k [] = []
  remove k ((j, v) ∷ m) = let rest = remove k m in if j == k then rest else (j, v) ∷ rest

  pub get-insert :
      (k j : ℕ) (v : V) (m : Tree V) → get j (insert k v m) ≡ (if k == j then some v else get j m)
  unfolding get insert
  get-insert k j v [] = refl
  get-insert k j v ((i, w) ∷ m) = ground (arith, get-insert k j v m)

  pub get-remove : (k j : ℕ) (m : Tree V) → get j (remove k m) ≡ (if k == j then none else get j m)
  unfolding get remove
  get-remove k j [] = ground arith
  get-remove k j ((i, w) ∷ m) = ground (arith, get-remove k j m)

  pub length-remove-le : (k : ℕ) (m : Tree V) → length (remove k m) ≤ length m
  unfolding remove
  length-remove-le k [] = omega arith
  length-remove-le k ((j, v) ∷ m) = ground (arith, length-remove-le k m)

  -- Removing a key that is there makes the map smaller.
  pub length-remove :
      (k : ℕ) (v : V) (m : Tree V) → get k m ≡ some v → length (remove k m) < length m
  unfolding get remove
  length-remove k v [] h = cc
  length-remove k v ((j, w) ∷ m) h = ground (arith, length-remove k v m, length-remove-le k m)

  -- The entries at `k` or above.
  pub above : ℕ → Tree V → ℕ
  above k [] = 0
  above k ((j, v) ∷ m) = (if leb k j then 1 else 0) + above k m

  pub above-le-length : (k : ℕ) (m : Tree V) → above k m ≤ length m
  unfolding above
  above-le-length k [] = omega arith
  above-le-length k ((j, v) ∷ m) = ground (arith, above-le-length k m)

  pub above_mono : (k : ℕ) (m : Tree V) → above (k + 1) m ≤ above k m
  unfolding above
  above_mono k [] = omega arith
  above_mono k ((j, v) ∷ m) = ground (arith, above_mono k m)

  pub above_less : (k : ℕ) (v : V) (m : Tree V) → get k m ≡ some v → above (k + 1) m < above k m
  unfolding get above
  above_less k v [] h = cc
  above_less k v ((j, w) ∷ m) h = ground (arith, above_less k v m, above_mono k m)

  -- A measure of the values, summed over the entries.
  pub total_of : (V → ℕ) → Tree V → ℕ
  total_of f [] = 0
  total_of f ((j, v) ∷ m) = f v + total_of f m

  pub total_of-insert :
      (f : V → ℕ) (k : ℕ) (v : V) (m : Tree V)
      → get k m ≡ none
      → total_of f (insert k v m) ≡ f v + total_of f m
  unfolding get insert total_of
  total_of-insert f k v [] h = refl
  total_of-insert f k v ((j, w) ∷ m) h = ground (arith, total_of-insert f k v m)

  -- No key stands twice.
  abbrev pub IsMap : Tree V → Type ℓ
  IsMap [] = Unit
  IsMap ((j, v) ∷ m) = (get j m ≡ none) × IsMap m

  pub insert-IsMap : (k : ℕ) (v : V) (m : Tree V) → IsMap m → IsMap (insert k v m)
  unfolding get insert
  insert-IsMap k v [] h = (refl, tt)
  insert-IsMap k v ((j, w) ∷ m) h = elim (Bool-cases (j == k)) [
    | inl e ↦ rw e (rw ((==_iff j k).0 e) at h.0, h.1)
    | inr ne ↦ rw ne (absent ne, insert-IsMap k v m h.1)
  ]
    where
      absent : (j == k) ≡ false → get j (insert k v m) ≡ none
      absent ne = ground (arith, get-insert k j v m, h.0)

  pub remove-IsMap : (k : ℕ) (m : Tree V) → IsMap m → IsMap (remove k m)
  unfolding remove
  remove-IsMap k [] h = tt
  remove-IsMap k ((j, v) ∷ m) h = elim (Bool-cases (j == k)) [
    | inl e ↦ rw e (remove-IsMap k m h.1)
    | inr ne ↦ rw ne (absent, remove-IsMap k m h.1)
  ]
    where
      absent : get j (remove k m) ≡ none
      absent = ground (arith, get-remove k j m, h.0)

  pub remove_absent : (k : ℕ) (m : Tree V) → get k m ≡ none → remove k m ≡ m
  unfolding get remove
  remove_absent k [] h = refl
  remove_absent k ((j, v) ∷ m) h = ground (arith, remove_absent k m)

  pub total_of-remove :
      (f : V → ℕ) (k : ℕ) (v : V) (m : Tree V)
      → IsMap m
      → get k m ≡ some v
      → f v + total_of f (remove k m) ≡ total_of f m
  unfolding get remove total_of
  total_of-remove f k v [] w h = cc
  total_of-remove f k v ((j, x) ∷ m) w h =
      ground (arith, w.0, total_of-remove f k v m w.1, ap (total_of f) (remove_absent j m w.0))

  pub get-nil : (k : ℕ) → get k [] ≡ none
  unfolding get
  get-nil k = refl

  pub total_of-nil : (f : V → ℕ) → total_of f [] ≡ 0
  unfolding total_of
  total_of-nil f = refl
