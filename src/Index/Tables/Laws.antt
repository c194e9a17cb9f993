-- ===== src/Index/Tables/Laws.antt =====
-- What the index relies on of heed's databases: what a write and a delete do to a later read.
use ztreamer.Prelude.{
  ℕ, ◌≡◌, refl, ◌∙◌, ◌≢◌, inl, inr, Bool, false, none, some, ◌==◌, if◌then◌else◌, Bool-cases,
  ==_iff, bytes_eq, ok,
}
use ztreamer.Index.Tables.{Database, Heed}

-- A database whose keys `same` compares.
pub record IsDatabase {K V T : Type 0} (same : K → K → Bool) (db : Database K V T) : Type 0 where
  pub get-put :
      (t : T) (k : K) (v : V) (t' : T) (j : K)
      → db.put t k v ≡ ok t'
      → db.get t' j ≡ (if same k j then ok (some v) else db.get t j)
  pub get-delete :
      (t : T) (k : K) (t' : T) (j : K)
      → db.delete t k ≡ ok t'
      → db.get t' j ≡ (if same k j then ok none else db.get t j)

pub record IsHeed {T H M : Type 0} (lmdb : Heed T H M) : Type 0 where
  pub heights : IsDatabase ◌==◌ lmdb.heights
  pub hashes : IsDatabase bytes_eq lmdb.hashes
  pub rows : IsDatabase bytes_eq lmdb.rows

ne-== : (a b : ℕ) → a ≢ b → (a == b) ≡ false
ne-== a b h = elim (Bool-cases (a == b)) [ inl e ↦ absurd (h ((==_iff a b).0 e)) | inr ne ↦ ne ]

module _ {V T : Type 0} (db : Database ℕ V T) (laws : IsDatabase ◌==◌ db) where
  pub put_same : (t : T) (k : ℕ) (v : V) (t' : T) → db.put t k v ≡ ok t' → db.get t' k ≡ ok (some v)
  put_same t k v t' h = laws.get-put t k v t' k h ∙ rw ((==_iff k k).1 refl) refl

  pub put_other :
      (t : T) (k : ℕ) (v : V) (t' : T) (j : ℕ)
      → db.put t k v ≡ ok t'
      → k ≢ j
      → db.get t' j ≡ db.get t j
  put_other t k v t' j h ne = laws.get-put t k v t' j h ∙ rw (ne-== k j ne) refl

  pub delete_other :
      (t : T) (k : ℕ) (t' : T) (j : ℕ) → db.delete t k ≡ ok t' → k ≢ j → db.get t' j ≡ db.get t j
  delete_other t k t' j h ne = laws.get-delete t k t' j h ∙ rw (ne-== k j ne) refl
