-- ===== src/Tests/Store.antt =====
-- A concrete database for the tests: a log of its writes, the last one first.
use ztreamer.Prelude.{
  ℕ, ◌≡◌, refl, sym, ap, ◌∙◌, ok_inj, Bool, true, false, Option, none, some, List, [], ◌∷◌, leb,
  ◌==◌, if◌then◌else◌, length, Bytes, bytes_eq, Result, ok,
}
use ztreamer.Chain.Types.{Hash}
use ztreamer.Index.Error.{IndexError}
use ztreamer.Index.Tables.{Database, Heed, Tables}
use ztreamer.Index.Tables.Laws.{IsDatabase, IsHeed}

ok_if :
    {A : Type 0} (b : Bool) (x y : A)
    → ◌≡◌ {A = Result IndexError A} (ok (if b then x else y)) (if b then ok x else ok y)
ok_if true x y = refl
ok_if false x y = refl

module _ {K V : Type 0} (same : K → K → Bool) (from : K → K → Bool) where
  -- The last write of a key.
  abbrev pub lookup : List (K × Option V) → K → Option V
  lookup [] k = none
  lookup ((k, v) ∷ log) j = if same k j then v else lookup log j

  -- The writes of keys below one.
  abbrev pub below : List (K × Option V) → K → List (K × Option V)
  below [] k = []
  below ((j, v) ∷ log) k = if from k j then below log k else (j, v) ∷ below log k

  abbrev pub live : List (K × Option V) → List (K × V)
  live [] = []
  live ((k, none) ∷ log) = live log
  live ((k, some v) ∷ log) = (k, v) ∷ live log

  abbrev pub log_database : Database K V (List (K × Option V))
  log_database = record {
    get = λ log k. ok (lookup log k);
    put = λ log k v. ok ((k, some v) ∷ log);
    delete = λ log k. ok ((k, none) ∷ log);
    delete_from = λ log k. ok (below log k);
    len = λ log. ok (length (live log));
    iter = λ log. ok (live log);
  }

  log_database-IsDatabase : IsDatabase same log_database
  log_database-IsDatabase = record {
    get-put = λ t k v t' j h.
        ap (λ l. ok (lookup l j)) (sym (ok_inj _ t' h)) ∙ ok_if (same k j) (some v) (lookup t j);
    get-delete = λ t k t' j h.
        ap (λ l. ok (lookup l j)) (sym (ok_inj _ t' h)) ∙ ok_if (same k j) none (lookup t j);
  }

abbrev pub HeightLog : Type 0
HeightLog = List (ℕ × Option Bytes)

abbrev pub HashLog : Type 0
HashLog = List (Hash × Option ℕ)

abbrev pub RowLog : Type 0
RowLog = List (Bytes × Option Bytes)

abbrev pub test_heed : Heed HeightLog HashLog RowLog
test_heed = record {
  heights = log_database ◌==◌ leb;
  hashes = log_database bytes_eq bytes_eq;
  rows = log_database bytes_eq bytes_eq;
}

pub test_heed-IsHeed : IsHeed test_heed
test_heed-IsHeed = record {
  heights = log_database-IsDatabase ◌==◌ leb;
  hashes = log_database-IsDatabase bytes_eq bytes_eq;
  rows = log_database-IsDatabase bytes_eq bytes_eq;
}

abbrev pub no_tables : Tables HeightLog HashLog RowLog
no_tables = record {
  metadata = [];
  sealed_ranges = [];
  mutable_blocks = [];
  hash_to_height = [];
  range_meta = [];
}
