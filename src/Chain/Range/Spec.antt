-- ===== src/Chain/Range/Spec.antt =====
-- The layout of a packed range, written directly: the offset table and the framed records.
use ztreamer.Prelude.{
  ℕ, suc, ◌+◌, ◌*◌, ◌≡◌, refl, ap, List, [], ◌∷◌, ◌++◌, arith, length, length-append, Bytes, ok,
}
use ztreamer.Chain.Endian.{be_bytes, length-be_bytes}
use ztreamer.Chain.Range.{RangeRecord}

-- A record behind its length.
unfoldable pub frame : Bytes → Bytes
frame encoding = be_bytes 4 (length encoding) ++ encoding

unfoldable pub body : List Bytes → Bytes
body [] = []
body (e ∷ es) = frame e ++ body es

-- Where each record starts, from `at` on, and where the last one ends.
unfoldable pub table : ℕ → List Bytes → Bytes
table at [] = be_bytes 4 at
table at (e ∷ es) = be_bytes 4 at ++ table (at + length (frame e)) es

-- The encodings of the records, one for each.
abbrev pub Encodes : {R : Type 0} → RangeRecord R → List R → List Bytes → Type 0
Encodes trait [] [] = Unit
Encodes trait [] (e ∷ es) = ⊥
Encodes trait (r ∷ rs) [] = ⊥
Encodes trait (r ∷ rs) (e ∷ es) = (trait.write_to r ≡ ok e) × Encodes trait rs es

pub length-frame : (e : Bytes) → length (frame e) ≡ 4 + length e
unfolding frame
length-frame e =
    omega (arith, length-append (be_bytes 4 (length e)) e, length-be_bytes 4 (length e))

pub length-body :
    (e : Bytes) (es : List Bytes) → length (body (e ∷ es)) ≡ length (frame e) + length (body es)
unfolding body
length-body e es = length-append (frame e) (body es)

pub length-table : (at : ℕ) (es : List Bytes) → length (table at es) ≡ 4 * (length es + 1)
unfolding table
length-table at [] = omega (arith, length-be_bytes 4 at)
length-table at (e ∷ es) = omega (
  arith,
  length-append (be_bytes 4 at) (table (at + length (frame e)) es),
  length-be_bytes 4 at,
  length-table (at + length (frame e)) es,
)

pub length-Encodes :
    {R : Type 0} (trait : RangeRecord R) (rs : List R) (es : List Bytes)
    → Encodes trait rs es
    → length rs ≡ length es
length-Encodes trait [] [] h = refl
length-Encodes trait [] (e ∷ es) h = absurd h
length-Encodes trait (r ∷ rs) [] h = absurd h
length-Encodes trait (r ∷ rs) (e ∷ es) h = ap suc (length-Encodes trait rs es h.1)
