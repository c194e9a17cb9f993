-- ===== src/Chain/Prints.antt =====
-- A read that undoes a write: before the written bytes it returns the value and stands behind them.
use mathlib.Core.List.{append_assoc}
use ztreamer.Prelude.{
  ℕ, ◌+◌, ◌≤◌, ◌<◌, ◌≡◌, refl, sym, ap, ◌∙◌, Bool, true, false, Option, none, some, List, [], ◌∷◌,
  ◌++◌, arith, length, length-append, All, Bytes, ok, option_bind, u32_max, u64_max,
}
use mathlib.Core.Path.{subst}
use ztreamer.Chain.Types.{CodecError}
use ztreamer.Chain.Endian.{le_bytes, be_bytes, length-be_bytes}
use ztreamer.Chain.Cursor.{Reader, Read, ◌>>=ᵣ◌, pure, bind_step, Rests, advance, advance-Rests}
use ztreamer.Chain.Codec.{
  array, read_u8, read_u16, read_u32, read_u64, read_count, read_bytes, take_len, take_bool,
  put_count, put_bytes, read_items, put_items, of_bool, array_prefix, u8_prefix, u16_prefix,
  u32_prefix, u64_prefix,
}

module _ {ℓ} {A : Type ℓ} where
  pub record Prints (m : Read CodecError A) (written : Bytes) (a : A) : Type ℓ where
    pub run :
        (r : Reader) (rest : Bytes)
        → Rests r (written ++ rest)
        → m r ≡ ok (a, advance r (length written))

  pub pure-Prints : (a : A) → Prints (pure a) [] a
  pure-Prints a = record {
    run = λ r rest h. ap (λ n. ok (a, record { bytes = r.bytes; offset = n })) (omega arith);
  }

module _ {ℓ κ} {A : Type ℓ} {B : Type κ} where
  pub bind-Prints :
      (m : Read CodecError A) (f : A → Read CodecError B) {x y : Bytes} {a : A} {b : B}
      → Prints m x a
      → Prints (f a) y b
      → Prints (m >>=ᵣ f) (x ++ y) b
  bind-Prints m f {x} {y} {a} {b} first second = record {
    run = λ r rest h.
        let inner : Rests r (x ++ (y ++ rest)) = rw (append_assoc x y rest) at h in
        bind_step m f r (first.run r (y ++ rest) inner)
        ∙ second.run (advance r (length x)) rest
            (advance-Rests r x (y ++ rest) (length x) refl inner)
        ∙ ap (λ n. ok (b, record { bytes = r.bytes; offset = n }))
            (omega (arith, length-append x y));
  }

  pub map-Prints :
      (m : Read CodecError A) (f : A → B) {x : Bytes} {a : A}
      → Prints m x a
      → Prints (m >>=ᵣ λ v. pure (f v)) x (f a)
  map-Prints m f first = record {
    run = λ r rest h. bind_step m (λ v. pure (f v)) r (first.run r rest h);
  }

-- A last step that reads nothing.
pub then-Prints {ℓ κ} :
    {A : Type ℓ} {B : Type κ} (m : Read CodecError A) (f : A → Read CodecError B) {x : Bytes}
    {a : A} {b : B}
    → Prints m x a
    → ((r : Reader) → f a r ≡ ok (b, r))
    → Prints (m >>=ᵣ f) x b
then-Prints m f {x} first last = record {
  run = λ r rest h. bind_step m f r (first.run r rest h) ∙ last (advance r (length x));
}

-- The same for a read that ends behind the value of another.
pub exact {ℓ} :
    {A : Type ℓ} (m : Read CodecError A) {x y : Bytes} {a : A} → x ≡ y → Prints m x a → Prints m y a
exact m {x} {y} {a} e p = subst (λ z. Prints m z a) e p

moved : (r : Reader) (n k : ℕ) → n ≡ k → advance r n ≡ advance r k
moved r n k e = ap (λ i. record { bytes = r.bytes; offset = r.offset + i }) e

be_byte : (n : ℕ) → n < 256 → be_bytes 1 n ≡ n ∷ []
unfolding le_bytes
be_byte n h = ap (λ b. b ∷ []) (omega arith)

pub array-Prints : (n : ℕ) (xs : Bytes) → length xs ≡ n → Prints (array n) xs xs
array-Prints n xs e = record {
  run = λ r rest h.
      array_prefix r rest n xs (sym e) h ∙ ap (λ s. ok (xs, s)) (moved r n (length xs) (sym e));
}

pub u8-Prints : (n : ℕ) → n < 256 → Prints read_u8 (n ∷ []) n
u8-Prints n lt = record { run = λ r rest h. u8_prefix r rest n lt (rw (be_byte n lt) h) }

pub u16-Prints : (n : ℕ) → n < 65536 → Prints read_u16 (be_bytes 2 n) n
u16-Prints n lt = record {
  run = λ r rest h.
      u16_prefix r rest n lt h
      ∙ ap (λ s. ok (n, s)) (moved r 2 (length (be_bytes 2 n)) (sym (length-be_bytes 2 n)));
}

pub u32-Prints : (n : ℕ) → n ≤ u32_max → Prints read_u32 (be_bytes 4 n) n
u32-Prints n fits = record {
  run = λ r rest h.
      u32_prefix r rest n fits h
      ∙ ap (λ s. ok (n, s)) (moved r 4 (length (be_bytes 4 n)) (sym (length-be_bytes 4 n)));
}

pub u64-Prints : (n : ℕ) → n ≤ u64_max → Prints read_u64 (be_bytes 8 n) n
u64-Prints n fits = record {
  run = λ r rest h.
      u64_prefix r rest n fits h
      ∙ ap (λ s. ok (n, s)) (moved r 8 (length (be_bytes 8 n)) (sym (length-be_bytes 8 n)));
}

-- What `put_count` wrote, it wrote for a u32.
put_count_inv :
    (n : ℕ) (written : Bytes)
    → put_count n ≡ some written
    → (n ≤ u32_max) × (be_bytes 4 n ≡ written)
unfolding put_count
put_count_inv n written h = ground arith

pub count-Prints :
    (n : ℕ) (written : Bytes) → put_count n ≡ some written → Prints read_count written n
unfolding read_count
count-Prints n written h =
    let (fits, e) = put_count_inv n written h in exact read_u32 e (u32-Prints n fits)

pub option_bind_inv {ℓ κ} :
    {A : Type ℓ} {B : Type κ} (o : Option A) (f : A → Option B) {b : B}
    → option_bind o f ≡ some b
    → (a : A) × (o ≡ some a) × (f a ≡ some b)
option_bind_inv none f h = cc
option_bind_inv (some a) f h = (a, refl, h)

pub bytes-Prints :
    (value written : Bytes) → put_bytes value ≡ some written → Prints read_bytes written value
unfolding put_bytes read_bytes array
bytes-Prints value written h =
    let (head, first, e) = option_bind_inv (put_count (length value)) _ h in
    exact read_bytes (cc e) (
      bind-Prints read_count take_len (count-Prints (length value) head first)
        (array-Prints (length value) value refl))

pub bool-Prints : (b : Bool) → Prints take_bool (of_bool b ∷ []) b
unfolding take_bool
bool-Prints false = bind-Prints read_u8 _ (u8-Prints 0 (omega arith)) (pure-Prints false)
bool-Prints true = bind-Prints read_u8 _ (u8-Prints 1 (omega arith)) (pure-Prints true)

module _ {ℓ} {A : Type ℓ} (write : A → Bytes) where
  pub items-Prints :
      (item : Read CodecError A) (xs : List A)
      → All (λ x. Prints item (write x) x) xs
      → Prints (read_items (length xs) item) (put_items write xs) xs
  unfolding read_items
  items-Prints item [] h = pure-Prints []
  items-Prints item (x ∷ xs) h =
      bind-Prints item _ h.0
        (map-Prints (read_items (length xs) item) (λ ys. x ∷ ys) (items-Prints item xs h.1))
