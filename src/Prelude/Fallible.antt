-- ===== src/Prelude/Fallible.antt =====
-- Fallible code: `Result` with its `do` blocks, and the passage from `Option`.
use mathlib.Core.Path.{◌≡◌, refl, sym, ap, ◌∙◌}
use mathlib.Core.Logic.{◌⊎◌, inl, inr}
use mathlib.Core.Bool.{Bool, true, false}
use mathlib.Core.Option.{Option, none, some}
use mathlib.Core.List.{List, [], ◌∷◌, ◌++◌, map}
use ztreamer.Prelude.Tests.{if◌then◌else◌}
use ztreamer.Prelude.Lists.{All, flatten}

pub data Result {ℓ} (E : Type 0) (A : Type ℓ) : Type ℓ where
  ok : A → Result E A
  err : E → Result E A

infixl 5 ◌>>=◌ ◌>>◌
abbrev pub ◌>>=◌ {ℓ κ} :
    {E : Type 0} {A : Type ℓ} {B : Type κ} → Result E A → (A → Result E B) → Result E B
err failure >>= step = err failure
ok value >>= step = step value

abbrev pub ok_or {ℓ} : {E : Type 0} {A : Type ℓ} → Option A → E → Result E A
ok_or none e = err e
ok_or (some a) e = ok a

abbrev pub map_err {ℓ} : {E F : Type 0} {A : Type ℓ} → (E → F) → Result E A → Result F A
map_err f (ok a) = ok a
map_err f (err e) = err (f e)

abbrev pub ◌>>◌ {κ} : {E : Type 0} {C : Type κ} → Result E (Unit {0}) → Result E C → Result E C
first >> rest = first >>= λ done. rest

abbrev pub option_bind {ℓ κ} : {A : Type ℓ} {B : Type κ} → Option A → (A → Option B) → Option B
option_bind none f = none
option_bind (some a) f = f a

-- `collect` of an iterator of results: the first error ends it.
unfoldable pub try_map {ℓ κ} :
    {E : Type 0} {A : Type ℓ} {B : Type κ} → (A → Result E B) → List A → Result E (List B)
try_map f [] = ok []
try_map f (x ∷ xs) = let rest = try_map f xs in do y ← f x; ys ← rest; ok (y ∷ ys)

-- `try_for_each` over a state: the first error ends it.
unfoldable pub try_fold {ℓ κ} :
    {E : Type 0} {S : Type ℓ} {A : Type κ} → (S → A → Result E S) → S → List A → Result E S
try_fold f s [] = ok s
try_fold f s (x ∷ xs) = f s x >>= λ s'. try_fold f s' xs

-- Where two steps succeed, the first one does.
pub >>=-eq-ok {ℓ κ} :
    {E : Type 0} {A : Type ℓ} {B : Type κ} {result : B} (first : Result E A)
    (after : A → Result E B)
    → (first >>= after) ≡ ok result
    → (middle : A) × (first ≡ ok middle) × (after middle ≡ ok result)
>>=-eq-ok (err failure) after ran = cc
>>=-eq-ok (ok middle) after ran = (middle, refl, ran)

pub ok_inj {ℓ} : {E : Type 0} {A : Type ℓ} (a b : A) → ◌≡◌ {A = Result E A} (ok a) (ok b) → a ≡ b
ok_inj a b h = cc h

pub pair_inj {ℓ κ} :
    {A : Type ℓ} {B : Type κ} (a b : A) (x y : B)
    → ◌≡◌ {A = A × B} (a, x) (b, y)
    → (a ≡ b) × (x ≡ y)
pair_inj a b x y h = (ap (λ p. p.0) h, ap (λ p. p.1) h)

pub try_map-nil {ℓ κ} :
    {E : Type 0} {A : Type ℓ} {B : Type κ} (f : A → Result E B) {ys : List B}
    → try_map f [] ≡ ok ys
    → [] ≡ ys
unfolding try_map
try_map-nil f h = cc h

pub try_map-cons {ℓ κ} :
    {E : Type 0} {A : Type ℓ} {B : Type κ} (f : A → Result E B) (x : A) (xs : List A) {ys : List B}
    → try_map f (x ∷ xs) ≡ ok ys
    → (z : B) × (zs : List B) × (f x ≡ ok z) × (try_map f xs ≡ ok zs) × (z ∷ zs ≡ ys)
unfolding try_map
try_map-cons f x xs h =
    let (z, first, h₁) = >>=-eq-ok (f x) _ h in
    let (zs, second, h₂) = >>=-eq-ok (try_map f xs) _ h₁ in (z, zs, first, second, cc h₂)

pub try_map-map {ℓ κ} :
    {E : Type 0} {A : Type ℓ} {B : Type κ} (f : B → Result E A) (g : A → B) (xs : List A)
    → All (λ x. f (g x) ≡ ok x) xs
    → try_map f (map g xs) ≡ ok xs
unfolding try_map
try_map-map f g [] h = refl
try_map-map f g (x ∷ xs) h = rw (h.0, try_map-map f g xs h.1)

-- A step that succeeds is passed over.
pub ok-step {ℓ κ} :
    {E : Type 0} {A : Type ℓ} {B : Type κ} (f : A → Result E B) {m : Result E A} {a : A}
    → m ≡ ok a
    → (m >>= f) ≡ f a
ok-step f e = ap (λ x. x >>= f) e

pub Result-cases {ℓ} :
    {E : Type 0} {A : Type ℓ} (r : Result E A) → ((a : A) × (r ≡ ok a)) ⊎ ((e : E) × (r ≡ err e))
Result-cases (ok a) = inl (a, refl)
Result-cases (err e) = inr (e, refl)

module _ {ℓ κ} {E : Type 0} {A : Type ℓ} {B : Type κ} (f : A → Result E B) where
  abbrev append_result : Result E (List B) → Result E (List B) → Result E (List B)
  append_result m n = m >>= λ xs. n >>= λ ys. ok (xs ++ ys)

  cons_result :
      (y : B) (m n : Result E (List B))
      → append_result (m >>= λ ys. ok (y ∷ ys)) n ≡ (append_result m n >>= λ ys. ok (y ∷ ys))
  cons_result y (ok xs) (ok ys) = refl
  cons_result y (ok xs) (err e) = refl
  cons_result y (err e) n = refl

  nil_result : (n : Result E (List B)) → append_result (ok []) n ≡ n
  nil_result (ok ys) = refl
  nil_result (err e) = refl

  cons_step :
      (x : A) (m n : Result E (List B))
      → (f x >>= λ y. append_result m n >>= λ ys. ok (y ∷ ys))
        ≡ append_result (f x >>= λ y. m >>= λ ys. ok (y ∷ ys)) n
  cons_step x m n = go (f x)
    where
      go :
          (r : Result E B)
          → (r >>= λ y. append_result m n >>= λ ys. ok (y ∷ ys))
            ≡ append_result (r >>= λ y. m >>= λ ys. ok (y ∷ ys)) n
      go (ok y) = sym (cons_result y m n)
      go (err e) = refl

  -- The first error of two parts is the first error of the whole.
  pub try_map-append :
      (xs ys : List A)
      → try_map f (xs ++ ys)
        ≡ (try_map f xs >>= λ front. try_map f ys >>= λ back. ok (front ++ back))
  unfolding try_map
  try_map-append [] ys = sym (nil_result (try_map f ys))
  try_map-append (x ∷ xs) ys =
      ap (λ m. f x >>= λ y. m >>= λ zs. ok (y ∷ zs)) (try_map-append xs ys)
      ∙ cons_step x (try_map f xs) (try_map f ys)

  flatten_step :
      (m : Result E (List B)) (n : Result E (List (List B)))
      → append_result m (n >>= λ parts. ok (flatten parts))
        ≡ ((m >>= λ y. n >>= λ ys. ok (y ∷ ys)) >>= λ parts. ok (flatten parts))
  flatten_step (ok xs) (ok xss) = refl
  flatten_step (ok xs) (err e) = refl
  flatten_step (err e) n = refl

  -- The parts may be mapped one after the other.
  pub try_map-flatten :
      (xss : List (List A))
      → try_map f (flatten xss) ≡ (try_map (try_map f) xss >>= λ parts. ok (flatten parts))
  unfolding try_map
  try_map-flatten [] = refl
  try_map-flatten (xs ∷ xss) =
      try_map-append xs (flatten xss)
      ∙ ap (append_result (try_map f xs)) (try_map-flatten xss)
      ∙ flatten_step (try_map f xs) (try_map (try_map f) xss)

-- Behind a check that did not fail.
pub guard_inv {ℓ} :
    {E : Type 0} {A : Type ℓ} (b : Bool) (e : E) (m : Result E A) {a : A}
    → (if b then err e else m) ≡ ok a
    → (b ≡ false) × (m ≡ ok a)
guard_inv true e m h = cc
guard_inv false e m h = (refl, h)

-- Either branch of a test that gave a result.
pub if_inv {ℓ} :
    {E : Type 0} {A : Type ℓ} (b : Bool) (m n : Result E A) {a : A}
    → (if b then m else n) ≡ ok a
    → ((b ≡ true) × (m ≡ ok a)) ⊎ ((b ≡ false) × (n ≡ ok a))
if_inv true m n h = inl (refl, h)
if_inv false m n h = inr (refl, h)

-- What follows a step matters at the value that the step gives only.
pub >>=-cong {ℓ κ} :
    {E : Type 0} {A : Type ℓ} {B : Type κ} (m : Result E A) (f g : A → Result E B)
    → ((a : A) → m ≡ ok a → f a ≡ g a)
    → (m >>= f) ≡ (m >>= g)
>>=-cong (ok a) f g h = h a refl
>>=-cong (err e) f g h = refl
