-- ===== src/Chain/Parser/Reads.antt =====
-- Reads that stay inside their value and only move forward, and what they return.
use ztreamer.Prelude.{
  ℕ, zero, suc, ◌≤◌, ◌≡◌, refl, sym, ap, ◌∙◌, Bool, true, false, inl, inr, [], ◌∷◌, arith, ltb, leb,
  ◌==◌, if◌then◌else◌, length, All, Result, ok, err, ok_or, map_err, >>=-eq-ok, Bool-cases,
  usize_max, word_mul,
}
use ztreamer.Chain.Cursor.{Reader, Read, ◌>>=ᵣ◌, bind_inv, pure, fail, take_inv}
use ztreamer.Chain.Endian.{from_le}
use ztreamer.Chain.Parser.Input.{
  truncated, length_limit, Parse, take_bytes, skip, take_array, le_u32, canonical, compact_value,
  compact_size, read_vector_count, skip_items, ensure_items, version_group, times, repeat,
}

-- The reader `s` is `r` or stands after it in the same value, not past its end.
pub record Follows (r s : Reader) : Type 0 where
  pub same : s.bytes ≡ r.bytes
  pub forward : r.offset ≤ s.offset
  pub within : s.offset ≤ length r.bytes

-- From a reader that is not past its end, what `m` returns has `P`, and the reader after it follows.
pub record Reads {ℓ κ} {E : Type 0} {A : Type ℓ} (m : Read E A) (P : A → Type κ)
    : Type (ℓ ⊔ κ) where
  pub run :
      (r : Reader) (a : A) (s : Reader)
      → r.offset ≤ length r.bytes
      → m r ≡ ok (a, s)
      → Follows r s × P a

abbrev pub Anything {ℓ} : {A : Type ℓ} → A → Type 0
Anything a = Unit

pub Follows-within : (r s : Reader) → Follows r s → s.offset ≤ length s.bytes
Follows-within r s p = omega (arith, p.within, ap length p.same)

pub Follows-trans : (r s t : Reader) → Follows r s → Follows s t → Follows r t
Follows-trans r s t p q = record {
  same = q.same ∙ p.same;
  forward = omega (arith, p.forward, q.forward);
  within = omega (arith, q.within, ap length p.same);
}

module _ {ℓ κ} {E : Type 0} {A : Type ℓ} {P : A → Type κ} where
  pub Reads-bind {ι μ} :
      {B : Type ι} {Q : B → Type μ} (m : Read E A) (f : A → Read E B)
      → Reads m P
      → ((a : A) → P a → Reads (f a) Q)
      → Reads (m >>=ᵣ f) Q
  Reads-bind m f hm hf = record {
    run = λ r b t within h.
        let (a, s, first, second) = bind_inv m f r h in
        let (p, holds) = hm.run r a s within first in
        let (q, holds') =
          (hf a holds).run s b t (omega (arith, p.within, ap length p.same)) second in
        (Follows-trans r s t p q, holds');
  }

  pub Reads-pure : (a : A) → P a → Reads {E = E} (pure a) P
  Reads-pure a holds = record { run = λ r b s within h. result r b s within h }
    where
      result :
          (r : Reader) (b : A) (s : Reader)
          → r.offset ≤ length r.bytes
          → pure {E = E} a r ≡ ok (b, s)
          → Follows r s × P b
      result r b s within h =
          let first : a ≡ b = cc in
          let second : r ≡ s = cc in
          rw (sym first, sym second)
            (record { same = refl; forward = omega arith; within = within }, holds)

  pub Reads-fail : (e : E) → Reads (fail e) P
  Reads-fail e = record { run = λ r a s within h. cc }

  pub Reads-if : (b : Bool) (m n : Read E A) → Reads m P → Reads n P → Reads (if b then m else n) P
  Reads-if true m n hm hn = hm
  Reads-if false m n hm hn = hn

pub map_err_inv {ℓ} :
    {E F : Type 0} {A : Type ℓ} (f : E → F) (x : Result E A) {a : A} → map_err f x ≡ ok a → x ≡ ok a
map_err_inv f (ok b) h = cc
map_err_inv f (err e) h = cc

-- An error may be given another form.
pub map_err-Reads {ℓ κ} :
    {E F : Type 0} {A : Type ℓ} {P : A → Type κ} (f : E → F) (m : Read E A)
    → Reads m P
    → Reads (λ r. map_err f (m r)) P
map_err-Reads f m h = record { run = λ r a s within e. h.run r a s within (map_err_inv f (m r) e) }

pub take_bytes-Reads : (n : ℕ) → Reads (take_bytes n) (λ xs. length xs ≡ n)
unfolding take_bytes
take_bytes-Reads n = record {
  run = λ r xs s within h.
      let (moved, inside, value, count) = take_inv length_limit truncated r n xs s h in
      (rw moved (record { same = refl; forward = omega arith; within = inside }), count);
}

pub skip-Reads : (n : ℕ) → Reads (skip n) Anything
unfolding skip
skip-Reads n = Reads-bind (take_bytes n) _ (take_bytes-Reads n) (λ xs h. Reads-pure tt tt)

pub take_array-Reads : (n : ℕ) → Reads (take_array n) (λ xs. length xs ≡ n)
unfolding take_array
take_array-Reads n = take_bytes-Reads n

pub le_u32-Reads : Reads le_u32 Anything
unfolding le_u32
le_u32-Reads = Reads-bind (take_array 4) _ (take_array-Reads 4) (λ b h. Reads-pure (from_le b) tt)

canonical-Reads : (start least value : ℕ) → Reads (canonical start least value) Anything
unfolding canonical
canonical-Reads start least value =
    Reads-if (ltb value least) _ _ (Reads-fail _) (Reads-pure value tt)

compact_value-Reads : (start first : ℕ) → Reads (compact_value start first) Anything
unfolding compact_value
compact_value-Reads start first = Reads-if (ltb first 253) _ _ (Reads-pure first tt) (
    Reads-if (first == 253) _ _
      (Reads-bind (take_array 2) _ (take_array-Reads 2)
        (λ b h. canonical-Reads start 253 (from_le b)))
      (Reads-if (first == 254) _ _
        (Reads-bind le_u32 _ le_u32-Reads (λ value h. canonical-Reads start 0x1_0000 value))
        (Reads-bind (take_array 8) _ (take_array-Reads 8)
          (λ b h. canonical-Reads start 0x1_0000_0000 (from_le b)))))

-- A compact size is within the limit that it is read with.
pub compact_size-Reads : (max : ℕ) → Reads (compact_size max) (λ n. n ≤ max)
unfolding compact_size
compact_size-Reads max = record { run = λ r a s within h. (at r.offset).run r a s within h }
  where
    limited :
        (start value : ℕ)
        → Reads (if leb value max then pure value else fail (length_limit start)) (λ n. n ≤ max)
    limited start value = elim (Bool-cases (leb value max)) [
      | inl fits ↦ rw fits (Reads-pure value (ground (arith, fits)))
      | inr over ↦ rw over (Reads-fail (length_limit start))
    ]

    at :
        (start : ℕ)
        → Reads
            (take_array 1 >>=ᵣ λ first. compact_value start (from_le first) >>=ᵣ λ value.
              if leb value max then pure value else fail (length_limit start))
            (λ n. n ≤ max)
    at start = Reads-bind (take_array 1) _ (take_array-Reads 1) (λ first h.
        Reads-bind (compact_value start (from_le first)) _
          (compact_value-Reads start (from_le first)) (λ value k. limited start value))

pub read_vector_count-Reads : Reads read_vector_count (λ n. n ≤ 65_535)
unfolding read_vector_count
read_vector_count-Reads = compact_size-Reads 65_535

pub skip_items-Reads : (count size : ℕ) → Reads (skip_items count size) Anything
unfolding skip_items
skip_items-Reads count size = record {
  run = λ r a s within h.
      let (bytes, fits, skipped) =
        >>=-eq-ok (ok_or (word_mul usize_max count size) (length_limit r.offset))
          (λ bytes. skip bytes r) h in
      (skip-Reads bytes).run r a s within skipped;
}

pub ensure_items-Reads : (count size : ℕ) → Reads (ensure_items count size) Anything
unfolding ensure_items
ensure_items-Reads count size = record {
  run = λ r a s within h.
      let same : r ≡ s = ground (arith, h) in
      (rw (sym same) (record { same = refl; forward = omega arith; within = within }), tt);
}

pub version_group-Reads : (expected : ℕ) → Reads (version_group expected) Anything
unfolding version_group
version_group-Reads expected =
    Reads-bind le_u32 _ le_u32-Reads
      (λ actual h. Reads-if (actual == expected) _ _ (Reads-pure tt tt) (Reads-fail _))

pub times-Reads {ℓ κ} :
    {A : Type ℓ} {P : A → Type κ} (count : ℕ) (item : Parse A)
    → Reads item P
    → Reads (times count item) (λ xs. All P xs × (length xs ≡ count))
unfolding times
times-Reads zero item h = Reads-pure [] (tt, refl)
times-Reads (suc count) item h = Reads-bind item _ h (λ x p.
    Reads-bind (times count item) _ (times-Reads count item h)
      (λ xs q. Reads-pure (x ∷ xs) ((p, q.0), omega (arith, q.1))))

pub repeat-Reads :
    (count : ℕ) (turn : Parse (Unit {0})) → Reads turn Anything → Reads (repeat count turn) Anything
unfolding repeat
repeat-Reads zero turn h = Reads-pure tt tt
repeat-Reads (suc count) turn h = Reads-bind turn _ h (λ done p. repeat-Reads count turn h)
