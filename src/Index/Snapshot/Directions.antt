-- ===== src/Index/Snapshot/Directions.antt =====
-- The heights of a read in either direction, for read_blocks of crates/index/src/index/snapshot.rs.
use mathlib.Core.Path.{subst}
use ztreamer.Prelude.{
  ℕ, suc, ◌+◌, ◌-◌, ◌%◌, ◌≤◌, ◌<◌, ◌≡◌, refl, sym, ◌⊎◌, inl, inr, Bool, true, false, Option, none,
  some, arith, ltb, leb, leb→le, leb→lt, if◌then◌else◌, Bool-cases, min, max, Bytes, Result, ok,
  err, ◌>>=◌, ok_or, u32_max,
}
use ztreamer.Chain.Types.{range_size}
use ztreamer.Chain.Range.{RangeDecoder}
use ztreamer.Index.Error.{IndexError}
use ztreamer.Index.Tables.{range_start, sealed_range_end}
use ztreamer.Index.Snapshot.{next_of, chunk_end_of}
use ztreamer.Index.Snapshot.Visited.{Reaches}

-- Where a chunk ends: inside the range, on the way to the end.
pub chunk_lem :
    (ascending : Bool) (height end n : ℕ) (d : RangeDecoder)
    → Reaches ascending height end n
    → end ≤ u32_max
    → (chunk_end : ℕ) × (k : ℕ) × (count : ℕ) × (chunk_end_of ascending end
          (record { start = range_start height; decoder = d })
        ≡ chunk_end)
      × Reaches ascending height chunk_end k
      × Reaches ascending chunk_end end count
      × (k + count ≡ n)
      × (k < range_size)
      × ((h i j : ℕ)
          → Reaches ascending height h i
          → Reaches ascending h chunk_end j
          → (range_start h ≡ range_start height) × ((h ≤ height) ⊎ (h ≤ end)))
unfolding sealed_range_end range_start
chunk_lem true height end n d reaches fits =
    let c : ℕ = min end (height - height % range_size + 999) in
    (
      c,
      c - height,
      end - c,
      omega (arith, reaches, fits),
      omega (arith, reaches),
      omega (arith, reaches),
      omega (arith, reaches),
      omega (arith, reaches),
      λ h i j from to. (omega (arith, from, to), inr (omega (arith, from, to))),
    )
chunk_lem false height end n d reaches fits =
    let c : ℕ = max end (height - height % range_size) in
    (
      c,
      height - c,
      c - end,
      refl,
      omega (arith, reaches),
      omega (arith, reaches),
      omega (arith, reaches),
      omega (arith, reaches),
      λ h i j from to. (omega (arith, from, to), inl (omega (arith, from, to))),
    )

pub in_same :
    (h height low : ℕ)
    → low % range_size ≡ 0
    → height < low
    → range_start h ≡ range_start height
    → h < low
unfolding range_start
in_same h height low aligned below same = omega (arith, aligned, below, same)

pub bounded : (h height end n : ℕ) → ((h ≤ height) ⊎ (h ≤ end)) → height < n → end < n → h < n
bounded h height end n (inl le) a b = omega arith
bounded h height end n (inr le) a b = omega arith

pub next_inside :
    (ascending : Bool) (height end n c count m len : ℕ)
    → Reaches ascending height end n
    → Reaches ascending c end count
    → count ≤ n
    → count ≡ suc m
    → height < len
    → end < len
    → next_of ascending c < len
next_inside true height end n c count m len a b le e x y = omega (arith, a, b)
next_inside false height end n c count m len a b le e x y = omega (arith, a, b)

pub no_value :
    {A B : Type 0} (o : Option A) (e : IndexError) (f : A → Result IndexError B)
    → o ≡ none
    → (ok_or o e >>= f) ≡ err e
no_value none e f h = refl
no_value (some a) e f h = absurd (cc h)

pub zero_leb : (n : ℕ) → leb 0 n ≡ true
zero_leb n = ground arith

pub ltb-leb : (a n h : ℕ) → a ≡ n → ltb a h ≡ leb (suc n) h
ltb-leb a n h e = ground (arith, e)

pub direction : (start end : ℕ) → Reaches (leb start end) start end (max start end - min start end)
direction start end = elim (Bool-cases (leb start end)) [
  | inl le ↦
      subst (λ b. Reaches b start end (max start end - min start end)) (sym le)
        (omega (arith, leb→le start end le))
  | inr gt ↦
      subst (λ b. Reaches b start end (max start end - min start end)) (sym gt)
        (omega (arith, leb→lt start end gt))
]

-- Two refusals by the same tests, and the same result behind them.
pub tests :
    {A : Type 0} (a a' b b' : Bool) (x y u v : A)
    → a ≡ a'
    → b ≡ b'
    → (a' ≡ false → b' ≡ false → u ≡ v)
    → (if a then x else if b then y else u) ≡ (if a' then x else if b' then y else v)
tests true true b b' x y u v p q h = refl
tests true false b b' x y u v p q h = absurd (cc p)
tests false true b b' x y u v p q h = absurd (cc p)
tests false false true true x y u v p q h = refl
tests false false true false x y u v p q h = absurd (cc q)
tests false false false true x y u v p q h = absurd (cc q)
tests false false false false x y u v p q h = h refl refl

pub if_true : {A : Type 0} (b : Bool) (x y : A) → b ≡ true → (if b then x else y) ≡ x
if_true true x y h = refl
if_true false x y h = absurd (cc h)

pub if_false : {A : Type 0} (b : Bool) (x y : A) → b ≡ false → (if b then x else y) ≡ y
if_false true x y h = absurd (cc h)
if_false false x y h = refl

pub some_ok :
    (a b : Bytes) → ◌≡◌ {A = Result IndexError (Option Bytes)} (ok (some a)) (ok (some b)) → a ≡ b
some_ok a b h = cc h
