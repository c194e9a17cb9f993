-- ===== src/Chain/Range/Links.antt =====
-- The records of one aligned range: what write_range checks of their heights and links.
use ztreamer.Prelude.{
  ℕ, zero, suc, ◌+◌, ◌%◌, ◌≤◌, ◌≡◌, ap, ◌∙◌, true, some, List, [], ◌∷◌, ◌++◌, arith, ◌==◌, length,
  get_elem?, All, length-append, Bytes, bytes_eq_iff, ok, ok_or, ok-step, u32_max, usize_max,
  word_mul,
}
use mathlib.Core.List.{append-nil}
use native.Mathlib.Numerals.{add-one}
use ztreamer.Chain.Types.{Hash, CompactBlockRecord, bad_length, range_size}
use ztreamer.Chain.Endian.{length-be_bytes}
use ztreamer.Chain.Codec.{put_u32}
use ztreamer.Chain.Message.RoundTrip.{IsDigest}
use ztreamer.Chain.Record.{Prost}
use ztreamer.Chain.Range.{
  of_records, check_links, write_records, range_head, zero_words, write_range, encode_range,
  is_next,
}
use ztreamer.Chain.Range.Spec.{body, table, Encodes}
use ztreamer.Chain.Range.Encode.{write_records-layout}

-- `rs` continue the chain after the block at `height` with `hash`.
abbrev pub Continues : ℕ → Hash → List CompactBlockRecord → Type 0
Continues height hash [] = Unit
Continues height hash (r ∷ rs) =
    (r.height ≡ height + 1) × (r.previous_hash ≡ hash) × Continues r.height r.hash rs

abbrev pub last_hash : Hash → List CompactBlockRecord → Hash
last_hash hash [] = hash
last_hash hash (r ∷ rs) = last_hash r.hash rs

-- A range of 1,000 linked records from a multiple of 1,000 on.
pub record IsRange (first : CompactBlockRecord) (rest : List CompactBlockRecord) : Type 0 where
  pub count : length rest ≡ 999
  pub aligned : first.height % range_size ≡ 0
  pub fits : first.height + 999 ≤ u32_max
  pub linked : Continues first.height first.hash rest

is_next_lem : (last height : ℕ) → height ≡ last + 1 → height ≤ u32_max → is_next last height ≡ true
unfolding is_next
is_next_lem last height e h = ground arith

module _ (prost : Prost) where
  pub check_links-Continues :
      (height : ℕ) (hash : Hash) (rs : List CompactBlockRecord)
      → Continues height hash rs
      → height + length rs ≤ u32_max
      → check_links (of_records prost) height hash rs ≡ ok (height + length rs, last_hash hash rs)
  unfolding check_links of_records
  check_links-Continues height hash [] c fits = ap (λ n. ok (n, hash)) (omega arith)
  check_links-Continues height hash (r ∷ rs) c fits =
      rw
        (
          is_next_lem height r.height c.0 (omega (arith, c.0)),
          (bytes_eq_iff r.previous_hash hash).1 c.1,
          check_links-Continues r.height r.hash rs c.2 (omega (arith, c.0)),
        )
        (ap (λ n. ok (n, last_hash r.hash rs)) (omega (arith, c.0)))

pub offsets_len_lem :
    (n : ℕ) → n ≡ 999 → ok_or (word_mul usize_max (suc n + 1) 4) bad_length ≡ ok 4004
offsets_len_lem n h = ground arith

-- The record at a place of the range, from the chain.
pub Continues-height :
    (height : ℕ) (hash : Hash) (rs : List CompactBlockRecord) (i : ℕ) (r : CompactBlockRecord)
    → Continues height hash rs
    → get_elem? rs i ≡ some r
    → r.height ≡ height + 1 + i
Continues-height height hash [] i r c e = cc
Continues-height height hash (x ∷ xs) zero r c e = ground (arith, c.0)
Continues-height height hash (x ∷ xs) (suc i) r c e =
    omega (arith, c.0, Continues-height x.height x.hash xs i r c.2 e)

pub last_hash-get_elem? :
    (hash : Hash) (rs : List CompactBlockRecord) (i : ℕ) (r : CompactBlockRecord)
    → get_elem? rs i ≡ some r
    → i + 1 ≡ length rs
    → r.hash ≡ last_hash hash rs
last_hash-get_elem? hash [] i r e n = cc
last_hash-get_elem? hash (x ∷ []) zero r e n = ground arith
last_hash-get_elem? hash (x ∷ y ∷ ys) zero r e n = absurd (omega arith)
last_hash-get_elem? hash (x ∷ xs) (suc i) r e n = last_hash-get_elem? x.hash xs i r e (omega arith)

pub last_hash-length :
    (hash : Hash) (rs : List CompactBlockRecord)
    → length hash ≡ 32
    → All (λ r. IsDigest r.hash) rs
    → length (last_hash hash rs) ≡ 32
last_hash-length hash [] h a = h
last_hash-length hash (r ∷ rs) h a = last_hash-length r.hash rs a.0 a.1

module _ (prost : Prost) (first : CompactBlockRecord) (rest : List CompactBlockRecord) where
  -- The bytes of a range, written directly.
  unfoldable pub layout : List Bytes → Bytes
  unfolding range_head
  layout es =
      range_head first.height (first.height + 999) first.previous_hash (last_hash first.hash rest)
      ++ (table 0 es ++ body es)

  pub length-head :
      IsDigest first.previous_hash
      → length (last_hash first.hash rest) ≡ 32
      → length (
          range_head first.height
            (first.height + 999)
            first.previous_hash
            (last_hash first.hash rest))
        ≡ 73
  unfolding range_head put_u32
  length-head hp hl = omega (
    arith,
    hp,
    hl,
    length-append (put_u32 first.height)
        (put_u32 (first.height + 999) ++ (first.previous_hash ++ last_hash first.hash rest)),
    length-append (put_u32 (first.height + 999)) (first.previous_hash ++ last_hash first.hash rest),
    length-append first.previous_hash (last_hash first.hash rest),
    length-be_bytes 4 first.height,
    length-be_bytes 4 (first.height + 999),
  )

  pub links :
      IsRange first rest
      → check_links (of_records prost) first.height first.hash rest
        ≡ ok (first.height + 999, last_hash first.hash rest)
  links range = rw (← range.count) (
      check_links-Continues prost first.height first.hash rest range.linked
        (omega (arith, range.count, range.fits)))

  write_all :
      (head : Bytes) (es : List Bytes)
      → Encodes (of_records prost) (first ∷ rest) es
      → length (body es) ≤ u32_max
      → length rest ≡ 999
      → write_records
          (of_records prost)
          (length head)
          (length head + 4004)
          0
          (first ∷ rest)
          (head ++ zero_words (length (first ∷ rest) + 1))
        ≡ ok (head ++ (table 0 es ++ body es))
  write_all head es enc fits n =
      let zeros : zero_words (length (first ∷ rest) + 1)
          ≡ zero_words (suc (length (first ∷ rest))) ++ [] =
        rw append-nil (ap zero_words (add-one (suc (length rest)))) in
      rw zeros (
        write_records-layout (of_records prost) (length head) (length head + 4004) (first ∷ rest) es
          0 head [] enc (omega arith) (omega arith) (omega arith))

  -- On a linked range whose records encode, `encode_range` succeeds and writes the layout.
  pub encode_range-layout :
      (es : List Bytes)
      → IsRange first rest
      → Encodes (of_records prost) (first ∷ rest) es
      → length (body es) ≤ u32_max
      → encode_range prost (first ∷ rest) ≡ ok (layout es)
  unfolding encode_range write_range layout of_records
  encode_range-layout es range enc fits =
      let head =
        range_head first.height (first.height + 999) first.previous_hash
          (last_hash first.hash rest) in
      let full : (length (first ∷ rest) == range_size) ≡ true = ground (arith, range.count) in
      let aligned : (first.height % range_size == 0) ≡ true = ground (arith, range.aligned) in
      rw full (
        rw aligned (
          ok-step _ (links range)
          ∙ ok-step _ (offsets_len_lem (length rest) range.count)
          ∙ write_all head es enc fits range.count))
