-- ===== src/Chain/Parser/Input.antt =====
-- The Reader of crates/chain/src/parser.rs: little-endian integers, compact sizes and bounded skips.
use ztreamer.Prelude.{
  ℕ, zero, suc, List, [], ◌∷◌, ltb, leb, ◌==◌, if◌then◌else◌, length, Bytes, Result, ok, err, ◌>>=◌,
  ok_or, usize_max, word_mul,
}
use ztreamer.Chain.Endian.{from_le}
use ztreamer.Chain.Cursor.{Reader, Read, ◌>>=ᵣ◌, pure, fail, take_with, remaining}

pub data TransactionParseError : Type 0 where
  too_large : TransactionParseError
  truncated : ℕ → TransactionParseError
  non_canonical_compact_size : ℕ → TransactionParseError
  length_limit : ℕ → TransactionParseError
  unsupported_header : ℕ → TransactionParseError
  wrong_version_group : ℕ → ℕ → TransactionParseError
  trailing_bytes : ℕ → TransactionParseError

abbrev pub Parse {ℓ} : Type ℓ → Type ℓ
Parse A = Read TransactionParseError A

abbrev pub max_transaction_bytes : ℕ
max_transaction_bytes = 2_000_000

abbrev pub max_vector_items : ℕ
max_vector_items = 65_535

unfoldable pub take_bytes : ℕ → Parse Bytes
take_bytes = take_with length_limit truncated

unfoldable pub skip : ℕ → Parse (Unit {0})
unfolding take_bytes
skip len = take_bytes len >>=ᵣ λ skipped. pure tt

-- `array::<N>`, and `u32`, which is little-endian here.
unfoldable pub take_array : ℕ → Parse Bytes
unfolding take_bytes
take_array = take_bytes

unfoldable pub le_u32 : Parse ℕ
unfolding take_array
le_u32 = take_array 4 >>=ᵣ λ b. pure (from_le b)

-- A value in a longer form than it needs is refused.
unfoldable pub canonical : ℕ → ℕ → ℕ → Parse ℕ
canonical start least value =
    if ltb value least then fail (non_canonical_compact_size start) else pure value

-- The `match` of `compact_size` on the first byte.
unfoldable pub compact_value : ℕ → ℕ → Parse ℕ
unfolding take_array le_u32 canonical
compact_value start first =
    if ltb first 253
    then pure first
    else if first == 253
    then (take_array 2 >>=ᵣ λ b. canonical start 253 (from_le b))
    else if first == 254
    then (le_u32 >>=ᵣ λ value. canonical start 0x1_0000 value)
    else (take_array 8 >>=ᵣ λ b. canonical start 0x1_0000_0000 (from_le b))

unfoldable pub compact_size : ℕ → Parse ℕ
unfolding take_array compact_value
compact_size max r =
    (take_array 1 >>=ᵣ λ first. compact_value r.offset (from_le first) >>=ᵣ λ value.
    if leb value max then pure value else fail (length_limit r.offset))
      r

unfoldable pub read_vector_count : Parse ℕ
unfolding compact_size
read_vector_count = compact_size max_vector_items

unfoldable pub skip_items : ℕ → ℕ → Parse (Unit {0})
unfolding skip
skip_items count size r =
    ok_or (word_mul usize_max count size) (length_limit r.offset) >>= λ bytes. skip bytes r

unfoldable pub ensure_items : ℕ → ℕ → Parse (Unit {0})
ensure_items count size r =
    ok_or (word_mul usize_max count size) (length_limit r.offset) >>= λ bytes.
    if ltb (remaining r) bytes then err (truncated r.offset) else ok (tt, r)

unfoldable pub version_group : ℕ → Parse (Unit {0})
unfolding le_u32
version_group expected = le_u32 >>=ᵣ λ actual.
    if actual == expected then pure tt else fail (wrong_version_group actual expected)

unfoldable pub parse_finish : Reader → Result TransactionParseError (Unit {0})
parse_finish r = if r.offset == length r.bytes then ok tt else err (trailing_bytes r.offset)

-- `for _ in 0..count`, collecting what each turn reads.
unfoldable pub times {ℓ} : {A : Type ℓ} → ℕ → Parse A → Parse (List A)
times zero item = pure []
times (suc count) item = item >>=ᵣ λ x. times count item >>=ᵣ λ xs. pure (x ∷ xs)

-- `for _ in 0..count`, for turns that read nothing that is kept.
unfoldable pub repeat : ℕ → Parse (Unit {0}) → Parse (Unit {0})
repeat zero turn = pure tt
repeat (suc count) turn = turn >>=ᵣ λ done. repeat count turn
