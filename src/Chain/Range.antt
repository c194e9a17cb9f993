-- ===== src/Chain/Range.antt =====
-- Packed ranges of RANGE_SIZE records: write_range and RangeDecoder of
-- crates/chain/src/codec/mod.rs.
pub mod Spec
pub mod Encode
pub mod Links
pub mod Decode
pub mod RoundTrip
pub mod Whole
pub mod Sound
pub mod Rows
use ztreamer.Prelude.{
  ℕ, zero, suc, ◌+◌, ◌-◌, ◌*◌, ◌%◌, Bool, false, not, ◌&&◌, ◌||◌, none, some, List, [], ◌∷◌, ◌++◌,
  ltb, leb, ◌==◌, if◌then◌else◌, length, take, drop, Bytes, bytes_eq, Result, ok, err, ◌>>=◌, ok_or,
  u32_max, usize_max, try_into, word_add, word_mul,
}
use ztreamer.Chain.Types.{
  Hash, CompactBlockRecord, CodecError, bad_length, invalid_range, range_index, version, range_size,
}
use ztreamer.Chain.Endian.{be_bytes, from_be}
use ztreamer.Chain.Cursor.{Read, ◌>>=ᵣ◌, pure, fail, slice, remaining}
use ztreamer.Chain.Codec.{
  reader_new, array, read_u8, read_u32, read_count, take_len, finish, put_u32,
}
use ztreamer.Chain.Record.{Prost, encode, decode, protobuf_envelope}

-- The trait of the records that `write_range` takes. `write_to` gives the bytes that it appends.
pub record RangeRecord (R : Type 0) : Type 0 where
  pub id : R → Result CodecError (ℕ × Hash × Hash)
  pub write_to : R → Result CodecError Bytes

unfoldable pub of_records : Prost → RangeRecord CompactBlockRecord
of_records prost = record {
  id = λ r. ok (r.height, r.hash, r.previous_hash);
  write_to = encode prost;
}

-- The rows of `mutable_blocks`, which are encodings already.
unfoldable pub of_rows : RangeRecord Bytes
of_rows = record {
  id = λ row. protobuf_envelope row >>= λ e. ok (e.0, e.1, e.2);
  write_to = λ row. ok row;
}

abbrev pub range_format_version : ℕ
range_format_version = 1

abbrev pub range_envelope_bytes : ℕ
range_envelope_bytes = 73

-- `bytes[offset..offset + xs.len()].copy_from_slice(xs)`, inside the bytes.
unfoldable pub write_at : Bytes → ℕ → Bytes → Bytes
write_at bytes offset xs = take offset bytes ++ (xs ++ drop (offset + length xs) bytes)

unfoldable pub set_u32 : Bytes → ℕ → ℕ → Result CodecError Bytes
set_u32 bytes offset value =
    ok_or (try_into u32_max value) bad_length >>= λ v. ok (write_at bytes offset (be_bytes 4 v))

-- `words` zero values of 32 bits.
unfoldable pub zero_words : ℕ → Bytes
zero_words zero = []
zero_words (suc words) = 0 ∷ 0 ∷ 0 ∷ 0 ∷ zero_words words

unfoldable pub is_next : ℕ → ℕ → Bool
is_next last height = elim (word_add u32_max last 1) [ none ↦ false | some n ↦ n == height ]

unfoldable pub range_head : ℕ → ℕ → Hash → Hash → Bytes
range_head first_height last_height first_previous_hash last_hash =
    range_format_version ∷ put_u32 first_height
    ++ (put_u32 last_height ++ (first_previous_hash ++ last_hash))

module _ {R : Type 0} (trait : RangeRecord R) where
  -- Each record has the next height and links to the record before it. Returns the last height
  -- and the last hash.
  unfoldable pub check_links : ℕ → Hash → List R → Result CodecError (ℕ × Hash)
  unfolding is_next
  check_links last_height last_hash [] = ok (last_height, last_hash)
  check_links last_height last_hash (r ∷ rs) = trait.id r >>= λ i.
      let (height, hash, previous_hash) = i in
      let rest = check_links height hash rs in
      if is_next last_height height && bytes_eq previous_hash last_hash
      then rest
      else err invalid_range

  -- The records from `index` on, each behind its length, with its offset put into the table. After
  -- the last record the loop has ended, and the end of the body is put there.
  unfoldable pub write_records : ℕ → ℕ → ℕ → List R → Bytes → Result CodecError Bytes
  write_records offsets_start body_start index [] bytes =
      set_u32 bytes (offsets_start + index * 4) (length bytes - body_start)
  write_records offsets_start body_start index (r ∷ rs) bytes =
      set_u32 bytes (offsets_start + index * 4) (length bytes - body_start) >>= λ marked.
      let length_offset = length marked in
      let lengthed = marked ++ put_u32 0 in
      trait.write_to r >>= λ encoding.
      let written = lengthed ++ encoding in
      set_u32 written length_offset (length written - length lengthed) >>= λ done.
      write_records offsets_start body_start (index + 1) rs done

  -- `body_len` is the capacity hint for the body.
  unfoldable pub write_range : List R → ℕ → Result CodecError Bytes
  unfolding range_head
  write_range [] body_len = err invalid_range
  write_range (first ∷ rest) body_len =
      if not (length (first ∷ rest) == range_size)
      then err invalid_range
      else (trait.id first >>= λ i.
          let (first_height, first_hash, first_previous_hash) = i in
          if not (first_height % range_size == 0)
          then err invalid_range
          else (check_links first_height first_hash rest >>= λ last.
              ok_or (word_mul usize_max (length (first ∷ rest) + 1) 4) bad_length >>= λ offsets_len.
              ok_or (word_add usize_max (range_envelope_bytes + offsets_len) body_len) bad_length
              >>= λ _.
                  let head = range_head first_height last.0 first_previous_hash last.1 in
                  write_records (length head) (length head + offsets_len) 0 (first ∷ rest)
                    (head ++ zero_words (length (first ∷ rest) + 1))))

unfoldable pub encode_range : Prost → List CompactBlockRecord → Result CodecError Bytes
encode_range prost records = write_range (of_records prost) records 0

unfoldable pub body_len_of : ℕ → List Bytes → Result CodecError ℕ
body_len_of len [] = ok len
body_len_of len (part ∷ parts) =
    ok_or (word_add usize_max len (4 + length part)) bad_length >>= λ sum. body_len_of sum parts

unfoldable pub encode_range_from_bytes : List Bytes → Result CodecError Bytes
unfolding body_len_of
encode_range_from_bytes parts =
    body_len_of 0 parts >>= λ body_len. write_range of_rows parts body_len

pub record RangeDecoder : Type 0 where
  pub start : ℕ
  pub first_previous_hash : Hash
  pub terminal_hash : Hash
  pub offsets : Bytes
  pub body : Bytes

-- `RangeDecoder::offset`
unfoldable pub offset_at : RangeDecoder → ℕ → ℕ
offset_at d index = from_be (take 4 (drop (index * 4) d.offsets))

-- Some offset from `index` on, of the `count` next, is above the one that follows it.
unfoldable pub any_descent : RangeDecoder → ℕ → ℕ → Bool
any_descent d zero index = false
any_descent d (suc count) index =
    ltb (offset_at d (index + 1)) (offset_at d index) || any_descent d count (index + 1)

ends_at : ℕ → ℕ → Bool
ends_at start end = elim (word_add u32_max start (range_size - 1)) [
  | none ↦ false
  | some e ↦ e == end
]

unfoldable pub read_decoder : Read CodecError RangeDecoder
unfolding ends_at
read_decoder = read_u8 >>=ᵣ λ v.
    if not (v == range_format_version)
    then fail (version v)
    else (read_u32 >>=ᵣ λ start. read_u32 >>=ᵣ λ end. array 32 >>=ᵣ λ first_previous_hash.
        array 32 >>=ᵣ λ terminal_hash.
        if not (start % range_size == 0) || not (ends_at start end)
        then fail invalid_range
        else (take_len ((range_size + 1) * 4) >>=ᵣ λ offsets r.
            (take_len (remaining r) >>=ᵣ λ body. pure (record {
              start = start;
              first_previous_hash = first_previous_hash;
              terminal_hash = terminal_hash;
              offsets = offsets;
              body = body;
            }))
              r))

-- `RangeDecoder::new`
unfoldable pub decoder_new : Bytes → Result CodecError RangeDecoder
decoder_new bytes = read_decoder (reader_new bytes) >>= λ read.
    let d = read.0 in
    if not (offset_at d 0 == 0)
      || (not (offset_at d range_size == length d.body) || any_descent d range_size 0)
    then err bad_length
    else ok d

-- The trait of the views of a stored record.
pub record StoredBlock (T : Type 0) : Type 0 where
  pub decode_as : Bytes → Result CodecError T
  pub height_of : T → ℕ
  pub hash_of : T → Hash
  pub previous_hash_of : T → Hash

unfoldable pub full_records : Prost → StoredBlock CompactBlockRecord
full_records prost = record {
  decode_as = decode prost;
  height_of = λ r. r.height;
  hash_of = λ r. r.hash;
  previous_hash_of = λ r. r.previous_hash;
}

-- The bytes of the record in its frame.
unfoldable pub read_frame : Read CodecError Bytes
read_frame = read_count >>=ᵣ take_len

module _ {T : Type 0} (trait : StoredBlock T) where
  -- The record has the height of its place, and agrees with the envelope at the ends of the range.
  misplaced : RangeDecoder → ℕ → T → Bool
  misplaced d index r =
      not (elim (word_add u32_max d.start index) [
        | none ↦ false
        | some height ↦ height == trait.height_of r
      ])
      || ((index == 0 && not (bytes_eq (trait.previous_hash_of r) d.first_previous_hash))
          || (index + 1 == range_size && not (bytes_eq (trait.hash_of r) d.terminal_hash)))

  unfoldable pub record_as : RangeDecoder → ℕ → Result CodecError T
  unfolding misplaced
  record_as d index =
      if leb range_size index
      then err range_index
      else (ok_or (slice d.body (offset_at d index) (offset_at d (index + 1))) bad_length
          >>= λ frame. read_frame (reader_new frame) >>= λ read. trait.decode_as read.0 >>= λ r.
              finish read.1 >>= λ _. if misplaced d index r then err invalid_range else ok r)
