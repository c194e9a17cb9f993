-- ===== src/Index/Encoding.antt =====
-- WriteBatch::encode of crates/index/src/index/batch.rs: the records of a batch, encoded on threads.
use native.Mathlib.Nat.{div-eq-sub-div}
use ztreamer.Prelude.{
  ℕ, zero, suc, ◌+◌, ◌-◌, ◌/◌, ◌≤◌, ◌<◌, ◌≡◌, refl, sym, ap, ◌∙◌, inl, inr, Bool, true, false, ◌&&◌,
  ltb, ◌==◌, Option, none, some, List, [], ◌∷◌, ◌++◌, arith, leb, if◌then◌else◌, Bool-cases, length,
  take, drop, last?, length-drop, Bytes, Result, ok, ◌>>=◌, try_map, try_map-flatten, flatten,
  option_bind,
}
use ztreamer.Chain.TreeSizes.{TreeSizes}
use ztreamer.Chain.Types.{Hash, CodecError, CompactBlockRecord}
use ztreamer.Chain.Record.{Prost, encode}
use ztreamer.Index.Builder.{WriteBatch}

pub record EncodedBlock : Type 0 where
  pub height : ℕ
  pub hash : Hash
  pub previous_hash : Hash
  pub bytes : Bytes

pub record EncodedBatch : Type 0 where
  pub base_generation : ℕ
  pub seal_through : Option ℕ
  pub blocks : List EncodedBlock
  pub end_tree_sizes : TreeSizes

module _ {ℓ} {A : Type ℓ} where
  -- `chunks(size)` of a slice, with fuel; a chunk of length zero is a panic, which its caller tests for.
  unfoldable pub chunks : ℕ → ℕ → List A → List (List A)
  chunks fuel size [] = []
  chunks zero size (x ∷ xs) = []
  chunks (suc fuel) size (x ∷ xs) = take size (x ∷ xs) ∷ chunks fuel size (drop size (x ∷ xs))

  take-drop : (n : ℕ) (xs : List A) → take n xs ++ drop n xs ≡ xs
  take-drop zero xs = refl
  take-drop (suc n) [] = refl
  take-drop (suc n) (x ∷ xs) = ap (λ ys. x ∷ ys) (take-drop n xs)

  -- As much fuel as there are elements is enough, and nothing is lost.
  flatten-chunks :
      (fuel size : ℕ) (xs : List A)
      → 0 < size
      → length xs ≤ fuel
      → flatten (chunks fuel size xs) ≡ xs
  unfolding chunks
  flatten-chunks fuel size [] lt le = refl
  flatten-chunks zero size (x ∷ xs) lt le = absurd (omega (arith, le))
  flatten-chunks (suc fuel) size (x ∷ xs) lt le =
      ap (λ ys. take size (x ∷ xs) ++ ys)
        (flatten-chunks fuel size (drop size (x ∷ xs)) lt
          (omega (arith, le, lt, length-drop size (x ∷ xs))))
      ∙ take-drop size (x ∷ xs)

div_ceil : ℕ → ℕ → ℕ
div_ceil n m = (n + m - 1) / m

div_ceil-pos : (n m : ℕ) → 0 < n → 0 < m → 0 < div_ceil n m
unfolding div_ceil
div_ceil-pos n m hn hm =
    let low : m ≤ n + m - 1 = omega (arith, hn) in omega (arith, div-eq-sub-div hm low)

no_chunk : (m : ℕ) → 1 < m → (div_ceil 0 m == 0) ≡ true
unfolding div_ceil
no_chunk m h = let none_left : (m - 1) / m ≡ 0 = grind arith in ground (arith, none_left)

module _ (prost : Prost) where
  unfoldable pub encode_block : CompactBlockRecord → Result CodecError EncodedBlock
  encode_block r = encode prost r >>= λ bytes.
      ok (record {
        height = r.height;
        hash = r.hash;
        previous_hash = r.previous_hash;
        bytes = bytes;
      })

  -- With more than one thread, each chunk is encoded by itself, and the chunks are joined in order;
  -- `none` is the panic of `chunks(0)`.
  unfoldable pub encode_blocks :
      ℕ → List CompactBlockRecord → Option (Result CodecError (List EncodedBlock))
  unfolding encode_block div_ceil
  encode_blocks threads records =
      if leb threads 1
      then some (try_map encode_block records)
      else (let chunk = div_ceil (length records) threads in
          if chunk == 0
          then none
          else some (
              try_map (try_map encode_block) (chunks (length records) chunk records) >>= λ parts.
              ok (flatten parts)))

  -- `WriteBatch::encode`; `none` is the panic on an empty batch.
  unfoldable pub encode_batch : WriteBatch → ℕ → Option (Result CodecError EncodedBatch)
  unfolding encode_blocks
  encode_batch batch threads = option_bind (last? batch.records) λ last.
      option_bind (encode_blocks threads batch.records) λ encoded. some (
        encoded >>= λ blocks. ok (record {
          base_generation = batch.base_generation;
          seal_through = batch.seal_through;
          blocks = blocks;
          end_tree_sizes = last.end_tree_sizes;
        }))

  -- On any number of threads the encoding is that of the records one after the other, errors included;
  -- only with more than one thread and no records there is a panic.
  pub encode_blocks-try_map :
      (threads : ℕ) (records : List CompactBlockRecord)
      → encode_blocks threads records ≡ (
          if ltb 1 threads && length records == 0
          then none
          else some (try_map encode_block records))
  unfolding encode_blocks
  encode_blocks-try_map threads records = elim (Bool-cases (leb threads 1)) [
    | inl one ↦ let few : ltb 1 threads ≡ false = ground (arith, one) in rw (one, few) refl
    | inr many ↦
        let more : ltb 1 threads ≡ true = ground (arith, many) in
        rw (many, more) (chunked records (ground (arith, many)))
  ]
    where
      chunked :
          (rs : List CompactBlockRecord)
          → 1 < threads
          → (if div_ceil (length rs) threads == 0
              then none
              else some (
                  try_map
                    (try_map encode_block)
                    (chunks (length rs) (div_ceil (length rs) threads) rs)
                  >>= λ parts. ok (flatten parts)))
            ≡ (if length rs == 0 then none else some (try_map encode_block rs))
      chunked [] lt = rw (no_chunk threads lt) refl
      chunked (r ∷ rs) lt =
          let size : 0 < div_ceil (suc (length rs)) threads =
            div_ceil-pos (suc (length rs)) threads (omega arith) (omega (arith, lt)) in
          let some_size : (div_ceil (suc (length rs)) threads == 0) ≡ false =
            ground (arith, size) in
          let full : (suc (length rs) == 0) ≡ false = ground arith in
          rw (some_size, full)
            (ap some (
              sym (
                try_map-flatten encode_block
                  (chunks (suc (length rs)) (div_ceil (suc (length rs)) threads) (r ∷ rs)))
              ∙ ap (try_map encode_block) (
                  flatten-chunks (suc (length rs)) (div_ceil (suc (length rs)) threads) (r ∷ rs)
                    size (omega arith))))

  -- Where there is no panic, the encoding is that of the records one after the other.
  pub encoded_blocks :
      (threads : ℕ) (records : List CompactBlockRecord)
      (encoded : Result CodecError (List EncodedBlock))
      → encode_blocks threads records ≡ some encoded
      → try_map encode_block records ≡ encoded
  encoded_blocks threads records encoded h =
      go (ltb 1 threads && length records == 0) (sym (encode_blocks-try_map threads records) ∙ h)
    where
      go :
          (b : Bool)
          → (if b then none else some (try_map encode_block records)) ≡ some encoded
          → try_map encode_block records ≡ encoded
      go true e = absurd (cc e)
      go false e = cc e
