-- ===== src/Sync/Head/Polled.antt =====
-- What a poll of the canonical head returns is one chain, whatever the node does between two requests.
use mathlib.Core.Path.{subst}
use ztreamer.Prelude.{
  ℕ, zero, suc, ◌-◌, ◌≡◌, refl, sym, ap, ◌∙◌, inl, inr, Bool, true, false, not, Bool-cases, Option,
  none, some, List, take, [], ◌∷◌, ◌==◌, if◌then◌else◌, bytes_eq, bytes_eq_iff, Bytes, Result, ok,
  err, ◌>>=◌, >>=-eq-ok, guard_inv, ok_or, try_map, try_map-nil, try_map-cons, map_err, u32_max,
  word_add,
}
use ztreamer.Chain.Types.{Hash, ParsedCompactBlock, CompactBlockRecord}
use ztreamer.Chain.Cursor.{slice}
use ztreamer.Chain.Codec.{reader_new}
use ztreamer.Chain.Endian.{from_le}
use ztreamer.Chain.Parser.Parsed.{some_of}
use ztreamer.Chain.Parser.Collected.{into_block_inv}
use ztreamer.Chain.Parser.Input.{parse_finish}
use ztreamer.Chain.Parser.Block.{
  RawIndexBlock, parse_block, parse_header, parse_transactions, no_transactions,
}
use ztreamer.Chain.Parser.Reads.{map_err_inv}
use ztreamer.Index.State.{BlockId}
use ztreamer.Sync.Head.{
  HeadError, window, parse_error, decode_error, parent_error, Poll, continue_poll, ◌>>=ₚ◌, done,
  failed, CanonicalBlockSource, CanonicalSuffix, read_blocks, read_all, check_unchanged, parent_of,
  first_height, read_suffix, check_anchor, canonical_count, linked_count, retained_of,
  poll_canonical_head,
}

-- Each raw block links to the hash of the block before it.
abbrev pub RawLinked : Hash → List RawIndexBlock → Type 0
RawLinked parent [] = Unit
RawLinked parent (b ∷ bs) = (slice b.bytes 4 36 ≡ some parent) × RawLinked b.hash bs

-- Each block names the hash of the block before it as its parent.
abbrev pub ParsedLinked : Hash → List ParsedCompactBlock → Type 0
ParsedLinked parent [] = Unit
ParsedLinked parent (b ∷ bs) = (b.previous_hash ≡ parent) × ParsedLinked b.hash bs

poll_inv {ℓ κ} :
    {S : Type 0} {A : Type ℓ} {B : Type κ} (m : Poll S A) (f : A → Poll S B) (s : S) {b : B} {t : S}
    → (m >>=ₚ f) s ≡ (ok b, t)
    → (a : A) × (u : S) × (m s ≡ (ok a, u)) × (f a u ≡ (ok b, t))
poll_inv {S = S} {A = A} m f s {b} {t} h = go (m s) refl h
  where
    go :
        (x : Result HeadError A × S)
        → m s ≡ x
        → continue_poll x f ≡ (ok b, t)
        → (a : A) × (u : S) × (m s ≡ (ok a, u)) × (f a u ≡ (ok b, t))
    go (ok a, u) e k = (a, u, e, k)
    go (err x, u) e k = cc

-- The guard of a step was passed.
passed {ℓ} :
    {S : Type 0} {A : Type ℓ} (b : Bool) (e : HeadError) (u : S) (m : Result HeadError A × S)
    {a : A} {t : S}
    → (if b then (err e, u) else m) ≡ (ok a, t)
    → (b ≡ false) × (m ≡ (ok a, t))
passed true e u m h = absurd (cc h)
passed false e u m h = (refl, h)

matched : (p q : Bytes) → not (bytes_eq p q) ≡ false → p ≡ q
matched p q h = elim (Bool-cases (bytes_eq p q)) [
  | inl e ↦ (bytes_eq_iff p q).0 e
  | inr e ↦ absurd (cc (h, e))
]

link :
    (block : RawIndexBlock) (p : ParsedCompactBlock)
    → parse_block block ≡ ok p
    → (slice block.bytes 4 36 ≡ some p.previous_hash) × (p.hash ≡ block.hash)
unfolding parse_block
link block p h =
    let (header, first, h₁) = >>=-eq-ok (parse_header block.height (reader_new block.bytes)) _ h in
    let (previous, second, h₂) =
      >>=-eq-ok (ok_or (slice block.bytes 4 36) _) _ (guard_inv _ _ _ h₁).1 in
    let (time, third, h₃) = >>=-eq-ok (ok_or (slice block.bytes 100 104) _) _ h₂ in
    let (read, fourth, h₄) =
      >>=-eq-ok (parse_transactions 0 block.txids (no_transactions block.height) header.1) _ h₃ in
    let (done, fifth, made) = >>=-eq-ok (map_err _ (parse_finish read.1)) _ h₄ in
    let inv = into_block_inv read.0 block.hash previous (from_le time) p made in
    (some_of _ _ previous second ∙ ap some (sym inv.2), inv.1)

parsed-ParsedLinked :
    (parent : Hash) (raw : List RawIndexBlock) (blocks : List ParsedCompactBlock)
    → RawLinked parent raw
    → try_map parse_block raw ≡ ok blocks
    → ParsedLinked parent blocks
parsed-ParsedLinked parent [] blocks links h =
    subst (ParsedLinked parent) (try_map-nil parse_block h) tt
parsed-ParsedLinked parent (block ∷ raw) blocks links h =
    let (p, ps, first, second, made) = try_map-cons parse_block block raw h in
    let (at, same) = link block p first in
    subst (ParsedLinked parent) made
      (cc (at, links.0), parsed-ParsedLinked p.hash raw ps (rw same links.1) second)

module _ {S : Type 0} (source : CanonicalBlockSource S) (max_reorg : ℕ) where
  read_blocks-RawLinked :
      (fuel start height : ℕ) (parent : Hash) (s t : S) (raw : List RawIndexBlock)
      → read_blocks source max_reorg fuel start height parent s ≡ (ok raw, t)
      → RawLinked parent raw
  unfolding read_blocks
  read_blocks-RawLinked zero start height parent s t raw h = absurd (cc h)
  read_blocks-RawLinked (suc fuel) start height parent s t raw h =
      let (answer, u, first, second) = poll_inv (source.block height) _ s h in
      turn answer u second (λ next hash rest v. read_blocks-RawLinked fuel start next hash u v rest)
    where
      one :
          (block : RawIndexBlock) (u : S) (next : Option ℕ)
          → slice block.bytes 4 36 ≡ some parent
          → ◌≡◌ {A = Result HeadError (List RawIndexBlock) × S}
              (elim next [
                | none ↦ (err window, u)
                | some n ↦
                    (read_blocks source max_reorg fuel start n block.hash >>=ₚ λ rest.
                    done (block ∷ rest))
                      u
              ])
              (ok raw, t)
          → ((next : ℕ) (rest : List RawIndexBlock) (v : S)
              → read_blocks source max_reorg fuel start next block.hash u ≡ (ok rest, v)
              → RawLinked block.hash rest)
          → RawLinked parent raw
      one block u none at k ih = absurd (cc k)
      one block u (some n) at k ih =
          let (rest, v, before, after) =
            poll_inv (read_blocks source max_reorg fuel start n block.hash) _ u k in
          subst (RawLinked parent) {x = block ∷ rest} (cc after) (at, ih n rest v before)

      checked :
          (block : RawIndexBlock) (u : S) (found : Option Bytes)
          → slice block.bytes 4 36 ≡ found
          → ◌≡◌ {A = Result HeadError (List RawIndexBlock) × S}
              (elim found [
                | none ↦ (err decode_error, u)
                | some p ↦
                    if not (bytes_eq p parent)
                    then (err (parent_error height), u)
                    else elim (word_add u32_max height 1) [
                      | none ↦ (err window, u)
                      | some n ↦
                          (read_blocks source max_reorg fuel start n block.hash >>=ₚ λ rest.
                          done (block ∷ rest))
                            u
                    ]
              ])
              (ok raw, t)
          → ((next : ℕ) (rest : List RawIndexBlock) (v : S)
              → read_blocks source max_reorg fuel start next block.hash u ≡ (ok rest, v)
              → RawLinked block.hash rest)
          → RawLinked parent raw
      checked block u none at k ih = absurd (cc k)
      checked block u (some p) at k ih =
          let (same, k') = passed _ _ u _ k in
          one block u (word_add u32_max height 1) (at ∙ ap some (matched p parent same)) k' ih

      turn :
          (answer : Option RawIndexBlock) (u : S)
          → ◌≡◌ {A = Result HeadError (List RawIndexBlock) × S}
              (elim answer [
                | none ↦ (ok [], u)
                | some block ↦
                    if height - start == max_reorg
                    then (err window, u)
                    else elim (slice block.bytes 4 36) [
                      | none ↦ (err decode_error, u)
                      | some p ↦
                          if not (bytes_eq p parent)
                          then (err (parent_error height), u)
                          else elim (word_add u32_max height 1) [
                            | none ↦ (err window, u)
                            | some n ↦
                                (read_blocks source max_reorg fuel start n block.hash >>=ₚ λ rest.
                                done (block ∷ rest))
                                  u
                          ]
                    ]
              ])
              (ok raw, t)
          → ((next : ℕ) (hash : Hash) (rest : List RawIndexBlock) (v : S)
              → read_blocks source max_reorg fuel start next hash u ≡ (ok rest, v)
              → RawLinked hash rest)
          → RawLinked parent raw
      turn none u k ih = subst (RawLinked parent) {x = []} (cc k) tt
      turn (some block) u k ih =
          checked block u (slice block.bytes 4 36) refl (passed _ _ u _ k).1
            (λ next rest v. ih next block.hash rest v)

  read_all-RawLinked :
      (start height : ℕ) (parent : Hash) (s t : S) (raw : List RawIndexBlock)
      → read_all source max_reorg start height parent s ≡ (ok raw, t)
      → RawLinked parent raw
  unfolding read_all
  read_all-RawLinked = read_blocks-RawLinked (suc u32_max)

  read_suffix-ParsedLinked :
      (start : ℕ) (previous_hash : Hash) (retained : Option BlockId) (s t : S)
      (suffix : CanonicalSuffix)
      → read_suffix source max_reorg start previous_hash retained s ≡ (ok suffix, t)
      → (suffix.retained ≡ retained) × ParsedLinked (parent_of retained previous_hash) suffix.blocks
  unfolding read_suffix
  read_suffix-ParsedLinked start previous_hash retained s t suffix h =
      from (first_height retained start) h
    where
      finished :
          (raw : List RawIndexBlock) (v : S)
          → RawLinked (parent_of retained previous_hash) raw
          → ◌≡◌ {A = Result HeadError CanonicalSuffix × S}
              (
                map_err parse_error (try_map parse_block raw) >>= λ blocks.
                    ok (record { retained = retained; blocks = blocks }),
                v,
              )
              (ok suffix, t)
          → (suffix.retained ≡ retained)
            × ParsedLinked (parent_of retained previous_hash) suffix.blocks
      finished raw v links k =
          let (blocks, mapped, made) =
            >>=-eq-ok {A = List ParsedCompactBlock} {B = CanonicalSuffix}
              (map_err parse_error (try_map parse_block raw))
              (λ blocks. ok (record { retained = retained; blocks = blocks })) (ap (λ x. x.0) k) in
          let found =
            parsed-ParsedLinked (parent_of retained previous_hash) raw blocks links
              (map_err_inv parse_error (try_map parse_block raw) mapped) in
          let same : ◌≡◌ {A = CanonicalSuffix} (record { retained = retained; blocks = blocks })
              suffix =
            cc made in
          (
            ap (λ x. x.retained) (sym same),
            subst (ParsedLinked (parent_of retained previous_hash)) (ap (λ x. x.blocks) same) found,
          )

      from :
          (height : Option ℕ)
          → ◌≡◌ {A = Result HeadError CanonicalSuffix × S}
              (elim height as (λ _. Poll S CanonicalSuffix) [
                | none ↦ failed window
                | some n ↦
                    read_all source max_reorg start n (parent_of retained previous_hash) >>=ₚ λ raw.
                    check_unchanged source max_reorg retained raw >>=ₚ λ _ v. (
                      map_err parse_error (try_map parse_block raw) >>= λ blocks.
                          ok (record { retained = retained; blocks = blocks }),
                      v,
                    )
              ]
                s)
              (ok suffix, t)
          → (suffix.retained ≡ retained)
            × ParsedLinked (parent_of retained previous_hash) suffix.blocks
      from none k = absurd (cc k)
      from (some n) k =
          let (raw, u, first, h₁) =
            poll_inv (read_all source max_reorg start n (parent_of retained previous_hash)) _ s k in
          let (_, v, second, h₂) =
            poll_inv (check_unchanged source max_reorg retained raw) _ u h₁ in
          finished raw v
            (read_all-RawLinked start n (parent_of retained previous_hash) s u raw first) h₂

  -- Whatever the node answers and however its chain changes between the requests: the blocks of a poll
  -- that succeeds are one chain. The first links to the retained block, or with none retained to
  -- `previous_hash`; each other block links to the block before it.
  pub poll_canonical_head-ParsedLinked :
      (start : ℕ) (previous_hash : Hash) (known : List CompactBlockRecord) (s t : S)
      (suffix : CanonicalSuffix)
      → poll_canonical_head source max_reorg start previous_hash known s ≡ (ok suffix, t)
      → ParsedLinked (parent_of suffix.retained previous_hash) suffix.blocks
  unfolding poll_canonical_head
  poll_canonical_head-ParsedLinked start previous_hash known s t suffix h =
      let linked = take (linked_count start previous_hash known) known in
      let (_, u, _, h₁) = poll_inv (check_anchor source max_reorg start previous_hash) _ s h in
      let (canonical, v, _, h₂) = poll_inv (canonical_count source max_reorg linked) _ u h₁ in
      let (same, links) =
        read_suffix-ParsedLinked start previous_hash (retained_of linked canonical) v t suffix h₂ in
      rw same links
