-- ===== src/Sync/Head/Fuel.antt =====
-- The fuel of the two loops of a poll.
use ztreamer.Prelude.{
  ℕ, zero, suc, ◌+◌, ◌-◌, ◌<◌, ◌≤◌, ◌≡◌, refl, ap, not, Option, none, some, List, [], ◌∷◌, arith,
  ◌==◌, if◌then◌else◌, bytes_eq, ltb, ltb→lt, ◌/◌, get_elem?, Bool, true, false, Result, ok, err,
  u32_max, word_add,
}
use ztreamer.Chain.Types.{CompactBlockRecord, Hash}
use ztreamer.Chain.Cursor.{slice}
use ztreamer.Chain.Parser.Block.{RawIndexBlock}
use ztreamer.Sync.Head.{
  HeadError, window, decode_error, parent_error, panicked, Poll, continue_poll, ◌>>=ₚ◌, done,
  CanonicalBlockSource, read_blocks, bisect, same_hash, read_all,
}

continue_cong {ℓ κ} :
    {S : Type 0} {A : Type ℓ} {B : Type κ} (x : Result HeadError A × S) (f g : A → Poll S B)
    → ((a : A) (s : S) → f a s ≡ g a s)
    → continue_poll x f ≡ continue_poll x g
continue_cong (ok a, s) f g h = h a s
continue_cong (err e, s) f g h = refl

word_add_inv :
    (height next : ℕ)
    → word_add u32_max height 1 ≡ some next
    → (next ≡ height + 1) × (next ≤ u32_max)
word_add_inv height next h = ground arith

ended : (canonical different : ℕ) → different ≤ canonical → ltb canonical different ≡ false
ended canonical different h = ground arith

middle_below :
    (canonical different : ℕ)
    → canonical < different
    → canonical + (different - canonical) / 2 < different
middle_below canonical different h = omega arith

module _ {S : Type 0} (source : CanonicalBlockSource S) (max_reorg : ℕ) where
  read_blocks-enough :
      (fuel more start height : ℕ) (parent : Hash) (s : S)
      → height ≤ u32_max
      → u32_max < fuel + height
      → u32_max < more + height
      → read_blocks source max_reorg fuel start height parent s
        ≡ read_blocks source max_reorg more start height parent s
  unfolding read_blocks
  read_blocks-enough zero more start height parent s low f g = absurd (omega arith)
  read_blocks-enough (suc fuel) zero start height parent s low f g = absurd (omega arith)
  read_blocks-enough (suc fuel) (suc more) start height parent s low f g =
      continue_cong (source.block height s) _ _ (
        turn (λ n hash u same within.
          read_blocks-enough fuel more start n hash u within (omega arith) (omega arith)))
    where
      onward :
          ((n : ℕ) (hash : Hash) (u : S)
            → n ≡ height + 1
            → n ≤ u32_max
            → read_blocks source max_reorg fuel start n hash u
              ≡ read_blocks source max_reorg more start n hash u)
          → (block : RawIndexBlock) (u : S) (next : Option ℕ) → word_add u32_max height 1 ≡ next
          → ◌≡◌ {A = Result HeadError (List RawIndexBlock) × S}
              (elim next [
                | none ↦ (err window, u)
                | some n ↦
                    (read_blocks source max_reorg fuel start n block.hash >>=ₚ λ rest.
                    done (block ∷ rest))
                      u
              ])
              (elim next [
                | none ↦ (err window, u)
                | some n ↦
                    (read_blocks source max_reorg more start n block.hash >>=ₚ λ rest.
                    done (block ∷ rest))
                      u
              ])
      onward ih block u none at = refl
      onward ih block u (some n) at =
          let (same, within) = word_add_inv height n at in
          ap (λ x. continue_poll x (λ rest. done (block ∷ rest))) (ih n block.hash u same within)

      turn :
          ((n : ℕ) (hash : Hash) (u : S)
            → n ≡ height + 1
            → n ≤ u32_max
            → read_blocks source max_reorg fuel start n hash u
              ≡ read_blocks source max_reorg more start n hash u)
          → (answer : Option RawIndexBlock) (u : S)
          → ◌≡◌ {A = Result HeadError (List RawIndexBlock) × S}
              (elim answer [
                | none ↦ (ok [], u)
                | some block ↦
                    if height - start == max_reorg
                    then (err window, u)
                    else elim (slice block.bytes 4 36) [
                      | none ↦ (err decode_error, u)
                      | some p ↦
                          if not (bytes_eq p parent)
                          then (err (parent_error height), u)
                          else elim (word_add u32_max height 1) [
                            | none ↦ (err window, u)
                            | some n ↦
                                (read_blocks source max_reorg fuel start n block.hash >>=ₚ λ rest.
                                done (block ∷ rest))
                                  u
                          ]
                    ]
              ])
              (elim answer [
                | none ↦ (ok [], u)
                | some block ↦
                    if height - start == max_reorg
                    then (err window, u)
                    else elim (slice block.bytes 4 36) [
                      | none ↦ (err decode_error, u)
                      | some p ↦
                          if not (bytes_eq p parent)
                          then (err (parent_error height), u)
                          else elim (word_add u32_max height 1) [
                            | none ↦ (err window, u)
                            | some n ↦
                                (read_blocks source max_reorg more start n block.hash >>=ₚ λ rest.
                                done (block ∷ rest))
                                  u
                          ]
                    ]
              ])
      turn ih none u = refl
      turn ih (some block) u =
          ap {A = Result HeadError (List RawIndexBlock) × S}
            {B = Result HeadError (List RawIndexBlock) × S}
            (λ x.
              if height - start == max_reorg
              then (err window, u)
              else elim (slice block.bytes 4 36) [
                | none ↦ (err decode_error, u)
                | some p ↦ if not (bytes_eq p parent) then (err (parent_error height), u) else x
              ])
            (onward ih block u (word_add u32_max height 1) refl)

  -- From a u32 height on, the loop with the fuel of the poll does what it does with any fuel of at least
  -- the number of u32 heights that are left: it never ends for want of fuel.
  pub read_all-enough :
      (more start height : ℕ) (parent : Hash) (s : S)
      → height ≤ u32_max
      → u32_max < more + height
      → read_all source max_reorg start height parent s
        ≡ read_blocks source max_reorg more start height parent s
  unfolding read_all
  read_all-enough more start height parent s low enough =
      read_blocks-enough (suc u32_max) more start height parent s low (omega arith) enough

  -- Any two amounts of fuel that are at least the length of the interval give the bisection the same run,
  -- so that it never ends for want of fuel.
  pub bisect-enough :
      (fuel more canonical different : ℕ) (known : List CompactBlockRecord) (s : S)
      → different ≤ fuel + canonical
      → different ≤ more + canonical
      → bisect source max_reorg fuel canonical different known s
        ≡ bisect source max_reorg more canonical different known s
  unfolding bisect
  bisect-enough zero zero canonical different known s f g = refl
  bisect-enough zero (suc more) canonical different known s f g =
      rw (ended canonical different (omega arith)) refl
  bisect-enough (suc fuel) zero canonical different known s f g =
      rw (ended canonical different (omega arith)) refl
  bisect-enough (suc fuel) (suc more) canonical different known s f g =
      turn (ltb canonical different) refl
        (get_elem? known (canonical + (different - canonical) / 2))
        (λ u below.
          bisect-enough fuel more (canonical + (different - canonical) / 2 + 1) different known u
            (omega arith) (omega arith))
        (λ u below.
          let lower = middle_below canonical different below in
          bisect-enough fuel more canonical (canonical + (different - canonical) / 2) known u
            (omega arith) (omega arith))
    where
      halves :
          (b : Bool)
          → ((u : S)
              → bisect source max_reorg fuel
                  (canonical + (different - canonical) / 2 + 1)
                  different
                  known
                  u
                ≡ bisect source max_reorg more
                    (canonical + (different - canonical) / 2 + 1)
                    different
                    known
                    u)
          → ((u : S)
              → bisect source max_reorg fuel canonical
                  (canonical + (different - canonical) / 2)
                  known
                  u
                ≡ bisect source max_reorg more canonical
                    (canonical + (different - canonical) / 2)
                    known
                    u)
          → (u : S)
          → (if b
                then bisect source max_reorg fuel
                    (canonical + (different - canonical) / 2 + 1)
                    different
                    known
                else bisect source max_reorg fuel canonical
                    (canonical + (different - canonical) / 2)
                    known)
              u
            ≡ (if b
                  then bisect source max_reorg more
                      (canonical + (different - canonical) / 2 + 1)
                      different
                      known
                  else bisect source max_reorg more canonical
                      (canonical + (different - canonical) / 2)
                      known)
                u
      halves true upper lower u = upper u
      halves false upper lower u = lower u

      turn :
          (b : Bool)
          → ltb canonical different ≡ b
          → (found : Option CompactBlockRecord)
          → ((u : S)
              → canonical < different
              → bisect source max_reorg fuel
                  (canonical + (different - canonical) / 2 + 1)
                  different
                  known
                  u
                ≡ bisect source max_reorg more
                    (canonical + (different - canonical) / 2 + 1)
                    different
                    known
                    u)
          → ((u : S)
              → canonical < different
              → bisect source max_reorg fuel canonical
                  (canonical + (different - canonical) / 2)
                  known
                  u
                ≡ bisect source max_reorg more canonical
                    (canonical + (different - canonical) / 2)
                    known
                    u)
          → ◌≡◌ {A = Result HeadError ℕ × S}
              (if b
                then (elim found [
                  | none ↦ (err panicked, s)
                  | some r ↦
                      (source.block_hash r.height >>=ₚ λ answer.
                      if same_hash answer r.hash
                      then bisect source max_reorg fuel
                          (canonical + (different - canonical) / 2 + 1)
                          different
                          known
                      else bisect source max_reorg fuel canonical
                          (canonical + (different - canonical) / 2)
                          known)
                        s
                ])
                else (ok canonical, s))
              (if b
                then (elim found [
                  | none ↦ (err panicked, s)
                  | some r ↦
                      (source.block_hash r.height >>=ₚ λ answer.
                      if same_hash answer r.hash
                      then bisect source max_reorg more
                          (canonical + (different - canonical) / 2 + 1)
                          different
                          known
                      else bisect source max_reorg more canonical
                          (canonical + (different - canonical) / 2)
                          known)
                        s
                ])
                else (ok canonical, s))
      turn false at found upper lower = refl
      turn true at none upper lower = refl
      turn true at (some r) upper lower =
          let below = ltb→lt canonical different at in
          continue_cong (source.block_hash r.height s) _ _ (λ answer u.
            halves (same_hash answer r.hash) (λ v. upper v below) (λ v. lower v below) u)
