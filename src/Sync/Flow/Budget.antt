-- ===== src/Sync/Flow/Budget.antt =====
-- The read-ahead budget under any interleaving of workers and coordinator.
use ztreamer.Prelude.{
  ℕ, ◌+◌, ◌-◌, ◌*◌, ◌≤◌, ◌≡◌, refl, Bool, true, some, List, [], ◌∷◌, arith, ◌==◌, if◌then◌else◌,
  length, ok, err, u32_max, usize_add,
}
use ztreamer.Chain.Types.{
  CompactTransaction, ParsedCompactBlock, max_record_bytes, encoded_size_bound,
}
use ztreamer.Sync.Flow.{
  worker, BudgetState, channel, reserve, release_bytes, set_first_missing_height, cancel,
}

-- A block whose bytes are reserved. It is `urgent` if it was at the first missing height then.
pub record Reserved : Type 0 where
  pub height : ℕ
  pub bytes : ℕ
  pub urgent : Bool

abbrev pub bytes_of : List Reserved → ℕ
bytes_of [] = 0
bytes_of (x ∷ xs) = x.bytes + bytes_of xs

abbrev pub ordinary_bytes : List Reserved → ℕ
ordinary_bytes [] = 0
ordinary_bytes (x ∷ xs) = (if x.urgent then 0 else x.bytes) + ordinary_bytes xs

-- `xs` is the blocks of a batch and the blocks that are left, in their order.
pub data Split : List Reserved → List Reserved → List Reserved → Type 0 where
  empty : Split [] [] []
  taken :
      {xs batch left : List Reserved} (x : Reserved)
      → Split xs batch left
      → Split (x ∷ xs) (x ∷ batch) left
  kept :
      {xs batch left : List Reserved} (x : Reserved)
      → Split xs batch left
      → Split (x ∷ xs) batch (x ∷ left)

-- The shared budget, and the blocks that are reserved and not yet in a batch.
pub record System : Type 0 where
  pub budget : BudgetState
  pub held : List Reserved

abbrev pub start : ℕ → System
start height = record { budget = channel height; held = [] }

-- What a thread does to the budget in one turn of its lock. A worker reserves what `send` counts for a block.
pub data Step (limit : ℕ) : System → System → Type 0 where
  reserves :
      (s : System) (block : ParsedCompactBlock) (bytes : ℕ) (b : BudgetState)
      → encoded_size_bound block.transactions ≡ ok bytes
      → reserve limit s.budget block.height bytes ≡ some (ok b)
      → Step limit s (record {
        budget = b;
        held =
            record {
              height = block.height;
              bytes = bytes;
              urgent = block.height == s.budget.first_missing_height;
            }
            ∷ s.held;
      })
  releases :
      (s : System) (batch left : List Reserved) (b : BudgetState)
      → Split s.held batch left
      → release_bytes s.budget (bytes_of batch) ≡ some b
      → Step limit s (record { budget = b; held = left })
  advances :
      (s : System) (height : ℕ)
      → Step limit s (record s { budget = set_first_missing_height s.budget height })
  cancels : (s : System) → Step limit s (record s { budget = cancel s.budget })

pub data Reach (limit : ℕ) (s : System) : System → Type 0 where
  here : Reach limit s s
  next : {t u : System} → Reach limit s t → Step limit t u → Reach limit s u

-- No state of the run holds more blocks than there are u32 heights.
abbrev pub IsFew : {limit : ℕ} {s t : System} → Reach limit s t → Type 0
IsFew {t = t} here = length t.held ≤ u32_max + 1
IsFew {t = t} (next r st) = IsFew r × (length t.held ≤ u32_max + 1)

IsFew-last :
    {limit : ℕ} {s t : System} (r : Reach limit s t) → IsFew r → length t.held ≤ u32_max + 1
IsFew-last here few = few
IsFew-last (next r st) few = few.1

pub record IsAccounted (limit : ℕ) (s : System) : Type 0 where
  pub accounted : s.budget.reserved_bytes ≡ bytes_of s.held
  pub bounded : ordinary_bytes s.held ≤ limit

-- Each block counts for at most the largest record.
abbrev IsSized : List Reserved → Type 0
IsSized [] = Unit
IsSized (x ∷ xs) = (x.bytes ≤ max_record_bytes) × IsSized xs

IsSized-bytes : (xs : List Reserved) → IsSized xs → bytes_of xs ≤ max_record_bytes * length xs
IsSized-bytes [] h = omega arith
IsSized-bytes (x ∷ xs) (le, h) = omega (arith, le, IsSized-bytes xs h)

IsSized-left : {xs batch left : List Reserved} → Split xs batch left → IsSized xs → IsSized left
IsSized-left empty h = h
IsSized-left (taken x split) h = IsSized-left split h.1
IsSized-left (kept x split) h = (h.0, IsSized-left split h.1)

size_bound :
    (txs : List CompactTransaction) (bytes : ℕ)
    → encoded_size_bound txs ≡ ok bytes
    → bytes ≤ max_record_bytes
unfolding encoded_size_bound
size_bound txs bytes h = ground (arith, h)

Step-IsSized : {limit : ℕ} {s t : System} → Step limit s t → IsSized s.held → IsSized t.held
Step-IsSized (reserves s block bytes b counted e) h =
    (size_bound block.transactions bytes counted, h)
Step-IsSized (releases s batch left b split e) h = IsSized-left split h
Step-IsSized (advances s height) h = h
Step-IsSized (cancels s) h = h

Reach-IsSized : {limit : ℕ} {s t : System} → Reach limit s t → IsSized s.held → IsSized t.held
Reach-IsSized here h = h
Reach-IsSized (next r st) h = Step-IsSized st (Reach-IsSized r h)

ordinary_bytes-le : (xs : List Reserved) → ordinary_bytes xs ≤ bytes_of xs
ordinary_bytes-le [] = omega arith
ordinary_bytes-le (x ∷ xs) = ground (arith, ordinary_bytes-le xs)

Split-bytes :
    {xs batch left : List Reserved}
    → Split xs batch left
    → (bytes_of xs ≡ bytes_of batch + bytes_of left) × (ordinary_bytes left ≤ ordinary_bytes xs)
Split-bytes empty = omega arith
Split-bytes (taken x h) = omega (arith, Split-bytes h)
Split-bytes (kept x h) = omega (arith, Split-bytes h)

Step-IsAccounted :
    {limit : ℕ} {s t : System}
    → Step limit s t
    → IsSized s.held
    → length s.held ≤ u32_max + 1
    → IsAccounted limit s
    → IsAccounted limit t
unfolding reserve release_bytes set_first_missing_height cancel
Step-IsAccounted (reserves s block bytes b counted e) sized few h =
    let total = IsSized-bytes s.held sized in
    let one = size_bound block.transactions bytes counted in
    let exact : usize_add s.budget.reserved_bytes bytes ≡ s.budget.reserved_bytes + bytes =
      omega (arith, h.accounted, total, few, one) in
    ground (arith, e, h.accounted, h.bounded, exact, ordinary_bytes-le s.held)
Step-IsAccounted (releases s batch left b split e) sized few h = ground (arith, Split-bytes split)
Step-IsAccounted (advances s height) sized few h = ground arith
Step-IsAccounted (cancels s) sized few h = ground arith

-- In every interleaving in which no more blocks are held at once than there are u32 heights, the
-- reserved bytes are the bytes of the blocks that are held, and the blocks that were not at the first
-- missing height when they were reserved fit in the limit together.
pub Reach-IsAccounted :
    (limit height : ℕ) (s : System) (r : Reach limit (start height) s)
    → IsFew r
    → IsAccounted limit s
unfolding channel
Reach-IsAccounted limit height s here few = record { accounted = refl; bounded = omega arith }
Reach-IsAccounted limit height s (next r st) few =
    Step-IsAccounted st (Reach-IsSized r tt) (IsFew-last r few.0)
      (Reach-IsAccounted limit height _ r few.0)

-- In every interleaving in which no more blocks are held at once than there are u32 heights, a release
-- of blocks that are held does not panic, and leaves the bytes of the others reserved.
pub release_bytes-total :
    (limit height : ℕ) (s : System) (batch left : List Reserved) (r : Reach limit (start height) s)
    → IsFew r
    → Split s.held batch left
    → (b : BudgetState) × (release_bytes s.budget (bytes_of batch) ≡ some b)
      × (b.reserved_bytes ≡ bytes_of left)
unfolding release_bytes
release_bytes-total limit height s batch left r few split =
    let total = (Split-bytes split).0 in
    let acc = (Reach-IsAccounted limit height s r few).accounted in
    (
      record s.budget { reserved_bytes = s.budget.reserved_bytes - bytes_of batch },
      ground (arith, total, acc),
      omega (arith, total, acc),
    )

Step-cancelled :
    {limit : ℕ} {s t : System}
    → Step limit s t
    → s.budget.cancelled ≡ true
    → t.budget.cancelled ≡ true
unfolding reserve release_bytes set_first_missing_height cancel
Step-cancelled (reserves s block bytes b counted e) h = ground arith
Step-cancelled (releases s batch left b split e) h = ground arith
Step-cancelled (advances s height) h = ground arith
Step-cancelled (cancels s) h = ground arith

Reach-cancelled :
    {limit : ℕ} {s t : System}
    → Reach limit s t
    → s.budget.cancelled ≡ true
    → t.budget.cancelled ≡ true
Reach-cancelled here h = h
Reach-cancelled (next r st) h = Step-cancelled st (Reach-cancelled r h)

-- After a cancel no reservation waits and none succeeds, whatever steps follow.
pub cancelled_forever :
    (limit : ℕ) (s t : System) (height bytes : ℕ)
    → Reach limit (record s { budget = cancel s.budget }) t
    → reserve limit t.budget height bytes ≡ some (err worker)
unfolding reserve cancel
cancelled_forever limit s t height bytes r =
    let stays = Reach-cancelled r refl in ground (arith, stays)
