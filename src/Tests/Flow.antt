-- ===== src/Tests/Flow.antt =====
-- The theorems of the fetch workers' channel, at short runs.
use ztreamer.Prelude.{◌+◌, ◌-◌, ◌^◌, ◌≡◌, refl, true, false, none, some, [], ◌∷◌, arith, ok, err}
use ztreamer.Chain.Types.{encoded_size_bound}
use ztreamer.Sync.Flow.{
  worker, BudgetState, channel, must_wait, reserve, release_bytes, cancel, segment, accept,
  sender_send, segment_send, finish_segment,
}
use ztreamer.Sync.Flow.Segment.{Sends, none_sent, one_sent, Heights, finish_segment-Heights}
use ztreamer.Sync.Flow.Budget.{
  System, Split, empty, taken, kept, start, reserves, releases, Reach, here, next, IsFew,
  IsAccounted, Reach-IsAccounted, release_bytes-total, cancelled_forever,
}
use ztreamer.Tests.Blocks.{test_block}

-- The block at the first missing height passes the limit, and another waits.
urgent_passes :
    reserve 100 (channel 7) 7 500
    ≡ some (ok (record { reserved_bytes = 500; first_missing_height = 7; cancelled = false }))
unfolding reserve must_wait channel
urgent_passes = refl

other_waits : reserve 100 (channel 7) 8 101 ≡ none
unfolding reserve must_wait channel
other_waits = refl

-- The sum of a usize wraps.
reserve_wraps :
    reserve 100
      (record { reserved_bytes = 2 ^ 64 - 1; first_missing_height = 7; cancelled = false })
      7
      2
    ≡ some (ok (record { reserved_bytes = 1; first_missing_height = 7; cancelled = false }))
unfolding reserve must_wait
reserve_wraps = refl

abbrev two_held : System
two_held = record {
  budget = record { reserved_bytes = 1_160; first_missing_height = 7; cancelled = false };
  held =
      record { height = 7; bytes = 580; urgent = true }
      ∷ record { height = 8; bytes = 580; urgent = false }
      ∷ [];
}

abbrev one_held : System
one_held = record {
  budget = record { reserved_bytes = 580; first_missing_height = 7; cancelled = false };
  held = record { height = 8; bytes = 580; urgent = false } ∷ [];
}

-- The second block passes the limit, since it is at the first missing height.
Reach-two_held : Reach 1_000 (start 7) two_held
unfolding reserve must_wait channel encoded_size_bound
Reach-two_held =
    next {t = one_held}
      (next {t = start 7} here (reserves (start 7) (test_block 8) 580 one_held.budget refl refl))
      (reserves one_held (test_block 7) 580 two_held.budget refl refl)

IsFew-two_held : IsFew Reach-two_held
unfolding Reach-two_held
IsFew-two_held = ((omega arith, omega arith), omega arith)

Reach-IsAccounted_example : IsAccounted 1_000 two_held
Reach-IsAccounted_example = Reach-IsAccounted 1_000 7 two_held Reach-two_held IsFew-two_held

split_two :
    Split two_held.held (record { height = 7; bytes = 580; urgent = true } ∷ []) one_held.held
split_two = taken _ (kept _ empty)

release_bytes-total_example :
    (b : BudgetState) × (release_bytes two_held.budget 580 ≡ some b) × (b.reserved_bytes ≡ 580)
release_bytes-total_example =
    release_bytes-total 1_000 7 two_held (record { height = 7; bytes = 580; urgent = true } ∷ [])
      one_held.held Reach-two_held IsFew-two_held split_two

abbrev after_cancel : System
after_cancel = record {
  budget = record { reserved_bytes = 0; first_missing_height = 7; cancelled = true };
  held = [];
}

-- The cancel, and then a release of the block that is held.
Reach-after_cancel : Reach 100 (record one_held { budget = cancel one_held.budget }) after_cancel
unfolding cancel release_bytes
Reach-after_cancel = next here (
    releases (record one_held { budget = cancel one_held.budget }) one_held.held []
      after_cancel.budget (taken _ empty) refl)

cancelled_forever_example : reserve 100 after_cancel.budget 7 500 ≡ some (err worker)
cancelled_forever_example = cancelled_forever 100 one_held after_cancel 7 500 Reach-after_cancel

Sends-two_blocks :
    Sends 10_000
      (segment 7 8)
      (test_block 7 ∷ test_block 8 ∷ [])
      (record { next_height = 9; end_height = 8 })
unfolding segment segment_send accept sender_send reserve must_wait encoded_size_bound channel
Sends-two_blocks =
    one_sent _ (record { next_height = 8; end_height = 8 }) _ true (channel 7)
      (record { reserved_bytes = 580; first_missing_height = 7; cancelled = false }) (test_block 7)
      _ refl
      (one_sent _ (record { next_height = 9; end_height = 8 }) _ true (channel 7)
        (record { reserved_bytes = 580; first_missing_height = 7; cancelled = false })
        (test_block 8) _ refl (none_sent _))

finished_two : finish_segment (record { next_height = 9; end_height = 8 }) ≡ ok tt
unfolding finish_segment
finished_two = refl

finish_segment-Heights_example : Heights 7 (test_block 7 ∷ test_block 8 ∷ []) × (7 + 2 ≡ 8 + 1)
finish_segment-Heights_example =
    finish_segment-Heights 10_000 7 8 (test_block 7 ∷ test_block 8 ∷ [])
      (record { next_height = 9; end_height = 8 }) (omega arith) Sends-two_blocks finished_two
