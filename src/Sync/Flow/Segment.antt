-- ===== src/Sync/Flow/Segment.antt =====
-- A segment that finishes without an error has sent each of its heights once, in order.
use mathlib.Core.Path.{subst}
use ztreamer.Prelude.{
  ℕ, ◌+◌, ◌≤◌, ◌<◌, ◌≡◌, refl, ◌∙◌, Bool, some, List, [], ◌∷◌, arith, length, ok,
}
use ztreamer.Chain.Types.{ParsedCompactBlock}
use ztreamer.Sync.Flow.{BudgetState, SegmentSender, segment, segment_send, finish_segment}

-- Sends of one segment that all returned `ok`. Between two sends the budget may change in any way.
pub data Sends (limit : ℕ) : SegmentSender → List ParsedCompactBlock → SegmentSender → Type 0 where
  none_sent : (seg : SegmentSender) → Sends limit seg [] seg
  one_sent :
      (seg seg' seg'' : SegmentSender) (connected : Bool) (s s' : BudgetState)
      (block : ParsedCompactBlock) (blocks : List ParsedCompactBlock)
      → segment_send limit connected seg s block ≡ some (ok tt, seg', s')
      → Sends limit seg' blocks seg''
      → Sends limit seg (block ∷ blocks) seg''

-- The heights from `start` on.
abbrev pub Heights : ℕ → List ParsedCompactBlock → Type 0
Heights start [] = Unit
Heights start (b ∷ bs) = (b.height ≡ start) × Heights (start + 1) bs

segment_send_ok :
    (limit : ℕ) (connected : Bool) (seg seg' : SegmentSender) (s s' : BudgetState)
    (block : ParsedCompactBlock)
    → segment_send limit connected seg s block ≡ some (ok tt, seg', s')
    → (block.height ≡ seg.next_height)
      × (block.height ≤ seg.end_height)
      × (seg'.next_height ≡ seg.next_height + 1)
      × (seg'.end_height ≡ seg.end_height)
unfolding segment_send
segment_send_ok limit connected seg seg' s s' block h = ground arith

Sends-Heights :
    {limit : ℕ} {seg : SegmentSender} {blocks : List ParsedCompactBlock} {seg' : SegmentSender}
    → Sends limit seg blocks seg'
    → Heights seg.next_height blocks
      × (seg'.next_height ≡ seg.next_height + length blocks)
      × (seg'.end_height ≡ seg.end_height)
      × (seg.next_height ≤ seg.end_height + 1 → seg'.next_height ≤ seg'.end_height + 1)
Sends-Heights (none_sent seg) = (tt, omega arith, refl, λ h. h)
Sends-Heights (one_sent seg seg' seg'' connected s s' block blocks sent more) =
    let (here, inside, next, end) = segment_send_ok _ connected seg seg' s s' block sent in
    let (later, count, end', room) = Sends-Heights more in
    (
      (here, subst (λ n. Heights n blocks) next later),
      omega (arith, next, count),
      end' ∙ end,
      λ h. room (omega (arith, here, inside, next, end)),
    )

-- If every send of a segment returned `ok`, and `finish` too, then the blocks that were sent have the
-- heights from the start of the segment to its end, each once and in ascending order.
pub finish_segment-Heights :
    (limit start end : ℕ) (blocks : List ParsedCompactBlock) (seg : SegmentSender)
    → start ≤ end
    → Sends limit (segment start end) blocks seg
    → finish_segment seg ≡ ok tt
    → Heights start blocks × (start + length blocks ≡ end + 1)
unfolding segment finish_segment
finish_segment-Heights limit start end blocks seg h sends done =
    let (heights, count, same_end, room) = Sends-Heights sends in
    let past : seg.end_height < seg.next_height = ground (arith, done) in
    (heights, omega (arith, count, same_end, room (omega arith), past))
