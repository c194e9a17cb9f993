-- ===== src/Index/Builder/Push.antt =====
-- What push does, on every branch.
use ztreamer.Prelude.{
  ℕ, ◌+◌, ◌-◌, ◌≤◌, ◌<◌, ◌≡◌, refl, sym, ap, ◌∙◌, ◌≢◌, inl, inr, true, false, none, some, arith,
  ltb, leb, ◌==◌, if◌then◌else◌, ==_iff, Bool-cases, length, Result, ok, err, Result-cases,
  usize_max,
}
use ztreamer.Prelude.Tree
use ztreamer.Prelude.Tree.{Tree, IsMap}
use ztreamer.Chain.Types.{CodecError, ParsedCompactBlock, encoded_size_bound}
use ztreamer.Index.Builder.{
  IngestError, OrderedBuilder, push_sized, is_duplicate, next_ready, extend_ready, push,
  duplicate_height, codec, overflow, pending_limit,
}
use ztreamer.Index.Builder.Invariant.{entry_bytes, IsOrdered, IsBuilt, prefix_bytes-same}
use ztreamer.Index.Builder.Ready.{SameBut-refl, Extended, extend_ready-IsBuilt}

module _ (b : OrderedBuilder) (block : ParsedCompactBlock) (bytes : ℕ) (built : IsBuilt b)
    (above : b.next_height ≤ block.height) (absent : Tree.get block.height b.pending ≡ none)
    (fits : b.pending_bytes + bytes ≤ b.max_pending_bytes) where
  abbrev w : IsOrdered b
  w = built.ordered

  abbrev added : OrderedBuilder
  added = record b {
    pending = Tree.insert block.height (block, bytes) b.pending;
    pending_bytes = b.pending_bytes + bytes;
  }

  get_other : (h : ℕ) → h ≢ block.height → Tree.get h added.pending ≡ Tree.get h b.pending
  get_other h ne = ground (arith, Tree.get-insert block.height h (block, bytes) b.pending)

  get_self : Tree.get block.height added.pending ≡ some (block, bytes)
  get_self = ground (arith, Tree.get-insert block.height block.height (block, bytes) b.pending)

  -- A height of the ready prefix is not the height of the new block.
  not_ready : (h : ℕ) → b.next_height ≤ h → h < b.ready_end → h ≢ block.height
  not_ready h lo hi e = w.ready_present h lo hi (ap (λ k. Tree.get k b.pending) e ∙ absent)

  added-at_key :
      (h : ℕ) (e : ParsedCompactBlock × ℕ)
      → Tree.get h added.pending ≡ some e
      → (e.0.height ≡ h) × (b.next_height ≤ h)
  added-at_key h e there = elim (Bool-cases (block.height == h)) [
    | inl same ↦ ground (arith, there, Tree.get-insert block.height h (block, bytes) b.pending)
    | inr other ↦
        w.at_key h e
          (ground (arith, there, Tree.get-insert block.height h (block, bytes) b.pending))
  ]

  added-IsOrdered : IsOrdered added
  added-IsOrdered = record {
    is_map = Tree.insert-IsMap block.height (block, bytes) b.pending w.is_map;
    next_fits = w.next_fits;
    limit_fits = w.limit_fits;
    total = omega (
      arith,
      w.total,
      Tree.total_of-insert entry_bytes block.height (block, bytes) b.pending absent,
    );
    limit = fits;
    at_key = added-at_key;
    ready_after = w.ready_after;
    ready_present =
        λ h lo hi gone. w.ready_present h lo hi (sym (get_other h (not_ready h lo hi)) ∙ gone);
    ready_total =
        w.ready_total
        ∙ sym (
            prefix_bytes-same (b.ready_end - b.next_height) b.next_height b.pending added.pending
              (λ h lo hi. get_other h (not_ready h lo (omega (arith, w.ready_after)))));
  }

  added-gap : block.height ≢ b.ready_end → next_ready added ≡ none
  unfolding next_ready
  added-gap ne = ground (arith, built.gap, get_other b.ready_end (λ e. ne (sym e)))

  -- The rest of push, once the block is inserted.
  abbrev extended : Result IngestError (Unit {0}) × OrderedBuilder
  extended =
      if block.height == b.ready_end
      then extend_ready (length added.pending) added
      else (ok tt, added)

  extended-IsBuilt : Extended added extended
  extended-IsBuilt = elim (Bool-cases (block.height == b.ready_end)) [
    | inl same ↦ rw same (
        extend_ready-IsBuilt (length added.pending) added added-IsOrdered
          (Tree.above-le-length added.ready_end added.pending))
    | inr other ↦ rw other (
      refl,
      record { ordered = added-IsOrdered; gap = added-gap (λ e. cc (other, (==_iff _ _).1 e)) },
      SameBut-refl added,
    )
  ]

-- What a push may come to: an error and the same builder, or a builder with the block in place.
pub data Pushed (b : OrderedBuilder) (block : ParsedCompactBlock)
    : Result IngestError (Unit {0}) × OrderedBuilder → Type 0 where
  refused :
      (e : IngestError) (out : Result IngestError (Unit {0}) × OrderedBuilder)
      → out ≡ (err e, b)
      → Pushed b block out
  added_block :
      (bytes : ℕ) (out : Result IngestError (Unit {0}) × OrderedBuilder)
      → out.0 ≡ ok tt
      → encoded_size_bound block.transactions ≡ ok bytes
      → out.1.pending ≡ Tree.insert block.height (block, bytes) b.pending
      → out.1.next_height ≡ b.next_height
      → IsBuilt out.1
      → Pushed b block out

module _ (b : OrderedBuilder) (block : ParsedCompactBlock) where
  new_block :
      is_duplicate b block ≡ false
      → (b.next_height ≤ block.height) × (Tree.get block.height b.pending ≡ none)
  unfolding is_duplicate
  new_block h = ground (arith, h)

  module _ (bytes : ℕ) where
    sized_overflow :
        leb (b.pending_bytes + bytes) usize_max ≡ false
        → push_sized b block bytes ≡ (err overflow, b)
    unfolding push_sized
    sized_overflow over = rw (over, push_sized)

    sized_limit :
        leb (b.pending_bytes + bytes) usize_max ≡ true
        → ltb b.max_pending_bytes (b.pending_bytes + bytes) ≡ true
        → push_sized b block bytes ≡ (err (pending_limit b.max_pending_bytes), b)
    unfolding push_sized
    sized_limit fits over = rw (fits, over, push_sized)

    sized_added :
        (built : IsBuilt b) (above : b.next_height ≤ block.height)
        (absent : Tree.get block.height b.pending ≡ none)
        (room : b.pending_bytes + bytes ≤ b.max_pending_bytes)
        → push_sized b block bytes ≡ extended b block bytes built above absent room
    unfolding push_sized
    sized_added built above absent room =
        let fits : leb (b.pending_bytes + bytes) usize_max ≡ true =
          ground (arith, built.ordered.limit_fits, room) in
        let under : ltb b.max_pending_bytes (b.pending_bytes + bytes) ≡ false =
          ground (arith, room) in
        rw (fits, under, push_sized)

    push_sized-Pushed :
        IsBuilt b
        → encoded_size_bound block.transactions ≡ ok bytes
        → is_duplicate b block ≡ false
        → Pushed b block (push_sized b block bytes)
    push_sized-Pushed built size new = elim (Bool-cases (leb (b.pending_bytes + bytes) usize_max)) [
      | inr over ↦ refused overflow _ (sized_overflow over)
      | inl fits ↦ elim (Bool-cases (ltb b.max_pending_bytes (b.pending_bytes + bytes))) [
        | inl over ↦ refused (pending_limit b.max_pending_bytes) _ (sized_limit fits over)
        | inr free ↦
            let (above, absent) = new_block new in
            let room : b.pending_bytes + bytes ≤ b.max_pending_bytes = ground (arith, free) in
            let (done, kept, same) = extended-IsBuilt b block bytes built above absent room in
            rw (sized_added built above absent room)
              (added_block bytes _ done size same.pending same.next_height kept)
      ]
    ]

  push_duplicate :
      is_duplicate b block ≡ true → push b block ≡ (err (duplicate_height block.height), b)
  unfolding push
  push_duplicate h = rw h

  push_too_long :
      (e : CodecError)
      → is_duplicate b block ≡ false
      → encoded_size_bound block.transactions ≡ err e
      → push b block ≡ (err (codec e), b)
  unfolding push
  push_too_long e h k = rw (h, k)

  push_measured :
      (bytes : ℕ)
      → is_duplicate b block ≡ false
      → encoded_size_bound block.transactions ≡ ok bytes
      → push b block ≡ push_sized b block bytes
  unfolding push
  push_measured bytes h k = rw (h, k)

  -- On a builder in order, `push` either returns an error and leaves the builder as it was, or
  -- returns `ok` and a builder in order that holds the block, with its size estimate, at its height.
  pub push-Pushed : IsBuilt b → Pushed b block (push b block)
  push-Pushed built = elim (Bool-cases (is_duplicate b block)) [
    | inl old ↦ refused (duplicate_height block.height) _ (push_duplicate old)
    | inr new ↦ elim (Result-cases (encoded_size_bound block.transactions)) [
      | inr (e, long) ↦ refused (codec e) _ (push_too_long e new long)
      | inl (bytes, size) ↦
          rw (push_measured bytes new size) (push_sized-Pushed bytes built size new)
    ]
  ]

  Pushed-IsBuilt :
      (out : Result IngestError (Unit {0}) × OrderedBuilder)
      → IsBuilt b
      → Pushed b block out
      → IsBuilt out.1
  Pushed-IsBuilt out built (refused e o is) = rw is built
  Pushed-IsBuilt out built (added_block bytes o done size pending next kept) = kept

  pub push-IsBuilt : IsBuilt b → IsBuilt (push b block).1
  push-IsBuilt built = Pushed-IsBuilt (push b block) built (push-Pushed built)
