-- ===== src/Tests/Head.antt =====
-- The poll of the canonical head, at a node with one block above the anchor.
use ztreamer.Prelude.{
  ◌≡◌, ap, none, some, [], ◌∷◌, arith, ◌==◌, if◌then◌else◌, ok, ◌>>=◌, try_map, map_err,
  try_map-map, bytes_eq,
}
use ztreamer.Chain.Cursor.{slice}
use ztreamer.Chain.Endian.{le_bytes}
use ztreamer.Chain.Parser.Block.{parse_block}
use ztreamer.Sync.Head.{
  done, parse_error, CanonicalBlockSource, CanonicalSuffix, same_hash, linked_count, last_read,
  retained_of, bisect, canonical_count, read_blocks, read_all, check_anchor, check_unchanged,
  read_suffix, poll_canonical_head,
}
use ztreamer.Sync.Head.Polled.{ParsedLinked, poll_canonical_head-ParsedLinked}
use ztreamer.Sync.Head.Fuel.{read_all-enough, bisect-enough}
use ztreamer.Tests.Blocks.{copies, test_hash}
use ztreamer.Tests.Parser.{raw_block, parsed_block, parse_block-parsed, parsed_record}

abbrev node : CanonicalBlockSource (Unit {0})
node = record {
  block = λ height. done (if height == 5 then some raw_block else none);
  block_hash = λ height.
      done
        (if height == 4 then some (copies 32 7) else if height == 5 then some test_hash else none);
}

abbrev polled : CanonicalSuffix
polled = record { retained = none; blocks = parsed_block ∷ [] }

all_parsed : try_map parse_block (raw_block ∷ []) ≡ ok (parsed_block ∷ [])
all_parsed = try_map-map parse_block (λ _. raw_block) (parsed_block ∷ []) (parse_block-parsed, tt)

poll_canonical_head-polled : poll_canonical_head node 1000 5 (copies 32 7) [] tt ≡ (ok polled, tt)
unfolding slice same_hash linked_count last_read retained_of bisect canonical_count read_blocks
    read_all check_anchor check_unchanged read_suffix poll_canonical_head bytes_eq le_bytes
poll_canonical_head-polled =
    ap
      (λ m.
        (map_err parse_error m >>= λ blocks. ok (record { retained = none; blocks = blocks }), tt))
      all_parsed

poll_canonical_head-ParsedLinked_example : ParsedLinked (copies 32 7) (parsed_block ∷ [])
poll_canonical_head-ParsedLinked_example =
    poll_canonical_head-ParsedLinked node 1000 5 (copies 32 7) [] tt tt polled
      poll_canonical_head-polled

-- From the height of the block on, with more fuel.
read_all-enough_example :
    read_all node 1000 5 5 (copies 32 7) tt
    ≡ read_blocks node 1000 5_000_000_000 5 5 (copies 32 7) tt
read_all-enough_example =
    read_all-enough node 1000 5_000_000_000 5 5 (copies 32 7) tt (omega arith) (omega arith)

-- An interval of two known blocks.
bisect-enough_example :
    bisect node 1000 2 0 2 (parsed_record ∷ parsed_record ∷ []) tt
    ≡ bisect node 1000 9 0 2 (parsed_record ∷ parsed_record ∷ []) tt
bisect-enough_example =
    bisect-enough node 1000 2 9 0 2 (parsed_record ∷ parsed_record ∷ []) tt (omega arith)
      (omega arith)
