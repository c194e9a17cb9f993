-- ===== src/Tests/Epochs.antt =====
-- The theorems of the epochs, at a manifest of three entries.
use ztreamer.Prelude.{ℕ, ◌+◌, ◌≡◌, refl, ◌⊎◌, true, false, none, some, List, [], ◌∷◌, map, length}
use ztreamer.Prelude.{flatten}
use ztreamer.Chain.TreeSizes.{total}
use ztreamer.Snapshot.Entry.{ManifestEntry}
use ztreamer.Snapshot.Epoch.{
  Epoch, rule_closes, closing_position, epoch_len, epoch_of, last_closes, next_epoch, all_epochs,
  starting_at, part_after, position_of_end, ends_previous,
}
use ztreamer.Snapshot.Epoch.Partition.{Partition, starting_at-Partition}
use ztreamer.Snapshot.Epoch.Part.{EndsAt, IsPart, part_after-IsPart}
use ztreamer.Tests.Blocks.{copies, test_hash}

-- A range of 1,000 heights with a Sapling tree of `sapling` notes at its end.
abbrev test_entry : ℕ → ℕ → ManifestEntry
test_entry start_height sapling = record {
  range_version = 1;
  start_height = start_height;
  end_height = start_height + 999;
  end_hash = test_hash;
  end_tree_sizes = record { sapling = sapling; orchard = 0; ironwood = 0 };
  frontiers = record { sapling = []; orchard = []; ironwood = [] };
  subtree_roots = [];
  blob_digest = copies 32 0;
  blob_len = 5;
  epoch_end = false;
}

-- The second entry reaches the cap of commitments.
abbrev test_entries : List ManifestEntry
test_entries = test_entry 0 999_999 ∷ test_entry 1_000 1_000_000 ∷ test_entry 2_000 1_000_005 ∷ []

abbrev test_epochs : List Epoch
test_epochs =
    record {
      entries = test_entry 0 999_999 ∷ test_entry 1_000 1_000_000 ∷ [];
      previous = none;
      closed_by_rule = true;
    }
    ∷ record {
      entries = test_entry 2_000 1_000_005 ∷ [];
      previous = some (test_entry 1_000 1_000_000);
      closed_by_rule = false;
    }
    ∷ []

all_epochs-test : all_epochs (length test_entries) (starting_at test_entries 0) ≡ test_epochs
unfolding all_epochs next_epoch epoch_of last_closes epoch_len closing_position rule_closes
    starting_at total
all_epochs-test = refl

starting_at-Partition_example :
    Partition test_entries 0 (all_epochs 3 (starting_at test_entries 0))
    × (flatten (map (λ e. e.entries) (all_epochs 3 (starting_at test_entries 0))) ≡ test_entries)
starting_at-Partition_example = starting_at-Partition test_entries 0

abbrev full_epoch : Epoch
full_epoch = record {
  entries = test_entry 0 999_999 ∷ test_entry 1_000 1_000_000 ∷ [];
  previous = none;
  closed_by_rule = true;
}

abbrev last_part : Epoch
last_part = record {
  entries = test_entry 1_000 1_000_000 ∷ [];
  previous = some (test_entry 0 999_999);
  closed_by_rule = true;
}

part_after-test : part_after full_epoch 999 ≡ some last_part
unfolding part_after position_of_end ends_previous
part_after-test = refl

part_after-IsPart_example :
    ((last_part ≡ full_epoch) × EndsAt 999 full_epoch.previous) ⊎ IsPart full_epoch 999 last_part
part_after-IsPart_example = part_after-IsPart full_epoch last_part 999 part_after-test
