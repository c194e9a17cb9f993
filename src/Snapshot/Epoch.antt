-- ===== src/Snapshot/Epoch.antt =====
-- crates/snapshot/src/epoch.rs.
pub mod Grouping
pub mod Partition
pub mod Part
use ztreamer.Prelude.{
  ℕ, zero, suc, ◌+◌, ◌-◌, Bool, false, ◌||◌, Option, none, some, List, [], ◌∷◌, leb, ◌==◌,
  if◌then◌else◌, length, get_elem?, take, drop, last?,
}
use ztreamer.Chain.TreeSizes
use ztreamer.Snapshot.Entry.{ManifestEntry}

abbrev pub max_ranges : ℕ
max_ranges = 10

abbrev pub max_commitments : ℕ
max_commitments = 1_000_000

pub record Epoch : Type 0 where
  pub entries : List ManifestEntry
  pub previous : Option ManifestEntry
  pub closed_by_rule : Bool

unfoldable pub rule_closes : ℕ → ℕ → Bool
rule_closes ranges commitments = leb max_ranges ranges || leb max_commitments commitments

-- `position` of the entry that ends at `height`.
unfoldable pub position_of_end : ℕ → List ManifestEntry → Option ℕ
position_of_end height [] = none
position_of_end height (e ∷ es) =
    let rest = position_of_end height es in
    if e.end_height == height then some 0 else elim rest [ none ↦ none | some at ↦ some (at + 1) ]

unfoldable pub ends_previous : ℕ → Option ManifestEntry → Bool
ends_previous height none = false
ends_previous height (some previous) = previous.end_height == height

unfoldable pub part_after : Epoch → ℕ → Option Epoch
unfolding ends_previous
part_after epoch height =
    if ends_previous height epoch.previous
    then some epoch
    else elim (position_of_end height epoch.entries) [
      | none ↦ none
      | some at ↦ elim (drop (at + 1) epoch.entries) [
        | [] ↦ none
        | e ∷ es ↦ some (record {
          entries = e ∷ es;
          previous = last? (take (at + 1) epoch.entries);
          closed_by_rule = epoch.closed_by_rule;
        })
      ]
    ]

pub record Epochs : Type 0 where
  pub all_entries : List ManifestEntry
  pub start : ℕ

-- `Epochs::starting_at`
unfoldable pub starting_at : List ManifestEntry → ℕ → Epochs
starting_at entries start = record { all_entries = entries; start = start }

-- `Epochs::new`
unfoldable pub epochs_new : List ManifestEntry → Epochs
epochs_new entries = record { all_entries = entries; start = 0 }

abbrev pub total_of : Option ManifestEntry → ℕ
total_of none = 0
total_of (some e) = TreeSizes.total e.end_tree_sizes

-- The commitments that an entry adds above `base`, saturating.
abbrev pub added : ℕ → ManifestEntry → ℕ
added base e = TreeSizes.total e.end_tree_sizes - base

-- `position` of the first entry at which the rule closes, where `at` entries come before these.
unfoldable pub closing_position : ℕ → ℕ → List ManifestEntry → Option ℕ
closing_position base at [] = none
closing_position base at (e ∷ es) =
    let rest = closing_position base (at + 1) es in
    if rule_closes (at + 1) (added base e) then some at else rest

-- The length of the epoch at the start of `rest`.
unfoldable pub epoch_len : ℕ → List ManifestEntry → ℕ
epoch_len base rest = elim (closing_position base 0 rest) [ none ↦ length rest | some at ↦ at + 1 ]

abbrev pub entry_before : List ManifestEntry → ℕ → Option ManifestEntry
entry_before entries zero = none
entry_before entries (suc start) = get_elem? entries start

unfoldable pub last_closes : ℕ → ℕ → Option ManifestEntry → Bool
last_closes base len none = false
last_closes base len (some last) = rule_closes len (added base last)

-- The epoch of the first `len` entries of `rest`, which `next` returns.
unfoldable pub epoch_of : Option ManifestEntry → ℕ → List ManifestEntry → Epoch
unfolding last_closes
epoch_of previous len rest = record {
  entries = take len rest;
  previous = previous;
  closed_by_rule = last_closes (total_of previous) len (last? (take len rest));
}

-- `Epochs::next`
unfoldable pub next_epoch : Epochs → Option Epoch × Epochs
unfolding epoch_of epoch_len
next_epoch s = elim (drop s.start s.all_entries) [
  | [] ↦ (none, s)
  | e ∷ es ↦
      let previous = entry_before s.all_entries s.start in
      let len = epoch_len (total_of previous) (e ∷ es) in
      (some (epoch_of previous len (e ∷ es)), record s { start = s.start + len })
]

-- `collect` of the epochs, with fuel.
unfoldable pub all_epochs : ℕ → Epochs → List Epoch
unfolding next_epoch
all_epochs zero s = []
all_epochs (suc fuel) s =
    let (epoch, s') = next_epoch s in
    let rest = all_epochs fuel s' in elim epoch [ none ↦ [] | some e ↦ e ∷ rest ]
