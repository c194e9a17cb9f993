-- ===== src/Index/Tables/Checked.antt =====
-- The chain check of a packed range, in crates/index/src/index/tables.rs, and the blobs that passed it:
-- crates/index/src/index/checked_range.rs.
use ztreamer.Prelude.{
  ℕ, ◌+◌, ◌-◌, Bool, false, not, ◌||◌, ◌&&◌, Option, none, some, List, [], ◌∷◌, ◌++◌, ◌==◌,
  if◌then◌else◌, length, Bytes, bytes_eq, Result, ok, err, ◌>>=◌, map_err, try_fold,
}
use ztreamer.Chain.TreeSizes
use ztreamer.Chain.TreeSizes.{TreeSizes}
use ztreamer.Chain.Types.{Hash, CodecError, CompactBlockRecord, check}
use ztreamer.Chain.Record.{Prost}
use ztreamer.Chain.Range.{full_records}
use ztreamer.Snapshot.Entry.{ManifestEntry, BlobMismatch, len, digest, check_blob}
use ztreamer.Index.Error.{IndexError, codec, range_blob, bad_blob}
use ztreamer.Index.State.{BlockId}
use ztreamer.Index.Tables.{SealedRange, sealed_range_end, from_envelope, range_read, heights_from}

pub data RangeCheckError (E : Type 0) : Type 0 where
  blob : BlobMismatch → RangeCheckError E
  envelope : CodecError → RangeCheckError E
  bad_record : ℕ → CodecError → RangeCheckError E
  chain : ℕ → RangeCheckError E
  visit : E → RangeCheckError E

pub record FirstLink : Type 0 where
  pub previous_hash : Hash
  pub tree_sizes : TreeSizes

pub record RangeChain : Type 0 where
  pub ids : List BlockId
  pub first : FirstLink
  pub last : CompactBlockRecord

-- The variables of the loop of `check_chain_with`.
pub record Checking : Type 0 where
  pub ids : List BlockId
  pub below : Option (Hash × TreeSizes)
  pub first : Option FirstLink
  pub last : Option CompactBlockRecord

-- The record does not continue the chain above the block below.
abbrev pub breaks : Option (Hash × TreeSizes) → CompactBlockRecord → Bool
breaks none r = false
breaks (some (hash, sizes)) r =
    not (bytes_eq r.previous_hash hash) || not (TreeSizes.follows r.end_tree_sizes sizes)

-- `get_or_insert`
abbrev pub get_or_insert : Option FirstLink → FirstLink → Option FirstLink
get_or_insert none link = some link
get_or_insert (some old) link = some old

unfoldable pub first_link : CompactBlockRecord → FirstLink
first_link r = record { previous_hash = r.previous_hash; tree_sizes = r.end_tree_sizes }

unfoldable pub checked_by : Checking → ℕ → CompactBlockRecord → Checking
unfolding first_link
checked_by c height r = record {
  ids = c.ids ++ (record { height = height; hash = r.hash } ∷ []);
  below = some (r.hash, r.end_tree_sizes);
  first = get_or_insert c.first (first_link r);
  last = some r;
}

-- The range that was checked; `none` is the panic of a range without a height.
abbrev pub chain_of : Checking → Option RangeChain
chain_of c = elim c.first [
  | none ↦ none
  | some first ↦ elim c.last [
    | none ↦ none
    | some last ↦ some (record { ids = c.ids; first = first; last = last })
  ]
]

abbrev pub checking_from : Option (Hash × TreeSizes) → Checking
checking_from parent = record { ids = []; below = parent; first = none; last = none }

module _ {E : Type 0} (prost : Prost) (visitor : CompactBlockRecord → Result E (Unit {0})) where
  -- One turn of the loop.
  unfoldable pub check_turn : SealedRange → Checking → ℕ → Result (RangeCheckError E) Checking
  check_turn r c height =
      map_err (bad_record height)
        (range_read (full_records prost) r height >>= λ decoded. check decoded >>= λ _. ok decoded)
      >>= λ decoded. map_err visit (visitor decoded) >>= λ _.
          if not (decoded.height == height) || breaks c.below decoded
          then err (chain height)
          else ok (checked_by c height decoded)

  -- `SealedRange::check_chain_with`
  unfoldable pub check_chain_with :
      SealedRange → Option (Hash × TreeSizes) → Result (RangeCheckError E) (Option RangeChain)
  check_chain_with r parent =
      try_fold (check_turn r) (checking_from parent)
        (heights_from r.start (sealed_range_end r + 1 - r.start))
      >>= λ c. ok (chain_of c)

-- `RangeChain::links_to`
unfoldable pub links_to : RangeChain → Hash → TreeSizes → Bool
links_to c parent sizes =
    bytes_eq c.first.previous_hash parent && TreeSizes.follows c.first.tree_sizes sizes

-- `RangeCheckError::into_index_error`, where nothing is visited.
unfoldable pub into_index_error : ℕ → RangeCheckError ⊥ → IndexError
into_index_error start (blob mismatch) = bad_blob start mismatch
into_index_error start (envelope source) = codec source
into_index_error start (bad_record height source) = codec source
into_index_error start (chain height) = range_blob height
into_index_error start (visit never) = absurd never

-- `SealedRange::check_chain`
unfoldable pub check_chain :
    Prost → SealedRange → Hash → TreeSizes → Result IndexError (Option RangeChain)
check_chain prost r parent sizes =
    map_err (into_index_error r.start)
      (check_chain_with prost (λ _. ok tt) r (some (parent, sizes)))

pub record CheckedRange : Type 0 where
  pub blob_bytes : Bytes
  pub blob_digest : Bytes
  pub start : ℕ
  pub checked_chain : Option RangeChain

-- `CheckedRange::check_with`
unfoldable pub check_with :
    {E : Type 0}
    → Prost
    → (Bytes → Bytes)
    → (CompactBlockRecord → Result E (Unit {0}))
    → Bytes
    → ManifestEntry
    → Result (RangeCheckError E) CheckedRange
check_with prost blake3 visitor bytes entry = map_err blob (check_blob blake3 entry bytes) >>= λ _.
    map_err envelope (from_envelope bytes) >>= λ r. check_chain_with prost visitor r none >>= λ c.
    ok (record {
      blob_bytes = bytes;
      blob_digest = entry.blob_digest;
      start = r.start;
      checked_chain = c;
    })

-- `CheckedRange::check_entry_blob`
unfoldable pub check_entry_blob : CheckedRange → ManifestEntry → Result BlobMismatch (Unit {0})
check_entry_blob r entry =
    if not (entry.blob_len == length r.blob_bytes)
    then err (len entry.blob_len (length r.blob_bytes))
    else if bytes_eq entry.blob_digest r.blob_digest
    then ok tt
    else err digest
