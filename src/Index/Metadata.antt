-- ===== src/Index/Metadata.antt =====
-- The rows of the metadata table: crates/index/src/index/metadata.rs.
pub mod StateRow
pub mod Accepted
pub mod RowFields
pub mod Identity
use ztreamer.Prelude.{
  ℕ, ◌-◌, ◌%◌, Bool, true, false, not, ◌||◌, Option, none, some, [], ◌∷◌, ◌++◌, ltb, ◌==◌,
  if◌then◌else◌, length, get_elem?, take, drop, Bytes, bytes_eq, Result, ok, err, ◌>>=◌, ok_or,
}
use ztreamer.Prelude.Utf8.{is_utf8}
use ztreamer.Chain.Types.{Hash, range_size}
use ztreamer.Chain.Endian.{be_bytes, from_be}
use ztreamer.Chain.Codec.{of_bool}
use ztreamer.Chain.Cursor.{slice}
use ztreamer.Index.Error.{IndexError, metadata, identity}
use ztreamer.Index.State.{IndexState}

abbrev pub state_v1_bytes : ℕ
state_v1_bytes = 62

abbrev pub state_v2_bytes : ℕ
state_v2_bytes = 67

abbrev pub is_some {ℓ} : {A : Type ℓ} → Option A → Bool
is_some none = false
is_some (some a) = true

abbrev pub unwrap_or_default : Option ℕ → ℕ
unwrap_or_default none = 0
unwrap_or_default (some n) = n

abbrev pub version_of : Option ℕ → ℕ
version_of none = 1
version_of (some v) = 2

abbrev pub verified_bytes : Option ℕ → Bytes
verified_bytes none = []
verified_bytes (some v) = 1 ∷ be_bytes 4 v

-- `none` is the panic on a state without a tip.
unfoldable pub encode_state : IndexState → Option Bytes
encode_state s = elim s.durable_tip [
  | none ↦ none
  | some tip ↦ some (
      version_of s.verified_through
      ∷ (be_bytes 4 tip.height
          ++ (tip.hash
              ++ (of_bool (is_some s.sealed_through)
                  ∷ (be_bytes 4 (unwrap_or_default s.sealed_through)
                      ++ (be_bytes 8 s.generation
                          ++ (be_bytes 4 s.tree_sizes.sapling
                              ++ (be_bytes 4 s.tree_sizes.orchard
                                  ++ (be_bytes 4 s.tree_sizes.ironwood
                                      ++ verified_bytes s.verified_through)))))))))
]

-- `bytes[i]`, where the length is checked before.
abbrev pub byte_at : Bytes → ℕ → ℕ
byte_at bytes i = unwrap_or_default (get_elem? bytes i)

abbrev pub u32_at : Bytes → ℕ → ℕ
u32_at bytes start = from_be (take 4 (drop start bytes))

abbrev pub state_len : Option ℕ → Result IndexError ℕ
state_len none = err metadata
state_len (some v) =
    if v == 1 then ok state_v1_bytes else if v == 2 then ok state_v2_bytes else err metadata

abbrev pub bad_sealed : Option ℕ → ℕ → Bool
bad_sealed none tip = false
bad_sealed (some s) tip = ltb tip s || not (s % range_size == range_size - 1)

abbrev pub bad_verified : Option ℕ → Option ℕ → Bool
bad_verified none sealed = false
bad_verified (some v) none = true
bad_verified (some v) (some s) = ltb s v || not (v % range_size == range_size - 1)

abbrev pub read_verified : Bytes → Option ℕ → Result IndexError (Option ℕ)
read_verified bytes none = ok none
read_verified bytes (some flag) =
    if flag == 0 then ok none else if flag == 1 then ok (some (u32_at bytes 63)) else err metadata

unfoldable pub decode_state : Bytes → Result IndexError IndexState
decode_state bytes = state_len (get_elem? bytes 0) >>= λ expected.
    if not (length bytes == expected) || ltb 1 (byte_at bytes 37)
    then err metadata
    else (let tip_height = u32_at bytes 1 in
        let sealed = if byte_at bytes 37 == 1 then some (u32_at bytes 38) else none in
        if bad_sealed sealed tip_height
        then err metadata
        else (read_verified bytes (get_elem? bytes 62) >>= λ verified.
            if bad_verified verified sealed
            then err metadata
            else ok (record {
              durable_tip = some (record { height = tip_height; hash = take 32 (drop 5 bytes) });
              sealed_through = sealed;
              verified_through = verified;
              generation = from_be (take 8 (drop 42 bytes));
              tree_sizes = record {
                sapling = u32_at bytes 50;
                orchard = u32_at bytes 54;
                ironwood = u32_at bytes 58;
              };
            })))

abbrev pub schema_version : ℕ
schema_version = 1

abbrev pub persist_depth : ℕ
persist_depth = 10

abbrev pub seal_depth : ℕ
seal_depth = 100

-- The network is the UTF-8 bytes of its name.
pub record ChainIdentity : Type 0 where
  pub network : Bytes
  pub genesis_hash : Hash

unfoldable pub policy : Bytes
policy =
    be_bytes 4 schema_version
    ++ (be_bytes 4 range_size ++ (be_bytes 4 persist_depth ++ be_bytes 4 seal_depth))

-- `identity`
unfoldable pub identity_row : Bytes → Hash → Bytes
identity_row network genesis_hash = policy ++ (genesis_hash ++ network)

-- `Metadata::get_identity`, on the stored row.
unfoldable pub read_identity : Option Bytes → Result IndexError ChainIdentity
read_identity none = err identity
read_identity (some stored) = ok_or (slice stored 0 16) identity >>= λ stored_policy.
    ok_or (slice stored 16 48) identity >>= λ genesis.
    ok_or (slice stored 48 (length stored)) identity >>= λ network.
    if not (bytes_eq stored_policy policy)
    then err identity
    else if is_utf8 network
    then ok (record { network = network; genesis_hash = genesis })
    else err identity

-- `Metadata::put_or_check_identity`: the row to put, if any.
unfoldable pub check_identity : Bytes → Hash → Option Bytes → Result IndexError (Option Bytes)
check_identity network genesis_hash none = ok (some (identity_row network genesis_hash))
check_identity network genesis_hash (some stored) =
    if not (bytes_eq stored (identity_row network genesis_hash)) then err identity else ok none
