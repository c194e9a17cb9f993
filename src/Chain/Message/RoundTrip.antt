-- ===== src/Chain/Message/RoundTrip.antt =====
-- Stored records survive the passage through the compact-block messages.
use ztreamer.Prelude.{
  ℕ, ◌≤◌, ◌≡◌, List, [], ◌∷◌, arith, length, All, Bytes, ok, try_map-map, u32_max,
}
use ztreamer.Chain.Types.{
  Digest, CompactSaplingOutput, CompactShieldedAction, CompactTransaction, CompactBlockRecord,
}
use ztreamer.Chain.Message.{
  spend, output, action, transaction, to_proto, to_array, decode_output, decode_action,
  decode_transaction, from_proto,
}

-- The arrays of the record types have their lengths.
abbrev pub IsDigest : Digest → Type 0
IsDigest d = length d ≡ 32

pub record IsOutput (o : CompactSaplingOutput) : Type 0 where
  pub cmu : IsDigest o.cmu
  pub ephemeral_key : IsDigest o.ephemeral_key
  pub ciphertext : length o.ciphertext ≡ 52

pub record IsAction (a : CompactShieldedAction) : Type 0 where
  pub nullifier : IsDigest a.nullifier
  pub commitment : IsDigest a.commitment
  pub ephemeral_key : IsDigest a.ephemeral_key
  pub ciphertext : length a.ciphertext ≡ 52

pub record IsTransaction (tx : CompactTransaction) : Type 0 where
  pub txid : IsDigest tx.txid
  pub spends : All IsDigest tx.sapling_spends
  pub outputs : All IsOutput tx.sapling_outputs
  pub actions : All IsAction tx.orchard_actions
  pub ironwood : All IsAction tx.ironwood_actions

-- What the Rust types of a record say: the integers are u32, the arrays have their lengths.
pub record IsRecord (r : CompactBlockRecord) : Type 0 where
  pub height : r.height ≤ u32_max
  pub hash : IsDigest r.hash
  pub previous_hash : IsDigest r.previous_hash
  pub transactions : All IsTransaction r.transactions

All-map {ℓ κ ι} :
    {A : Type ℓ} {P : A → Type κ} {Q : A → Type ι}
    → ((x : A) → P x → Q x)
    → (xs : List A) → All P xs
    → All Q xs
All-map f [] h = tt
All-map f (x ∷ xs) h = (f x h.0, All-map f xs h.1)

decode_spend-spend : (d : Digest) → IsDigest d → to_array 32 (spend d).nf ≡ ok d
unfolding to_array spend
decode_spend-spend d h = ground arith

decode_output-output : (o : CompactSaplingOutput) → IsOutput o → decode_output (output o) ≡ ok o
unfolding decode_output output to_array
decode_output-output o h = ground arith

decode_action-action : (a : CompactShieldedAction) → IsAction a → decode_action (action a) ≡ ok a
unfolding decode_action action to_array
decode_action-action a h = ground arith

to_array_ok : (n : ℕ) (bs : Bytes) → length bs ≡ n → to_array n bs ≡ ok bs
unfolding to_array
to_array_ok n bs h = ground arith

decode_transaction-transaction :
    (tx : CompactTransaction) → IsTransaction tx → decode_transaction (transaction tx) ≡ ok tx
unfolding decode_transaction transaction
decode_transaction-transaction tx h = rw (
  to_array_ok 32 tx.txid h.txid,
  try_map-map (λ s. to_array 32 s.nf) spend tx.sapling_spends
      (All-map decode_spend-spend _ h.spends),
  try_map-map decode_output output tx.sapling_outputs (All-map decode_output-output _ h.outputs),
  try_map-map decode_action action tx.orchard_actions (All-map decode_action-action _ h.actions),
  try_map-map decode_action action tx.ironwood_actions (All-map decode_action-action _ h.ironwood),
)

-- A record whose arrays have their lengths and whose height is a u32 comes back from its message.
pub from_proto-to_proto : (r : CompactBlockRecord) → IsRecord r → from_proto (to_proto r) ≡ ok r
unfolding from_proto to_proto
from_proto-to_proto r h = ground (
  arith,
  to_array_ok 32 r.hash h.hash,
  to_array_ok 32 r.previous_hash h.previous_hash,
  try_map-map decode_transaction transaction r.transactions
      (All-map decode_transaction-transaction _ h.transactions),
)
