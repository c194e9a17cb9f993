-- ===== src/Index/Metadata/Identity.antt =====
-- The identity row: a new index keeps its chain, and an index of another chain or policy is refused.
use ztreamer.Prelude.{
  ℕ, ◌+◌, ◌-◌, ◌≤◌, ◌≡◌, refl, sym, ap, ◌∙◌, ◌↔◌, inl, inr, true, none, some, [], ◌++◌, arith,
  Bool-cases, length, take, drop, length-append, take-append, drop-append, Bytes, bytes_eq,
  bytes_eq_self, bytes_eq_iff, ok,
}
use ztreamer.Prelude.Utf8.{is_utf8}
use mathlib.Core.List.{append-nil, append_assoc}
use ztreamer.Chain.Endian.{le_bytes}
use ztreamer.Chain.Types.{Hash}
use ztreamer.Chain.Message.RoundTrip.{IsDigest}
use ztreamer.Chain.Cursor.{slice}
use ztreamer.Index.Metadata.{policy, identity_row, read_identity, check_identity}

slice_lem :
    (bytes : Bytes) (from to : ℕ)
    → from ≤ to
    → to ≤ length bytes
    → slice bytes from to ≡ some (take (to - from) (drop from bytes))
unfolding slice
slice_lem bytes from to h k = ground arith

length-policy : length policy ≡ 16
unfolding policy le_bytes
length-policy = refl

-- The middle of three parts.
slice_mid :
    (a b c : Bytes) (from to : ℕ)
    → from ≡ length a
    → to ≡ length a + length b
    → slice (a ++ (b ++ c)) from to ≡ some b
slice_mid a b c from to f t =
    slice_lem (a ++ (b ++ c)) from to (omega arith)
      (omega (arith, length-append a (b ++ c), length-append b c))
    ∙ ap some
        (rw (f, drop-append a (b ++ c)) (ap (λ n. take n (b ++ c)) (omega arith) ∙ take-append b c))

module _ (network : Bytes) (genesis : Hash) (digest : IsDigest genesis) where
  stored_policy : slice (identity_row network genesis) 0 16 ≡ some policy
  unfolding identity_row
  stored_policy = slice_mid [] policy (genesis ++ network) 0 16 refl (omega (arith, length-policy))

  stored_genesis : slice (identity_row network genesis) 16 48 ≡ some genesis
  unfolding identity_row
  stored_genesis =
      slice_mid policy genesis network 16 48 (sym length-policy)
        (omega (arith, length-policy, digest))

  stored_network :
      slice (identity_row network genesis) 48 (length (identity_row network genesis)) ≡ some network
  unfolding identity_row
  stored_network =
      let sized : length (policy ++ (genesis ++ network)) ≡ 48 + length network = omega (
        arith,
        length-policy,
        digest,
        length-append policy (genesis ++ network),
        length-append genesis network,
      ) in
      let parts : policy ++ (genesis ++ network) ≡ (policy ++ genesis) ++ (network ++ []) =
        ap (λ t. policy ++ (genesis ++ t)) (sym (append-nil network))
        ∙ sym (append_assoc policy genesis (network ++ [])) in
      rw parts (
        slice_mid (policy ++ genesis) network [] 48
          (length ((policy ++ genesis) ++ (network ++ [])))
          (omega (arith, length-policy, digest, length-append policy genesis))
          (omega
            (arith, length-append (policy ++ genesis) (network ++ []), length-append network [])))

-- The row of a chain is accepted by a later open for that chain, which writes nothing, and the chain read
-- from the row is that one. The name of the network is UTF-8, and the hash has 32 bytes.
pub read_identity-identity_row :
    (network : Bytes) (genesis : Hash)
    → is_utf8 network ≡ true
    → IsDigest genesis
    → (read_identity (some (identity_row network genesis))
        ≡ ok (record { network = network; genesis_hash = genesis }))
      × (check_identity network genesis (some (identity_row network genesis)) ≡ ok none)
unfolding read_identity identity_row check_identity
read_identity-identity_row network genesis valid digest = (
  rw
      (
        stored_policy network genesis digest,
        stored_genesis network genesis digest,
        stored_network network genesis digest,
        bytes_eq_self policy,
        valid,
      )
      refl,
  rw (bytes_eq_self (policy ++ (genesis ++ network))) refl,
)

-- A later open is refused exactly where the stored row is not that of its chain and of the fixed policy.
pub check_identity_iff :
    (network : Bytes) (genesis : Hash) (stored : Bytes)
    → (check_identity network genesis (some stored) ≡ ok none)
      ↔ (stored ≡ identity_row network genesis)
unfolding check_identity
check_identity_iff network genesis stored = (
  λ h. elim (Bool-cases (bytes_eq stored (identity_row network genesis))) [
    | inl e ↦ (bytes_eq_iff stored (identity_row network genesis)).0 e
    | inr ne ↦ absurd (let k = rw ne at h in cc)
  ],
  λ e. rw ((bytes_eq_iff stored (identity_row network genesis)).1 e) refl,
)
