-- ===== src/Submissions/Eip712.antt =====
-- pkgs/crypto/eip712.go: hashing a request, and recovering the signer of a signature.
-- go-ethereum is not part of the repository: what the code calls of it is the record `Ethereum`.
use snapshot_sequencer_valid.Base.{
  ℕ, zero, suc, ◌-◌, ◌*◌, ◌^◌, ◌≤◌, Text, bytes, Bool, ◌&&◌, not, Option, none, some, List, [], ◌∷◌,
  ◌++◌, take, length, ltb, nat_eqb, if◌then◌else◌,
}
use snapshot_sequencer_valid.Submissions.Types.{
  SnapshotRequest, Address, Outcome, ok, err, panic, ◌>>=◌, signature_length, hash_failed,
  recovery_id, recovery_failed,
}

-- A value of a typed-data message; an integer is a sign and a magnitude.
pub data TypedValue : Type 0 where
  string : Text → TypedValue
  int : Bool → ℕ → TypedValue

-- big.NewInt(int64(x)) of a uint64
unfoldable pub big_of_uint64 : ℕ → TypedValue
big_of_uint64 x = if ltb x (2 ^ 63) then int Bool.false x else int Bool.true (2 ^ 64 - x)

pub record Eip712Verifier : Type 0 where
  pub chain_id : ℕ
  pub verifying_contract : Address

-- The calls of go-ethereum. `hash_struct` is TypedData.HashStruct of a type name and its fields.
pub record Ethereum : Type 0 where
  pub hex_to_bytes : Text → List ℕ
  pub hash_struct : Text → List (Text × TypedValue) → Option (List ℕ)
  pub keccak256 : List ℕ → List ℕ
  pub ecrecover : List ℕ → List ℕ → Option (List ℕ)
  pub pubkey_to_address : List ℕ → Option Address
  pub address_hex : Address → Text
  -- common.Hex2Bytes makes at most one byte of two digits.
  pub hex_to_bytes_size : (s : Text) → 2 * length (hex_to_bytes s) ≤ length s

-- signature[64] -= 27
unfoldable pub adjust_v : ℕ → List ℕ → List ℕ
adjust_v v sig = take 64 sig ++ (v - 27) ∷ []

-- sig[i], with the run-time panic out of range
unfoldable pub byte_at : ℕ → List ℕ → Option ℕ
byte_at i [] = none
byte_at zero (b ∷ bs) = some b
byte_at (suc i) (b ∷ bs) = byte_at i bs

or_fail : {A B : Type 0} → Option A → Outcome B → (A → Outcome B) → Outcome B
or_fail none e k = e
or_fail (some a) e k = k a

module _ (eth : Ethereum) where
  open eth use {hex_to_bytes, hash_struct, keccak256, ecrecover, pubkey_to_address, address_hex}

  domain : Eip712Verifier → List (Text × TypedValue)
  domain v =
      (bytes "name", string (bytes "PowerloomProtocolContract"))
      ∷ (bytes "version", string (bytes "0.1"))
      ∷ (bytes "chainId", int Bool.false v.chain_id)
      ∷ (bytes "verifyingContract", string (address_hex v.verifying_contract))
      ∷ []

  message : SnapshotRequest → List (Text × TypedValue)
  unfolding big_of_uint64
  message r =
      (bytes "slotId", big_of_uint64 r.slot_id)
      ∷ (bytes "deadline", big_of_uint64 r.deadline)
      ∷ (bytes "snapshotCid", string r.snapshot_cid)
      ∷ (bytes "epochId", big_of_uint64 r.epoch_id)
      ∷ (bytes "projectId", string r.project_id)
      ∷ []

  unfoldable pub hash_request : Eip712Verifier → SnapshotRequest → Outcome (List ℕ)
  unfolding or_fail domain message
  hash_request v r =
      or_fail (hash_struct (bytes "EIP712Domain") (domain v)) (err hash_failed) λ separator.
        or_fail (hash_struct (bytes "EIPRequest") (message r)) (err hash_failed)
          λ typed. ok (keccak256 (0x19 ∷ 0x01 ∷ separator ++ typed))

  unfoldable pub recover_address : List ℕ → List ℕ → Outcome Address
  unfolding or_fail adjust_v byte_at
  recover_address hash sig =
      if not (nat_eqb (length sig) 65)
      then err signature_length
      else or_fail (byte_at 64 sig) panic λ v.
        if not (nat_eqb v 27) && not (nat_eqb v 28)
        then err recovery_id
        else or_fail (ecrecover hash (adjust_v v sig)) (err recovery_failed)
            λ raw. or_fail (pubkey_to_address raw) (err recovery_failed) ok

  -- The log line of a decoded signature slices the text to its first 20 bytes.
  unfoldable pub verify : Eip712Verifier → SnapshotRequest → Text → Outcome Address
  verify v r signature =
      let sig = hex_to_bytes signature in
      if not (nat_eqb (length sig) 65)
      then err signature_length
      else if ltb (length signature) 20
      then panic
      else do hash ← hash_request v r; recover_address hash sig
