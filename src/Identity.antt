-- ===== src/Identity.antt =====
-- pkgs/identity/verifier.go: the check of a submission's signer against the slots that Redis holds, with
-- a cache of the signers that were verified.
pub mod Slots
pub mod Keys
pub mod Check
pub mod Cache
pub mod Flags
pub mod Tests
use snapshot_sequencer_valid.Base.{
  drop, take, ◌+◌, ◌*◌, ℕ, Text, text_eq, bytes, decimal, is_empty, Bool, true, false, not, Option,
  none, some, List, [], ◌∷◌, ◌++◌, Map, get, put, del, length, ltb, if◌then◌else◌, ◌==◌,
}
use snapshot_sequencer_valid.Redis.Join.{join}
use snapshot_sequencer_valid.Redis.Command.{Command, hset, hset_field, expire}
use snapshot_sequencer_valid.Submissions.Types.{Address}

-- What go-ethereum, go-libp2p and the library of the language compute; a peer.ID is a text of bytes.
pub record Libraries : Type 0 where
  pub keccak256 : Text → Text
  -- SigToPub, then PubkeyToAddress
  pub recover : Text → Text → Option Address
  pub address_hex : Address → Text
  pub hex_to_address : Text → Address
  pub encode_peer : Text → Text
  pub decode_peer : Text → Option Text
  pub to_lower : Text → Text
  -- Sscanf of "%d", 0 where it reads none
  pub scan : Text → ℕ

pub record VerifiedIdentity : Type 0 where
  pub snapshotter_address : Address
  pub lib_p2p_peer_id : Text
  pub slot_id : ℕ
  pub is_full_node : Bool
  pub is_flagged : Bool
  pub verified_at : ℕ
  pub expires_at : ℕ

pub record SubmissionRequest : Type 0 where
  pub slot_id : ℕ
  pub deadline : ℕ
  pub snapshot_cid : Text
  pub epoch_id : ℕ
  pub project_id : Text

pub record IdentityVerifier : Type 0 where
  pub verified_cache : Map Text VerifiedIdentity
  pub cache_ttl : ℕ
  pub full_node_addresses : Map Text Bool

pub record SlotInfo : Type 0 where
  pub slot_id : ℕ
  pub snapshotter_address : Address
  pub lib_p2p_peer_id : Text
  pub data_market : Text
  pub epoch_id : ℕ

pub data Error : Type 0 where
  recovery_failed flag_check_failed flagged slot_failed slot_not_found : Error
  address_mismatch peer_mismatch window_closed : Error

pub data Result {ℓ} (A : Type ℓ) : Type ℓ where
  ok : A → Result A
  err : Error → Result A

-- Redis, as the verifier asks it: SISMEMBER and HGETALL, none being an error.
pub record Store : Type 0 where
  pub is_member : Text → Text → Option Bool
  pub hgetall : Text → Option (Map Text Text)

-- The times at which the cache is looked at, the identity is verified, and its expiry is computed.
pub record Clock : Type 0 where
  pub looked_at : ℕ
  pub verified_at : ℕ
  pub added_at : ℕ

module _ (lib : Libraries) where
  open lib use {
    keccak256, recover, address_hex, hex_to_address, encode_peer, decode_peer, to_lower, scan,
  }

  lower_all : List Text → Map Text Bool → Map Text Bool
  unfolding put
  lower_all [] nodes = nodes
  lower_all (a ∷ rest) nodes = lower_all rest (put (to_lower a) true nodes)

  unfoldable pub new_identity_verifier : ℕ → List Text → IdentityVerifier
  unfolding lower_all
  new_identity_verifier ttl nodes = record {
    verified_cache = [];
    cache_ttl = ttl;
    full_node_addresses = lower_all nodes [];
  }

  unfoldable pub hash_request : SubmissionRequest → Text
  unfolding join decimal
  hash_request r =
      let content = join (
        decimal r.slot_id
        ∷ decimal r.deadline
        ∷ r.snapshot_cid
        ∷ decimal r.epoch_id
        ∷ r.project_id
        ∷ []) in
      keccak256 (25 ∷ bytes "Ethereum Signed Message:" ++ 10 ∷ decimal (length content) ++ content)

  unfoldable pub recover_snapshotter_address : SubmissionRequest → Text → Option Address
  unfolding hash_request
  recover_snapshotter_address r signature = recover (hash_request r) signature

  unfoldable pub cache_key : Address → ℕ → Text → Text
  unfolding join decimal
  cache_key a slot peer = join (address_hex a ∷ decimal slot ∷ encode_peer peer ∷ [])

  unfoldable pub check_if_flagged : Store → Text → Address → Option Bool
  unfolding join
  check_if_flagged s market a =
      s.is_member (join (bytes "flagged_snapshotters" ∷ to_lower market ∷ [])) (address_hex a)

  unfoldable pub slot_key : Text → ℕ → Text
  unfolding join decimal
  slot_key market slot = join (bytes "slotInfo" ∷ to_lower market ∷ decimal slot ∷ [])

  -- m[name] through `read`, or the zero value
  field_or {ℓ} : {A : Type ℓ} → A → (Text → A) → Option Text → A
  field_or zero_value read none = zero_value
  field_or zero_value read (some s) = read s

  -- The fields of the hash of a slot.
  unfoldable pub read_slot : Text → ℕ → Map Text Text → SlotInfo
  unfolding get field_or
  read_slot market slot fields = record {
    slot_id = slot;
    snapshotter_address = field_or 0 hex_to_address (get (bytes "snapshotter_address") fields);
    lib_p2p_peer_id = field_or [] (λ s. s) (get (bytes "libp2p_peer_id") fields);
    data_market = market;
    epoch_id = field_or 0 scan (get (bytes "epoch_id") fields);
  }

  parse_slot : Text → ℕ → Option (Map Text Text) → Result SlotInfo
  unfolding read_slot
  parse_slot market slot none = err slot_failed
  parse_slot market slot (some []) = err slot_not_found
  parse_slot market slot (some (f ∷ fields)) = ok (read_slot market slot (f ∷ fields))

  unfoldable pub get_slot_info : Store → Text → ℕ → Result SlotInfo
  unfolding parse_slot slot_key
  get_slot_info s market slot = parse_slot market slot (s.hgetall (slot_key market slot))

  -- A sender other than the one that the slot expects; one that cannot be decoded expects no one.
  expects_other : Option Text → Text → Bool
  expects_other none sender = false
  expects_other (some expected) sender = not (sender == expected)

  unfoldable pub wrong_peer : Text → Text → Bool
  unfolding expects_other
  wrong_peer registered sender =
      if is_empty registered then false else expects_other (decode_peer registered) sender

  unfoldable pub is_full_node : IdentityVerifier → Text → Bool
  unfolding get
  is_full_node v address = elim (get (to_lower address) v.full_node_addresses) [
    | none ↦ false
    | some b ↦ b
  ]

  unfoldable pub verified : IdentityVerifier → Clock → Address → ℕ → Text → VerifiedIdentity
  unfolding is_full_node
  verified v clock a slot sender = record {
    snapshotter_address = a;
    lib_p2p_peer_id = sender;
    slot_id = slot;
    is_full_node = is_full_node v (address_hex a);
    is_flagged = false;
    verified_at = clock.verified_at;
    expires_at = clock.added_at + v.cache_ttl;
  }

  -- The signer against the slot, after the check of the flags.
  against_slot :
      IdentityVerifier → Clock → Address → ℕ → Text → Result SlotInfo → Result VerifiedIdentity
  unfolding wrong_peer verified
  against_slot v clock a slot sender (err e) = err slot_failed
  against_slot v clock a slot sender (ok info) =
      if not (address_hex a == address_hex info.snapshotter_address)
      then err address_mismatch
      else if wrong_peer info.lib_p2p_peer_id sender
      then err peer_mismatch
      else ok (verified v clock a slot sender)

  unflagged :
      Store
      → IdentityVerifier
      → Clock
      → Address
      → ℕ
      → Text
      → Text
      → Option Bool
      → Result VerifiedIdentity
  unfolding against_slot get_slot_info
  unflagged s v clock a slot market sender none = err flag_check_failed
  unflagged s v clock a slot market sender (some true) = err flagged
  unflagged s v clock a slot market sender (some false) =
      against_slot v clock a slot sender (get_slot_info s market slot)

  -- The checks that a signer passes who is not in the cache.
  unfoldable pub check_signer :
      Store → IdentityVerifier → Clock → Address → ℕ → Text → Text → Result VerifiedIdentity
  unfolding unflagged check_if_flagged
  check_signer s v clock a slot market sender =
      unflagged s v clock a slot market sender (check_if_flagged s market a)

  remember :
      Text → Result VerifiedIdentity → IdentityVerifier → Result VerifiedIdentity × IdentityVerifier
  unfolding put
  remember key (err e) v = (err e, v)
  remember key (ok id) v = (ok id, record v { verified_cache = put key id v.verified_cache })

  unexpired :
      ℕ
      → Text
      → IdentityVerifier
      → Option VerifiedIdentity
      → Option VerifiedIdentity × IdentityVerifier
  unfolding del
  unexpired now key v none = (none, v)
  unexpired now key v (some id) =
      if ltb now id.expires_at
      then (some id, v)
      else (none, record v { verified_cache = del key v.verified_cache })

  -- What is cached, while it has not expired; an entry that has is deleted.
  unfoldable pub look_up : ℕ → Text → IdentityVerifier → Option VerifiedIdentity × IdentityVerifier
  unfolding get unexpired
  look_up now key v = unexpired now key v (get key v.verified_cache)

  after_look_up :
      Store
      → Clock
      → Address
      → ℕ
      → Text
      → Text
      → Option VerifiedIdentity × IdentityVerifier
      → Result VerifiedIdentity × IdentityVerifier
  unfolding remember check_signer cache_key
  after_look_up s clock a slot market sender (some id, v) = (ok id, v)
  after_look_up s clock a slot market sender (none, v) =
      remember (cache_key a slot sender) (check_signer s v clock a slot market sender) v

  unfoldable pub verify_signer :
      Store
      → IdentityVerifier
      → Clock
      → Option Address
      → ℕ
      → Text
      → Text
      → Result VerifiedIdentity × IdentityVerifier
  unfolding look_up after_look_up cache_key
  verify_signer s v clock none slot market sender = (err recovery_failed, v)
  verify_signer s v clock (some a) slot market sender =
      after_look_up s clock a slot market sender
        (look_up clock.looked_at (cache_key a slot sender) v)

  unfoldable pub verify_submission_with_p2p :
      Store
      → IdentityVerifier
      → Clock
      → SubmissionRequest
      → Text
      → Text
      → Text
      → Result VerifiedIdentity × IdentityVerifier
  unfolding verify_signer recover_snapshotter_address
  verify_submission_with_p2p s v clock r signature market sender =
      verify_signer s v clock (recover_snapshotter_address r signature) r.slot_id market sender

  unfoldable pub verify_submission :
      Store
      → IdentityVerifier
      → Clock
      → SubmissionRequest
      → Text
      → Text
      → Result VerifiedIdentity × IdentityVerifier
  unfolding verify_submission_with_p2p
  verify_submission s v clock r signature market =
      verify_submission_with_p2p s v clock r signature market []

  forget : Result VerifiedIdentity → Result (Unit {0})
  forget (ok id) = ok tt
  forget (err e) = err e

  unfoldable pub validate_submission_eligibility :
      Store
      → IdentityVerifier
      → Clock
      → SubmissionRequest
      → Text
      → Text
      → Text
      → Bool
      → Result (Unit {0}) × IdentityVerifier
  unfolding verify_submission_with_p2p forget
  validate_submission_eligibility s v clock r signature market sender window_open =
      if not window_open
      then (err window_closed, v)
      else let (result, v') = verify_submission_with_p2p s v clock r signature market sender in
        (forget result, v')

  -- The fields of CacheSlotInfo, the peer's ID where there is one.
  unfoldable pub slot_fields : ℕ → SlotInfo → Map Text Text
  unfolding decimal
  slot_fields now info =
      (bytes "slot_id", decimal info.slot_id)
      ∷ (bytes "snapshotter_address", address_hex info.snapshotter_address)
      ∷ (bytes "data_market", info.data_market)
      ∷ (bytes "epoch_id", decimal info.epoch_id)
      ∷ (bytes "cached_at", decimal now)
      ∷ (if is_empty info.lib_p2p_peer_id
          then []
          else (bytes "libp2p_peer_id", info.lib_p2p_peer_id) ∷ [])

  -- HMSet and Expire.
  unfoldable pub cache_slot_info : ℕ → Text → SlotInfo → List (Command (Map Text Text))
  unfolding slot_key slot_fields
  cache_slot_info now market info =
      let key = slot_key market info.slot_id in
      hset key (slot_fields now info) ∷ expire key (24 * 3600) ∷ []

  unfoldable pub update_slot_lib_p2p_identity : Text → ℕ → Text → List (Command (Map Text Text))
  unfolding slot_key
  update_slot_lib_p2p_identity market slot peer =
      hset (slot_key market slot) ((bytes "libp2p_peer_id", encode_peer peer) ∷ []) ∷ []

-- ParseSignature, for a hexDecode of encoding/hex.
unfoldable pub parse_signature : (Text → Option (List ℕ)) → Text → Option (List ℕ)
parse_signature hex_decode s = hex_decode (if take 2 s == bytes "0x" then drop 2 s else s)
