-- ===== src/Submissions/Types.antt =====
-- The data of pkgs/submissions: types.go, the state of dequeuer.go and of slot_validator.go, the
-- errors, and the commands that are sent to Redis.
use snapshot_sequencer_valid.Base.{◌≡◌, refl, ℕ, Text, Bool, Option, Map}

pub record SnapshotRequest : Type 0 where
  pub slot_id : ℕ
  pub deadline : ℕ
  pub snapshot_cid : Text
  pub epoch_id : ℕ
  pub project_id : Text
  pub aggregate_request : Bool

pub record SnapshotSubmission : Type 0 where
  pub request : SnapshotRequest
  pub signature : Text
  pub header : Text
  pub protocol_state : Text
  pub data_market : Text
  pub node_version : Option Text

-- A value of `map[string]interface{}`, as far as the dequeuer looks at it.
pub data MetaValue : Type 0 where
  text : Text → MetaValue
  other : MetaValue

-- common.Address: a number of 160 bits, the zero address being 0.
abbrev pub Address : Type 0
Address = ℕ

pub record ProcessedSubmission : Type 0 where
  pub id : Text
  pub submission : SnapshotSubmission
  pub snapshotter_addr : Text
  pub data_market_addr : Text
  pub processed_at : ℕ
  pub validator_id : Text
  pub meta_data : Option (Map Text MetaValue)

-- The slot as protocol-state-cacher stores it.
pub record SlotInfo : Type 0 where
  pub snapshotter_address : Address
  pub node_price : ℕ
  pub amount_sent_on_l1 : ℕ
  pub minted_on : ℕ
  pub burned_on : ℕ
  pub last_updated : ℕ
  pub is_legacy : Bool
  pub claimed_tokens : Bool
  pub active : Bool
  pub is_kyced : Bool

pub data Error : Type 0 where
  heartbeat empty_cid empty_project empty_market : Error
  empty_signature signature_length hash_failed recovery_id recovery_failed : Error
  slot_not_found slot_fetch_failed slot_parse_failed slot_inactive slot_mismatch : Error

-- What a Go call with an error result may do: return, fail, or stop the goroutine by a run-time
-- panic.
pub data Outcome {ℓ} (A : Type ℓ) : Type ℓ where
  ok : A → Outcome A
  err : Error → Outcome A
  panic : Outcome A

infixl 5 ◌>>=◌
abbrev pub ◌>>=◌ {ℓ κ} : {A : Type ℓ} {B : Type κ} → Outcome A → (A → Outcome B) → Outcome B
ok a >>= f = f a
err e >>= f = err e
panic >>= f = panic

infixl 5 ◌>>◌
abbrev pub ◌>>◌ {ℓ} : {B : Type ℓ} → Outcome (Unit {0}) → Outcome B → Outcome B
m >> k = m >>= λ _. k

-- A chain that returns has returned at each step.
pub bind-eq-ok {ℓ κ} :
    {A : Type ℓ} {B : Type κ} (m : Outcome A) (f : A → Outcome B) {b : B}
    → (m >>= f) ≡ ok b
    → (a : A) × (m ≡ ok a) × (f a ≡ ok b)
bind-eq-ok (ok a) f h = (a, refl, h)
bind-eq-ok (err e) f h = cc
bind-eq-ok panic f h = cc
