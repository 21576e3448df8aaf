-- ===== src/Submissions/Tests.antt =====
-- Runs of the dequeuer on concrete submissions, and the theorems at them. go-ethereum is replaced by a
-- toy: a hexadecimal text stands for 65 bytes if it has 130 digits, and the signer is 7.
use snapshot_sequencer_valid.Base.{
  ℕ, zero, suc, ◌*◌, ◌≤◌, ◌<◌, ◌≡◌, ◌≢◌, ◌↔◌, ◌&&◌, refl, arith, Text, text_eq, text_eqb, bytes,
  decimal, Bool, true, false, none, some, List, [], ◌∷◌, length, Map, get, has, put, Distinct,
  nat_eqb, is_empty,
}
use snapshot_sequencer_valid.Redis.Command.{found}
use snapshot_sequencer_valid.Submissions.Types.{
  SnapshotRequest, SnapshotSubmission, ProcessedSubmission, SlotInfo, ok, panic,
}
use snapshot_sequencer_valid.Submissions.Eip712.{Ethereum, verify, hash_request, recover_address}
use snapshot_sequencer_valid.Submissions.Slots.{validate_snapshotter_for_slot}
use snapshot_sequencer_valid.Submissions.Validate.{validate_submission, verify_signature}
use snapshot_sequencer_valid.Submissions.Validate.Panics.{verify_signature_panics_iff}
use snapshot_sequencer_valid.Submissions.Cleanup.{
  sorted_entries, delete_all, cleanup_old_submissions,
}
use snapshot_sequencer_valid.Submissions.Dequeuer.{Float64, Clock, Dequeuer, update_stats}
use snapshot_sequencer_valid.Submissions.Process.{check, process_submission}
use snapshot_sequencer_valid.Submissions.Process.Checks.{IsRegistered, check-authentic}
use snapshot_sequencer_valid.Submissions.Process.Invariant.{IsValid, process_submission-IsValid}

abbrev replicate : ℕ → ℕ → List ℕ
replicate zero b = []
replicate (suc n) b = b ∷ replicate n b

abbrev decode_pairs : Text → List ℕ
decode_pairs [] = []
decode_pairs (a ∷ []) = []
decode_pairs (a ∷ b ∷ s) = 27 ∷ decode_pairs s

pub decode_pairs_size : (s : Text) → 2 * length (decode_pairs s) ≤ length s
decode_pairs_size [] = omega arith
decode_pairs_size (a ∷ []) = omega arith
decode_pairs_size (a ∷ b ∷ s) = omega (arith, decode_pairs_size s)

abbrev pub toy : Ethereum
toy = record {
  hex_to_bytes = decode_pairs;
  hash_struct = λ name fields. some (1 ∷ []);
  keccak256 = λ text. text;
  ecrecover = λ hash sig. some (2 ∷ []);
  pubkey_to_address = λ key. some 7;
  address_hex = λ a. decimal a;
  hex_to_bytes_size = decode_pairs_size;
}

-- The rate is counted in whole nanoseconds.
abbrev pub rates : Float64
rates = record {
  Float = ℕ;
  is_zero = λ r. nat_eqb r 0;
  rate_of = λ t. t;
  moving_average = λ r t. r;
}

abbrev request : SnapshotRequest
request = record {
  slot_id = 5;
  deadline = 9;
  snapshot_cid = bytes "bafy";
  epoch_id = 3;
  project_id = bytes "eth";
  aggregate_request = false;
}

abbrev submission : Text → SnapshotSubmission
submission signature = record {
  request = request;
  signature = signature;
  header = [];
  protocol_state = bytes "0xp";
  data_market = bytes "0xm";
  node_version = none;
}

abbrev pub signed : SnapshotSubmission
signed = submission (replicate 130 b'a')

abbrev short : SnapshotSubmission
short = submission (bytes "abcd")

abbrev slot : SlotInfo
slot = record {
  snapshotter_address = 7;
  node_price = 0;
  amount_sent_on_l1 = 0;
  minted_on = 0;
  burned_on = 0;
  last_updated = 0;
  is_legacy = false;
  claimed_tokens = false;
  active = true;
  is_kyced = true;
}

abbrev pub dequeuer : Map Text ProcessedSubmission → Dequeuer rates
dequeuer m = record {
  key_builder = record { protocol_state = bytes "0xp"; data_market = bytes "0xm" };
  sequencer_id = bytes "v1";
  verifier = record { chain_id = 1; verifying_contract = 8 };
  slot_validator = record { fetch = λ key. found []; decode = λ text. some slot };
  enable_slot_validation = true;
  processed_submissions = m;
  stats = record {
    total_processed = 0;
    successful_count = 0;
    failed_count = 0;
    last_processed_at = 0;
    processing_rate = 0;
  };
}

abbrev pub clock : Clock
clock = record {
  processed_at = 11;
  elapsed = 1;
  stats_at = 12;
  timestamp = 12;
  timestamp' = 12;
  hour = bytes "2025010100";
}

abbrev pub unshuffled : List (Text × ProcessedSubmission) → List (Text × ProcessedSubmission)
unshuffled m = m

program : Unit {0}
unfolding check process_submission validate_submission verify_signature verify hash_request
    recover_address validate_snapshotter_for_slot get has put cleanup_old_submissions update_stats
    text_eqb
program = tt

-- A signed submission is stored, one with a short signature stops the goroutine.
accepted :
    (process_submission rates toy unshuffled (dequeuer []) clock signed (bytes "id") none).0 ≡ ok tt
unfolding program
accepted = refl

stopped :
    (process_submission rates toy unshuffled (dequeuer []) clock short (bytes "id") none).0 ≡ panic
unfolding program
stopped = refl

checked : check rates toy (dequeuer []) signed ≡ ok 7
unfolding program
checked = refl

process_submission-IsValid_example :
    IsValid (process_submission rates toy unshuffled (dequeuer []) clock signed (bytes "id") none).1
process_submission-IsValid_example =
    process_submission-IsValid rates toy unshuffled (λ p m. refl) (dequeuer []) clock signed
      (bytes "id") none (record { distinct = tt; bounded = omega arith; counted = refl })

check-authentic_example :
    (is_empty (bytes "bafy") ≡ false)
    × (is_empty (bytes "eth") ≡ false)
    × (is_empty (bytes "0xm") ≡ false)
    × (verify toy (dequeuer []).verifier request signed.signature ≡ ok 7)
    × (◌≡◌ {A = Bool} true true → ◌≢◌ {A = ℕ} 7 0 → IsRegistered (dequeuer []).slot_validator 5 7)
check-authentic_example = check-authentic rates toy (dequeuer []) signed 7 checked

verify_signature_panics_iff_example :
    (verify_signature toy (dequeuer []).verifier short ≡ panic) ↔ (
      ((nat_eqb 3 0 && is_empty (bytes "bafy")) ≡ false)
      × (is_empty (bytes "abcd") ≡ false)
      × (length (bytes "abcd") < 20))
verify_signature_panics_iff_example = verify_signature_panics_iff toy (dequeuer []).verifier short

-- `n` submissions, the k-th of them processed at time k.
abbrev stored : ℕ → ProcessedSubmission
stored n = record {
  id = n ∷ [];
  submission = signed;
  snapshotter_addr = [];
  data_market_addr = [];
  processed_at = n;
  validator_id = [];
  meta_data = none;
}

abbrev many : ℕ → Map Text ProcessedSubmission
many zero = []
many (suc n) = (suc n ∷ [], stored (suc n)) ∷ many n

many_absent : (n k : ℕ) → n < k → has (k ∷ []) (many n) ≡ false
unfolding has text_eqb
many_absent zero k h = refl
many_absent (suc n) k h = ground (arith, many_absent n k)

many-Distinct : (n : ℕ) → Distinct (many n)
many-Distinct zero = tt
many-Distinct (suc n) = (many_absent n (suc n) (omega arith), many-Distinct n)

oldest : get (1 ∷ []) (many 501) ≡ some (stored 1)
unfolding program
oldest = refl

oldest_gone : get (1 ∷ []) (cleanup_old_submissions unshuffled (many 501)) ≡ none
unfolding program sorted_entries delete_all
oldest_gone = refl

newest_left : get (501 ∷ []) (cleanup_old_submissions unshuffled (many 501)) ≡ some (stored 501)
unfolding program sorted_entries delete_all
newest_left = refl
