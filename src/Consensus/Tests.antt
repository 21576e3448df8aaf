-- ===== src/Consensus/Tests.antt =====
-- Runs of the consensus on concrete batches, and the theorems at them.
use snapshot_sequencer_valid.Base.{
  length, ltb, if◌then◌else◌, ◌/◌, hex_encode, ℕ, ◌+◌, ◌*◌, ◌≤◌, ◌<◌, ◌≢◌, Text, text_eq, text_eqb,
  text_eqb_iff, nat_eq, bytes, true, none, some, List, [], ◌∷◌, Map, get, put, ◌≡◌, refl, arith,
}
use snapshot_sequencer_valid.Json.{str, obj, end, field}
use snapshot_sequencer_valid.Votes.{or_nil, votes_of}
use snapshot_sequencer_valid.Consensus.Types.{FinalizedBatch, ValidatorBatch, P2pConsensus, decoded}
use snapshot_sequencer_valid.Consensus.Visit.{IsVisit}
use snapshot_sequencer_valid.Consensus.Aggregate.{count_validators, no_votes, declared}
use snapshot_sequencer_valid.Consensus.Aggregate.Counts.{
  ballots, all_ballots, count_validators-votes,
}
use snapshot_sequencer_valid.Consensus.Handler.{validate_batch}
use snapshot_sequencer_valid.Consensus.Epochs.{Visits, status_of, process_batch_message}
use snapshot_sequencer_valid.Consensus.Epochs.Outcomes.{
  status_of_majority, process_batch_message_stores,
}
use snapshot_sequencer_valid.Consensus.Signatures as Sig
use snapshot_sequencer_valid.Consensus.Signatures.{aggregate_signatures}
use snapshot_sequencer_valid.Consensus.Signatures.{agreeing_batches, group_votes, first_group}
use snapshot_sequencer_valid.Consensus.Signatures.Groups.{with_root, agreeing_batches-some}

abbrev in_order : Visits
in_order = record { batches = λ m. m; projects = λ m. m; cids = λ m. m; aggregated = λ m. m }

abbrev long_cid : Text
long_cid = bytes "bafybeigdyrzt5"

abbrev root : Text
root = bytes "0123456789abcdef"

-- A batch whose metadata names the CID for the project "eth".
abbrev batch_for : Text → Text → ValidatorBatch
batch_for validator cid = record {
  validator_id = validator;
  peer_id = [];
  epoch_id = 7;
  batch_ipfs_cid = bytes "Qm";
  merkle_root = root;
  project_count = 1;
  timestamp = 0;
  signature = [];
  batch_data = none;
  received_at = 5;
  meta_data = (bytes "votes", decoded (obj (field (bytes "eth") (str cid) end))) ∷ [];
}

abbrev two_batches : Map Text ValidatorBatch
two_batches =
    (bytes "v1", batch_for (bytes "v1") long_cid)
    ∷ (bytes "v2", batch_for (bytes "v2") long_cid)
    ∷ []

abbrev with_one : P2pConsensus
with_one = record {
  sequencer_id = bytes "v1";
  validator_batches = (7, (bytes "v1", batch_for (bytes "v1") long_cid) ∷ []) ∷ [];
  aggregation_status = [];
  received_batches = 0;
  broadcast_batches = 0;
  epochs_aggregated = 0;
}

abbrev no_hash : Text → List ℕ
no_hash s = []

in_order-IsVisit {ℓ} : {A : Type ℓ} → IsVisit {A = A} (λ m. m)
in_order-IsVisit m d = (d, λ k. refl)

count_validators-votes_example :
    votes_of (bytes "eth") long_cid (count_validators two_batches no_votes).votes
    ≡ all_ballots (bytes "eth") long_cid two_batches
      + votes_of (bytes "eth") long_cid no_votes.votes
count_validators-votes_example = count_validators-votes (bytes "eth") long_cid two_batches no_votes

status_of_majority_example :
    (2 ≤ 2 * all_ballots (bytes "eth") long_cid two_batches)
    × ((d : Text)
        → all_ballots (bytes "eth") d two_batches ≤ all_ballots (bytes "eth") long_cid two_batches)
unfolding status_of get text_eqb
status_of_majority_example =
    status_of_majority in_order 9 7 two_batches (bytes "eth") long_cid in_order-IsVisit
      in_order-IsVisit refl

only_long_cid :
    (d : Text)
    → d ≢ long_cid
    → all_ballots (bytes "eth") d two_batches < all_ballots (bytes "eth") long_cid two_batches
unfolding all_ballots ballots declared get text_eqb
only_long_cid d other = ground (arith, text_eqb_iff long_cid d)

process_batch_message_stores_example :
    let batches =
      put
        (bytes "v2")
        (record (batch_for (bytes "v2") long_cid) { received_at = 9 })
        (or_nil (get 7 with_one.validator_batches)) in
    let state =
      (process_batch_message no_hash in_order 9 true
        (some (batch_for (bytes "v2") long_cid))
        with_one).state in
    (get 7 state.validator_batches ≡ some batches)
    × (get 7 state.aggregation_status ≡ (
        if ltb (length batches) 2
        then get 7 with_one.aggregation_status
        else some (status_of in_order 9 7 batches)))
unfolding get put text_eqb validate_batch
process_batch_message_stores_example =
    process_batch_message_stores no_hash in_order 9 true (batch_for (bytes "v2") long_cid) with_one
      (omega arith) refl

abbrev finalized : FinalizedBatch
finalized = record {
  epoch_id = 7;
  project_ids = bytes "eth" ∷ [];
  snapshot_cids = long_cid ∷ [];
  merkle_root = 1 ∷ 2 ∷ [];
  bls_signature = [];
  sequencer_id = bytes "v1";
  timestamp = 3;
  project_votes = (bytes "eth", 4) ∷ [];
  submission_details = [];
  validator_batches = [];
  batch_ipfs_cid = [];
  validator_count = 1;
}

abbrev both_visits : Sig.Visits
both_visits = record { votes = λ m. m; groups = λ m. m }

abbrev sequencer_votes : Map Text FinalizedBatch
sequencer_votes =
    (bytes "v1", finalized)
    ∷ (bytes "v2", record finalized { merkle_root = 3 ∷ [] })
    ∷ (bytes "v3", record finalized { sequencer_id = bytes "v3" })
    ∷ []

two_thirds : ℕ → ℕ
two_thirds n = 2 * n / 3

agreeing_batches-some_example :
    (root : Text) × (finalized ∷ record finalized { sequencer_id = bytes "v3" } ∷ []
      ≡ with_root root sequencer_votes)
    × (2 ≤ 2)
unfolding agreeing_batches group_votes first_group two_thirds get put text_eqb hex_encode
agreeing_batches-some_example =
    agreeing_batches-some two_thirds both_visits sequencer_votes
      (finalized ∷ record finalized { sequencer_id = bytes "v3" } ∷ []) in_order-IsVisit refl
