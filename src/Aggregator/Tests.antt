-- ===== src/Aggregator/Tests.antt =====
-- Runs of the aggregator on concrete batches, and the theorems at them.
use snapshot_sequencer_valid.Base.{
  length, All, if◌then◌else◌, ◌==◌, ℕ, ◌≤◌, Text, text_eq, text_eqb, bytes, true, none, some, List,
  [], ◌∷◌, get, ◌≡◌, refl,
}
use snapshot_sequencer_valid.Votes.{or_nil}
use snapshot_sequencer_valid.Redis.Command.{Command, missing, set}
use snapshot_sequencer_valid.Redis.Keys.{KeyBuilder, batch_aggregated}
use snapshot_sequencer_valid.Consensus.Types.{SubmissionMetadata, FinalizedBatch}
use snapshot_sequencer_valid.Aggregator.Merge.{create_aggregated_batch, Visits, merge_duplicates}
use snapshot_sequencer_valid.Aggregator.Merge.Confirmations.{
  confirmed, confirming, merge_duplicates-confirming,
}
use snapshot_sequencer_valid.Aggregator.Merge.Consensus.{
  supporters, create_aggregated_batch-leads, paired,
}
use snapshot_sequencer_valid.Aggregator.Epoch.{
  Aggregator, Answers, Payload, Strconv, aggregated, aggregate_epoch, aggregated_batch, day_seconds,
  store_aggregated, after_store,
}
use snapshot_sequencer_valid.Aggregator.Epoch.Outcomes.{aggregate_epoch-removes}
use snapshot_sequencer_valid.Aggregator.Epoch.{StreamMessage}
use snapshot_sequencer_valid.Aggregator.Stream.{consume_stream_messages}
use snapshot_sequencer_valid.Aggregator.Stream.Acknowledged.{
  acknowledged, failing, fails, consume-acknowledged,
}
use snapshot_sequencer_valid.Redis.Command.{Reply, found}

abbrev in_order : Visits
in_order = record { details = λ m. m; merged = λ m. m; votes = λ m. m; counts = λ m. m }

abbrev seen_by : Text → Text → Text → SubmissionMetadata
seen_by submitter cid validator = record {
  submitter_id = submitter;
  snapshot_cid = cid;
  timestamp = 0;
  signature = [];
  slot_id = 1;
  vote_count = 1;
  validators_confirming = validator ∷ [];
}

abbrev submissions : List SubmissionMetadata
submissions =
    seen_by (bytes "a") (bytes "c1") (bytes "v1")
    ∷ seen_by (bytes "b") (bytes "c2") (bytes "v1")
    ∷ seen_by (bytes "a") (bytes "c1") (bytes "v2")
    ∷ []

merge_duplicates-confirming_example :
    confirmed (get (bytes "a:c1") (merge_duplicates submissions []))
    ≡ confirming (bytes "a:c1") submissions
merge_duplicates-confirming_example = merge_duplicates-confirming (bytes "a:c1") submissions

both_validators : confirming (bytes "a:c1") submissions ≡ bytes "v1" ∷ bytes "v2" ∷ []
unfolding confirming text_eqb
both_validators = refl

abbrev own_batch : FinalizedBatch
own_batch = record {
  epoch_id = 7;
  project_ids = [];
  snapshot_cids = [];
  merkle_root = [];
  bls_signature = [];
  sequencer_id = bytes "v1";
  timestamp = 0;
  project_votes = (bytes "eth", 2) ∷ [];
  submission_details = (bytes "eth", submissions) ∷ [];
  validator_batches = [];
  batch_ipfs_cid = [];
  validator_count = 0;
}

abbrev no_hash : Text → List ℕ
no_hash s = []

abbrev merged : FinalizedBatch
merged = create_aggregated_batch no_hash in_order 9 (bytes "v1") (some own_batch) (λ key. none) []

create_aggregated_batch-leads_example :
    (length merged.project_ids ≡ length merged.snapshot_cids)
    × All
        (λ e.
          supporters (bytes "c2") (or_nil (get e.0 merged.submission_details))
          ≤ supporters e.1 (or_nil (get e.0 merged.submission_details)))
        (paired merged.project_ids merged.snapshot_cids)
create_aggregated_batch-leads_example =
    create_aggregated_batch-leads no_hash in_order 9 (bytes "v1") (some own_batch) (λ key. none) []
      (bytes "c2") (λ m d. (d, λ k. refl))

abbrev builder : KeyBuilder
builder = record { protocol_state = bytes "ps"; data_market = bytes "dm" }

abbrev aggregator : Aggregator
aggregator = record { sequencer_id = bytes "v1"; key_builder = builder; epoch_timers = [] }

-- "100" and "1e2" are the same number.
abbrev numbers : Strconv
numbers = record {
  parse_uint = λ s. if s == bytes "100" then some 100 else none;
  parse_float = λ s. if s == bytes "1e2" then some 100 else none;
  print_float = λ s. none;
}

abbrev nothing_stored : Answers
nothing_stored = record {
  exists = missing;
  ours = none;
  validator_ids = none;
  incoming = λ key. none;
  ipfs = none;
  set_succeeds = true;
  now = 50;
}

aggregate_epoch-removes_example :
    (nothing_stored.exists ≡ missing)
    × (nothing_stored.set_succeeds ≡ true)
    × ((rest : List (Command Payload)) × (aggregate_epoch no_hash in_order numbers
            (bytes "100")
            aggregator
            nothing_stored
          ≡ set
              (batch_aggregated builder (bytes "100"))
              (aggregated
                (aggregated_batch no_hash in_order numbers (bytes "100") aggregator nothing_stored))
              day_seconds
            ∷ rest))
unfolding aggregate_epoch store_aggregated after_store
aggregate_epoch-removes_example =
    aggregate_epoch-removes no_hash in_order numbers (bytes "100") aggregator nothing_stored refl

-- A message without fields, and one of an epoch that is aggregated.
abbrev messages : List (StreamMessage × (Text → Reply (Unit {0})))
messages =
    (record { id = bytes "1-0"; values = [] }, λ key. missing)
    ∷ (
      record {
        id = bytes "2-0";
        values =
            (bytes "epoch", bytes "100")
            ∷ (bytes "validator", bytes "v2")
            ∷ (bytes "batch_key", bytes "k")
            ∷ (bytes "timestamp", bytes "5")
            ∷ (bytes "type", bytes "validator_batch")
            ∷ [];
      },
      λ key. found tt,
    )
    ∷ []

first_fails : failing builder messages ≡ bytes "1-0" ∷ []
unfolding failing fails get text_eqb
first_fails = refl

consume-acknowledged_example :
    acknowledged
      (consume_stream_messages numbers 5 (bytes "stream") (bytes "group") messages aggregator).1
    ≡ failing builder messages
consume-acknowledged_example =
    consume-acknowledged numbers 5 (bytes "stream") (bytes "group") messages aggregator
