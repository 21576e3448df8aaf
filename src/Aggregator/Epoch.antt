-- ===== src/Aggregator/Epoch.antt =====
-- The aggregation of an epoch in cmd/aggregator/main.go: `processStreamMessage`, the window that waits
-- for the batches, `aggregateEpoch`, and the queue of messages that could not be processed. What Redis,
-- IPFS, strconv and json answer is an argument.
pub mod Outcomes
use snapshot_sequencer_valid.Base.{
  nat_eqb, ◌||◌, ℕ, ◌+◌, ◌*◌, Text, text_eq, nat_eq, bytes, is_empty, Bool, true, false, not,
  Option, none, some, List, [], ◌∷◌, ◌++◌, map, Map, get, has, put, del, length, if◌then◌else◌,
  ◌==◌,
}
use snapshot_sequencer_valid.Redis.Join.{join}
use snapshot_sequencer_valid.Redis.Command.{
  Command, Reply, found, missing, failed, set, zadd, publish, xadd, xack,
}
use snapshot_sequencer_valid.Redis.Command as Command
use snapshot_sequencer_valid.Redis.Keys.{
  KeyBuilder, batch_aggregated, finalized_batch, epoch_validators,
}
use snapshot_sequencer_valid.Redis.MetricKeys.{
  metrics_batches_timeline, metrics_batch_aggregated, metrics_batch_validators,
}
use snapshot_sequencer_valid.Json.{Json, as_string, ◌>>=◌}
use snapshot_sequencer_valid.Consensus.Types.{FinalizedBatch}
use snapshot_sequencer_valid.Aggregator.Merge.{Answer, Visits, create_aggregated_batch}
use snapshot_sequencer_valid.Aggregator.Incoming.{incoming_keys, extract_validator_ids}

pub record Metrics : Type 0 where
  pub epoch_id : ℕ
  pub validators_count : ℕ
  pub project_count : ℕ
  pub timestamp : ℕ
  pub validator_ids : List Text
  pub ipfs_cid : Text
  pub merkle_root : List ℕ

pub record DeadLetter : Type 0 where
  pub original_id : Text
  pub values : Map Text Text
  pub error_time : ℕ
  pub consumer_group : Text
  pub error_reason : Text

pub data Payload : Type 0 where
  aggregated : FinalizedBatch → Payload
  metrics : Metrics → Payload
  validators : List Text → Payload
  dead_letter : DeadLetter → Payload

-- The configuration, and the epochs whose window is open.
pub record Aggregator : Type 0 where
  pub sequencer_id : Text
  pub key_builder : KeyBuilder
  pub epoch_timers : Map ℕ Text

pub record StreamMessage : Type 0 where
  pub id : Text
  pub values : Map Text Text

pub data MessageError : Type 0 where
  no_epoch no_validator no_batch_key no_timestamp no_type check_failed : MessageError

-- strconv.ParseUint, strconv.ParseFloat and the conversion to uint64: a whole number, or the whole
-- part of a number from 0 to 2^64; and a number printed with "%.0f".
pub record Strconv : Type 0 where
  pub parse_uint : Text → Option ℕ
  pub parse_float : Text → Option ℕ
  pub print_float : Text → Option Text

unfoldable pub parse_epoch_id : Strconv → Text → Option ℕ
parse_epoch_id c s = elim (c.parse_uint s) [ some n ↦ some n | none ↦ c.parse_float s ]

-- The last byte is 'e' or 'E'.
unfoldable pub is_scientific_notation : Text → Bool
is_scientific_notation [] = false
is_scientific_notation (b ∷ []) = nat_eqb b 101 || nat_eqb b 69
is_scientific_notation (_ ∷ b ∷ s) = is_scientific_notation (b ∷ s)

-- FormatEpochID of a string
unfoldable pub format_epoch_id : Strconv → Text → Text
unfolding is_scientific_notation
format_epoch_id c s =
    if is_scientific_notation s then elim (c.print_float s) [ none ↦ s | some t ↦ t ] else s

-- The timer is kept with the text of the epoch, which the callback aggregates.
unfoldable pub start_aggregation_window : Strconv → Text → Aggregator → Aggregator
unfolding has put parse_epoch_id
start_aggregation_window c epoch a = elim (parse_epoch_id c epoch) [
  | none ↦ a
  | some id ↦
      if has id a.epoch_timers then a else record a { epoch_timers = put id epoch a.epoch_timers }
]

-- After the callback has aggregated the epoch.
unfoldable pub close_aggregation_window : ℕ → Aggregator → Aggregator
unfolding del
close_aggregation_window id a = record a { epoch_timers = del id a.epoch_timers }

-- EXISTS of one key, by the test `exists > 0`: found where it holds, missing where it does not.
-- A validator's batch opens the window, if its epoch is not aggregated yet.
unfoldable pub open_if_new :
    Strconv → Reply (Unit {0}) → Text → Aggregator → Option MessageError × Aggregator
unfolding start_aggregation_window
open_if_new c failed epoch a = (some check_failed, a)
open_if_new c missing epoch a = (none, start_aggregation_window c epoch a)
open_if_new c (found n) epoch a = (none, a)

-- The epoch, the validator, the key of the batch, the timestamp and the type, as far as there are.
unfoldable pub process_fields :
    Strconv
    → (Text → Reply (Unit {0}))
    → Aggregator
    → Option Text
    → Option Text
    → Option Text
    → Option Text
    → Option Text
    → Option MessageError × Aggregator
unfolding open_if_new
process_fields c exists a none validator key timestamp type = (some no_epoch, a)
process_fields c exists a (some epoch) none key timestamp type = (some no_validator, a)
process_fields c exists a (some epoch) (some validator) none timestamp type = (some no_batch_key, a)
process_fields c exists a (some epoch) (some validator) (some key) none type =
    (some no_timestamp, a)
process_fields c exists a (some epoch) (some validator) (some key) (some timestamp) none =
    (some no_type, a)
process_fields c exists a (some epoch) (some validator) (some key) (some timestamp) (some type) =
    if type == bytes "validator_batch"
    then open_if_new c (exists (batch_aggregated a.key_builder epoch)) epoch a
    else (none, a)

unfoldable pub process_stream_message :
    Strconv
    → (Text → Reply (Unit {0}))
    → StreamMessage
    → Aggregator
    → Option MessageError × Aggregator
unfolding get process_fields
process_stream_message c exists m a =
    process_fields c exists a (get (bytes "epoch") m.values) (get (bytes "validator") m.values)
      (get (bytes "batch_key") m.values) (get (bytes "timestamp") m.values)
      (get (bytes "type") m.values)

unfoldable pub move_to_dead_letter_queue : ℕ → Text → Text → StreamMessage → List (Command Payload)
move_to_dead_letter_queue now stream group m =
    xadd (stream ++ bytes ":dlq") (
      dead_letter (record {
        original_id = m.id;
        values = m.values;
        error_time = now;
        consumer_group = group;
        error_reason = bytes "processing_failed";
      }))
    ∷ xack stream group m.id
    ∷ []

-- What the other parts answer in an aggregation.
pub record Answers : Type 0 where
  -- EXISTS, as above
  pub exists : Reply (Unit {0})
  -- what our own batch decodes to, if there is one; a batch that does not parse keeps what was read
  pub ours : Option FinalizedBatch
  pub validator_ids : Option (List Text)
  pub incoming : Text → Option Answer
  pub ipfs : Option (FinalizedBatch → Option Text)
  pub set_succeeds : Bool
  pub now : ℕ

-- The CID of the batch where IPFS is used and takes it.
unfoldable pub with_cid : Option (FinalizedBatch → Option Text) → FinalizedBatch → FinalizedBatch
with_cid none b = b
with_cid (some store) b = elim (store b) [ none ↦ b | some cid ↦ record b { batch_ipfs_cid = cid } ]

abbrev pub or_zero_validators : Option FinalizedBatch → ℕ
or_zero_validators none = 0
or_zero_validators (some _) = 1

abbrev pub day_seconds : ℕ
day_seconds = 24 * 3600

-- The keys of the batches that are merged; none if the set of validators cannot be read.
unfoldable pub epoch_keys : Text → Aggregator → Option (List Text) → List Text
unfolding incoming_keys
epoch_keys epoch a none = []
epoch_keys epoch a (some ids) = incoming_keys a.key_builder a.sequencer_id epoch ids

module _ (sha256 : Text → List ℕ) (v : Visits) (c : Strconv) where
  -- The commands that follow the aggregated batch: the metrics, and the removal of its sources.
  unfoldable pub after_store :
      Text → Aggregator → Answers → List Text → FinalizedBatch → List (Command Payload)
  unfolding parse_epoch_id extract_validator_ids join format_epoch_id
  after_store epoch a answers keys b =
      zadd (metrics_batches_timeline a.key_builder) answers.now
        (join (bytes "aggregated" ∷ format_epoch_id c epoch ∷ []))
      ∷ set (metrics_batch_aggregated a.key_builder epoch)
          (metrics (record {
            epoch_id = elim (parse_epoch_id c epoch) [ none ↦ 0 | some id ↦ id ];
            validators_count = length keys + or_zero_validators answers.ours;
            project_count = length b.project_votes;
            timestamp = answers.now;
            validator_ids = extract_validator_ids keys;
            ipfs_cid = b.batch_ipfs_cid;
            merkle_root = b.merkle_root;
          }))
          day_seconds
      ∷ set (metrics_batch_validators a.key_builder epoch)
          (validators (extract_validator_ids keys ++ a.sequencer_id ∷ [])) day_seconds
      ∷ publish (bytes "state:change") (join (bytes "batch" ∷ bytes "aggregated" ∷ epoch ∷ []))
      ∷ Command.del (finalized_batch a.key_builder epoch ∷ keys)
      ∷ []

  unfoldable pub aggregated_batch : Text → Aggregator → Answers → FinalizedBatch
  unfolding create_aggregated_batch epoch_keys with_cid
  aggregated_batch epoch a answers = with_cid answers.ipfs (
      create_aggregated_batch sha256 v answers.now a.sequencer_id answers.ours answers.incoming
        (epoch_keys epoch a answers.validator_ids))

  unfoldable pub store_aggregated : Text → Aggregator → Answers → List (Command Payload)
  unfolding aggregated_batch after_store epoch_keys
  store_aggregated epoch a answers =
      let b = aggregated_batch epoch a answers in
      set (batch_aggregated a.key_builder epoch) (aggregated b) day_seconds
      ∷ (if answers.set_succeeds
          then after_store epoch a answers (epoch_keys epoch a answers.validator_ids) b
          else [])

  unfoldable pub aggregate_epoch : Text → Aggregator → Answers → List (Command Payload)
  unfolding store_aggregated
  aggregate_epoch epoch a answers = elim answers.exists [
    | found n ↦ []
    | failed ↦ []
    | missing ↦ store_aggregated epoch a answers
  ]
