-- ===== src/Gateway.antt =====
-- cmd/p2p-gateway/main.go: what becomes of a batch of another validator, and the names of submissions. The
-- answers of Redis, strconv and "%v" are arguments; `object` is what json.Unmarshal makes of a message
-- as a map, if it can.
pub mod Notices
pub mod Streams
pub mod Submissions
pub mod Outgoing
pub mod Tests
use snapshot_sequencer_valid.Base.{
  or_else, ℕ, zero, suc, ◌*◌, ◌&&◌, Text, text_eq, bytes, decimal, is_empty, Bool, true, false, not,
  Option, none, some, List, [], ◌∷◌, ◌++◌, Map, get, take, length, ltb, if◌then◌else◌,
}
use snapshot_sequencer_valid.Json.{Json, num, real, str, as_string, member}
use snapshot_sequencer_valid.Votes.{or_nil}
use snapshot_sequencer_valid.Redis.Join.{join}
use snapshot_sequencer_valid.Redis.Command.{Command, set, sadd, expire, zadd, publish, xadd}
use snapshot_sequencer_valid.Redis.Keys.{
  KeyBuilder, incoming_batch, epoch_validators, aggregation_stream, active_epochs,
}
use snapshot_sequencer_valid.Redis.MetricKeys.{metrics_batches_timeline, metrics_validator_batches}
use snapshot_sequencer_valid.Aggregator.Epoch.{Strconv, format_epoch_id}

-- What is extracted of a submission; an empty name of the project where it is no submission.
pub record SubmissionMetadata : Type 0 where
  pub epoch_id : ℕ
  pub slot_id : ℕ
  pub project_id : Text
  pub peer_id : Text
  pub timestamp : ℕ
  pub data_market : Text
  pub node_version : Text
  pub message_size : ℕ
  pub topic_name : Text

pub record SubmissionMessage : Type 0 where
  pub slot_id : ℕ
  pub epoch_id : ℕ
  pub project_id : Text
  pub data_market : Text
  pub node_version : Option Text

unfoldable pub extract_submission_metadata :
    Option SubmissionMessage → Text → Text → ℕ → Text → SubmissionMetadata
extract_submission_metadata none message peer now topic = record {
  epoch_id = 0;
  slot_id = 0;
  project_id = [];
  peer_id = peer;
  timestamp = now;
  data_market = [];
  node_version = [];
  message_size = length message;
  topic_name = topic;
}
extract_submission_metadata (some s) message peer now topic = record {
  epoch_id = s.epoch_id;
  slot_id = s.slot_id;
  project_id = s.project_id;
  peer_id = peer;
  timestamp = now;
  data_market = s.data_market;
  node_version = or_nil s.node_version;
  message_size = length message;
  topic_name = topic;
}

-- The entity's name, and which of the two formats it has.
unfoldable pub generate_entity_id : SubmissionMetadata → Text × Text
unfolding join decimal
generate_entity_id m =
    if ltb 0 m.epoch_id && ltb 0 m.slot_id && not (is_empty m.project_id)
    then (
      join (
          bytes "received"
          ∷ decimal m.epoch_id
          ∷ decimal m.slot_id
          ∷ m.project_id
          ∷ decimal m.timestamp
          ∷ m.peer_id
          ∷ []),
      bytes "enhanced",
    )
    else (
      bytes "received:peer-"
          ++ take 8 m.peer_id
          ++ bytes "-"
          ++ decimal m.timestamp
          ++ bytes ":"
          ++ decimal m.timestamp,
      bytes "legacy",
    )

pub data Payload : Type 0 where
  raw : Text → Payload
  notice : Map Text Text → Payload
  hash : Map Text Text → Payload
  seen : ℕ → Payload

-- How the loop goes on after a message: to the next one, or it ends.
pub data Loop : Type 0 where
  next stop : Loop

module _ (stream : Text) (values : Map Text Text) where
  -- The attempts that are left, with what Redis answers to each: whether the stream is there, and
  -- whether the XADD is taken. The value says whether one was.
  unfoldable pub add_to_stream : ℕ → (ℕ → Bool × Bool) → Bool × List (Command Payload)
  add_to_stream zero answers = (false, [])
  add_to_stream (suc left) answers =
      let (there, taken) = answers left in
      let (later, more) = add_to_stream left answers in
      if not there
      then (later, more)
      else if taken
      then (true, xadd stream (notice values) ∷ [])
      else (later, xadd stream (notice values) ∷ more)

-- A peer's ID unless the batch names its sequencer.
named_by : Option Text → Option Text → Text → Text
named_by (some (c ∷ s)) upper peer = c ∷ s
named_by _ (some (c ∷ s)) peer = c ∷ s
named_by _ _ peer = peer

unfoldable pub validator_of : List (Text × Json) → Text → Text
unfolding member named_by
validator_of m peer =
    named_by (member as_string (bytes "sequencerId") m) (member as_string (bytes "SequencerId") m)
      peer

-- The fields of the notice for the aggregator.
unfoldable pub notice_values : KeyBuilder → ℕ → Text → Text → Map Text Text
unfolding decimal
notice_values kb now epoch validator =
    (bytes "epoch", epoch)
    ∷ (bytes "validator", validator)
    ∷ (bytes "batch_key", incoming_batch kb epoch validator)
    ∷ (bytes "timestamp", decimal now)
    ∷ (bytes "type", bytes "validator_batch")
    ∷ []

module _ (kb : KeyBuilder) (c : Strconv) (print_float show : Json → Text) (now : ℕ) where
  -- FormatEpochID of a value of the JSON.
  unfoldable pub format_epoch : Json → Text
  unfolding format_epoch_id
  format_epoch (str s) = format_epoch_id c s
  format_epoch (num n) = print_float (num n)
  format_epoch (real z) = print_float (real z)
  format_epoch v = show v

  store_batch : Text → Text → Text → List (Command Payload)
  store_batch message epoch validator =
      set (incoming_batch kb epoch validator) (raw message) 1800
      ∷ sadd (epoch_validators kb epoch) validator
      ∷ expire (epoch_validators kb epoch) 7200
      ∷ []

  after_batch : Text → Text → List (Command Payload)
  unfolding join
  after_batch epoch validator =
      sadd (active_epochs kb) epoch
      ∷ zadd (metrics_batches_timeline kb) now (join (bytes "validator" ∷ validator ∷ epoch ∷ []))
      ∷ zadd (metrics_validator_batches kb validator) now epoch
      ∷ publish (bytes "state:change")
          (join (bytes "batch" ∷ bytes "validator" ∷ validator ∷ epoch ∷ []))
      ∷ []

  -- The batch of an epoch: the notice goes first, and the loop ends where it is never taken. `stored`
  -- says whether the pipeline that stores the batch succeeds.
  unfoldable pub receive_batch :
      (ℕ → Bool × Bool) → Bool → Text → Text → Text → Loop × List (Command Payload)
  unfolding add_to_stream notice_values store_batch after_batch
  receive_batch answers stored message epoch validator =
      let (noticed, notices) =
        add_to_stream (aggregation_stream kb) (notice_values kb now epoch validator) 3 answers in
      if noticed
      then (
        next,
        notices
            ++ store_batch message epoch validator
            ++ (if stored then after_batch epoch validator else []),
      )
      else (stop, notices)

  with_epoch_id :
      (ℕ → Bool × Bool) → Bool → Text → Text → Option Json → Loop × List (Command Payload)
  unfolding receive_batch format_epoch
  with_epoch_id answers stored message validator none = (next, [])
  with_epoch_id answers stored message validator (some epoch) =
      receive_batch answers stored message (format_epoch epoch) validator

  -- A message of the batches' topic, of another peer.
  unfoldable pub handle_incoming_batch :
      (ℕ → Bool × Bool)
      → Bool
      → Text
      → Option (List (Text × Json))
      → Text
      → Loop × List (Command Payload)
  unfolding with_epoch_id validator_of get
  handle_incoming_batch answers stored message none peer = (next, [])
  handle_incoming_batch answers stored message (some m) peer =
      with_epoch_id answers stored message (validator_of m peer)
        (or_else (get (bytes "epochId") m) (get (bytes "EpochId") m))
