-- ===== src/Events.antt =====
-- pkgs/events: an event and what the helpers of the emitter make of it. A type and a severity are
-- Go strings. A payload comes as the answer of json.Marshal, none for its error.
pub mod Emitter
pub mod Publisher
pub mod Tests
use snapshot_sequencer_valid.Base.{
  ℕ, Text, text_eq, bytes, decimal, Option, none, some, List, [], ◌∷◌, ◌++◌, Map, ltb, ◌||◌,
  if◌then◌else◌, ◌==◌, ℤ, difference,
}

pub record Event : Type 0 where
  pub id : Text
  pub event_type : Text
  pub severity : Text
  pub timestamp : ℕ
  pub component : Text
  pub protocol : Text
  pub data_market : Text
  pub sequencer_id : Text
  pub worker_id : Text
  pub payload : Text
  pub epoch_id : Text
  pub submission_id : Text
  pub validator_id : Text
  pub error : Text
  pub metadata : Map Text Text

abbrev pub event_epoch_started : Text
event_epoch_started = bytes "epoch_started"

abbrev pub event_epoch_completed : Text
event_epoch_completed = bytes "epoch_completed"

abbrev pub event_submission_received : Text
event_submission_received = bytes "submission_received"

abbrev pub event_submission_validated : Text
event_submission_validated = bytes "submission_validated"

abbrev pub event_submission_rejected : Text
event_submission_rejected = bytes "submission_rejected"

abbrev pub event_window_opened : Text
event_window_opened = bytes "window_opened"

abbrev pub event_window_closed : Text
event_window_closed = bytes "window_closed"

abbrev pub event_finalization_started : Text
event_finalization_started = bytes "finalization_started"

abbrev pub event_finalization_completed : Text
event_finalization_completed = bytes "finalization_completed"

abbrev pub event_part_completed : Text
event_part_completed = bytes "part_completed"

abbrev pub event_aggregation_level1_started : Text
event_aggregation_level1_started = bytes "aggregation_level1_started"

abbrev pub event_aggregation_level1_completed : Text
event_aggregation_level1_completed = bytes "aggregation_level1_completed"

abbrev pub event_aggregation_level2_started : Text
event_aggregation_level2_started = bytes "aggregation_level2_started"

abbrev pub event_aggregation_level2_completed : Text
event_aggregation_level2_completed = bytes "aggregation_level2_completed"

abbrev pub event_validator_batch_received : Text
event_validator_batch_received = bytes "validator_batch_received"

abbrev pub event_ipfs_storage_completed : Text
event_ipfs_storage_completed = bytes "ipfs_storage_completed"

abbrev pub event_queue_depth_changed : Text
event_queue_depth_changed = bytes "queue_depth_changed"

abbrev pub event_stream_health : Text
event_stream_health = bytes "stream_health"

abbrev pub event_stream_cleanup : Text
event_stream_cleanup = bytes "stream_cleanup"

abbrev pub event_worker_status_changed : Text
event_worker_status_changed = bytes "worker_status_changed"

abbrev pub severity_info : Text
severity_info = bytes "info"

abbrev pub severity_warning : Text
severity_warning = bytes "warning"

abbrev pub severity_error : Text
severity_error = bytes "error"

unfoldable pub generate_event_id : ℕ → Text
unfolding decimal
generate_event_id nanos = bytes "evt_" ++ decimal nanos

-- NewEvent at a time in nanoseconds.
unfoldable pub new_event : ℕ → Text → Text → Text → Option Text → Option Event
unfolding generate_event_id
new_event now event_type severity component none = none
new_event now event_type severity component (some payload) = some (record {
  id = generate_event_id now;
  event_type = event_type;
  severity = severity;
  timestamp = now;
  component = component;
  protocol = [];
  data_market = [];
  sequencer_id = [];
  worker_id = [];
  payload = payload;
  epoch_id = [];
  submission_id = [];
  validator_id = [];
  error = [];
  metadata = [];
})

pub record QueueEventPayload : Type 0 where
  pub queue_name : Text
  pub current_depth : ℕ
  pub previous_depth : ℕ
  pub delta : ℤ
  pub alert_level : Text

unfoldable pub alert_level_of : ℕ → Text
alert_level_of depth =
    if ltb 1000 depth
    then bytes "critical"
    else if ltb 500 depth
    then bytes "warning"
    else bytes "normal"

unfoldable pub alert_severity : Text → Text
alert_severity level =
    if level == bytes "critical"
    then severity_error
    else if level == bytes "warning"
    then severity_warning
    else severity_info

-- EmitQueueDepthChanged, up to the call of Emit. A depth is a length, so not negative.
unfoldable pub queue_depth_changed :
    (QueueEventPayload → Option Text) → ℕ → Text → Text → ℕ → ℕ → Option Event
unfolding alert_level_of alert_severity new_event
queue_depth_changed marshal now component queue_name current previous =
    let level = alert_level_of current in
    let payload : QueueEventPayload = record {
      queue_name = queue_name;
      current_depth = current;
      previous_depth = previous;
      delta = difference current previous;
      alert_level = level;
    } in
    new_event now event_queue_depth_changed (alert_severity level) component (marshal payload)

pub record WorkerEventPayload : Type 0 where
  pub worker_type : Text
  pub worker_id : Text
  pub previous_status : Text
  pub current_status : Text
  pub last_activity : ℕ

unfoldable pub status_severity : Text → Text
status_severity status =
    if status == bytes "error" || status == bytes "failed"
    then severity_error
    else if status == bytes "stopped"
    then severity_warning
    else severity_info

abbrev pub with_worker : Text → Option Event → Option Event
with_worker worker none = none
with_worker worker (some e) = some (record e { worker_id = worker })

abbrev pub with_epoch : Text → Option Event → Option Event
with_epoch epoch none = none
with_epoch epoch (some e) = some (record e { epoch_id = epoch })

-- EmitWorkerStatusChanged, up to the call of Emit.
unfoldable pub worker_status_changed :
    (WorkerEventPayload → Option Text) → ℕ → Text → Text → Text → Text → Option Event
unfolding status_severity new_event
worker_status_changed marshal now worker_type worker previous current =
    let payload : WorkerEventPayload = record {
      worker_type = worker_type;
      worker_id = worker;
      previous_status = previous;
      current_status = current;
      last_activity = now;
    } in
    with_worker worker (
      new_event now event_worker_status_changed (status_severity current) (bytes "worker")
        (marshal payload))

-- EmitEpochStarted, up to the call of Emit; `marshal` takes the epoch and the time in seconds.
unfoldable pub epoch_started : (Text → ℕ → Option Text) → ℕ → ℕ → Text → Text → Option Event
unfolding new_event
epoch_started marshal nanos seconds component epoch =
    with_epoch epoch
      (new_event nanos event_epoch_started severity_info component (marshal epoch seconds))
