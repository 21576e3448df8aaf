-- ===== src/Events/Publisher.antt =====
-- pkgs/events/publisher.go: events to Redis channels, singly or in batches. A flush hands a batch to
-- a goroutine of its own, PublishBatch, which asks again whether the publisher is running.
pub mod Batches
pub mod Channels
pub mod Stopping
use snapshot_sequencer_valid.Base.{
  ℕ, suc, ◌+◌, ◌%◌, Text, text_eq, bytes, is_empty, Bool, true, false, not, ◌&&◌, ◌||◌, Option,
  none, some, List, [], ◌∷◌, ◌++◌, Map, get, has, put, del, length, ltb, leb, if◌then◌else◌, ◌==◌,
}
use snapshot_sequencer_valid.Redis.Join.{join}
use snapshot_sequencer_valid.Redis.Command.{Command, publish}
use snapshot_sequencer_valid.Events.{
  Event, event_epoch_started, event_epoch_completed, event_submission_received,
  event_submission_validated, event_submission_rejected, event_window_opened, event_window_closed,
  event_finalization_started, event_finalization_completed, event_part_completed,
  event_aggregation_level1_started, event_aggregation_level1_completed,
  event_aggregation_level2_started, event_aggregation_level2_completed,
  event_validator_batch_received, event_ipfs_storage_completed, event_queue_depth_changed,
  event_worker_status_changed,
}
use snapshot_sequencer_valid.Events.Emitter.{u64}

pub record PublisherConfig : Type 0 where
  pub channel_prefix : Text
  pub batch_size : ℕ
  pub enable_batching : Bool
  pub protocol : Text
  pub data_market : Text

unfoldable pub default_publisher_config : PublisherConfig
default_publisher_config = record {
  channel_prefix = bytes "dsv:events";
  batch_size = 100;
  enable_batching = true;
  protocol = [];
  data_market = [];
}

-- `flights` are the batches that a flush has handed over and that are not yet published or refused;
-- `done` says that the context is cancelled. The timer only calls flushBatch at some time.
pub record Publisher : Type 0 where
  pub config : PublisherConfig
  pub batch : List Event
  pub flights : List (List Event)
  pub channel_map : Map Text Text
  pub events_published : ℕ
  pub batches_published : ℕ
  pub publish_errors : ℕ
  pub running : Bool
  pub done : Bool

-- The event types of initChannelMap, with the ends of their channels.
abbrev pub channel_names : Map Text Text
channel_names =
    (event_epoch_started, bytes "epoch")
    ∷ (event_epoch_completed, bytes "epoch")
    ∷ (event_submission_received, bytes "submission")
    ∷ (event_submission_validated, bytes "submission")
    ∷ (event_submission_rejected, bytes "submission")
    ∷ (event_window_opened, bytes "window")
    ∷ (event_window_closed, bytes "window")
    ∷ (event_finalization_started, bytes "finalization")
    ∷ (event_finalization_completed, bytes "finalization")
    ∷ (event_part_completed, bytes "finalization")
    ∷ (event_aggregation_level1_started, bytes "aggregation")
    ∷ (event_aggregation_level1_completed, bytes "aggregation")
    ∷ (event_aggregation_level2_started, bytes "aggregation")
    ∷ (event_aggregation_level2_completed, bytes "aggregation")
    ∷ (event_validator_batch_received, bytes "validator")
    ∷ (event_ipfs_storage_completed, bytes "storage")
    ∷ (event_queue_depth_changed, bytes "queue")
    ∷ (event_worker_status_changed, bytes "worker")
    ∷ []

unfoldable pub init_channels : Text → Map Text Text → Map Text Text
unfolding join
init_channels prefix [] = []
init_channels prefix ((t, name) ∷ rest) = (t, join (prefix ∷ name ∷ [])) ∷ init_channels prefix rest

-- NewPublisher, of a configuration with a client of Redis.
unfoldable pub new_publisher : PublisherConfig → Publisher
unfolding init_channels
new_publisher c = record {
  config = c;
  batch = [];
  flights = [];
  channel_map = init_channels c.channel_prefix channel_names;
  events_published = 0;
  batches_published = 0;
  publish_errors = 0;
  running = false;
  done = false;
}

unfoldable pub qualify : PublisherConfig → Text → Text
unfolding join
qualify c channel =
    if not (is_empty c.protocol) && not (is_empty c.data_market)
    then join (c.protocol ∷ c.data_market ∷ channel ∷ [])
    else channel

unfoldable pub get_channel : Publisher → Text → Text
unfolding get qualify
get_channel p t = elim (get t p.channel_map) [
  | some channel ↦ qualify p.config channel
  | none ↦ p.config.channel_prefix
]

-- flushBatchLocked; the batch goes to a goroutine.
unfoldable pub flush_batch : Publisher → Publisher
flush_batch p = elim p.batch [
  | [] ↦ p
  | event ∷ events ↦ record p { batch = []; flights = p.flights ++ (event ∷ events) ∷ [] }
]

unfoldable pub add_to_batch : Event → Publisher → Publisher
unfolding flush_batch
add_to_batch event p =
    let p' = record p { batch = p.batch ++ event ∷ [] } in
    if leb p.config.batch_size (length p'.batch) then flush_batch p' else p'

pub data PublishError : Type 0 where
  already_running not_running serialize_failed publish_failed : PublishError

unfoldable pub start_publisher : Publisher → Option PublishError × Publisher
start_publisher p =
    if p.running then (some already_running, p) else (none, record p { running = true })

unfoldable pub stop_publisher : Publisher → Option PublishError × Publisher
unfolding flush_batch
stop_publisher p =
    let p' = record p { running = false; done = true } in
    if p.running
    then (none, if p.config.enable_batching then flush_batch p' else p')
    else (some not_running, p)

abbrev channels_of : Publisher → List Text → List Text
channels_of p [] = []
channels_of p (t ∷ ts) = get_channel p t ∷ channels_of p ts

-- The patterns that Subscribe subscribes to.
unfoldable pub subscribe_patterns : Publisher → List Text → List Text
unfolding get_channel join
subscribe_patterns p [] = join (p.config.channel_prefix ∷ bytes "*" ∷ []) ∷ []
subscribe_patterns p (t ∷ ts) = channels_of p (t ∷ ts)
