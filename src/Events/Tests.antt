-- ===== src/Events/Tests.antt =====
-- Runs of the emitter and of the publisher on concrete events, and the theorems at them.
use snapshot_sequencer_valid.Base.{
  All, ◌++◌, ◌<◌, Text, text_eq, text_eqb, bytes, Bool, true, false, not, Option, none, some, List,
  [], ◌∷◌, Map, get, put, length, count_if, ◌==◌, ◌≡◌, refl, arith,
}
use snapshot_sequencer_valid.Redis.Command.{Command}
use snapshot_sequencer_valid.Redis.Join.{join}
use snapshot_sequencer_valid.Events.{
  Event, event_epoch_started, event_epoch_completed, event_stream_health, event_queue_depth_changed,
  severity_info, severity_error, new_event, queue_depth_changed, alert_level_of, alert_severity,
}
use snapshot_sequencer_valid.Events.Emitter.{
  EmitterConfig, Emitter, Subscriber, slow_panicked, enrich, new_emitter, start, begin_emit, emit,
  after_begin, sent, buffer_full, try_send, drop_event, subscribe, handle_event, interested,
  is_interested, contains, notify, drain_events, drain, config_or_default,
}
use snapshot_sequencer_valid.Events.Emitter.Machine.{
  System, Reach, initial, here, next, start_call, add_subscriber,
}
use snapshot_sequencer_valid.Events.Emitter.Ledger.{IsLedger, Reach-IsLedger}
use snapshot_sequencer_valid.Events.Emitter.Delivery.{times, Reach-notified_once}
use snapshot_sequencer_valid.Events.Emitter.Shutdown.{IsQuiet, accepted_lost}
use snapshot_sequencer_valid.Consensus.Visit.{IsVisit}
use snapshot_sequencer_valid.Events.Publisher.{
  PublishError, PublisherConfig, Publisher, new_publisher, get_channel, qualify, init_channels,
}
use snapshot_sequencer_valid.Events.Publisher.Batches.{
  publish_batch, publish_call, flush_call, stop_call, land_call, calls,
}
use snapshot_sequencer_valid.Events.Publisher.Channels.{published_on, texts_on, publish_batch-texts}
use snapshot_sequencer_valid.Events.Publisher.Stopping.{stop_silent, batch_bounded}

abbrev event : Text → Text → Event
event id t = record {
  id = id;
  event_type = t;
  severity = severity_info;
  timestamp = 1;
  component = bytes "c";
  protocol = [];
  data_market = [];
  sequencer_id = [];
  worker_id = [];
  payload = [];
  epoch_id = [];
  submission_id = [];
  validator_id = [];
  error = [];
  metadata = [];
}

abbrev config : EmitterConfig
config = record {
  buffer_size = 1;
  max_workers = 1;
  drop_on_overflow = true;
  protocol = bytes "p";
  data_market = [];
  sequencer_id = [];
}

abbrev listener : Subscriber
listener = record {
  id = bytes "s";
  handler = λ e. slow_panicked;
  filter = none;
  types = event_epoch_started ∷ [];
}

abbrev running : Emitter
running = record {
  config = config;
  event_chan = [];
  closed = false;
  subscribers = (bytes "s", listener) ∷ [];
  worker_pool = 1;
  events_emitted = 0;
  events_dropped = 0;
  events_processed = 0;
  processing_errors = 0;
  notified = [];
  done = false;
  running = true;
}

emit_twice :
    ((emit running (event (bytes "1") event_epoch_started)).0 ≡ sent)
    × ((emit
          (emit running (event (bytes "1") event_epoch_started)).1
          (event (bytes "2") event_epoch_started)).0
        ≡ buffer_full)
unfolding emit begin_emit after_begin try_send enrich drop_event
emit_twice = (refl, refl)

handle_errors : (handle_event running (event (bytes "1") event_epoch_started)).processing_errors ≡ 2
unfolding handle_event interested is_interested contains notify text_eqb
handle_errors = refl

drained :
    (drain_events (record running { event_chan = event [] [] ∷ event [] [] ∷ [] })).events_processed
    ≡ 2
unfolding drain_events drain handle_event
drained = refl

depth_severity :
    queue_depth_changed (λ p. some p.alert_level) 7 (bytes "c") (bytes "q") 1001 999
    ≡ new_event 7 event_queue_depth_changed severity_error (bytes "c") (some (bytes "critical"))
unfolding queue_depth_changed alert_level_of alert_severity new_event text_eqb
depth_severity = refl

abbrev started : System
unfolding initial new_emitter config_or_default
started = record (initial (some config)) {
  emitter = record (new_emitter (some config)) { running = true };
  waiting = 1;
}

started-Reach : Reach (initial (some config)) started
unfolding initial new_emitter start started config_or_default
started-Reach = next here (start_call (record (new_emitter (some config)) { running = true }) refl)

abbrev subscribed : System
unfolding started
subscribed = record started {
  emitter = record (started.emitter) { subscribers = (bytes "s", listener) ∷ [] };
}

subscribed-Reach : Reach (initial (some config)) subscribed
unfolding initial new_emitter started subscribed subscribe put config_or_default
subscribed-Reach = next started-Reach (add_subscriber (some listener))

Reach-IsLedger_example : IsLedger subscribed
Reach-IsLedger_example = Reach-IsLedger (some config) subscribed subscribed-Reach

Reach-notified_once_example :
    let handled = event (bytes "1") event_epoch_started in
    (calls : List (Text × Event)) × ((handle_event subscribed.emitter handled).notified
      ≡ subscribed.emitter.notified ++ calls)
    × All (λ c. c.1 ≡ handled) calls
    × (count_if (λ c. c.0 == bytes "s") calls
        ≡ times handled (get (bytes "s") subscribed.emitter.subscribers))
Reach-notified_once_example =
    Reach-notified_once (some config) subscribed subscribed-Reach
      (event (bytes "1") event_epoch_started) (bytes "s")

accepted_lost_example :
    (s : System) × Reach (initial (some config)) s
    × IsQuiet s
    × (s.sent ≡ enrich config (event (bytes "1") event_epoch_started) ∷ [])
    × (s.stopping ≡ 0)
    × (s.emitter.closed ≡ true)
    × (s.emitter.events_emitted ≡ 1)
    × (s.emitter.events_processed ≡ 0)
    × (s.emitter.events_dropped ≡ 0)
accepted_lost_example = accepted_lost config (event (bytes "1") event_epoch_started) (omega arith)

abbrev publisher_config : PublisherConfig
publisher_config = record {
  channel_prefix = bytes "dsv:events";
  batch_size = 2;
  enable_batching = true;
  protocol = [];
  data_market = [];
}

abbrev to_json : Event → Option Text
to_json e = some e.id

abbrev accepts : Bool → List (Command Text) → Bool
accepts done commands = not done

abbrev three : List Event
three =
    event (bytes "1") event_epoch_started
    ∷ event (bytes "2") event_stream_health
    ∷ event (bytes "3") event_epoch_completed
    ∷ []

abbrev publisher : Publisher
unfolding new_publisher
publisher = record (new_publisher publisher_config) { running = true }

channels :
    (get_channel publisher event_epoch_started ≡ bytes "dsv:events:epoch")
    × (get_channel publisher event_stream_health ≡ bytes "dsv:events")
unfolding publisher new_publisher init_channels join get_channel get qualify text_eqb
channels = (refl, refl)

abbrev keep_order : Map Text (List Event) → Map Text (List Event)
keep_order m = m

visits : IsVisit keep_order
visits m d = (d, λ k. refl)

abbrev result : Option PublishError × Publisher × List (Command Text)
unfolding publish_batch publisher
result = publish_batch to_json accepts keep_order three publisher

result_ok : publish_batch to_json accepts keep_order three publisher ≡ (none, result.1, result.2)
unfolding publish_batch publisher new_publisher init_channels result
result_ok = refl

publish_batch-texts_example :
    published_on (bytes "dsv:events:epoch") result.2
    ≡ texts_on to_json publisher (bytes "dsv:events:epoch") three
publish_batch-texts_example =
    publish_batch-texts to_json accepts keep_order three publisher result.1 result.2
      (bytes "dsv:events:epoch") visits result_ok

epoch_texts :
    texts_on to_json publisher (bytes "dsv:events:epoch") three ≡ bytes "1" ∷ bytes "3" ∷ []
unfolding publisher new_publisher init_channels join get_channel get qualify text_eqb
epoch_texts = refl

stop_silent_example :
    (calls to_json accepts keep_order
      (stop_call ∷ land_call 0 ∷ flush_call ∷ [])
      (record publisher { batch = three })).1
    ≡ []
unfolding publisher
stop_silent_example =
    stop_silent to_json accepts keep_order (λ commands. refl) (record publisher { batch = three })
      (land_call 0 ∷ flush_call ∷ []) refl

batch_bounded_example :
    length
      (calls to_json accepts keep_order
        (publish_call (event [] []) ∷ flush_call ∷ [])
        (new_publisher publisher_config)).0.batch
    < 2
batch_bounded_example =
    batch_bounded to_json accepts keep_order publisher_config
      (publish_call (event [] []) ∷ flush_call ∷ []) (omega arith)
