-- ===== src/Events/Emitter.antt =====
-- pkgs/events/emitter.go: the state of `Emitter` and what it does in one step of a goroutine. The
-- channel of events is the list of what is buffered, oldest first, with the bound that `buffer_size`
-- gives; the pool of workers is the number of tokens in it. A counter is a uint64.
pub mod Machine
pub mod Ledger
pub mod Delivery
pub mod Shutdown
use snapshot_sequencer_valid.Base.{
  ℕ, ◌+◌, ◌%◌, Text, text_eq, bytes, is_empty, Bool, true, false, not, ◌&&◌, ◌||◌, Option, none,
  some, List, [], ◌∷◌, ◌++◌, Map, get, has, put, del, length, ltb, if◌then◌else◌, ◌==◌,
}
use snapshot_sequencer_valid.Events.{Event}

-- How a handler ends: it returns, panics, or is still running at its time limit; of the last the
-- second panics later.
pub data Outcome : Type 0 where
  returned panicked slow slow_panicked : Outcome

-- A handler changes nothing of the emitter; a filter is a total test.
pub record Subscriber : Type 0 where
  pub id : Text
  pub handler : Event → Outcome
  pub filter : Option (Event → Bool)
  pub types : List Text

pub record EmitterConfig : Type 0 where
  pub buffer_size : ℕ
  pub max_workers : ℕ
  pub drop_on_overflow : Bool
  pub protocol : Text
  pub data_market : Text
  pub sequencer_id : Text

-- `done` says that the context is cancelled.
pub record Emitter : Type 0 where
  pub config : EmitterConfig
  pub event_chan : List Event
  pub closed : Bool
  pub subscribers : Map Text Subscriber
  pub worker_pool : ℕ
  pub events_emitted : ℕ
  pub events_dropped : ℕ
  pub events_processed : ℕ
  pub processing_errors : ℕ
  -- a history: whose handlers were called, and of which event
  pub notified : List (Text × Event)
  pub done : Bool
  pub running : Bool

abbrev pub u64 : ℕ → ℕ
u64 n = n % 18_446_744_073_709_551_616

unfoldable pub default_config : EmitterConfig
default_config = record {
  buffer_size = 1000;
  max_workers = 10;
  drop_on_overflow = true;
  protocol = [];
  data_market = [];
  sequencer_id = [];
}

unfoldable pub config_or_default : Option EmitterConfig → EmitterConfig
unfolding default_config
config_or_default none = default_config
config_or_default (some c) = c

unfoldable pub new_emitter : Option EmitterConfig → Emitter
new_emitter config =
    let c = config_or_default config in
    record {
      config = c;
      event_chan = [];
      closed = false;
      subscribers = [];
      worker_pool = c.max_workers;
      events_emitted = 0;
      events_dropped = 0;
      events_processed = 0;
      processing_errors = 0;
      notified = [];
      done = false;
      running = false;
    }

-- The compare-and-swap of Start and of Stop: none where it fails.
unfoldable pub start : Emitter → Option Emitter
start e = if e.running then none else some (record e { running = true })

-- Stop, up to the wait for the goroutines.
unfoldable pub begin_stop : Emitter → Option Emitter
begin_stop e = if e.running then some (record e { running = false; done = true }) else none

-- The end of Stop, `close(e.eventChan)`: none is the panic on a closed channel.
unfoldable pub end_stop : Emitter → Option Emitter
end_stop e = if e.closed then none else some (record e { closed = true })

abbrev or_default : Text → Text → Text
or_default d s = if is_empty s then d else s

unfoldable pub enrich : EmitterConfig → Event → Event
enrich c event = record event {
  protocol = or_default c.protocol event.protocol;
  data_market = or_default c.data_market event.data_market;
  sequencer_id = or_default c.sequencer_id event.sequencer_id;
}

-- Emit and EmitWithTimeout, up to the first `select`: none where the emitter is not running.
unfoldable pub begin_emit : Emitter → Event → Option (Event × Emitter)
unfolding enrich
begin_emit e event =
    if e.running
    then some (enrich e.config event, record e { events_emitted = u64 (e.events_emitted + 1) })
    else none

-- `e.eventChan <- event` with room in the buffer: none where there is none.
unfoldable pub try_send : Emitter → Event → Option Emitter
try_send e event =
    if ltb (length e.event_chan) e.config.buffer_size
    then some (record e { event_chan = e.event_chan ++ event ∷ [] })
    else none

-- The counter of what is dropped, on overflow and on a timeout.
unfoldable pub drop_event : Emitter → Emitter
drop_event e = record e { events_dropped = u64 (e.events_dropped + 1) }

pub data EmitResult : Type 0 where
  sent not_running buffer_full blocked send_on_closed : EmitResult

unfoldable pub after_begin : Option (Event × Emitter) → Emitter → EmitResult × Emitter
unfolding try_send drop_event
after_begin none e = (not_running, e)
after_begin (some (event, e')) e =
    if e'.closed then (send_on_closed, e') else elim (try_send e' event) [
      | some e'' ↦ (sent, e'')
      | none ↦ if e'.config.drop_on_overflow then (buffer_full, drop_event e') else (blocked, e')
    ]

-- Emit where nothing comes between its steps; `blocked` is where it waits in its second `select`.
unfoldable pub emit : Emitter → Event → EmitResult × Emitter
unfolding begin_emit after_begin
emit e event = after_begin (begin_emit e event) e

pub data SubscribeError : Type 0 where
  invalid already_exists not_found : SubscribeError

unfoldable pub subscribe : Option Subscriber → Emitter → Option SubscribeError × Emitter
unfolding has put
subscribe none e = (some invalid, e)
subscribe (some s) e =
    if is_empty s.id
    then (some invalid, e)
    else if has s.id e.subscribers
    then (some already_exists, e)
    else (none, record e { subscribers = put s.id s e.subscribers })

unfoldable pub unsubscribe : Text → Emitter → Option SubscribeError × Emitter
unfolding has del
unsubscribe id e =
    if has id e.subscribers
    then (none, record e { subscribers = del id e.subscribers })
    else (some not_found, e)

unfoldable pub contains : Text → List Text → Bool
contains t [] = false
contains t (x ∷ xs) = (x == t) || contains t xs

abbrev pub has_type : List Text → Text → Bool
unfolding contains
has_type [] t = true
has_type (x ∷ xs) t = contains t (x ∷ xs)

abbrev pub passes : Option (Event → Bool) → Event → Bool
passes none event = true
passes (some f) event = f event

-- The two tests of handleEvent.
unfoldable pub is_interested : Event → Subscriber → Bool
is_interested event s = has_type s.types event.event_type && passes s.filter event

-- The subscribers that handleEvent notifies, in the order of the visit.
unfoldable pub interested : Event → Map Text Subscriber → List Subscriber
unfolding is_interested
interested event [] = []
interested event ((_, s) ∷ rest) =
    let others = interested event rest in if is_interested event s then s ∷ others else others

-- What a handler adds to the counter of errors.
abbrev pub errors_of : Outcome → ℕ
errors_of returned = 0
errors_of panicked = 1
errors_of slow = 1
errors_of slow_panicked = 2

-- The handlers are called one after the other; what is carried is the counter of errors and the history of
-- the calls.
unfoldable pub notify : Event → List Subscriber → ℕ × List (Text × Event) → ℕ × List (Text × Event)
notify event [] (errors, calls) = (errors, calls)
notify event (s ∷ ss) (errors, calls) =
    notify event ss (u64 (errors + errors_of (s.handler event)), calls ++ (s.id, event) ∷ [])

unfoldable pub handle_event : Emitter → Event → Emitter
unfolding interested notify
handle_event e event =
    let (errors, calls) =
      notify event (interested event e.subscribers) (e.processing_errors, e.notified) in
    record e {
      events_processed = u64 (e.events_processed + 1);
      processing_errors = errors;
      notified = calls;
    }

-- drainEvents where nothing comes between its steps and its time limit is not reached.
unfoldable pub drain : List Event → Emitter → Emitter
unfolding handle_event
drain [] e = record e { event_chan = [] }
drain (event ∷ events) e = drain events (handle_event e event)

unfoldable pub drain_events : Emitter → Emitter
unfolding drain
drain_events e = drain e.event_chan e

pub record Metrics : Type 0 where
  pub events_emitted : ℕ
  pub events_dropped : ℕ
  pub events_processed : ℕ
  pub processing_errors : ℕ
  pub buffer_usage : ℕ
  pub buffer_capacity : ℕ
  pub subscribers : ℕ
  pub running : Bool

unfoldable pub get_metrics : Emitter → Metrics
get_metrics e = record {
  events_emitted = e.events_emitted;
  events_dropped = e.events_dropped;
  events_processed = e.events_processed;
  processing_errors = e.processing_errors;
  buffer_usage = length e.event_chan;
  buffer_capacity = e.config.buffer_size;
  subscribers = length e.subscribers;
  running = e.running;
}
