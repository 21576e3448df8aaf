-- ===== src/Events/Emitter/Machine.antt =====
-- The goroutines around an `Emitter` under interleaving: callers of Emit and of EmitWithTimeout, the
-- loop of processEvents, its workers, and callers of Start and of Stop. Goroutines at the same place
-- are told apart by their event only, so they are counted or listed by place.
use snapshot_sequencer_valid.Base.{
  ℕ, suc, ◌+◌, Text, true, false, Option, none, some, List, [], ◌∷◌, ◌++◌, ◌≡◌,
}
use snapshot_sequencer_valid.Events.{Event}
use snapshot_sequencer_valid.Events.Emitter.{
  Emitter, EmitterConfig, Subscriber, new_emitter, start, begin_stop, end_stop, begin_emit,
  try_send, drop_event, subscribe, unsubscribe, handle_event,
}

-- Where a sender stands: at Emit's first `select`, at its second, or at that of EmitWithTimeout.
pub data Place : Type 0 where
  emitting waiting_for_room with_timeout : Place

-- `waiting` and `draining` are how many processEvents are at their outer `select` and in drainEvents,
-- and `stopping` how many Stop wait; `held` has the events of those that wait for a worker, and
-- `workers` the events of the workers. `sent` and `taken` are a history: what has gone into the channel
-- and come out of it.
pub record System : Type 0 where
  pub emitter : Emitter
  pub senders : List (Place × Event)
  pub waiting : ℕ
  pub held : List Event
  pub draining : ℕ
  pub workers : List Event
  pub stopping : ℕ
  pub sent : List Event
  pub taken : List Event

unfoldable pub initial : Option EmitterConfig → System
unfolding new_emitter
initial config = record {
  emitter = new_emitter config;
  senders = [];
  waiting = 0;
  held = [];
  draining = 0;
  workers = [];
  stopping = 0;
  sent = [];
  taken = [];
}

pub data Step (s : System) : System → Type 0 where
  start_call :
      (e : Emitter)
      → start s.emitter ≡ some e
      → Step s (record s { emitter = e; waiting = suc s.waiting })
  stop_call :
      (e : Emitter)
      → begin_stop s.emitter ≡ some e
      → Step s (record s { emitter = e; stopping = suc s.stopping })
  close_channel :
      (n : ℕ) (e : Emitter)
      → s.stopping ≡ suc n
      → end_stop s.emitter ≡ some e
      → Step s (record s { emitter = e; stopping = n })
  emit_call :
      (event event' : Event) (e : Emitter)
      → begin_emit s.emitter event ≡ some (event', e)
      → Step s (record s { emitter = e; senders = (emitting, event') ∷ s.senders })
  timeout_call :
      (event event' : Event) (e : Emitter)
      → begin_emit s.emitter event ≡ some (event', e)
      → Step s (record s { emitter = e; senders = (with_timeout, event') ∷ s.senders })
  send :
      (p : Place) (event : Event) (xs ys : List (Place × Event)) (e : Emitter)
      → s.senders ≡ xs ++ (p, event) ∷ ys
      → s.emitter.closed ≡ false
      → try_send s.emitter event ≡ some e
      → Step s (record s { emitter = e; senders = xs ++ ys; sent = s.sent ++ event ∷ [] })
  hand_over :
      (p : Place) (event : Event) (xs ys : List (Place × Event)) (n : ℕ)
      → s.senders ≡ xs ++ (p, event) ∷ ys
      → s.emitter.closed ≡ false
      → s.emitter.event_chan ≡ []
      → s.waiting ≡ suc n
      → Step s (record s {
        senders = xs ++ ys;
        waiting = n;
        held = event ∷ s.held;
        sent = s.sent ++ event ∷ [];
        taken = s.taken ++ event ∷ [];
      })
  overflow :
      (event : Event) (xs ys : List (Place × Event))
      → s.senders ≡ xs ++ (emitting, event) ∷ ys
      → s.emitter.closed ≡ false
      → try_send s.emitter event ≡ none
      → s.emitter.config.drop_on_overflow ≡ true
      → Step s (record s { emitter = drop_event s.emitter; senders = xs ++ ys })
  wait_for_room :
      (event : Event) (xs ys : List (Place × Event))
      → s.senders ≡ xs ++ (emitting, event) ∷ ys
      → s.emitter.closed ≡ false
      → try_send s.emitter event ≡ none
      → s.emitter.config.drop_on_overflow ≡ false
      → Step s (record s { senders = xs ++ (waiting_for_room, event) ∷ ys })
  time_out :
      (event : Event) (xs ys : List (Place × Event))
      → s.senders ≡ xs ++ (with_timeout, event) ∷ ys
      → Step s (record s { emitter = drop_event s.emitter; senders = xs ++ ys })
  give_up :
      (event : Event) (xs ys : List (Place × Event))
      → s.senders ≡ xs ++ (waiting_for_room, event) ∷ ys
      → s.emitter.done ≡ true
      → Step s (record s { senders = xs ++ ys })
  give_up_timeout :
      (event : Event) (xs ys : List (Place × Event))
      → s.senders ≡ xs ++ (with_timeout, event) ∷ ys
      → s.emitter.done ≡ true
      → Step s (record s { senders = xs ++ ys })
  receive :
      (event : Event) (c : List Event) (n : ℕ)
      → s.waiting ≡ suc n
      → s.emitter.event_chan ≡ event ∷ c
      → Step s (record s {
        emitter = record (s.emitter) { event_chan = c };
        waiting = n;
        held = event ∷ s.held;
        taken = s.taken ++ event ∷ [];
      })
  dispatch :
      (event : Event) (xs ys : List Event) (t : ℕ)
      → s.held ≡ xs ++ event ∷ ys
      → s.emitter.worker_pool ≡ suc t
      → Step s (record s {
        emitter = record (s.emitter) { worker_pool = t };
        held = xs ++ ys;
        workers = event ∷ s.workers;
        waiting = suc s.waiting;
      })
  abandon :
      (event : Event) (xs ys : List Event)
      → s.held ≡ xs ++ event ∷ ys
      → s.emitter.done ≡ true
      → Step s (record s { held = xs ++ ys })
  work :
      (event : Event) (xs ys : List Event)
      → s.workers ≡ xs ++ event ∷ ys
      → Step s (record s {
        emitter = record (handle_event s.emitter event) { worker_pool = s.emitter.worker_pool + 1 };
        workers = xs ++ ys;
      })
  see_done :
      (n : ℕ)
      → s.waiting ≡ suc n
      → s.emitter.done ≡ true
      → Step s (record s { waiting = n; draining = suc s.draining })
  see_closed :
      (n : ℕ)
      → s.waiting ≡ suc n
      → s.emitter.closed ≡ true
      → s.emitter.event_chan ≡ []
      → Step s (record s { waiting = n })
  drain_one :
      (event : Event) (c : List Event) (n : ℕ)
      → s.draining ≡ suc n
      → s.emitter.event_chan ≡ event ∷ c
      → Step s (record s {
        emitter = handle_event (record (s.emitter) { event_chan = c }) event;
        taken = s.taken ++ event ∷ [];
      })
  drain_end : (n : ℕ) → s.draining ≡ suc n → Step s (record s { draining = n })
  add_subscriber :
      (sub : Option Subscriber) → Step s (record s { emitter = (subscribe sub s.emitter).1 })
  remove_subscriber : (id : Text) → Step s (record s { emitter = (unsubscribe id s.emitter).1 })

pub data Reach (s : System) : System → Type 0 where
  here : Reach s s
  next : {t u : System} → Reach s t → Step t u → Reach s u
