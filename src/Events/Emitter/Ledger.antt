-- ===== src/Events/Emitter/Ledger.antt =====
-- What the goroutines around an emitter keep, however they interleave.
use snapshot_sequencer_valid.Base.{
  ℕ, suc, ◌+◌, ◌≤◌, ◌<◌, true, false, Option, none, some, List, [], ◌∷◌, ◌++◌, length,
  length-append, append-nil, append_assoc, ◌≡◌, refl, ap, arith, ◌⊎◌,
}
use snapshot_sequencer_valid.Events.{Event}
use snapshot_sequencer_valid.Events.Emitter.{
  Emitter, EmitterConfig, u64, new_emitter, start, begin_stop, end_stop, begin_emit, try_send,
  drop_event, subscribe, unsubscribe, handle_event,
}
use snapshot_sequencer_valid.Events.Emitter.Machine.{
  System, Place, emitting, waiting_for_room, with_timeout, Step, Reach, initial, here, next,
  start_call, stop_call, close_channel, emit_call, timeout_call, send, hand_over, overflow,
  wait_for_room, time_out, give_up, give_up_timeout, receive, dispatch, abandon, work, see_done,
  see_closed, drain_one, drain_end, add_subscriber, remove_subscriber,
}

-- The events that are with a sender, in the channel, or with a goroutine that is to handle them.
abbrev pub under_way : System → ℕ
under_way s = length s.senders + length s.emitter.event_chan + length s.held + length s.workers

pub record IsLedger (s : System) : Type 0 where
  pub bounded : length s.emitter.event_chan ≤ s.emitter.config.buffer_size
  pub fifo : s.sent ≡ s.taken ++ s.emitter.event_chan
  pub tokens : s.emitter.worker_pool + length s.workers ≡ s.emitter.config.max_workers
  pub stopped : (s.emitter.closed ≡ true) ⊎ (0 < s.stopping) → s.emitter.done ≡ true
  pub accounts :
      s.emitter.done ≡ false
      → s.emitter.events_emitted
        ≡ u64 (s.emitter.events_dropped + s.emitter.events_processed + under_way s)

length-pick {ℓ} :
    {A : Type ℓ} (x : A) (xs ys : List A) → length (xs ++ x ∷ ys) ≡ suc (length (xs ++ ys))
length-pick x [] ys = refl
length-pick x (y ∷ xs) ys = ap suc (length-pick x xs ys)

emit_call-IsLedger :
    (s : System) (p : Place) (event event' : Event) (e : Emitter)
    → begin_emit s.emitter event ≡ some (event', e)
    → IsLedger s
    → IsLedger (record s { emitter = e; senders = (p, event') ∷ s.senders })
unfolding begin_emit
emit_call-IsLedger s p event event' e h i = ground (arith, i)

leave-IsLedger :
    (s : System) (p : Place) (event : Event) (xs ys : List (Place × Event))
    → s.senders ≡ xs ++ (p, event) ∷ ys
    → IsLedger s
    → IsLedger (record s { emitter = drop_event s.emitter; senders = xs ++ ys })
unfolding drop_event
leave-IsLedger s p event xs ys h i = ground (arith, length-pick (p, event) xs ys, ap length h)

send-IsLedger :
    (s : System) (p : Place) (event : Event) (xs ys : List (Place × Event)) (e : Emitter)
    → s.senders ≡ xs ++ (p, event) ∷ ys
    → try_send s.emitter event ≡ some e
    → IsLedger s
    → IsLedger (record s { emitter = e; senders = xs ++ ys; sent = s.sent ++ event ∷ [] })
unfolding try_send
send-IsLedger s p event xs ys e h sends i = ground (
  arith,
  length-pick (p, event) xs ys,
  ap length h,
  length-append s.emitter.event_chan (event ∷ []),
  append_assoc s.taken s.emitter.event_chan (event ∷ []),
)

hand_over-IsLedger :
    (s : System) (p : Place) (event : Event) (xs ys : List (Place × Event)) (n : ℕ)
    → s.senders ≡ xs ++ (p, event) ∷ ys
    → s.emitter.event_chan ≡ []
    → IsLedger s
    → IsLedger (record s {
      senders = xs ++ ys;
      waiting = n;
      held = event ∷ s.held;
      sent = s.sent ++ event ∷ [];
      taken = s.taken ++ event ∷ [];
    })
hand_over-IsLedger s p event xs ys n h quiet i = ground (
  arith,
  length-pick (p, event) xs ys,
  ap length h,
  append-nil s.taken,
  append-nil (s.taken ++ event ∷ []),
)

receive-IsLedger :
    (s : System) (event : Event) (c : List Event) (n : ℕ)
    → s.emitter.event_chan ≡ event ∷ c
    → IsLedger s
    → IsLedger (record s {
      emitter = record (s.emitter) { event_chan = c };
      waiting = n;
      held = event ∷ s.held;
      taken = s.taken ++ event ∷ [];
    })
receive-IsLedger s event c n h i = ground (arith, ap length h, append_assoc s.taken (event ∷ []) c)

dispatch-IsLedger :
    (s : System) (event : Event) (xs ys : List Event) (t : ℕ)
    → s.held ≡ xs ++ event ∷ ys
    → s.emitter.worker_pool ≡ suc t
    → IsLedger s
    → IsLedger (record s {
      emitter = record (s.emitter) { worker_pool = t };
      held = xs ++ ys;
      workers = event ∷ s.workers;
      waiting = suc s.waiting;
    })
dispatch-IsLedger s event xs ys t h some_token i =
    ground (arith, ap length h, length-pick event xs ys)

work-IsLedger :
    (s : System) (event : Event) (xs ys : List Event)
    → s.workers ≡ xs ++ event ∷ ys
    → IsLedger s
    → IsLedger (record s {
      emitter = record (handle_event s.emitter event) { worker_pool = s.emitter.worker_pool + 1 };
      workers = xs ++ ys;
    })
unfolding handle_event
work-IsLedger s event xs ys h i = ground (arith, ap length h, length-pick event xs ys)

drain_one-IsLedger :
    (s : System) (event : Event) (c : List Event)
    → s.emitter.event_chan ≡ event ∷ c
    → IsLedger s
    → IsLedger (record s {
      emitter = handle_event (record (s.emitter) { event_chan = c }) event;
      taken = s.taken ++ event ∷ [];
    })
unfolding handle_event
drain_one-IsLedger s event c h i = ground (arith, ap length h, append_assoc s.taken (event ∷ []) c)

pub step-IsLedger : (s t : System) → Step s t → IsLedger s → IsLedger t
unfolding start begin_stop end_stop try_send subscribe unsubscribe
step-IsLedger s _ (start_call e h) i = ground (arith, i)
step-IsLedger s _ (stop_call e h) i = ground (arith, i)
step-IsLedger s _ (close_channel n e h closes) i = ground (arith, i)
step-IsLedger s _ (emit_call event event' e h) i = emit_call-IsLedger s emitting event event' e h i
step-IsLedger s _ (timeout_call event event' e h) i =
    emit_call-IsLedger s with_timeout event event' e h i
step-IsLedger s _ (send p event xs ys e h unclosed sends) i =
    send-IsLedger s p event xs ys e h sends i
step-IsLedger s _ (hand_over p event xs ys n h unclosed quiet some_waiting) i =
    hand_over-IsLedger s p event xs ys n h quiet i
step-IsLedger s _ (overflow event xs ys h unclosed full drops) i =
    leave-IsLedger s emitting event xs ys h i
step-IsLedger s _ (wait_for_room event xs ys h unclosed full waits) i = ground (
  arith,
  ap length h,
  length-pick (emitting, event) xs ys,
  length-pick (waiting_for_room, event) xs ys,
)
step-IsLedger s _ (time_out event xs ys h) i = leave-IsLedger s with_timeout event xs ys h i
step-IsLedger s _ (give_up event xs ys h ends) i = ground (arith, i)
step-IsLedger s _ (give_up_timeout event xs ys h ends) i = ground (arith, i)
step-IsLedger s _ (receive event c n h takes) i = receive-IsLedger s event c n takes i
step-IsLedger s _ (dispatch event xs ys t h some_token) i =
    dispatch-IsLedger s event xs ys t h some_token i
step-IsLedger s _ (abandon event xs ys h ends) i = ground (arith, i)
step-IsLedger s _ (work event xs ys h) i = work-IsLedger s event xs ys h i
step-IsLedger s _ (see_done n h ends) i = ground (arith, i)
step-IsLedger s _ (see_closed n h closed quiet) i = ground (arith, i)
step-IsLedger s _ (drain_one event c n h takes) i =
    ground (arith, drain_one-IsLedger s event c takes i, i)
step-IsLedger s _ (drain_end n h) i = ground (arith, i)
step-IsLedger s _ (add_subscriber none) i = i
step-IsLedger s _ (add_subscriber (some sub)) i = ground (arith, i)
step-IsLedger s _ (remove_subscriber id) i = ground (arith, i)

-- From a new emitter, however the goroutines interleave: the channel holds no more than its buffer, what has come
-- out of it is what has gone in, in this order, but for what it holds; every token of the pool is there or with a
-- worker; the channel is closed only after Stop; and until Stop each event that was counted as emitted was
-- dropped or handled, or is under way.
pub Reach-IsLedger :
    (config : Option EmitterConfig) (s : System) → Reach (initial config) s → IsLedger s
unfolding initial new_emitter
Reach-IsLedger config _ here = ground arith
Reach-IsLedger config s (next {t} r step) = step-IsLedger t s step (Reach-IsLedger config t r)
