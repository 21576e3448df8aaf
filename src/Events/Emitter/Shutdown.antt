-- ===== src/Events/Emitter/Shutdown.antt =====
-- What Stop may do to events that were accepted, and to calls that overlap with it or come after it.
use snapshot_sequencer_valid.Base.{
  ℕ, ◌<◌, Bool, true, false, none, some, List, [], ◌∷◌, ◌≡◌, refl, arith,
}
use snapshot_sequencer_valid.Events.{Event}
use snapshot_sequencer_valid.Events.Emitter.{
  send_on_closed, emit, Emitter, EmitterConfig, new_emitter, start, begin_stop, end_stop,
  begin_emit, try_send, enrich, config_or_default,
}
use snapshot_sequencer_valid.Events.Emitter.Machine.{
  System, Place, emitting, Reach, initial, here, next, start_call, stop_call, close_channel,
  emit_call, send, receive, abandon,
}

-- Nobody has an event: none is in the channel, with a sender, or with a goroutine that handles events.
pub record IsQuiet (s : System) : Type 0 where
  pub no_sender : s.senders ≡ []
  pub no_event : s.emitter.event_chan ≡ []
  pub none_held : s.held ≡ []
  pub no_worker : s.workers ≡ []
  pub no_drain : s.draining ≡ 0
  pub no_loop : s.waiting ≡ 0

module _ (config : EmitterConfig) where
  -- An emitter that was new, with what the runs below change.
  abbrev at : Bool → Bool → Bool → ℕ → List Event → Emitter
  unfolding new_emitter
  at running done closed emitted events = record (new_emitter (some config)) {
    running = running;
    done = done;
    closed = closed;
    events_emitted = emitted;
    event_chan = events;
  }

  -- One sender at most, and what else the runs below change.
  abbrev system :
      Emitter → List (Place × Event) → ℕ → List Event → ℕ → List Event → List Event → System
  system e senders waiting held stopping sent taken = record {
    emitter = e;
    senders = senders;
    waiting = waiting;
    held = held;
    draining = 0;
    workers = [];
    stopping = stopping;
    sent = sent;
    taken = taken;
  }

  -- A run in which an event is at the sender, the emitter running.
  emitting_run :
      (event : Event)
      → Reach
          (initial (some config))
          (system (at true false false 1 []) ((emitting, enrich config event) ∷ []) 1 [] 0 [] [])
  unfolding initial new_emitter start begin_emit config_or_default
  emitting_run event =
      let started : Reach (initial (some config))
          (system (at true false false 0 []) [] 1 [] 0 [] []) =
        next here (start_call (at true false false 0 []) refl) in
      next started (emit_call event (enrich config event) (at true false false 1 []) refl)

  -- With room for an event there is a run, Start, Emit and Stop, in which Emit's event goes into the channel, so
  -- that Emit succeeds, and Stop ends, and the event is handled by nobody: it is not processed, and it is neither
  -- counted as dropped nor with any goroutine.
  pub accepted_lost :
      (event : Event)
      → 0 < config.buffer_size
      → (s : System) × Reach (initial (some config)) s
        × IsQuiet s
        × (s.sent ≡ enrich config event ∷ [])
        × (s.stopping ≡ 0)
        × (s.emitter.closed ≡ true)
        × (s.emitter.events_emitted ≡ 1)
        × (s.emitter.events_processed ≡ 0)
        × (s.emitter.events_dropped ≡ 0)
  unfolding initial new_emitter try_send begin_stop end_stop config_or_default
  accepted_lost event room =
      let v = enrich config event in
      let sent : Reach (initial (some config))
          (system (at true false false 1 (v ∷ [])) [] 1 [] 0 (v ∷ []) []) =
        next (emitting_run event)
          (send emitting v [] [] (at true false false 1 (v ∷ [])) refl refl (ground arith)) in
      let held : Reach (initial (some config))
          (system (at true false false 1 []) [] 0 (v ∷ []) 0 (v ∷ []) (v ∷ [])) =
        next sent (receive v [] 0 refl refl) in
      let stopped : Reach (initial (some config))
          (system (at false true false 1 []) [] 0 (v ∷ []) 1 (v ∷ []) (v ∷ [])) =
        next held (stop_call (at false true false 1 []) refl) in
      let lost : Reach (initial (some config))
          (system (at false true false 1 []) [] 0 [] 1 (v ∷ []) (v ∷ [])) =
        next stopped (abandon v [] [] refl refl) in
      let closed : Reach (initial (some config))
          (system (at false true true 1 []) [] 0 [] 0 (v ∷ []) (v ∷ [])) =
        next lost (close_channel 0 (at false true true 1 []) refl refl) in
      (
        system (at false true true 1 []) [] 0 [] 0 (v ∷ []) (v ∷ []),
        closed,
        record {
          no_sender = refl;
          no_event = refl;
          none_held = refl;
          no_worker = refl;
          no_drain = refl;
          no_loop = refl;
        },
        refl,
        refl,
        refl,
        refl,
        refl,
        refl,
      )

  -- There is a run in which a sender stands before a closed channel, where its send panics.
  pub late_send :
      (event : Event)
      → (s : System) × Reach (initial (some config)) s
        × (s.emitter.closed ≡ true)
        × (s.senders ≡ (emitting, enrich config event) ∷ [])
  unfolding initial new_emitter begin_stop end_stop config_or_default
  late_send event =
      let v : Place × Event = (emitting, enrich config event) in
      let stopped : Reach (initial (some config))
          (system (at false true false 1 []) (v ∷ []) 1 [] 1 [] []) =
        next (emitting_run event) (stop_call (at false true false 1 []) refl) in
      let closed : Reach (initial (some config))
          (system (at false true true 1 []) (v ∷ []) 1 [] 0 [] []) =
        next stopped (close_channel 0 (at false true true 1 []) refl refl) in
      (system (at false true true 1 []) (v ∷ []) 1 [] 0 [] [], closed, refl, refl)

-- An emitter that was stopped and is started again: every Emit of it is a send on a closed channel, and the end of
-- the second Stop closes the channel again, which panics.
pub restart_panics :
    (e stopping stopped restarted : Emitter) (event : Event)
    → begin_stop e ≡ some stopping
    → end_stop stopping ≡ some stopped
    → start stopped ≡ some restarted
    → ((emit restarted event).0 ≡ send_on_closed)
      × ((again : Emitter) × (begin_stop restarted ≡ some again) × (end_stop again ≡ none))
unfolding begin_stop end_stop start emit begin_emit
restart_panics e stopping stopped restarted event stops closes starts =
    (ground arith, (record restarted { running = false; done = true }, ground arith, ground arith))
