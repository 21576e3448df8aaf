-- ===== src/Events/Publisher/Stopping.antt =====
-- A publisher over many calls: the size of the batch, and what is left of it after Stop.
use snapshot_sequencer_valid.Base.{
  ℕ, zero, suc, ◌<◌, Text, Bool, Option-cases, true, false, Option, List, [], ◌∷◌, ◌++◌, Map,
  length, ◌≡◌, refl, arith, inl, inr,
}
use snapshot_sequencer_valid.Redis.Command.{Command, publish}
use snapshot_sequencer_valid.Events.{Event}
use snapshot_sequencer_valid.Events.Publisher.{
  Publisher, PublisherConfig, get_channel, new_publisher, flush_batch, add_to_batch,
  start_publisher, stop_publisher,
}
use snapshot_sequencer_valid.Events.Publisher.Batches.{
  Call, publish_call, flush_call, start_call, stop_call, land_call, publish_event, publish_single,
  publish_batch, pipe_commands, group_by_channel, land, call, calls,
}

module _ (to_json : Event → Option Text) (accepts : Bool → List (Command Text) → Bool)
    (visit : Map Text (List Event) → Map Text (List Event)) where
  publish_batch-done :
      (events : List Event) (p : Publisher)
      → ((commands : List (Command Text)) → accepts true commands ≡ false)
      → p.done ≡ true
      → ((publish_batch to_json accepts visit events p).1.done ≡ true)
        × ((publish_batch to_json accepts visit events p).2 ≡ [])
  unfolding publish_batch
  publish_batch-done events p refuses over =
      ground (arith, refuses (pipe_commands to_json (visit (group_by_channel p events []))).0)

  module _ (refuses : (commands : List (Command Text)) → accepts true commands ≡ false) where
    Silent : Publisher × List (Command Text) → Type 0
    Silent (p, sent) = (p.done ≡ true) × (sent ≡ [])

    land_done :
        (before flights : List (List Event)) (n : ℕ) (p : Publisher)
        → p.done ≡ true
        → Silent (land to_json accepts visit before flights n p)
    unfolding land Silent
    land_done before [] n p over = (over, refl)
    land_done before (events ∷ rest) zero p over =
        publish_batch-done events (record p { flights = before ++ rest }) refuses over
    land_done before (events ∷ rest) (suc n) p over =
        land_done (before ++ events ∷ []) rest n p over

    flush_done : (p : Publisher) → p.done ≡ true → (flush_batch p).done ≡ true
    unfolding flush_batch
    flush_done p over = ground arith

    add_done : (event : Event) (p : Publisher) → p.done ≡ true → (add_to_batch event p).done ≡ true
    unfolding add_to_batch flush_batch
    add_done event p over = ground arith

    publish_event_done :
        (event : Event) (p : Publisher)
        → p.done ≡ true
        → Silent (call to_json accepts visit (publish_call event) p)
    unfolding call publish_event publish_single Silent
    publish_event_done event p over = elim (Option-cases (to_json event)) [
      | inl no_text ↦ ground (arith, add_done event p over)
      | inr (json, text) ↦ ground (
        arith,
        add_done event p over,
        refuses (publish (get_channel p event.event_type) json ∷ []),
      )
    ]

    call_done : (c : Call) (p : Publisher) → p.done ≡ true → Silent (call to_json accepts visit c p)
    unfolding call start_publisher stop_publisher flush_batch Silent
    call_done (publish_call event) p over = publish_event_done event p over
    call_done flush_call p over = (flush_done p over, refl)
    call_done start_call p over = ground arith
    call_done stop_call p over = ground arith
    call_done (land_call n) p over = land_done [] p.flights n p over

    calls_done :
        (cs : List Call) (p : Publisher) → p.done ≡ true → Silent (calls to_json accepts visit cs p)
    unfolding calls Silent
    calls_done [] p over = (over, refl)
    calls_done (c ∷ cs) p over = ground (
      arith,
      call_done c p over,
      calls_done cs (call to_json accepts visit c p).0 (call_done c p over).0,
    )

    -- Once a running publisher is stopped, nothing more is sent, whatever calls follow and whichever goroutines run
    -- in whatever order; so what was in its batch, and in the batches that a flush had handed over and that had not
    -- been sent yet, is lost, though Stop flushes the batch. Under a cancelled context Redis is sent nothing.
    pub stop_silent :
        (p : Publisher) (cs : List Call)
        → p.running ≡ true
        → (calls to_json accepts visit (stop_call ∷ cs) p).1 ≡ []
    unfolding calls call stop_publisher flush_batch Silent
    stop_silent p cs h = ground (arith, calls_done cs (call to_json accepts visit stop_call p).0)

  -- The batch has fewer events than its limit, which the calls leave as it is.
  record IsBounded (limit : ℕ) (p : Publisher) : Type 0 where
    pub limit_kept : p.config.batch_size ≡ limit
    pub below : length p.batch < limit

  publish_batch-IsBounded :
      (limit : ℕ) (events : List Event) (p : Publisher)
      → IsBounded limit p
      → IsBounded limit (publish_batch to_json accepts visit events p).1
  unfolding publish_batch
  publish_batch-IsBounded limit events p b = ground (arith, b)

  land-IsBounded :
      (limit : ℕ) (before flights : List (List Event)) (n : ℕ) (p : Publisher)
      → IsBounded limit p
      → IsBounded limit (land to_json accepts visit before flights n p).0
  unfolding land
  land-IsBounded limit before [] n p b = b
  land-IsBounded limit before (events ∷ rest) zero p b =
      publish_batch-IsBounded limit events (record p { flights = before ++ rest })
        (record { limit_kept = b.limit_kept; below = b.below })
  land-IsBounded limit before (events ∷ rest) (suc n) p b =
      land-IsBounded limit (before ++ events ∷ []) rest n p b

  publish_event-IsBounded :
      (limit : ℕ) (event : Event) (p : Publisher)
      → 0 < limit
      → IsBounded limit p
      → IsBounded limit (publish_event to_json accepts event p).1
  unfolding publish_event publish_single add_to_batch flush_batch
  publish_event-IsBounded limit event p some_room b = ground (arith, b)

  call-IsBounded :
      (limit : ℕ) (c : Call) (p : Publisher)
      → 0 < limit
      → IsBounded limit p
      → IsBounded limit (call to_json accepts visit c p).0
  unfolding call start_publisher stop_publisher flush_batch
  call-IsBounded limit (publish_call event) p some_room b =
      publish_event-IsBounded limit event p some_room b
  call-IsBounded limit flush_call p some_room b = ground (arith, b)
  call-IsBounded limit start_call p some_room b = ground (arith, b)
  call-IsBounded limit stop_call p some_room b = ground (arith, b)
  call-IsBounded limit (land_call n) p some_room b = land-IsBounded limit [] p.flights n p b

  calls-IsBounded :
      (limit : ℕ) (cs : List Call) (p : Publisher)
      → 0 < limit
      → IsBounded limit p
      → IsBounded limit (calls to_json accepts visit cs p).0
  unfolding calls
  calls-IsBounded limit [] p some_room b = b
  calls-IsBounded limit (c ∷ cs) p some_room b =
      calls-IsBounded limit cs (call to_json accepts visit c p).0 some_room
        (call-IsBounded limit c p some_room b)

  -- Whatever calls a new publisher with a positive batch size gets, and whatever Redis does, between two of them its
  -- batch has fewer events than the batch size.
  pub batch_bounded :
      (config : PublisherConfig) (cs : List Call)
      → 0 < config.batch_size
      → length (calls to_json accepts visit cs (new_publisher config)).0.batch < config.batch_size
  unfolding new_publisher
  batch_bounded config cs some_room =
      (calls-IsBounded config.batch_size cs (new_publisher config) some_room
        (record { limit_kept = refl; below = some_room })).below
