-- ===== src/Events/Publisher/Batches.antt =====
-- pkgs/events/publisher.go: Publish, and PublishBatch, which sends the events of a batch by channel in one
-- pipeline. A pipeline is taken or refused as a whole.
use snapshot_sequencer_valid.Base.{
  ℕ, zero, suc, ◌+◌, Text, text_eq, Bool, Option, none, some, List, [], ◌∷◌, ◌++◌, Map, length,
  if◌then◌else◌, ◌==◌,
}
use snapshot_sequencer_valid.Redis.Command.{Command, publish}
use snapshot_sequencer_valid.Events.{Event}
use snapshot_sequencer_valid.Events.Emitter.{u64}
use snapshot_sequencer_valid.Events.Publisher.{
  Publisher, PublishError, not_running, serialize_failed, publish_failed, get_channel, add_to_batch,
  flush_batch, start_publisher, stop_publisher,
}

-- The grouping of PublishBatch: the events of a channel in their order.
unfoldable pub add_to_group : Text → Event → Map Text (List Event) → Map Text (List Event)
add_to_group channel event [] = (channel, event ∷ []) ∷ []
add_to_group channel event ((c, events) ∷ rest) =
    if c == channel
    then (c, events ++ event ∷ []) ∷ rest
    else (c, events) ∷ add_to_group channel event rest

unfoldable pub group_by_channel :
    Publisher → List Event → Map Text (List Event) → Map Text (List Event)
unfolding add_to_group get_channel
group_by_channel p [] groups = groups
group_by_channel p (event ∷ events) groups =
    group_by_channel p events (add_to_group (get_channel p event.event_type) event groups)

abbrev without_error :
    Option PublishError × Publisher × List (Command Text) → Publisher × List (Command Text)
without_error (_, p, sent) = (p, sent)

pub data Call : Type 0 where
  publish_call : Event → Call
  -- the timer, or the worker that flushes
  flush_call : Call
  start_call : Call
  stop_call : Call
  -- the goroutine of a batch that was handed over, by its place, runs
  land_call : ℕ → Call

-- `to_json` is ToJSON, none for its error.
module _ (to_json : Event → Option Text) where
  -- The commands for the events of one channel, and how many are not serialized.
  unfoldable pub channel_commands : Text → List Event → List (Command Text) × ℕ
  channel_commands channel [] = ([], 0)
  channel_commands channel (event ∷ events) =
      let rest = channel_commands channel events in
      elim (to_json event) [
        | none ↦ (rest.0, suc rest.1)
        | some json ↦ (publish channel json ∷ rest.0, rest.1)
      ]

  unfoldable pub pipe_commands : Map Text (List Event) → List (Command Text) × ℕ
  unfolding channel_commands
  pipe_commands [] = ([], 0)
  pipe_commands ((channel, events) ∷ rest) =
      let here = channel_commands channel events in
      let others = pipe_commands rest in (here.0 ++ others.0, here.1 + others.1)

-- `accepts` is Redis, of the commands of a pipeline, and fails where the
-- context is cancelled.
module _ (to_json : Event → Option Text) (accepts : Bool → List (Command Text) → Bool) where
  after_single :
      Publisher → Text → Option Text → Option PublishError × Publisher × List (Command Text)
  after_single p channel none =
      (some serialize_failed, record p { publish_errors = u64 (p.publish_errors + 1) }, [])
  after_single p channel (some json) =
      let sent = publish channel json ∷ [] in
      if accepts p.done sent
      then (none, record p { events_published = u64 (p.events_published + 1) }, sent)
      else (some publish_failed, record p { publish_errors = u64 (p.publish_errors + 1) }, [])

  unfoldable pub publish_single :
      Event → Publisher → Option PublishError × Publisher × List (Command Text)
  unfolding after_single get_channel
  publish_single event p = after_single p (get_channel p event.event_type) (to_json event)

  unfoldable pub publish_event :
      Event → Publisher → Option PublishError × Publisher × List (Command Text)
  unfolding publish_single add_to_batch
  publish_event event p =
      if p.running
      then if p.config.enable_batching
        then (none, add_to_batch event p, [])
        else publish_single event p
      else (some not_running, p, [])

  -- PublishBatch; `visit` is an order in which range visits the groups.
  unfoldable pub publish_batch :
      (Map Text (List Event) → Map Text (List Event))
      → List Event
      → Publisher
      → Option PublishError × Publisher × List (Command Text)
  unfolding group_by_channel pipe_commands
  publish_batch visit events p =
      let (commands, unserialized) = pipe_commands to_json (visit (group_by_channel p events [])) in
      if p.running
      then if accepts p.done commands
        then (
          none,
          record p {
            events_published = u64 (p.events_published + length events);
            batches_published = u64 (p.batches_published + 1);
            publish_errors = u64 (p.publish_errors + unserialized);
          },
          commands,
        )
        else (
          some publish_failed,
          record p { publish_errors = u64 (p.publish_errors + unserialized + 1) },
          [],
        )
      else (some not_running, p, [])

  unfoldable pub land :
      (Map Text (List Event) → Map Text (List Event))
      → List (List Event)
      → List (List Event)
      → ℕ
      → Publisher
      → Publisher × List (Command Text)
  unfolding publish_batch
  land visit before [] n p = (p, [])
  land visit before (events ∷ rest) zero p =
      without_error (publish_batch visit events (record p { flights = before ++ rest }))
  land visit before (events ∷ rest) (suc n) p = land visit (before ++ events ∷ []) rest n p

  unfoldable pub call :
      (Map Text (List Event) → Map Text (List Event))
      → Call
      → Publisher
      → Publisher × List (Command Text)
  unfolding publish_event land flush_batch start_publisher stop_publisher
  call visit (publish_call event) p = without_error (publish_event event p)
  call visit flush_call p = (flush_batch p, [])
  call visit start_call p = ((start_publisher p).1, [])
  call visit stop_call p = ((stop_publisher p).1, [])
  call visit (land_call n) p = land visit [] p.flights n p

  -- Calls one after the other, and the commands that they send.
  unfoldable pub calls :
      (Map Text (List Event) → Map Text (List Event))
      → List Call
      → Publisher
      → Publisher × List (Command Text)
  unfolding call
  calls visit [] p = (p, [])
  calls visit (c ∷ cs) p =
      let (p', sent) = call visit c p in
      let (p'', later) = calls visit cs p' in (p'', sent ++ later)
