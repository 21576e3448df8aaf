-- ===== src/Sequencer/Tests.antt =====
-- Runs of the listener and of the workers on concrete messages, and the theorems at them.
use snapshot_sequencer_valid.Base.{
  get, or_else, ℕ, map, ◌≡◌, refl, Text, text_eq, bytes, Bool, true, ◌||◌, Option, none, some, List,
  [], ◌∷◌, has, if◌then◌else◌, pos_part,
}
use snapshot_sequencer_valid.Json.{Json, num, str, obj, field, end}
use snapshot_sequencer_valid.Redis.Keys.{submission_queue}
use snapshot_sequencer_valid.Deduplication.{SetNx, was_set}
use snapshot_sequencer_valid.Submissions.Tests.{toy, rates, dequeuer, clock, unshuffled, signed}
use snapshot_sequencer_valid.Sequencer.Listener as Listener
use snapshot_sequencer_valid.Sequencer.Listener.{
  Listener, heartbeat, duplicate, queued, not_queued, is_heartbeat, queue_submission_from_p2p,
}
use snapshot_sequencer_valid.Sequencer.Listener.Queueing.{
  queued_once, pushes, is_old, default_field,
}
use snapshot_sequencer_valid.Sequencer.Messages.{process_batch}
use snapshot_sequencer_valid.Sequencer.Messages.Processing.{stopped, null_submission_panics}

abbrev listener : Listener
listener = record {
  key_builder = record { protocol_state = bytes "0xp"; data_market = bytes "0xm" };
  protocol_state_contract = bytes "0xp";
  data_market_addresses = bytes "0xm" ∷ [];
  dedup = true;
  dedup_ttl = 7200;
  connected = true;
}

abbrev times : Listener.Clock
times = record { nanoseconds = 7; timestamp = 5; timestamp' = 6; hour = bytes "2025010100" }

-- A submission with the fields of the wire format.
abbrev info : List (Text × Json)
info =
    (bytes "epoch_id", num 9)
    ∷ (bytes "request", obj (field (bytes "projectId") (str (bytes "eth")) end))
    ∷ []

abbrev show : Option Json → Text
show v = bytes "<nil>"

abbrev set_nx : Text → ℕ → List Text → SetNx × List Text
set_nx key ttl keys = (was_set, key ∷ keys)

abbrev contains : Text → List Text → Bool
contains key cache = has key (map (λ k. (k, true)) cache)

abbrev add : Text → List Text → List Text
add key cache = key ∷ cache

abbrev peer : Text
peer = bytes "12D3KooWAbCdEfGhIj"

queued_once_example :
    let r =
      (queue_submission_from_p2p pos_part
        (λ s. none)
        show
        (λ s. s)
        set_nx
        contains
        add
        listener
        (λ key. true)
        times
        []
        (some (some info))
        peer
        []
        []).0 in
    (object : List (Text × Json)) × ((k : Text)
      → get k object ≡ or_else (get k info) (default_field listener k))
    × (pushes r.1 ≡ (
        if is_heartbeat info
          || is_old pos_part (λ s. none) show (λ s. s) set_nx contains add listener info [] []
        then []
        else (submission_queue listener.key_builder, Listener.enriched object) ∷ []))
    × (r.0 ≡ (
        if is_heartbeat info
        then heartbeat
        else if is_old pos_part (λ s. none) show (λ s. s) set_nx contains add listener info [] []
        then duplicate
        else if true
        then queued
        else not_queued))
queued_once_example =
    queued_once pos_part (λ s. none) show (λ s. s) set_nx contains add listener (λ key. true) times
      [] info peer (bytes "0xm") [] [] [] refl refl refl

-- A batch whose second submission is null.
null_submission_panics_example :
    process_batch rates toy unshuffled
      (λ i. clock)
      0
      (bytes "peer")
      (some signed ∷ none ∷ some signed ∷ [])
      (some (dequeuer []))
    ≡ stopped rates toy unshuffled
        (λ i. clock)
        (process_batch rates toy unshuffled
          (λ i. clock)
          0
          (bytes "peer")
          (some signed ∷ [])
          (some (dequeuer [])))
null_submission_panics_example =
    null_submission_panics rates toy unshuffled (λ i. clock) 0 (bytes "peer") (some signed ∷ [])
      (some signed ∷ []) (some (dequeuer []))
