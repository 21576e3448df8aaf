-- ===== src/MonitorApi.antt =====
-- cmd/monitor-api/main.go: what the API shows of the timelines, of batches, of epochs and of queues. The
-- parameters of a request are arguments, with their defaults applied; answers of Redis are arguments too.
pub mod Timeline
pub mod Unread
pub mod Batches
pub mod Epochs
pub mod Tests
use snapshot_sequencer_valid.Base.{
  ℕ, Text, text_eq, bytes, Bool, true, false, ◌&&◌, ◌||◌, Option, none, some, List, [], ◌∷◌, ltb,
  leb, nat_eqb, is_empty, if◌then◌else◌, ◌==◌, ◌*◌, ◌-◌,
}
use snapshot_sequencer_valid.Redis.Join.{join, split}
use snapshot_sequencer_valid.Redis.Keys.{KeyBuilder}

-- The protocol and the market of a request, or those of the API.
unfoldable pub select_key_builder : KeyBuilder → Text → Text → KeyBuilder
select_key_builder kb protocol market = record {
  protocol_state = if is_empty protocol then kb.protocol_state else protocol;
  data_market = if is_empty market then kb.data_market else market;
}

-- A parameter that is out of bounds gets its default. `atoi` is the integer that is read, 0 where none is; a
-- negative one is out of bounds as 0 is.
unfoldable pub clamp_limit : ℕ → ℕ → ℕ → ℕ
clamp_limit largest default atoi = if nat_eqb atoi 0 || ltb largest atoi then default else atoi

unfoldable pub get_queue_status : ℕ → Text
get_queue_status depth =
    if nat_eqb depth 0
    then bytes "empty"
    else if ltb depth 100
    then bytes "healthy"
    else if ltb depth 500
    then bytes "moderate"
    else if ltb depth 1000
    then bytes "high"
    else bytes "critical"

pub record Group : Type 0 where
  pub name : Text
  pub last_delivered_id : Text

last_delivered : Text → List Group → Text
last_delivered name [] = []
last_delivered name (g ∷ gs) =
    if g.name == name then g.last_delivered_id else last_delivered name gs

-- XINFO GROUPS and the length of XINFO STREAM, none for an error.
unfoldable pub get_stream_lag : Option (List Group) → Option ℕ → Text → Option ℕ
unfolding last_delivered
get_stream_lag none length_of name = none
get_stream_lag (some groups) length_of name =
    let last = last_delivered name groups in
    if is_empty last
    then none
    else elim length_of [ none ↦ none | some n ↦ some (if last == bytes "0-0" then n else 0) ]

pub record QueueStatus : Type 0 where
  pub queue_name : Text
  pub depth : ℕ
  pub status : Text

queue_status : Text → ℕ → QueueStatus
unfolding get_queue_status
queue_status name depth = record {
  queue_name = name;
  depth = depth;
  status = get_queue_status depth;
}

-- A length is 0 where Redis does not say it.
unfoldable pub queues_status : ℕ → ℕ → ℕ → Option (List Group) → Option ℕ → List QueueStatus
unfolding queue_status get_stream_lag
queues_status submissions finalizations aggregations groups length_of =
    queue_status (bytes "submission_queue") submissions
    ∷ queue_status (bytes "finalization_queue") finalizations
    ∷ queue_status (bytes "aggregation_queue")
        (elim (get_stream_lag groups length_of (bytes "aggregator-group")) [
          | none ↦ aggregations
          | some lag ↦ lag
        ])
    ∷ []
