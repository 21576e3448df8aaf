-- ===== src/StateTracker/Epochs.antt =====
-- cmd/state-tracker/worker.go: aggregateCurrentEpochStatus, with its second method by the timeline. The parsing
-- of floats, of which the whole part is used, and FormatEpochID are arguments.
use snapshot_sequencer_valid.Base.{
  ℕ, ◌+◌, ◌-◌, Text, text_eq, bytes, Bool, false, ◌||◌, Option, none, some, List, [], ◌∷◌, ◌++◌,
  Map, get, take, length, or_else, if◌then◌else◌, ◌==◌,
}
use snapshot_sequencer_valid.Redis.Join.{split}
use snapshot_sequencer_valid.Redis.Command.{Command, set}
use snapshot_sequencer_valid.Redis.Keys.{KeyBuilder}
use snapshot_sequencer_valid.Redis.MetricKeys.{metrics_current_epoch}

pub data Phase : Type 0 where
  unknown submission finalization aggregation complete : Phase

pub record EpochStatus : Type 0 where
  pub epoch_id : Text
  pub phase : Phase
  pub time_remaining : ℕ
  pub submissions_received : ℕ
  pub timestamp : ℕ
  pub window_duration : ℕ
  pub data_market : Option Text

-- The hash of an epoch is none where it is not read; a number of submissions is 0 there.
pub record Reads : Type 0 where
  pub active_epochs : List Text
  pub info_of : Text → Option (Map Text Text)
  pub level1_exists : Text → Bool
  pub level2_exists : Text → Bool
  pub processed_of : Text → ℕ
  -- The latest five events of the epochs' timeline, latest first, and their times.
  pub latest_epochs : List (Text × ℕ)

pub record Parsers : Type 0 where
  pub format_epoch_id : Text → Text
  pub parse_int : Text → Option ℕ
  pub parse_float : Text → Option ℕ

unfoldable pub parsed : (Text → Option ℕ) → Option Text → Option ℕ
parsed parse none = none
parsed parse (some s) = parse s

unfoldable pub or_default : ℕ → Option ℕ → ℕ
or_default d none = d
or_default d (some n) = n

module _ (p : Parsers) (r : Reads) (now : ℕ) where
  open p use {format_epoch_id, parse_int, parse_float}
  open r use {info_of, level1_exists, level2_exists, processed_of}

  unfoldable pub duration_of : Map Text Text → ℕ
  unfolding parsed or_default get
  duration_of info = or_default 20 (parsed parse_float (get (bytes "duration") info))

  closed_phase : Text → Phase
  closed_phase epoch =
      if level1_exists epoch
      then if level2_exists epoch then complete else aggregation
      else finalization

  unfoldable pub is_open : Option Text → Bool
  is_open none = false
  is_open (some status) = status == bytes "open"

  unfoldable pub phase_and_time : Text → ℕ → Option (Map Text Text) → Phase × ℕ
  unfolding duration_of closed_phase is_open get
  phase_and_time epoch began none = (unknown, 0)
  phase_and_time epoch began (some info) =
      if is_open (get (bytes "status") info)
      then (submission, began + duration_of info - now)
      else (closed_phase epoch, 0)

  duration_or_default : Option (Map Text Text) → ℕ
  unfolding duration_of
  duration_or_default none = 20
  duration_or_default (some info) = duration_of info

  market_of : Option (Map Text Text) → Option Text
  unfolding get
  market_of none = none
  market_of (some info) = get (bytes "data_market") info

  unfoldable pub status_of : Text → ℕ → Option (Map Text Text) → EpochStatus
  unfolding phase_and_time duration_or_default market_of
  status_of epoch began info =
      let (phase, time) = phase_and_time epoch began info in
      record {
        epoch_id = epoch;
        phase = phase;
        time_remaining = time;
        submissions_received = processed_of epoch;
        timestamp = now;
        window_duration = duration_or_default info;
        data_market = market_of info;
      }

  -- When the epoch began, by the field "timestamp" of its hash, or now.
  unfoldable pub began_at : Option (Map Text Text) → ℕ
  unfolding get parsed or_default
  began_at none = now
  began_at (some info) = or_default now (parsed parse_int (get (bytes "timestamp") info))

  unfoldable pub active_status : Text → EpochStatus
  unfolding status_of began_at
  active_status first =
      let epoch = format_epoch_id first in
      status_of epoch (began_at (info_of epoch)) (info_of epoch)

  has_close : Text → List (Text × ℕ) → Bool
  has_close epoch [] = false
  has_close epoch ((entry, _) ∷ rest) =
      let closing = bytes "close:" ++ epoch in
      (take (length closing) entry == closing) || has_close epoch rest

  -- The epoch of an "open" entry without a "close" entry, with its time and hash.
  open_entry : List (Text × ℕ) → List Text → ℕ → Option (Text × ℕ × Option (Map Text Text))
  unfolding has_close
  open_entry all (kind ∷ epoch ∷ _) time =
      if kind == bytes "open"
      then if has_close epoch all then none else some (format_epoch_id epoch, time, info_of epoch)
      else none
  open_entry all _ time = none

  find_open : List (Text × ℕ) → List (Text × ℕ) → Option (Text × ℕ × Option (Map Text Text))
  unfolding open_entry split
  find_open all [] = none
  find_open all ((entry, time) ∷ rest) =
      let later = find_open all rest in or_else (open_entry all (split entry) time) later

  latest_entry : List Text → ℕ → Option (Text × ℕ × Option (Map Text Text))
  latest_entry (kind ∷ epoch ∷ _) time =
      let id = format_epoch_id epoch in some (id, time, info_of id)
  latest_entry _ time = none

  latest : List (Text × ℕ) → Option (Text × ℕ × Option (Map Text Text))
  unfolding latest_entry split
  latest [] = none
  latest ((entry, time) ∷ _) = latest_entry (split entry) time

  with_status : Option (Text × ℕ × Option (Map Text Text)) → Option EpochStatus
  unfolding status_of
  with_status none = none
  with_status (some (epoch, time, info)) = some (status_of epoch time info)

  -- The latest event where no open epoch was found, or one with an empty name.
  or_latest :
      Option (Text × ℕ × Option (Map Text Text))
      → Option (Text × ℕ × Option (Map Text Text))
      → Option (Text × ℕ × Option (Map Text Text))
  or_latest (some (c ∷ epoch, time, info)) other = some (c ∷ epoch, time, info)
  or_latest _ other = other

  unfoldable pub timeline_status : List (Text × ℕ) → Option EpochStatus
  unfolding with_status find_open latest or_latest
  timeline_status events = with_status (or_latest (find_open events events) (latest events))

  unfoldable pub current_epoch_status : List Text → Option EpochStatus
  unfolding active_status timeline_status
  current_epoch_status [] = timeline_status r.latest_epochs
  current_epoch_status (first ∷ _) = some (active_status first)

  commands_of : KeyBuilder → Option EpochStatus → List (Command EpochStatus)
  commands_of kb none = []
  commands_of kb (some status) = set (metrics_current_epoch kb) status 30 ∷ []

  unfoldable pub aggregate_current_epoch_status : KeyBuilder → List (Command EpochStatus)
  unfolding commands_of current_epoch_status
  aggregate_current_epoch_status kb = commands_of kb (current_epoch_status r.active_epochs)
