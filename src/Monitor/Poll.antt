-- ===== src/Monitor/Poll.antt =====
-- The polling of blocks in pkgs/eventmonitor/monitor.go: `checkForNewEvents`, the parsing of a log and
-- `handleEpochReleased`. The RPC node's answers are arguments; `address_hex` is go-ethereum's.
pub mod Ranges
use snapshot_sequencer_valid.Base.{
  ℕ, ◌+◌, ◌-◌, ◌*◌, ◌%◌, ◌^◌, Text, text_eq, bytes, decimal, Bool, true, false, ◌||◌, not, ◌&&◌,
  Option, none, some, List, [], ◌∷◌, ◌++◌, length, drop, take, ltb, leb, if◌then◌else◌, ℤ, pos,
  negsuc, ◌==◌,
}
use snapshot_sequencer_valid.Redis.Join.{join}
use snapshot_sequencer_valid.Redis.Keys.{active_epochs}
use snapshot_sequencer_valid.Redis.Command.{Command, hset, expire, sadd}
use snapshot_sequencer_valid.Monitor.Windows.{
  WindowManager, WindowError, get_key_builder, start_submission_window,
}
use snapshot_sequencer_valid.Monitor.Windows as Windows

-- int64(x) of a uint64
unfoldable pub int64 : ℕ → ℤ
int64 x = if ltb x (2 ^ 63) then pos x else negsuc (2 ^ 64 - x - 1)

pub record FilterQuery : Type 0 where
  pub from_block : ℤ
  pub to_block : ℤ

-- A topic is a number of 256 bits.
pub record Log : Type 0 where
  pub topics : List ℕ
  pub bytes_of_data : List ℕ
  pub block_number : ℕ
  pub tx_hash : ℕ

-- EpochEnd is not set by the parser: it stays nil.
pub record EpochReleasedEvent : Type 0 where
  pub epoch_id : ℕ
  pub data_market_address : ℕ
  pub timestamp : ℕ
  pub transaction_hash : ℕ
  pub block_number : ℕ

-- new(big.Int).SetBytes
unfoldable pub big_endian : ℕ → List ℕ → ℕ
big_endian acc [] = acc
big_endian acc (b ∷ bs) = big_endian (acc * 256 + b) bs

unfoldable pub parse_epoch_released_event : Log → Option EpochReleasedEvent
unfolding big_endian
parse_epoch_released_event log = elim log.topics [
  | t0 ∷ t1 ∷ t2 ∷ ts ↦
      if ltb (length log.bytes_of_data) 96
      then none
      else some (record {
        epoch_id = t2;
        data_market_address = t1 % 2 ^ 160;
        timestamp = big_endian 0 (take 32 (drop 64 log.bytes_of_data)) % 2 ^ 64;
        transaction_hash = log.tx_hash;
        block_number = log.block_number;
      })
  | _ ↦ none
]

unfoldable pub is_valid_data_market : List Text → Text → Bool
is_valid_data_market [] address = false
is_valid_data_market (m ∷ ms) address = (m == address) || is_valid_data_market ms address

-- The last block that the next call starts from, the query that was answered, and the events.
pub record PollResult : Type 0 where
  pub last_processed_block : ℕ
  pub answered : Option FilterQuery
  pub events : List EpochReleasedEvent

pub data EpochInfo : Type 0 where
  window : Windows.Payload → EpochInfo
  info : EpochReleasedEvent → ℕ → ℕ → EpochInfo

-- time.Since of the release is over twice the window, in seconds; a timestamp of 2^63 or more is a
-- date before 1970 to time.Unix, and its age the longest.
unfoldable pub is_old : ℕ → ℕ → ℕ → Bool
is_old now window_duration timestamp =
    not (ltb timestamp (2 ^ 63)) || ltb (window_duration * 2) (now - timestamp)

module _ (address_hex : ℕ → Text) where
  accept_log : List Text → Option EpochReleasedEvent → List EpochReleasedEvent
  unfolding is_valid_data_market
  accept_log markets none = []
  accept_log markets (some e) =
      if is_valid_data_market markets (address_hex e.data_market_address) then e ∷ [] else []

  -- The events that the logs of a range put on the channel.
  unfoldable pub events_of : List Text → List Log → List EpochReleasedEvent
  unfolding accept_log parse_epoch_released_event
  events_of markets [] = []
  events_of markets (l ∷ ls) =
      accept_log markets (parse_epoch_released_event l) ++ events_of markets ls

  unfoldable pub after_query : List Text → ℕ → ℕ → FilterQuery → Option (List Log) → PollResult
  unfolding events_of
  after_query markets last to q none = record {
    last_processed_block = last;
    answered = none;
    events = [];
  }
  after_query markets last to q (some logs) = record {
    last_processed_block = to;
    answered = some q;
    events = events_of markets logs;
  }

  -- The uint64 sums wrap around.
  unfoldable pub check_for_new_events :
      List Text → ℕ → Option ℕ → (FilterQuery → Option (List Log)) → PollResult
  unfolding int64
  check_for_new_events markets last none filter_logs = record {
    last_processed_block = last;
    answered = none;
    events = [];
  }
  check_for_new_events markets last (some current) filter_logs =
      if leb current last
      then record { last_processed_block = last; answered = none; events = [] }
      else let limit = (last + 1000) % 2 ^ 64 in
        let to = if ltb current limit then current else limit in
        let q : FilterQuery = record {
          from_block = int64 ((last + 1) % 2 ^ 64);
          to_block = int64 to;
        } in
        after_query markets last to q (filter_logs q)

  -- handleEpochReleased: the epoch's commands, then the window.
  unfoldable pub handle_epoch_released :
      WindowManager
      → ℕ
      → ℕ
      → EpochReleasedEvent
      → (Option WindowError)
        × WindowManager
        × List (Command EpochInfo)
        × List (Command Windows.Payload)
  unfolding is_old join decimal get_key_builder
  handle_epoch_released wm window_duration now e =
      let market = address_hex e.data_market_address in
      let epoch_key = join (bytes "epoch" ∷ market ∷ decimal e.epoch_id ∷ bytes "info" ∷ []) in
      let (kb, wm') = get_key_builder wm market in
      let (error, wm'', commands) =
        start_submission_window wm' market e.epoch_id window_duration e.block_number now in
      if is_old now window_duration e.timestamp then (none, wm, [], []) else (
        error,
        wm'',
        hset epoch_key (info e now (now + window_duration))
            ∷ expire epoch_key 86400
            ∷ sadd (active_epochs kb) (decimal e.epoch_id)
            ∷ expire (active_epochs kb) 86400
            ∷ [],
        commands,
      )
