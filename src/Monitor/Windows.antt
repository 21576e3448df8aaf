-- ===== src/Monitor/Windows.antt =====
-- The submission windows of pkgs/eventmonitor/monitor.go: `WindowManager`. A window is opened in
-- three steps that other goroutines may come between: the look for an open one, the semaphore, and
-- the insertion. A timer closes it: it takes the window out, and then gives the semaphore back.

pub mod Interleaving
pub mod Calls
pub mod Cycle
use snapshot_sequencer_valid.Base.{
  ℕ, ◌+◌, ◌-◌, Text, text_eq, bytes, decimal, Bool, true, false, Option, none, some, List, [], ◌∷◌,
  ◌++◌, Map, get, has, put, del, length, ltb, if◌then◌else◌, ℤ, pos, negsuc,
}
use snapshot_sequencer_valid.Redis.Join.{join}
use snapshot_sequencer_valid.Redis.Command.{Command, set, expire, zadd, hset, publish, lpush}
use snapshot_sequencer_valid.Redis.Keys.{KeyBuilder, epoch_window, finalization_queue}
use snapshot_sequencer_valid.Redis.MetricKeys.{metrics_epochs_timeline, metrics_epoch_info}
use snapshot_sequencer_valid.Monitor.Collect.{ProjectSubmissions}
use snapshot_sequencer_valid.Monitor.Batches.{split_into_batches}

pub record EpochWindow : Type 0 where
  pub epoch_id : ℕ
  pub data_market_address : Text
  pub start_time : ℕ
  pub window_duration : ℕ
  pub start_block_num : ℕ

-- `semaphore` is the number of tokens in the channel.
pub record WindowManager : Type 0 where
  pub active_windows : Map Text EpochWindow
  pub semaphore : ℕ
  pub max_windows : ℕ
  pub protocol_state : Text
  pub finalization_batch_size : ℤ
  pub key_builders : Map Text KeyBuilder

pub data WindowError : Type 0 where
  already_active too_many : WindowError

pub data Payload : Type 0 where
  status_open status_closed : Payload
  opened_info : ℕ → Text → ℕ → ℕ → Payload
  closed_info : ℕ → Payload
  batch_meta : ℕ → ℕ → ℕ → ℕ → Text → Payload
  batch : ℕ → ℕ → ℕ → List (Text × ProjectSubmissions) → Text → Payload
  batch_ready : List (Text × ProjectSubmissions) → Payload

unfoldable pub window_key : Text → ℕ → Text
unfolding join decimal
window_key market epoch = join (market ∷ decimal epoch ∷ [])

unfoldable pub is_window_open : WindowManager → Text → ℕ → Bool
unfolding has window_key
is_window_open wm market epoch = has (window_key market epoch) wm.active_windows

unfoldable pub get_active_count : WindowManager → ℕ
get_active_count wm = length wm.active_windows

-- getKeyBuilder, with the cache that it fills
unfoldable pub get_key_builder : WindowManager → Text → KeyBuilder × WindowManager
unfolding get put
get_key_builder wm market = elim (get market wm.key_builders) [
  | some kb ↦ (kb, wm)
  | none ↦
      let kb : KeyBuilder = record { protocol_state = wm.protocol_state; data_market = market } in
      (kb, record wm { key_builders = put market kb wm.key_builders })
]

-- The steps that are atomic, each under the lock or on the channel.
unfoldable pub try_acquire : WindowManager → Option WindowManager
try_acquire wm =
    if ltb wm.semaphore wm.max_windows
    then some (record wm { semaphore = wm.semaphore + 1 })
    else none

unfoldable pub insert_window : EpochWindow → WindowManager → WindowManager
unfolding put window_key
insert_window w wm = record wm {
  active_windows = put (window_key w.data_market_address w.epoch_id) w wm.active_windows;
}

unfoldable pub remove_window : Text → ℕ → WindowManager → Option (EpochWindow × WindowManager)
unfolding get del window_key
remove_window market epoch wm = elim (get (window_key market epoch) wm.active_windows) [
  | none ↦ none
  | some w ↦
      some (w, record wm { active_windows = del (window_key market epoch) wm.active_windows })
]

-- `<-wm.windowSemaphore` waits on an empty channel: none.
unfoldable pub release : WindowManager → Option WindowManager
release wm = if ltb 0 wm.semaphore then some (record wm { semaphore = wm.semaphore - 1 }) else none

opened : KeyBuilder → EpochWindow → ℕ → List (Command Payload)
unfolding decimal join
opened kb w now =
    let epoch = decimal w.epoch_id in
    set (epoch_window kb epoch) status_open w.window_duration
    ∷ zadd (metrics_epochs_timeline kb) now (join (bytes "open" ∷ epoch ∷ []))
    ∷ hset (metrics_epoch_info kb epoch)
        (opened_info now w.data_market_address w.window_duration w.start_block_num)
    ∷ expire (metrics_epoch_info kb epoch) 7200
    ∷ publish (bytes "state:change") (join (bytes "epoch" ∷ bytes "open" ∷ epoch ∷ []))
    ∷ []

-- StartSubmissionWindow, where nothing comes between its steps. A full semaphore stays full for the
-- second of waiting.
unfoldable pub start_submission_window :
    WindowManager
    → Text
    → ℕ
    → ℕ
    → ℕ
    → ℕ
    → (Option WindowError) × WindowManager × List (Command Payload)
unfolding opened
start_submission_window wm market epoch duration start_block now =
    if is_window_open wm market epoch
    then (some already_active, wm, [])
    else elim (try_acquire wm) [
      | none ↦ (some too_many, wm, [])
      | some wm' ↦
          let w : EpochWindow = record {
            epoch_id = epoch;
            data_market_address = market;
            start_time = now;
            window_duration = duration;
            start_block_num = start_block;
          } in
          let (kb, wm'') = get_key_builder (insert_window w wm') market in
          (none, wm'', opened kb w now)
    ]

-- `batchSize <= 0` falls back to 20.
unfoldable pub batch_size : ℤ → ℕ
batch_size (pos ℕ.zero) = 20
batch_size (pos n) = n
batch_size (negsuc n) = 20

queue_batches :
    Text → Text → ℕ → ℕ → ℕ → List (List (Text × ProjectSubmissions)) → List (Command Payload)
queue_batches queue market epoch i total [] = []
queue_batches queue market epoch i total (b ∷ bs) =
    lpush queue (batch epoch i total b market) ∷ queue_batches queue market epoch (i + 1) total bs

-- triggerFinalization of the projects collected, in the order in which they are visited
unfoldable pub trigger_finalization :
    WindowManager
    → KeyBuilder
    → Text
    → ℕ
    → ℕ
    → List (Text × ProjectSubmissions)
    → List (Command Payload)
unfolding decimal join batch_size split_into_batches queue_batches
trigger_finalization wm kb market epoch now projects =
    let batches = split_into_batches (batch_size wm.finalization_batch_size) projects in
    let prefix = wm.protocol_state ∷ market ∷ [] in
    set (join (prefix ++ bytes "batch" ∷ bytes "ready" ∷ decimal epoch ∷ [])) (batch_ready projects)
      3600
    ∷ set (join (prefix ++ bytes "epoch" ∷ decimal epoch ∷ bytes "batch" ∷ bytes "meta" ∷ []))
        (batch_meta epoch (length batches) (length projects) now market) 7200
    ∷ queue_batches (finalization_queue kb) market epoch 0 (length batches) batches

closed_commands : KeyBuilder → ℕ → ℕ → List (Command Payload)
unfolding decimal join
closed_commands kb epoch_id now =
    let epoch = decimal epoch_id in
    zadd (metrics_epochs_timeline kb) now (join (bytes "close" ∷ epoch ∷ []))
    ∷ hset (metrics_epoch_info kb epoch) (closed_info now)
    ∷ publish (bytes "state:change") (join (bytes "epoch" ∷ bytes "closed" ∷ epoch ∷ []))
    ∷ []

-- closeWindow, where nothing comes between its steps; `projects` is what is then collected. `none`
-- is a wait for the semaphore that does not end.
unfoldable pub close_window :
    WindowManager
    → Text
    → ℕ
    → ℕ
    → List (Text × ProjectSubmissions)
    → Option (WindowManager × List (Command Payload))
unfolding closed_commands
close_window wm market epoch now projects = elim (remove_window market epoch wm) [
  | none ↦ some (wm, [])
  | some (w, wm') ↦ elim (release wm') [
    | none ↦ none
    | some wm'' ↦
        let (kb, wm''') = get_key_builder wm'' market in
        some (
          wm''',
          set (epoch_window kb (decimal epoch)) status_closed 3600
                ∷ trigger_finalization wm''' kb market epoch now projects
              ++ closed_commands kb epoch now,
        )
  ]
]

-- Shutdown
unfoldable pub shutdown : WindowManager → WindowManager
shutdown wm = record wm { active_windows = [] }
