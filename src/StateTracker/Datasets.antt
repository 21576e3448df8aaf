-- ===== src/StateTracker/Datasets.antt =====
-- cmd/state-tracker/worker.go: the datasets of the dashboard, of an hour and of a day. A call of Redis that
-- fails counts as empty, as in the code. The rates per second, which are floats, are left out of the summary.
use snapshot_sequencer_valid.Base.{
  ◌&&◌, leb, ℕ, ◌+◌, ◌-◌, ◌*◌, ◌/◌, Text, text_eq, bytes, Bool, true, Option, none, some, List, [],
  ◌∷◌, ◌++◌, Map, put, length, is_empty, if◌then◌else◌, ◌==◌,
}
use snapshot_sequencer_valid.Redis.Join.{split}
use snapshot_sequencer_valid.Redis.Command.{Command, set, hset, expire}
use snapshot_sequencer_valid.Redis.Keys.{KeyBuilder}
use snapshot_sequencer_valid.Redis.MetricKeys.{
  dashboard_summary, stats_current, stats_daily, stats_hourly,
}
use snapshot_sequencer_valid.StateTracker.{StateWorker, SortedSet, day}
use snapshot_sequencer_valid.StateTracker.Periods.{zcount, hourly_breakdown}

-- What the worker reads. A validator list is none where its key is not read or is no list of texts.
pub record Reads : Type 0 where
  pub queue_length : ℕ
  pub active_epochs : List Text
  pub processed_of : Text → ℕ
  pub validators_of : Text → List Text
  pub batch_validators_of : Text → Option (List Text)
  pub epochs_timeline : SortedSet
  pub batches_timeline : SortedSet
  pub submissions_timeline : SortedSet

unfoldable pub processed_in : (Text → ℕ) → List Text → ℕ
processed_in processed_of [] = 0
processed_in processed_of (epoch ∷ epochs) = processed_of epoch + processed_in processed_of epochs

-- activeValidators[validator] = true, for those that are not empty.
unfoldable pub mark : List Text → Map Text Bool → Map Text Bool
unfolding put
mark [] seen = seen
mark (v ∷ vs) seen = mark vs (if is_empty v then seen else put v true seen)

unfoldable pub mark_epochs : (Text → List Text) → List Text → Map Text Bool → Map Text Bool
unfolding mark
mark_epochs validators_of [] seen = seen
mark_epochs validators_of (epoch ∷ epochs) seen =
    mark_epochs validators_of epochs (mark (validators_of epoch) seen)

mark_entry : (Text → Option (List Text)) → List Text → Map Text Bool → Map Text Bool
unfolding mark
mark_entry lists (kind ∷ epoch ∷ _) seen =
    if kind == bytes "aggregated"
    then elim (lists epoch) [ none ↦ seen | some vs ↦ mark vs seen ]
    else seen
mark_entry lists _ seen = seen

unfoldable pub mark_batches :
    (Text → Option (List Text)) → List Text → Map Text Bool → Map Text Bool
unfolding mark_entry split
mark_batches lists [] seen = seen
mark_batches lists (entry ∷ entries) seen =
    mark_batches lists entries (mark_entry lists (split entry) seen)

-- ZRANGEBYSCORE; `to` is none for +inf.
unfoldable pub members_between : ℕ → Option ℕ → SortedSet → List Text
unfolding zcount
members_between from none [] = []
members_between from (some to) [] = []
members_between from none ((score, member) ∷ rest) =
    let others = members_between from none rest in
    if leb from score then member ∷ others else others
members_between from (some to) ((score, member) ∷ rest) =
    let others = members_between from (some to) rest in
    if leb from score && leb score to then member ∷ others else others

fall_back : Reads → ℕ → Option ℕ → Map Text Bool → Map Text Bool
unfolding mark_batches members_between
fall_back r from to [] =
    mark_batches r.batch_validators_of (members_between from to r.batches_timeline) []
fall_back r from to (v ∷ vs) = v ∷ vs

-- The number of different validators: of the active epochs, or else of the batches of the period.
unfoldable pub count_validators : Reads → ℕ → Option ℕ → ℕ
unfolding fall_back mark_epochs
count_validators r from to =
    length (fall_back r from to (mark_epochs r.validators_of r.active_epochs []))

pub record Summary : Type 0 where
  pub submissions_total : ℕ
  pub submissions_queue : ℕ
  pub processed_submissions : ℕ
  pub epochs_total : ℕ
  pub batches_total : ℕ
  pub active_validators : ℕ
  pub updated_at : ℕ
  pub epochs_1m : ℕ
  pub epochs_5m : ℕ
  pub batches_1m : ℕ
  pub batches_5m : ℕ
  pub submissions_1m : ℕ
  pub submissions_5m : ℕ

pub record HourStats : Type 0 where
  pub hour_start : ℕ
  pub hour_end : ℕ
  pub epochs : ℕ
  pub batches : ℕ
  pub submissions : ℕ
  pub unique_validators : ℕ
  pub updated_at : ℕ

pub record DailyStats : Type 0 where
  pub period_start : ℕ
  pub period_end : ℕ
  pub epochs_total : ℕ
  pub batches_total : ℕ
  pub submissions_total : ℕ
  pub breakdown : List ℕ
  pub updated_at : ℕ

pub data Payload : Type 0 where
  summary : Summary → Payload
  hour_stats : HourStats → Payload
  daily_stats : DailyStats → Payload

module _ (kb : KeyBuilder) (r : Reads) (now : ℕ) where
  unfoldable pub current_summary : StateWorker → Summary
  unfolding processed_in count_validators zcount
  current_summary sw =
      let processed = processed_in r.processed_of r.active_epochs in
      record {
        submissions_total = sw.submissions + processed;
        submissions_queue = r.queue_length;
        processed_submissions = processed;
        epochs_total = sw.epochs;
        batches_total = sw.batches;
        active_validators = count_validators r (now - 300) none;
        updated_at = now;
        epochs_1m = zcount (now - 60) now r.epochs_timeline;
        epochs_5m = zcount (now - 300) now r.epochs_timeline;
        batches_1m = zcount (now - 60) now r.batches_timeline;
        batches_5m = zcount (now - 300) now r.batches_timeline;
        submissions_1m = zcount (now - 60) now r.submissions_timeline;
        submissions_5m = zcount (now - 300) now r.submissions_timeline;
      }

  unfoldable pub aggregate_current_metrics : StateWorker → List (Command Payload)
  unfolding current_summary
  aggregate_current_metrics sw =
      set (dashboard_summary kb) (summary (current_summary sw)) 60
      ∷ hset (stats_current kb) (summary (current_summary sw))
      ∷ expire (stats_current kb) 60
      ∷ []

  unfoldable pub hour_of : ℕ → ℕ → HourStats
  unfolding processed_in count_validators zcount
  hour_of from to = record {
    hour_start = from;
    hour_end = to;
    epochs = zcount from to r.epochs_timeline;
    batches = zcount from to r.batches_timeline;
    submissions = processed_in r.processed_of r.active_epochs;
    unique_validators = count_validators r from (some to);
    updated_at = now;
  }

  unfoldable pub aggregate_hour_period : ℕ → ℕ → List (Command Payload)
  unfolding hour_of
  aggregate_hour_period from to =
      set (stats_hourly kb from) (hour_stats (hour_of from to)) (2 * 3600) ∷ []

  -- The current hour up to now, and the hour before it.
  unfoldable pub aggregate_hourly_stats : List (Command Payload)
  unfolding aggregate_hour_period
  aggregate_hourly_stats =
      let current = now / 3600 * 3600 in
      aggregate_hour_period current now ++ aggregate_hour_period (current - 3600) current

  unfoldable pub day_of : DailyStats
  unfolding processed_in zcount hourly_breakdown
  day_of = record {
    period_start = now - day;
    period_end = now;
    epochs_total = zcount (now - day) now r.epochs_timeline;
    batches_total = zcount (now - day) now r.batches_timeline;
    submissions_total = processed_in r.processed_of r.active_epochs;
    breakdown = hourly_breakdown 24 (now - day) r.epochs_timeline;
    updated_at = now;
  }

  unfoldable pub aggregate_daily_stats : List (Command Payload)
  unfolding day_of
  aggregate_daily_stats = set (stats_daily kb) (daily_stats day_of) (24 * 3600) ∷ []
