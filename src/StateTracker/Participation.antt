-- ===== src/StateTracker/Participation.antt =====
-- cmd/state-tracker/worker.go: aggregateParticipationMetrics. The two rates are given by their fractions.
use snapshot_sequencer_valid.Base.{
  ℕ, ◌+◌, ◌-◌, ◌*◌, Text, text_eq, Bool, true, false, ◌||◌, Option, none, some, List, [], ◌∷◌,
  if◌then◌else◌, ◌==◌, ltb, ◌≤◌, ◌≡◌, refl, arith, length, Option-cases, inl, inr,
}
use snapshot_sequencer_valid.Redis.Command.{Command, set}
use snapshot_sequencer_valid.Redis.Keys.{KeyBuilder}
use snapshot_sequencer_valid.Redis.MetricKeys.{metrics_participation}
use snapshot_sequencer_valid.MonitorApi.Batches.{aggregated_epoch}
use snapshot_sequencer_valid.StateTracker.{SortedSet, day}
use snapshot_sequencer_valid.StateTracker.Periods.{zcount}
use snapshot_sequencer_valid.StateTracker.Datasets.{members_between}

names : Text → List Text → Bool
names id [] = false
names id (v ∷ vs) = (v == id) || names id vs

counted : (Text → Option (List Text)) → Text → Option Text → ℕ
unfolding names
counted lists id none = 0
counted lists id (some epoch) = elim (lists epoch) [
  | none ↦ 0
  | some vs ↦ if names id vs then 1 else 0
]

-- The aggregated batches of the entries whose list names the validator.
unfoldable pub level2_inclusions : (Text → Option (List Text)) → Text → List Text → ℕ
unfolding counted aggregated_epoch
level2_inclusions lists id [] = 0
level2_inclusions lists id (entry ∷ entries) =
    counted lists id (aggregated_epoch entry) + level2_inclusions lists id entries

-- A rate in percent as numerator and denominator: 0 where there is nothing to divide by, and `capped` at 100.
unfoldable pub rate : Bool → ℕ → ℕ → ℕ × ℕ
rate capped n d =
    if ltb 0 d
    then if capped then if ltb d n then (100, 1) else (n * 100, d) else (n * 100, d)
    else (0, 1)

pub record ParticipationMetrics : Type 0 where
  pub level1_batches : ℕ
  pub epochs_total : ℕ
  pub inclusions : ℕ
  pub participation_rate : ℕ × ℕ
  pub inclusion_rate : ℕ × ℕ
  pub timestamp : ℕ

module _ (kb : KeyBuilder) (sequencer_id : Text) (now : ℕ) (own batches epochs : SortedSet)
    (lists : Text → Option (List Text)) where
  unfoldable pub participation : ParticipationMetrics
  unfolding level2_inclusions members_between zcount rate
  participation =
      let level1 = zcount (now - day) now own in
      let all = zcount (now - day) now batches in
      let included =
        level2_inclusions lists sequencer_id (members_between (now - day) (some now) batches) in
      record {
        level1_batches = level1;
        epochs_total = zcount (now - day) now epochs;
        inclusions = included;
        participation_rate = rate false included all;
        inclusion_rate = rate true included level1;
        timestamp = now;
      }

  unfoldable pub aggregate_participation_metrics : List (Command ParticipationMetrics)
  unfolding participation
  aggregate_participation_metrics = set (metrics_participation kb) participation 60 ∷ []

  counted_one : (o : Option Text) → counted lists sequencer_id o ≤ 1
  unfolding counted
  counted_one none = ground arith
  counted_one (some epoch) = elim (Option-cases (lists epoch)) [
    | inl unread ↦ rw (counted, unread) (omega arith)
    | inr (vs, there) ↦ rw (counted, there) (ground arith)
  ]

  inclusions_bounded :
      (entries : List Text) → level2_inclusions lists sequencer_id entries ≤ length entries
  unfolding level2_inclusions
  inclusions_bounded [] = omega arith
  inclusions_bounded (entry ∷ entries) =
      omega (arith, counted_one (aggregated_epoch entry), inclusions_bounded entries)

  length-members_between :
      (from to : ℕ) (s : SortedSet) → length (members_between from (some to) s) ≡ zcount from to s
  unfolding members_between zcount
  length-members_between from to [] = refl
  length-members_between from to ((score, member) ∷ rest) =
      ground (arith, length-members_between from to rest)

  -- Neither rate is above 100 percent: the inclusions are no more than the entries of the timeline, and the rate over
  -- the validator's own batches is capped.
  pub participation_bounded :
      (participation.participation_rate.0 ≤ 100 * participation.participation_rate.1)
      × (participation.inclusion_rate.0 ≤ 100 * participation.inclusion_rate.1)
  unfolding participation rate
  participation_bounded =
      let entries = members_between (now - day) (some now) batches in
      (
        ground (arith, inclusions_bounded entries, length-members_between (now - day) now batches),
        ground arith,
      )
