-- ===== src/Submissions/Dequeuer.antt =====
-- The dequeuer of pkgs/submissions/dequeuer.go: `ProcessSubmission` with its state, its statistics
-- and the commands that it sends to Redis.
use snapshot_sequencer_valid.Base.{
  ℕ, ◌+◌, ◌%◌, ◌^◌, Text, text_eq, Bool, not, Map, ltb, if◌then◌else◌,
}
use snapshot_sequencer_valid.Redis.Keys.{KeyBuilder}
use snapshot_sequencer_valid.Submissions.Types.{SnapshotRequest, ProcessedSubmission}
use snapshot_sequencer_valid.Submissions.Eip712.{Eip712Verifier}
use snapshot_sequencer_valid.Submissions.Slots.{SlotValidator}

-- float64, with the two formulas of the processing rate: 1 / seconds, and the moving average.
pub record Float64 : Type 1 where
  pub Float : Type 0
  pub is_zero : Float → Bool
  pub rate_of : ℕ → Float
  pub moving_average : Float → Float → Float

-- What is stored under a key, before json.Marshal.
pub data Payload : Type 0 where
  processed : ProcessedSubmission → Payload
  metadata : SnapshotRequest → ℕ → Text → Text → Payload
  validation : Text → SnapshotRequest → Text → Text → ℕ → Text → Payload

-- The readings of the clock in one call: seconds since the epoch, nanoseconds of processing, the
-- two timestamps of the metrics, and the hour as `YYYYMMDDHH`.
pub record Clock : Type 0 where
  pub processed_at : ℕ
  pub elapsed : ℕ
  pub stats_at : ℕ
  pub timestamp : ℕ
  pub timestamp' : ℕ
  pub hour : Text

module _ (f : Float64) where
  open f use {Float, is_zero, rate_of, moving_average}

  pub record DequeuerStats : Type 0 where
    pub total_processed : ℕ
    pub successful_count : ℕ
    pub failed_count : ℕ
    pub last_processed_at : ℕ
    pub processing_rate : Float

  pub record Dequeuer : Type 0 where
    pub key_builder : KeyBuilder
    pub sequencer_id : Text
    pub verifier : Eip712Verifier
    pub slot_validator : SlotValidator
    pub enable_slot_validation : Bool
    pub processed_submissions : Map Text ProcessedSubmission
    pub stats : DequeuerStats

module _ (f : Float64) where
  open f use {Float, is_zero, rate_of, moving_average}

  next_rate : Float → ℕ → Float
  next_rate rate elapsed =
      if not (ltb 0 elapsed)
      then rate
      else if is_zero rate
      then rate_of elapsed
      else moving_average rate (rate_of elapsed)

  -- updateStats; the counters are uint64.
  unfoldable pub update_stats : Bool → Clock → DequeuerStats f → DequeuerStats f
  unfolding next_rate
  update_stats success clock s = record {
    total_processed = (s.total_processed + 1) % 2 ^ 64;
    successful_count = if success then (s.successful_count + 1) % 2 ^ 64 else s.successful_count;
    failed_count = if success then s.failed_count else (s.failed_count + 1) % 2 ^ 64;
    last_processed_at = clock.stats_at;
    processing_rate = next_rate s.processing_rate clock.elapsed;
  }
