-- ===== src/Redis/GlobalKeys.antt =====
-- pkgs/redis/keys.go: the keys that all data markets share.
use snapshot_sequencer_valid.Base.{ℕ, Text, bytes, decimal, [], ◌∷◌}
use snapshot_sequencer_valid.Redis.Join.{join}

unfoldable pub pipeline_health : Text → Text
unfolding join
pipeline_health component = join (bytes "pipeline" ∷ bytes "health" ∷ component ∷ [])

unfoldable pub submission_stats : Text → Text
unfolding join
submission_stats epoch_id = join (bytes "submission_stats" ∷ epoch_id ∷ [])

unfoldable pub validator_active : Text → Text
unfolding join
validator_active validator_id = join (bytes "validator" ∷ bytes "active" ∷ validator_id ∷ [])

unfoldable pub worker_status : Text → Text → Text
unfolding join
worker_status worker_type worker_id =
    join (bytes "worker" ∷ worker_type ∷ worker_id ∷ bytes "status" ∷ [])

unfoldable pub worker_heartbeat : Text → Text → Text
unfolding join
worker_heartbeat worker_type worker_id =
    join (bytes "worker" ∷ worker_type ∷ worker_id ∷ bytes "heartbeat" ∷ [])

unfoldable pub worker_current_batch : Text → Text → Text
unfolding join
worker_current_batch worker_type worker_id =
    join (bytes "worker" ∷ worker_type ∷ worker_id ∷ bytes "current_batch" ∷ [])

unfoldable pub worker_current_epoch : Text → Text
unfolding join
worker_current_epoch worker_type = join (bytes "worker" ∷ worker_type ∷ bytes "current_epoch" ∷ [])

unfoldable pub worker_batches_processed : Text → Text → Text
unfolding join
worker_batches_processed worker_type worker_id =
    join (bytes "worker" ∷ worker_type ∷ worker_id ∷ bytes "batches_processed" ∷ [])

unfoldable pub worker_last_error : Text → Text → Text
unfolding join
worker_last_error worker_type worker_id =
    join (bytes "worker" ∷ worker_type ∷ worker_id ∷ bytes "last_error" ∷ [])

unfoldable pub batch_part_status : Text → ℕ → Text
unfolding join decimal
batch_part_status epoch_id batch_id =
    join (bytes "batch" ∷ epoch_id ∷ bytes "part" ∷ decimal batch_id ∷ bytes "status" ∷ [])

unfoldable pub batch_part_worker : Text → ℕ → Text
unfolding join decimal
batch_part_worker epoch_id batch_id =
    join (bytes "batch" ∷ epoch_id ∷ bytes "part" ∷ decimal batch_id ∷ bytes "worker" ∷ [])

unfoldable pub metrics_processing_rate : Text
unfolding join
metrics_processing_rate = join (bytes "metrics" ∷ bytes "processing_rate" ∷ [])

unfoldable pub metrics_avg_latency : Text
unfolding join
metrics_avg_latency = join (bytes "metrics" ∷ bytes "avg_latency" ∷ [])

unfoldable pub metrics_total_processed : Text
unfolding join
metrics_total_processed = join (bytes "metrics" ∷ bytes "total_processed" ∷ [])

unfoldable pub global_metrics_submissions_timeline : Text
unfolding join
global_metrics_submissions_timeline =
    join (bytes "metrics" ∷ bytes "submissions" ∷ bytes "timeline" ∷ [])

unfoldable pub global_metrics_validations_timeline : Text
unfolding join
global_metrics_validations_timeline =
    join (bytes "metrics" ∷ bytes "validations" ∷ bytes "timeline" ∷ [])

unfoldable pub global_metrics_epochs_timeline : Text
unfolding join
global_metrics_epochs_timeline = join (bytes "metrics" ∷ bytes "epochs" ∷ bytes "timeline" ∷ [])

unfoldable pub global_metrics_batches_timeline : Text
unfolding join
global_metrics_batches_timeline = join (bytes "metrics" ∷ bytes "batches" ∷ bytes "timeline" ∷ [])

unfoldable pub global_metrics_parts_timeline : Text
unfolding join
global_metrics_parts_timeline = join (bytes "metrics" ∷ bytes "parts" ∷ bytes "timeline" ∷ [])

unfoldable pub batch_finalized : Text → Text
unfolding join
batch_finalized epoch_id = join (bytes "batch" ∷ bytes "finalized" ∷ epoch_id ∷ [])
