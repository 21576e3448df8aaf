-- ===== src/Redis/MetricKeys.antt =====
-- pkgs/redis/keys.go: the keys of the metrics, of one protocol state and data market or shared.
use snapshot_sequencer_valid.Base.{ℕ, Text, bytes, decimal, [], ◌∷◌}
use snapshot_sequencer_valid.Redis.Join.{join}
use snapshot_sequencer_valid.Redis.Keys.{KeyBuilder}

unfoldable pub metrics_epochs_timeline : KeyBuilder → Text
unfolding join
metrics_epochs_timeline kb =
    join (
      kb.protocol_state ∷ kb.data_market ∷ bytes "metrics" ∷ bytes "epochs" ∷ bytes "timeline" ∷ [])

unfoldable pub metrics_batches_timeline : KeyBuilder → Text
unfolding join
metrics_batches_timeline kb =
    join (
      kb.protocol_state
      ∷ kb.data_market
      ∷ bytes "metrics"
      ∷ bytes "batches"
      ∷ bytes "timeline"
      ∷ [])

unfoldable pub metrics_batch_local : KeyBuilder → Text → Text
unfolding join
metrics_batch_local kb epoch_id = join (
    kb.protocol_state
    ∷ kb.data_market
    ∷ bytes "metrics"
    ∷ bytes "batch"
    ∷ bytes "local"
    ∷ epoch_id
    ∷ [])

unfoldable pub metrics_batch_aggregated : KeyBuilder → Text → Text
unfolding join
metrics_batch_aggregated kb epoch_id = join (
    kb.protocol_state
    ∷ kb.data_market
    ∷ bytes "metrics"
    ∷ bytes "batch"
    ∷ bytes "aggregated"
    ∷ epoch_id
    ∷ [])

unfoldable pub metrics_batch_validators : KeyBuilder → Text → Text
unfolding join
metrics_batch_validators kb epoch_id = join (
    kb.protocol_state
    ∷ kb.data_market
    ∷ bytes "metrics"
    ∷ bytes "batch"
    ∷ epoch_id
    ∷ bytes "validators"
    ∷ [])

unfoldable pub metrics_epoch_info : KeyBuilder → Text → Text
unfolding join
metrics_epoch_info kb epoch_id = join (
    kb.protocol_state
    ∷ kb.data_market
    ∷ bytes "metrics"
    ∷ bytes "epoch"
    ∷ epoch_id
    ∷ bytes "info"
    ∷ [])

unfoldable pub metrics_epoch_parts : KeyBuilder → Text → Text
unfolding join
metrics_epoch_parts kb epoch_id = join (
    kb.protocol_state
    ∷ kb.data_market
    ∷ bytes "metrics"
    ∷ bytes "epoch"
    ∷ epoch_id
    ∷ bytes "parts"
    ∷ [])

unfoldable pub metrics_epoch_validated : KeyBuilder → Text → Text
unfolding join
metrics_epoch_validated kb epoch_id = join (
    kb.protocol_state
    ∷ kb.data_market
    ∷ bytes "metrics"
    ∷ bytes "epoch"
    ∷ epoch_id
    ∷ bytes "validated"
    ∷ [])

unfoldable pub metrics_validator_batches : KeyBuilder → Text → Text
unfolding join
metrics_validator_batches kb validator_id = join (
    kb.protocol_state
    ∷ kb.data_market
    ∷ bytes "metrics"
    ∷ bytes "validator"
    ∷ validator_id
    ∷ bytes "batches"
    ∷ [])

unfoldable pub metrics_batch_part : KeyBuilder → Text → ℕ → Text
unfolding join decimal
metrics_batch_part kb epoch_id part_id = join (
    kb.protocol_state
    ∷ kb.data_market
    ∷ bytes "metrics"
    ∷ bytes "part"
    ∷ epoch_id
    ∷ decimal part_id
    ∷ [])

unfoldable pub dashboard_summary : KeyBuilder → Text
unfolding join
dashboard_summary kb =
    join (kb.protocol_state ∷ kb.data_market ∷ bytes "dashboard" ∷ bytes "summary" ∷ [])

unfoldable pub stats_current : KeyBuilder → Text
unfolding join
stats_current kb = join (kb.protocol_state ∷ kb.data_market ∷ bytes "stats" ∷ bytes "current" ∷ [])

unfoldable pub stats_daily : KeyBuilder → Text
unfolding join
stats_daily kb = join (kb.protocol_state ∷ kb.data_market ∷ bytes "stats" ∷ bytes "daily" ∷ [])

unfoldable pub stats_hourly : KeyBuilder → ℕ → Text
unfolding join decimal
stats_hourly kb timestamp =
    join
      (kb.protocol_state ∷ kb.data_market ∷ bytes "stats" ∷ bytes "hourly" ∷ decimal timestamp ∷ [])

unfoldable pub metrics_submissions_timeline : KeyBuilder → Text
unfolding join
metrics_submissions_timeline kb = join (
    kb.protocol_state
    ∷ kb.data_market
    ∷ bytes "metrics"
    ∷ bytes "submissions"
    ∷ bytes "timeline"
    ∷ [])

unfoldable pub metrics_submissions_metadata : KeyBuilder → Text → Text
unfolding join
metrics_submissions_metadata kb entity_id = join (
    kb.protocol_state
    ∷ kb.data_market
    ∷ bytes "metrics"
    ∷ bytes "submissions"
    ∷ bytes "metadata"
    ∷ entity_id
    ∷ [])

unfoldable pub metrics_validations_timeline : KeyBuilder → Text
unfolding join
metrics_validations_timeline kb = join (
    kb.protocol_state
    ∷ kb.data_market
    ∷ bytes "metrics"
    ∷ bytes "validations"
    ∷ bytes "timeline"
    ∷ [])

unfoldable pub metrics_parts_timeline : KeyBuilder → Text
unfolding join
metrics_parts_timeline kb =
    join
      (kb.protocol_state ∷ kb.data_market ∷ bytes "metrics" ∷ bytes "parts" ∷ bytes "timeline" ∷ [])

unfoldable pub metrics_participation : KeyBuilder → Text
unfolding join
metrics_participation kb =
    join (kb.protocol_state ∷ kb.data_market ∷ bytes "metrics" ∷ bytes "participation" ∷ [])

unfoldable pub metrics_current_epoch : KeyBuilder → Text
unfolding join
metrics_current_epoch kb =
    join (kb.protocol_state ∷ kb.data_market ∷ bytes "metrics" ∷ bytes "current_epoch" ∷ [])
