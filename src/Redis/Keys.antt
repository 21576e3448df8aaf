-- ===== src/Redis/Keys.antt =====
-- pkgs/redis/keys.go: the names of the Redis keys, of one protocol state and data market or shared.
use snapshot_sequencer_valid.Base.{ℕ, Text, bytes, decimal, [], ◌∷◌}
use snapshot_sequencer_valid.Redis.Join.{join}

pub record KeyBuilder : Type 0 where
  pub protocol_state : Text
  pub data_market : Text

unfoldable pub submission_queue : KeyBuilder → Text
unfolding join
submission_queue kb = join (kb.protocol_state ∷ kb.data_market ∷ bytes "submissionQueue" ∷ [])

unfoldable pub incoming_batch : KeyBuilder → Text → Text → Text
unfolding join
incoming_batch kb epoch_id validator_id = join (
    kb.protocol_state
    ∷ kb.data_market
    ∷ bytes "incoming"
    ∷ bytes "batch"
    ∷ epoch_id
    ∷ validator_id
    ∷ [])

unfoldable pub aggregation_queue : KeyBuilder → Text
unfolding join
aggregation_queue kb =
    join (kb.protocol_state ∷ kb.data_market ∷ bytes "aggregation" ∷ bytes "queue" ∷ [])

unfoldable pub outgoing_broadcast_batch : KeyBuilder → Text
unfolding join
outgoing_broadcast_batch kb =
    join (
      kb.protocol_state
      ∷ kb.data_market
      ∷ bytes "outgoing"
      ∷ bytes "broadcast"
      ∷ bytes "batch"
      ∷ [])

unfoldable pub processing_submission : KeyBuilder → Text → Text
unfolding join
processing_submission kb id = join (bytes "processingSubmission" ∷ id ∷ [])

unfoldable pub processed_submission : KeyBuilder → Text → Text → Text
unfolding join
processed_submission kb sequencer_id submission_id =
    join
      (kb.protocol_state ∷ kb.data_market ∷ bytes "processed" ∷ sequencer_id ∷ submission_id ∷ [])

unfoldable pub epoch_processed : KeyBuilder → Text → Text
unfolding join
epoch_processed kb epoch_id =
    join (kb.protocol_state ∷ kb.data_market ∷ bytes "epoch" ∷ epoch_id ∷ bytes "processed" ∷ [])

unfoldable pub epoch_window : KeyBuilder → Text → Text
unfolding join
epoch_window kb epoch_id =
    join (kb.protocol_state ∷ kb.data_market ∷ bytes "epoch" ∷ epoch_id ∷ bytes "window" ∷ [])

unfoldable pub finalization_queue : KeyBuilder → Text
unfolding join
finalization_queue kb = join (kb.protocol_state ∷ kb.data_market ∷ bytes "finalizationQueue" ∷ [])

unfoldable pub batch_part : KeyBuilder → Text → ℕ → Text
unfolding join decimal
batch_part kb epoch_id part_id = join (
    kb.protocol_state
    ∷ kb.data_market
    ∷ bytes "batch"
    ∷ bytes "part"
    ∷ epoch_id
    ∷ decimal part_id
    ∷ [])

unfoldable pub epoch_parts_completed : KeyBuilder → Text → Text
unfolding join
epoch_parts_completed kb epoch_id = join (
    kb.protocol_state
    ∷ kb.data_market
    ∷ bytes "epoch"
    ∷ epoch_id
    ∷ bytes "parts"
    ∷ bytes "completed"
    ∷ [])

unfoldable pub epoch_parts_total : KeyBuilder → Text → Text
unfolding join
epoch_parts_total kb epoch_id = join (
    kb.protocol_state
    ∷ kb.data_market
    ∷ bytes "epoch"
    ∷ epoch_id
    ∷ bytes "parts"
    ∷ bytes "total"
    ∷ [])

unfoldable pub epoch_parts_ready : KeyBuilder → Text → Text
unfolding join
epoch_parts_ready kb epoch_id = join (
    kb.protocol_state
    ∷ kb.data_market
    ∷ bytes "epoch"
    ∷ epoch_id
    ∷ bytes "parts"
    ∷ bytes "ready"
    ∷ [])

unfoldable pub aggregation_queue_level1 : KeyBuilder → Text
unfolding join
aggregation_queue_level1 kb =
    join (kb.protocol_state ∷ kb.data_market ∷ bytes "aggregationQueue" ∷ [])

unfoldable pub finalized_batch : KeyBuilder → Text → Text
unfolding join
finalized_batch kb epoch_id =
    join (kb.protocol_state ∷ kb.data_market ∷ bytes "finalized" ∷ epoch_id ∷ [])

unfoldable pub batch_aggregated : KeyBuilder → Text → Text
unfolding join
batch_aggregated kb epoch_id =
    join (kb.protocol_state ∷ kb.data_market ∷ bytes "batch" ∷ bytes "aggregated" ∷ epoch_id ∷ [])

unfoldable pub aggregation_stream : KeyBuilder → Text
unfolding join
aggregation_stream kb = join (
    kb.protocol_state
    ∷ kb.data_market
    ∷ bytes "stream"
    ∷ bytes "aggregation"
    ∷ bytes "notifications"
    ∷ [])

unfoldable pub aggregator_consumer_group : KeyBuilder → Text
unfolding join
aggregator_consumer_group kb =
    join (kb.protocol_state ∷ kb.data_market ∷ bytes "consumers" ∷ bytes "aggregator" ∷ [])

unfoldable pub epoch_validators : KeyBuilder → Text → Text
unfolding join
epoch_validators kb epoch_id =
    join (kb.protocol_state ∷ kb.data_market ∷ bytes "epoch" ∷ epoch_id ∷ bytes "validators" ∷ [])

unfoldable pub active_epochs : KeyBuilder → Text
unfolding join
active_epochs kb = join (kb.protocol_state ∷ kb.data_market ∷ bytes "epochs" ∷ bytes "active" ∷ [])
