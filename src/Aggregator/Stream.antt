-- ===== src/Aggregator/Stream.antt =====
-- The loops of cmd/aggregator/main.go around the stream and the queues: `consumeStreamMessages`,
-- `claimStalledMessages`, `processAggregationQueue` and `monitorFinalizedBatches`, each for one read. A
-- message comes with what EXISTS answers when it is processed.
pub mod Acknowledged
use snapshot_sequencer_valid.Base.{
  ℕ, ◌+◌, ◌-◌, Text, text_eq, bytes, Bool, true, false, not, Option, none, some, List, [], ◌∷◌,
  ◌++◌, Map, get, has, put, length, take, drop, leb, ltb, if◌then◌else◌, ◌==◌,
}
use snapshot_sequencer_valid.Json.{Json, as_string, as_number, as_int}
use snapshot_sequencer_valid.Redis.Command.{Command, Reply, found, missing, failed, xclaim, lpush}
use snapshot_sequencer_valid.Redis.Keys.{
  KeyBuilder, batch_aggregated, finalized_batch, aggregation_queue,
}
use snapshot_sequencer_valid.Aggregator.Epoch.{
  Aggregator, Strconv, StreamMessage, MessageError, Payload, process_stream_message,
  move_to_dead_letter_queue,
}

-- A message that failed is moved to the dead-letter queue.
after_message : ℕ → Text → Text → StreamMessage → Option MessageError → List (Command Payload)
unfolding move_to_dead_letter_queue
after_message now stream group m none = []
after_message now stream group m (some e) = move_to_dead_letter_queue now stream group m

module _ (c : Strconv) (now : ℕ) (stream group : Text) where
  -- The messages of one read.
  unfoldable pub consume_stream_messages :
      List (StreamMessage × (Text → Reply (Unit {0})))
      → Aggregator
      → Aggregator × List (Command Payload)
  unfolding process_stream_message after_message
  consume_stream_messages [] a = (a, [])
  consume_stream_messages ((m, exists) ∷ rest) a =
      let (e, a') = process_stream_message c exists m a in
      let (a'', commands) = consume_stream_messages rest a' in
      (a'', after_message now stream group m e ++ commands)

-- A pending message of the consumer with its idle time, and what XCLAIM answers, none being an error.
pub record PendingMessage : Type 0 where
  pub id : Text
  pub idle : ℕ
  pub claimed : Option (List StreamMessage)
  pub exists : Text → Reply (Unit {0})

module _ (c : Strconv) (stream group consumer : Text) (min_idle : ℕ) where
  -- The first of the claimed messages is processed; its error is only logged.
  process_claimed :
      (Text → Reply (Unit {0})) → Option (List StreamMessage) → Aggregator → Aggregator
  unfolding process_stream_message
  process_claimed exists none a = a
  process_claimed exists (some []) a = a
  process_claimed exists (some (m ∷ _)) a = (process_stream_message c exists m a).1

  unfoldable pub claim_stalled_messages :
      List PendingMessage → Aggregator → Aggregator × List (Command Payload)
  unfolding process_claimed
  claim_stalled_messages [] a = (a, [])
  claim_stalled_messages (p ∷ rest) a =
      let stalled = leb min_idle p.idle in
      let a' = if stalled then process_claimed p.exists p.claimed a else a in
      let (a'', commands) = claim_stalled_messages rest a' in
      (a'', (if stalled then xclaim stream group consumer min_idle p.id ∷ [] else []) ++ commands)

-- What processAggregationQueue does with a message: nothing, a panic of a type assertion, or a call of
-- aggregateWorkerParts with the epoch and the number of parts. `not_followed` is a number that is
-- negative or not whole, which UpdateBatchPartsProgress does not write.
pub data Level1 : Type 0 where
  unparsed panicked not_followed : Level1
  aggregate_parts : Text → ℕ → Level1

with_parts : Text → Option Json → Level1
with_parts epoch (some (Json.num n)) = aggregate_parts epoch n
with_parts epoch (some (Json.real z)) = not_followed
with_parts epoch _ = panicked

with_epoch : Option Json → Option Json → Level1
unfolding with_parts
with_epoch (some (Json.str epoch)) parts = with_parts epoch parts
with_epoch _ parts = panicked

unfoldable pub process_aggregation_queue : Option (List (Text × Json)) → Level1
unfolding with_epoch get
process_aggregation_queue none = unparsed
process_aggregation_queue (some m) =
    with_epoch (get (bytes "epoch_id") m) (get (bytes "parts_completed") m)

-- strings.TrimPrefix(member, "aggregated:"), where the member has the prefix
unfoldable pub aggregated_epoch : Text → Option Text
aggregated_epoch member =
    if take 11 member == bytes "aggregated:" then some (drop 11 member) else none

-- EXISTS says that the key is there.
exists_now : Reply (Unit {0}) → Bool
exists_now (found _) = true
exists_now _ = false

module _ (kb : KeyBuilder) (exists : Text → Reply (Unit {0})) (accepts : Bool) where
  queue_if_finalized : Text → Map Text Bool → Map Text Bool × List (Command Text)
  unfolding exists_now put
  queue_if_finalized epoch queued =
      if exists_now (exists (finalized_batch kb epoch))
      then (
        (if accepts then put epoch true queued else queued),
        lpush (aggregation_queue kb) epoch ∷ [],
      )
      else (queued, [])

  check_aggregated : Reply (Unit {0}) → Text → Map Text Bool → Map Text Bool × List (Command Text)
  unfolding put queue_if_finalized
  check_aggregated failed epoch queued = (queued, [])
  check_aggregated missing epoch queued = queue_if_finalized epoch queued
  check_aggregated (found _) epoch queued = (put epoch true queued, [])

  check_entry : Option Text → Map Text Bool → Map Text Bool × List (Command Text)
  unfolding has check_aggregated
  check_entry none queued = (queued, [])
  check_entry (some epoch) queued =
      if has epoch queued
      then (queued, [])
      else check_aggregated (exists (batch_aggregated kb epoch)) epoch queued

  -- The entries of the timeline at one tick, with the epochs that are queued already.
  unfoldable pub monitor_finalized_batches :
      List Text → Map Text Bool → Map Text Bool × List (Command Text)
  unfolding aggregated_epoch check_entry
  monitor_finalized_batches [] queued = (queued, [])
  monitor_finalized_batches (member ∷ rest) queued =
      let (queued', commands) = check_entry (aggregated_epoch member) queued in
      let (queued'', more) = monitor_finalized_batches rest queued' in (queued'', commands ++ more)
