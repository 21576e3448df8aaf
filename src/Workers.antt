-- ===== src/Workers.antt =====
-- pkgs/workers/monitoring.go: what a worker writes to Redis of itself and of the parts of a batch.
-- `accepts` says on which keys Redis takes a command; a pipeline is taken or refused as a whole.
use snapshot_sequencer_valid.Base.{
  ◌*◌, ℕ, Text, text_eq, bytes, Bool, ◌&&◌, List, [], ◌∷◌, ◌++◌, ltb, nat_eqb, if◌then◌else◌, ◌==◌,
}
use snapshot_sequencer_valid.Redis.Command.{Command, set, expire, lpush, incr, del, hset_field}
use snapshot_sequencer_valid.Redis.Keys.{
  KeyBuilder, epoch_parts_completed, epoch_parts_total, epoch_parts_ready, aggregation_queue_level1,
}
use snapshot_sequencer_valid.Redis.GlobalKeys.{
  worker_status, worker_heartbeat, worker_current_batch, worker_current_epoch,
  worker_batches_processed, worker_last_error, batch_part_status, batch_part_worker,
  batch_finalized, metrics_total_processed, metrics_processing_rate, metrics_avg_latency,
}

pub data WorkerType : Type 0 where
  finalizer aggregator : WorkerType

pub data WorkerStatus : Type 0 where
  idle processing failed : WorkerStatus

pub record WorkerMonitor : Type 0 where
  pub worker_id : Text
  pub worker_type : WorkerType

pub data Payload : Type 0 where
  status : WorkerStatus → Payload
  number : ℕ → Payload
  text : Text → Payload
  error : Text → ℕ → Payload
  -- the epoch, the parts completed and the time of an entry of the aggregation queue
  parts_done : Text → ℕ → ℕ → Payload

abbrev pub type_text : WorkerType → Text
type_text finalizer = bytes "finalizer"
type_text aggregator = bytes "aggregator"

abbrev pub hour : ℕ
hour = 3600

module _ (accepts : Text → Bool) (now : ℕ) (wm : WorkerMonitor) where
  open wm use {worker_id, worker_type}

  unfoldable pub update_heartbeat : List (Command Payload)
  update_heartbeat = set (worker_heartbeat (type_text worker_type) worker_id) (number now) 300 ∷ []

  -- The heartbeat follows a status that Redis has taken.
  unfoldable pub update_status : WorkerStatus → List (Command Payload)
  unfolding update_heartbeat
  update_status s =
      let key = worker_status (type_text worker_type) worker_id in
      set key (status s) (24 * hour) ∷ (if accepts key then update_heartbeat else [])

  abbrev batch_key : WorkerType → Text
  batch_key finalizer = worker_current_batch (type_text finalizer) worker_id
  batch_key aggregator = worker_current_epoch (type_text aggregator)

  unfoldable pub set_current_batch : Text → List (Command Payload)
  set_current_batch info = set (batch_key worker_type) (text info) hour ∷ []

  unfoldable pub increment_processed_count : List (Command Payload)
  increment_processed_count = incr (worker_batches_processed (type_text worker_type) worker_id) ∷ []

  unfoldable pub start_worker : List (Command Payload)
  unfolding update_status
  start_worker = update_status idle

  unfoldable pub processing_started : Text → List (Command Payload)
  unfolding update_status set_current_batch
  processing_started info = update_status processing ++ set_current_batch info

  unfoldable pub clear_batch : WorkerType → List (Command Payload)
  clear_batch finalizer = del (worker_current_batch (type_text finalizer) worker_id ∷ []) ∷ []
  clear_batch aggregator = []

  unfoldable pub processing_completed : List (Command Payload)
  unfolding update_status increment_processed_count clear_batch
  processing_completed = update_status idle ++ increment_processed_count ++ clear_batch worker_type

  unfoldable pub processing_failed : Text → List (Command Payload)
  unfolding update_status
  processing_failed message =
      update_status failed
      ++ set (worker_last_error (type_text worker_type) worker_id) (error message now) hour ∷ []

  unfoldable pub cleanup_worker : List (Command Payload)
  cleanup_worker =
      let t = type_text worker_type in
      del (worker_status t worker_id ∷ [])
      ∷ del (worker_heartbeat t worker_id ∷ [])
      ∷ del (worker_current_batch t worker_id ∷ [])
      ∷ del (worker_batches_processed t worker_id ∷ [])
      ∷ del (worker_last_error t worker_id ∷ [])
      ∷ []

-- TrackBatchPart; the worker that is noted is a fixed text.
unfoldable pub track_batch_part : (Text → Bool) → Text → ℕ → Text → List (Command Payload)
track_batch_part accepts epoch part s =
    let key = batch_part_status epoch part in
    set key (text s) (2 * hour)
    ∷ (if accepts key && (s == bytes "processing")
        then set (batch_part_worker epoch part) (text (bytes "worker-id")) (2 * hour) ∷ []
        else [])

-- The part of UpdateBatchPartsProgress that is sent when the last part is complete.
unfoldable pub ready_commands : KeyBuilder → ℕ → Text → ℕ → List (Command Payload)
ready_commands kb now epoch completed =
    set (epoch_parts_ready kb epoch) (text (bytes "true")) (2 * hour)
    ∷ lpush (aggregation_queue_level1 kb) (parts_done epoch completed now)
    ∷ []

-- UpdateBatchPartsProgress: the pipeline.
unfoldable pub update_batch_parts_progress : KeyBuilder → ℕ → Text → ℕ → ℕ → List (Command Payload)
unfolding ready_commands
update_batch_parts_progress kb now epoch completed total =
    set (epoch_parts_completed kb epoch) (number completed) (2 * hour)
    ∷ set (epoch_parts_total kb epoch) (number total) (2 * hour)
    ∷ (if nat_eqb completed total && ltb 0 total then ready_commands kb now epoch completed else [])

unfoldable pub track_finalized_batch : Bool → ℕ → Text → Text → Text → List (Command Payload)
track_finalized_batch taken now epoch cid root =
    let key = batch_finalized epoch in
    hset_field key (bytes "ipfs_cid") (text cid)
    ∷ hset_field key (bytes "merkle_root") (text root)
    ∷ hset_field key (bytes "finalized_at") (number now)
    ∷ expire key (24 * hour)
    ∷ (if taken then incr metrics_total_processed ∷ [] else [])

-- `rate` is the rate printed with "%.2f".
unfoldable pub update_performance_metrics : Text → ℕ → List (Command Payload)
update_performance_metrics rate latency =
    set metrics_processing_rate (text rate) 300 ∷ set metrics_avg_latency (number latency) 300 ∷ []
