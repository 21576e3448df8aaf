-- ===== src/Submissions/Process.antt =====
-- `ProcessSubmission`, `storeProcessingResult`, `GetStats` and `GetProcessedCount` of
-- pkgs/submissions/dequeuer.go. `visit` is the order in which `range` goes through the map.
pub mod Checks
pub mod Invariant
use snapshot_sequencer_valid.Base.{
  ℕ, ◌*◌, Text, text_eq, bytes, decimal, Bool, true, false, not, ◌&&◌, Option, none, some, List, [],
  ◌∷◌, ◌++◌, get, has, put, length, ltb, nat_eqb, count_if, if◌then◌else◌,
}
use snapshot_sequencer_valid.Redis.Join.{join}
use snapshot_sequencer_valid.Redis.Command.{Command, set, sadd, expire, zadd, hincrby, publish}
use snapshot_sequencer_valid.Redis.MetricKeys.{
  metrics_submissions_timeline, metrics_submissions_metadata, metrics_validations_timeline,
}
use snapshot_sequencer_valid.Redis.GlobalKeys.{global_metrics_submissions_timeline}
use snapshot_sequencer_valid.Submissions.Types.{
  SnapshotSubmission, MetaValue, text, other, Address, ProcessedSubmission, Outcome, ok, err, panic,
  ◌>>=◌, ◌>>◌,
}
use snapshot_sequencer_valid.Submissions.Eip712.{Ethereum}
use snapshot_sequencer_valid.Submissions.Slots.{validate_snapshotter_for_slot}
use snapshot_sequencer_valid.Submissions.Validate.{validate_submission, verify_signature}
use snapshot_sequencer_valid.Submissions.Cleanup.{cleanup_old_submissions}
use snapshot_sequencer_valid.Submissions.Dequeuer.{
  Float64, Clock, Payload, processed, metadata, validation, DequeuerStats, Dequeuer, update_stats,
}

abbrev pub hour_seconds : ℕ
hour_seconds = 3600

peer_id_of : Option MetaValue → Text
peer_id_of (some (text p)) = p
peer_id_of _ = []

-- metaData["peer_id"].(string), or "" where it is absent, or the map is nil
peer_id : ProcessedSubmission → Text
unfolding peer_id_of get
peer_id p = elim p.meta_data [ none ↦ [] | some m ↦ peer_id_of (get (bytes "peer_id") m) ]

module _ (f : Float64) (eth : Ethereum) where
  unfoldable pub store_processing_result :
      Dequeuer f → Text → ProcessedSubmission → List (Command Payload)
  unfolding join decimal
  store_processing_result d id p =
      let s = p.submission in
      let epoch_key = join (
        s.protocol_state
        ∷ s.data_market
        ∷ bytes "epoch"
        ∷ decimal s.request.epoch_id
        ∷ bytes "processed"
        ∷ []) in
      set (join (s.protocol_state ∷ s.data_market ∷ bytes "processed" ∷ d.sequencer_id ∷ id ∷ []))
        (processed p) 600
      ∷ sadd epoch_key id
      ∷ expire epoch_key hour_seconds
      ∷ []

  unfoldable pub monitoring :
      Dequeuer f → Clock → Text → ProcessedSubmission → List (Command Payload)
  unfolding join decimal peer_id
  monitoring d clock id p =
      let r = p.submission.request in
      let epoch = decimal r.epoch_id in
      let entity = join (
        bytes "received"
        ∷ epoch
        ∷ decimal r.slot_id
        ∷ r.project_id
        ∷ decimal clock.timestamp
        ∷ peer_id p
        ∷ []) in
      let validated_key = join (bytes "metrics" ∷ bytes "epoch" ∷ epoch ∷ bytes "validated" ∷ []) in
      let hourly_key =
        join (bytes "metrics" ∷ bytes "hourly" ∷ clock.hour ∷ bytes "validations" ∷ []) in
      zadd (metrics_submissions_timeline d.key_builder) clock.timestamp entity
      ∷ set (metrics_submissions_metadata d.key_builder entity)
          (metadata r clock.timestamp (peer_id p) entity) (24 * hour_seconds)
      ∷ zadd (metrics_validations_timeline d.key_builder) clock.timestamp id
      ∷ set (join (bytes "metrics" ∷ bytes "validation" ∷ id ∷ []))
          (validation id r d.sequencer_id p.snapshotter_addr clock.timestamp p.data_market_addr)
          hour_seconds
      ∷ sadd validated_key id
      ∷ expire validated_key (2 * hour_seconds)
      ∷ hincrby hourly_key (bytes "total") 1
      ∷ expire hourly_key (2 * hour_seconds)
      ∷ zadd global_metrics_submissions_timeline clock.timestamp'
          (join (bytes "validated" ∷ id ∷ decimal clock.timestamp' ∷ []))
      ∷ publish (bytes "state:change") (join (bytes "submission" ∷ bytes "validated" ∷ id ∷ []))
      ∷ []

  -- The submission as it is stored, and the commands that tell of it.
  unfoldable pub accept :
      Dequeuer f
      → Clock
      → SnapshotSubmission
      → Text
      → Option (List (Text × MetaValue))
      → Address
      → ProcessedSubmission
  accept d clock s id meta addr = record {
    id = id;
    submission = s;
    snapshotter_addr = eth.address_hex addr;
    data_market_addr = s.data_market;
    processed_at = clock.processed_at;
    validator_id = d.sequencer_id;
    meta_data = meta;
  }

  unfoldable pub slot_check : Dequeuer f → SnapshotSubmission → Address → Outcome Address
  slot_check d s addr =
      if d.enable_slot_validation && not (nat_eqb addr 0)
      then (do validate_snapshotter_for_slot d.slot_validator s.request.slot_id addr; ok addr)
      else ok addr

  -- The three checks in their order; the value is the signer.
  unfoldable pub check : Dequeuer f → SnapshotSubmission → Outcome Address
  unfolding slot_check
  check d s = do
    validate_submission s
    addr ← verify_signature eth d.verifier s
    slot_check d s addr

  unfoldable pub get_processed_count : Dequeuer f → ℕ → ℕ
  get_processed_count d epoch =
      count_if (λ e. nat_eqb e.1.submission.request.epoch_id epoch) d.processed_submissions

module _ (f : Float64) (eth : Ethereum)
    (visit : List (Text × ProcessedSubmission) → List (Text × ProcessedSubmission)) where
  -- The map with one more submission, cleaned up above 1000.
  unfoldable pub remember :
      Text
      → ProcessedSubmission
      → List (Text × ProcessedSubmission)
      → List (Text × ProcessedSubmission)
  remember id p m =
      let m' = put id p m in if ltb 1000 (length m') then cleanup_old_submissions visit m' else m'

  unfoldable pub finish :
      Outcome Address
      → Dequeuer f
      → Clock
      → SnapshotSubmission
      → Text
      → Option (List (Text × MetaValue))
      → Outcome (Unit {0}) × Dequeuer f × List (Command Payload)
  unfolding accept remember
  finish panic d clock s id meta = (panic, d, [])
  finish (err e) d clock s id meta =
      (err e, record d { stats = update_stats f false clock d.stats }, [])
  finish (ok addr) d clock s id meta =
      let p = accept f eth d clock s id meta addr in
      (
        ok tt,
        record d {
          processed_submissions = remember id p d.processed_submissions;
          stats = update_stats f true clock d.stats;
        },
        store_processing_result f eth d id p ++ monitoring f eth d clock id p,
      )

  unfoldable pub process_submission :
      Dequeuer f
      → Clock
      → SnapshotSubmission
      → Text
      → Option (List (Text × MetaValue))
      → Outcome (Unit {0}) × Dequeuer f × List (Command Payload)
  unfolding finish
  process_submission d clock s id meta =
      if has id d.processed_submissions
      then (ok tt, d, [])
      else finish (check f eth d s) d clock s id meta
