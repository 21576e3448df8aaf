-- ===== src/Aggregator/Parts.antt =====
-- The first level of cmd/aggregator/main.go: `aggregateWorkerParts` and `createFinalizedBatchFromParts`
-- make the validator's own batch of the parts of its finalizers. The parts are the answers of Redis and
-- json.Unmarshal for the keys 0, 1, … of the epoch; `visit` is the order of a visit of the projects.
pub mod Cids
use snapshot_sequencer_valid.Base.{
  ℕ, ◌+◌, ◌*◌, Text, text_eq, bytes, decimal, Bool, Option, none, some, List, [], ◌∷◌, ◌++◌, Map,
  get, put, map, length, if◌then◌else◌, ℤ,
}
use snapshot_sequencer_valid.Json.{Json, as_map, as_int, as_string, as_array, member, ◌>>=◌}
use snapshot_sequencer_valid.Votes.{or_nil, or_zero}
use snapshot_sequencer_valid.Redis.Join.{join}
use snapshot_sequencer_valid.Redis.Command.{Command, set, zadd, publish, lpush}
use snapshot_sequencer_valid.Redis.Keys.{
  KeyBuilder, batch_part, finalized_batch, outgoing_broadcast_batch, epoch_parts_completed,
  epoch_parts_total, epoch_parts_ready,
}
use snapshot_sequencer_valid.Redis.MetricKeys.{
  metrics_batches_timeline, metrics_batch_local, metrics_validator_batches,
}
use snapshot_sequencer_valid.Consensus.Types.{FinalizedBatch, SubmissionMetadata}
use snapshot_sequencer_valid.Aggregator.Merge.{pairs_text}
use snapshot_sequencer_valid.Aggregator.Epoch.{
  Aggregator, Strconv, parse_epoch_id, with_cid, day_seconds,
}

-- The results of a part, put over those of the parts before.
unfoldable pub merge_results : List (Text × Json) → Map Text Json → Map Text Json
unfolding put
merge_results [] merged = merged
merge_results ((project, result) ∷ rest) merged = merge_results rest (put project result merged)

-- A part that cannot be read is passed over.
unfoldable pub collect_parts : List (Option (List (Text × Json))) → Map Text Json → Map Text Json
unfolding merge_results
collect_parts [] merged = merged
collect_parts (none ∷ parts) merged = collect_parts parts merged
collect_parts (some results ∷ parts) merged = collect_parts parts (merge_results results merged)

-- The keys of the parts that were read, which are deleted.
unfoldable pub read_keys : KeyBuilder → Text → ℕ → List (Option (List (Text × Json))) → List Text
read_keys kb epoch i [] = []
read_keys kb epoch i (none ∷ parts) = read_keys kb epoch (i + 1) parts
read_keys kb epoch i (some _ ∷ parts) = batch_part kb epoch i ∷ read_keys kb epoch (i + 1) parts

-- The conversions of a float64, given by the integer that it is cut to.
pub record Conversions : Type 0 where
  pub to_uint32 : ℤ → ℕ
  pub to_uint64 : ℤ → ℕ

module _ (c : Conversions) (sequencer : Text) where
  converted : (ℤ → ℕ) → Option ℤ → ℕ
  converted to none = 0
  converted to (some z) = to z

  -- One item of the metadata; this validator is the first to confirm it.
  unfoldable pub metadata_of : List (Text × Json) → SubmissionMetadata
  unfolding member converted
  metadata_of m = record {
    submitter_id = or_nil (member as_string (bytes "submitter_id") m);
    snapshot_cid = or_nil (member as_string (bytes "snapshot_cid") m);
    timestamp = converted c.to_uint64 (member as_int (bytes "timestamp") m);
    signature = or_nil (member as_string (bytes "signature") m);
    slot_id = converted c.to_uint64 (member as_int (bytes "slot_id") m);
    vote_count = 1;
    validators_confirming = sequencer ∷ [];
  }

  unfoldable pub metadata_list : List Json → List SubmissionMetadata
  unfolding metadata_of
  metadata_list [] = []
  metadata_list (item ∷ rest) =
      let others = metadata_list rest in
      elim (as_map item) [ none ↦ others | some m ↦ metadata_of m ∷ others ]

  votes_of : Option ℤ → ℕ
  votes_of none = 1
  votes_of (some z) = c.to_uint32 z

  pub record Projects : Type 0 where
    pub cids : List (Text × Text)
    pub votes : Map Text ℕ
    pub details : Map Text (List SubmissionMetadata)

  with_details :
      Text
      → Option (List Json)
      → Map Text (List SubmissionMetadata)
      → Map Text (List SubmissionMetadata)
  unfolding put metadata_list
  with_details project none details = details
  with_details project (some metadata) details = put project (metadata_list metadata) details

  -- A project whose result has a CID.
  unfoldable pub add_project : Text → List (Text × Json) → Text → Projects → Projects
  unfolding put votes_of with_details member
  add_project project result cid p = record {
    cids = p.cids ++ (project, cid) ∷ [];
    votes = put project (votes_of (member as_int (bytes "votes") result)) p.votes;
    details = with_details project (member as_array (bytes "submission_metadata") result) p.details;
  }

  add_named : Text → List (Text × Json) → Option Text → Projects → Projects
  unfolding add_project
  add_named project result none p = p
  add_named project result (some cid) p = add_project project result cid p

  add_result : Text → Option (List (Text × Json)) → Projects → Projects
  unfolding add_named member
  add_result project none p = p
  add_result project (some result) p =
      add_named project result (member as_string (bytes "cid") result) p

  unfoldable pub add_results : List (Text × Json) → Projects → Projects
  unfolding add_result
  add_results [] p = p
  add_results ((project, result) ∷ rest) p = add_results rest (add_result project (as_map result) p)

module _ (sha256 : Text → List ℕ) (visit : Map Text Json → Map Text Json) (c : Conversions) where
  unfoldable pub create_finalized_batch_from_parts : ℕ → Text → ℕ → Map Text Json → FinalizedBatch
  unfolding add_results
  create_finalized_batch_from_parts now sequencer epoch results =
      let p =
        add_results c sequencer (visit results) (record { cids = []; votes = []; details = [] }) in
      record {
        epoch_id = epoch;
        project_ids = map (λ e. e.0) p.cids;
        snapshot_cids = map (λ e. e.1) p.cids;
        merkle_root = sha256 (pairs_text p.cids);
        bls_signature = [];
        sequencer_id = sequencer;
        timestamp = now;
        project_votes = p.votes;
        submission_details = p.details;
        validator_batches = [];
        batch_ipfs_cid = [];
        validator_count = 0;
      }

pub data Payload : Type 0 where
  finalized : FinalizedBatch → Payload
  -- the batch, the number of parts, and the time
  local_metrics : FinalizedBatch → ℕ → ℕ → Payload
  broadcast : FinalizedBatch → Payload

-- What follows the store of the batch: the metrics, the broadcast, and the end of the tracking.
unfoldable pub after_finalized :
    KeyBuilder → ℕ → Text → ℕ → ℕ → FinalizedBatch → List (Command Payload)
unfolding join decimal
after_finalized kb now epoch_text epoch parts b =
    zadd (metrics_batches_timeline kb) now (join (bytes "local" ∷ decimal epoch ∷ []))
    ∷ set (metrics_batch_local kb (decimal epoch)) (local_metrics b parts now) day_seconds
    ∷ zadd (metrics_validator_batches kb b.sequencer_id) now (decimal epoch)
    ∷ publish (bytes "state:change") (join (bytes "batch" ∷ bytes "local" ∷ decimal epoch ∷ []))
    ∷ lpush (outgoing_broadcast_batch kb) (broadcast b)
    ∷ Command.del (
        epoch_parts_completed kb epoch_text
        ∷ epoch_parts_total kb epoch_text
        ∷ epoch_parts_ready kb epoch_text
        ∷ [])
    ∷ []

module _ (sha256 : Text → List ℕ) (visit : Map Text Json → Map Text Json) (c : Conversions)
    (conv : Strconv) where
  unfoldable pub local_batch :
      ℕ
      → Aggregator
      → (Option (FinalizedBatch → Option Text))
      → ℕ
      → List (Option (List (Text × Json)))
      → FinalizedBatch
  unfolding create_finalized_batch_from_parts collect_parts with_cid
  local_batch now a ipfs epoch parts = with_cid ipfs (
      create_finalized_batch_from_parts sha256 visit c now a.sequencer_id epoch
        (collect_parts parts []))

  -- `stored` says whether Redis takes the batch. The parts are deleted before it is stored.
  unfoldable pub aggregate_worker_parts :
      ℕ
      → Bool
      → Aggregator
      → (Option (FinalizedBatch → Option Text))
      → Text
      → List (Option (List (Text × Json)))
      → List (Command Payload)
  unfolding parse_epoch_id read_keys local_batch after_finalized decimal
  aggregate_worker_parts now stored a ipfs text parts = elim (parse_epoch_id conv text) [
    | none ↦ []
    | some epoch ↦
        map (λ key. Command.del (key ∷ [])) (read_keys a.key_builder (decimal epoch) 0 parts)
        ++ set (finalized_batch a.key_builder (decimal epoch))
            (finalized (local_batch now a ipfs epoch parts)) day_seconds
          ∷ (if stored
              then after_finalized a.key_builder now text epoch (length parts)
                  (local_batch now a ipfs epoch parts)
              else [])
  ]
