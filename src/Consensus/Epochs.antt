-- ===== src/Consensus/Epochs.antt =====
-- The operations of `P2PConsensus` in pkgs/consensus/p2p_consensus.go that join those of Handler: the
-- aggregation of an epoch, a message that is received, a broadcast, and the periodic check. The
-- orders in which the maps are visited are arguments.
pub mod Broadcast
pub mod Outcomes
use snapshot_sequencer_valid.Base.{
  ℕ, ◌+◌, ◌-◌, ◌/◌, ◌%◌, ◌^◌, Text, text_eq, nat_eq, bytes, hex_encode, is_empty, Bool, true, false,
  Option, none, some, List, [], ◌∷◌, ◌++◌, Map, get, put, length, ltb, if◌then◌else◌,
}
use snapshot_sequencer_valid.Redis.Command.{Command, set}
use snapshot_sequencer_valid.Votes.{or_nil}
use snapshot_sequencer_valid.Consensus.Types.{
  FinalizedBatch, ValidatorBatch, AggregationStatus, P2pConsensus, Payload, status, whole, counts,
}
use snapshot_sequencer_valid.Consensus.Aggregate.{Tally, count_validators, no_votes, select}
use snapshot_sequencer_valid.Consensus.Handler.{
  Ended, returned, panicked, Run, BatchError, publish_failed, no_cid, batch_validity,
  min_validators_for_consensus, validate_batch, store_validator_batch, store_batch_in_redis,
  status_key, prints_short_cid, on_aggregation_complete,
}

pub record Visits : Type 0 where
  pub batches : Map Text ValidatorBatch → Map Text ValidatorBatch
  pub projects : Map Text (Map Text ℕ) → Map Text (Map Text ℕ)
  pub cids : Map Text ℕ → Map Text ℕ
  pub aggregated : Map Text Text → Map Text Text

-- A call, and then another if it has returned.
unfoldable pub then_run : Run → (P2pConsensus → Run) → Run
then_run r next = elim r.ended [
  | panicked ↦ r
  | returned ↦
      let second = next r.state in
      record {
        ended = second.ended;
        state = second.state;
        commands = r.commands ++ second.commands;
      }
]

module _ (v : Visits) where
  -- The status of an epoch from its batches.
  unfoldable pub status_of : ℕ → ℕ → Map Text ValidatorBatch → AggregationStatus
  unfolding count_validators select
  status_of now epoch batches =
      let tally = count_validators (v.batches batches) no_votes in
      record {
        epoch_id = epoch;
        total_validators = length batches;
        received_batches = length batches;
        project_votes = tally.votes;
        aggregated_projects = select v.cids (length batches) (v.projects tally.votes) [];
        validator_contributions = tally.contributions;
        updated_at = now;
      }

module _ (sha256 : Text → List ℕ) (v : Visits) where
  -- What follows the count: the status is kept and stored, the projects are printed, and the result
  -- is stored.
  unfoldable pub publish_status : ℕ → AggregationStatus → P2pConsensus → Run
  unfolding put status_key prints_short_cid on_aggregation_complete
  publish_status now s pc =
      let pc' = record pc {
        aggregation_status = put s.epoch_id s pc.aggregation_status;
        epochs_aggregated = (pc.epochs_aggregated + 1) % 2 ^ 64;
      } in
      let stored = set (status_key s.epoch_id) (status s) batch_validity in
      let projects = v.aggregated s.aggregated_projects in
      if prints_short_cid s.project_votes projects
      then record { ended = panicked; state = pc'; commands = stored ∷ [] }
      else record {
        ended = returned;
        state = pc';
        commands = stored ∷ on_aggregation_complete sha256 now pc.sequencer_id s.epoch_id projects;
      }

  unfoldable pub aggregate_epoch_votes : ℕ → ℕ → P2pConsensus → Run
  unfolding get status_of publish_status
  aggregate_epoch_votes now epoch pc =
      let batches = or_nil (get epoch pc.validator_batches) in
      if ltb (length batches) min_validators_for_consensus
      then record { ended = returned; state = pc; commands = [] }
      else publish_status now (status_of v now epoch batches) pc

  -- A valid batch is stored here and in Redis, counted, and its epoch aggregated.
  unfoldable pub accept_batch : ℕ → Bool → ValidatorBatch → P2pConsensus → Run
  unfolding store_validator_batch store_batch_in_redis aggregate_epoch_votes
  accept_batch now stored b pc =
      let pc1 = store_validator_batch b pc in
      let pc2 = record pc1 { received_batches = (pc1.received_batches + 1) % 2 ^ 64 } in
      let r = aggregate_epoch_votes now b.epoch_id pc2 in
      record {
        ended = r.ended;
        state = r.state;
        commands = store_batch_in_redis stored b ++ r.commands;
      }

  -- `message` is the batch that the data decode to; the root is printed with its first 16 bytes
  -- before the batch is validated.
  unfoldable pub process_batch_message : ℕ → Bool → Option ValidatorBatch → P2pConsensus → Run
  unfolding validate_batch accept_batch
  process_batch_message now stored none pc = record { ended = returned; state = pc; commands = [] }
  process_batch_message now stored (some b0) pc =
      let b = record b0 { received_at = now } in
      if ltb (length b.merkle_root) 16
      then record { ended = panicked; state = pc; commands = [] }
      else elim (validate_batch b) [
        | some e ↦ record { ended = returned; state = pc; commands = [] }
        | none ↦ accept_batch now stored b pc
      ]

  -- The last five epochs of 30 seconds; the subtraction wraps.
  unfoldable pub check_epochs : ℕ → List ℕ → P2pConsensus → Run
  unfolding then_run aggregate_epoch_votes
  check_epochs now [] pc = record { ended = returned; state = pc; commands = [] }
  check_epochs now (i ∷ rest) pc =
      then_run (aggregate_epoch_votes now ((now / 30 + 2 ^ 64 - i) % 2 ^ 64) pc)
        (check_epochs now rest)

  unfoldable pub check_recent_epochs : ℕ → P2pConsensus → Run
  unfolding check_epochs
  check_recent_epochs now pc = check_epochs now (0 ∷ 1 ∷ 2 ∷ 3 ∷ 4 ∷ []) pc

-- The message of a broadcast.
unfoldable pub own_batch : Text → Text → FinalizedBatch → Text → ValidatorBatch
unfolding hex_encode
own_batch sequencer peer d cid = record {
  validator_id = sequencer;
  peer_id = peer;
  epoch_id = d.epoch_id;
  batch_ipfs_cid = cid;
  merkle_root = hex_encode d.merkle_root;
  project_count = length d.project_ids;
  timestamp = d.timestamp;
  signature = hex_encode d.bls_signature;
  batch_data = none;
  received_at = 0;
  meta_data =
      (bytes "projects", whole (length d.project_ids))
      ∷ (bytes "votes", counts d.project_votes)
      ∷ [];
}

-- `published` says whether the topic takes the message; the root is printed with its first 16 bytes
-- when it has been published and counted.
unfoldable pub broadcast_finalized_batch :
    Text → Bool → FinalizedBatch → Text → P2pConsensus → Option BatchError × Ended × P2pConsensus
unfolding own_batch store_validator_batch
broadcast_finalized_batch peer published d cid pc =
    let b = own_batch pc.sequencer_id peer d cid in
    let pc1 = record pc { broadcast_batches = (pc.broadcast_batches + 1) % 2 ^ 64 } in
    if is_empty cid
    then (some no_cid, returned, pc)
    else (if published
        then (if ltb (length b.merkle_root) 16
            then (none, panicked, pc1)
            else (none, returned, store_validator_batch b pc1))
        else (some publish_failed, returned, pc))
