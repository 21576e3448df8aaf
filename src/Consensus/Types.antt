-- ===== src/Consensus/Types.antt =====
-- The data of pkgs/consensus: the finalized batch, what a validator says of one, and the status of an
-- aggregation; the state of `P2PConsensus`, and what it stores in Redis.
use snapshot_sequencer_valid.Base.{ℕ, Text, Option, List, Map}
use snapshot_sequencer_valid.Json.{Json}
use snapshot_sequencer_valid.Votes.{Votes}

pub record SubmissionMetadata : Type 0 where
  pub submitter_id : Text
  pub snapshot_cid : Text
  pub timestamp : ℕ
  pub signature : List ℕ
  pub slot_id : ℕ
  pub vote_count : ℕ
  pub validators_confirming : List Text

pub record FinalizedBatch : Type 0 where
  pub epoch_id : ℕ
  pub project_ids : List Text
  pub snapshot_cids : List Text
  pub merkle_root : List ℕ
  pub bls_signature : List ℕ
  pub sequencer_id : Text
  pub timestamp : ℕ
  pub project_votes : Map Text ℕ
  pub submission_details : Map Text (List SubmissionMetadata)
  pub validator_batches : Map Text Text
  pub batch_ipfs_cid : Text
  pub validator_count : ℕ

-- A value of a batch's Metadata: what Unmarshal made of a message, or what the validator's own
-- broadcast puts there, a number and a map[string]uint32.
pub data MetaValue : Type 0 where
  decoded : Json → MetaValue
  whole : ℕ → MetaValue
  counts : Map Text ℕ → MetaValue

pub record ValidatorBatch : Type 0 where
  pub validator_id : Text
  pub peer_id : Text
  pub epoch_id : ℕ
  pub batch_ipfs_cid : Text
  pub merkle_root : Text
  pub project_count : ℕ
  pub timestamp : ℕ
  pub signature : Text
  pub batch_data : Option FinalizedBatch
  pub received_at : ℕ
  pub meta_data : Map Text MetaValue

pub record AggregationStatus : Type 0 where
  pub epoch_id : ℕ
  pub total_validators : ℕ
  pub received_batches : ℕ
  pub project_votes : Votes
  pub aggregated_projects : Map Text Text
  pub validator_contributions : Map Text (List Text)
  pub updated_at : ℕ

pub record P2pConsensus : Type 0 where
  pub sequencer_id : Text
  pub validator_batches : Map ℕ (Map Text ValidatorBatch)
  pub aggregation_status : Map ℕ AggregationStatus
  pub received_batches : ℕ
  pub broadcast_batches : ℕ
  pub epochs_aggregated : ℕ

-- What is stored at the end of an aggregation.
pub record ResultRecord : Type 0 where
  pub epoch_id : ℕ
  pub cid : Text
  pub merkle_root : Text
  pub validator_id : Text
  pub timestamp : ℕ
  pub projects : ℕ

pub data Payload : Type 0 where
  status : AggregationStatus → Payload
  batch : ValidatorBatch → Payload
  result : ResultRecord → Payload
