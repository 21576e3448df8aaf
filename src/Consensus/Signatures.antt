-- ===== src/Consensus/Signatures.antt =====
-- `VoteAggregator` of pkgs/consensus/signature_aggregator.go: the votes of the sequencers for whole
-- batches, and the first group of equal Merkle roots that is large enough. `required` is the number of
-- votes required of a total, int(float64(n) * threshold); `Visits` are the orders of the visits.
pub mod Groups
pub mod Short
use snapshot_sequencer_valid.Base.{
  ℕ, ◌+◌, ◌*◌, ◌-◌, ◌/◌, ◌%◌, ◌^◌, Text, text_eq, hex_encode, Option, none, some, List, [], ◌∷◌,
  ◌++◌, map, Map, get, put, length, take, ltb, leb, nat_eqb, if◌then◌else◌, not, zero, suc,
}
use snapshot_sequencer_valid.Votes.{or_nil}
use snapshot_sequencer_valid.Consensus.Types.{FinalizedBatch}

pub record VoteAggregator : Type 0 where
  pub epoch_id : ℕ
  pub votes : Map Text FinalizedBatch
  pub voting_deadline : ℕ

pub record ConsensusResult : Type 0 where
  pub epoch_id : ℕ
  pub project_ids : List Text
  pub snapshot_cids : List Text
  pub aggregate_signature : Text
  pub participant_bitmap : List ℕ
  pub total_validators : ℕ
  pub participating_validators : ℕ
  pub merkle_root : List ℕ

pub record Visits : Type 0 where
  pub votes : Map Text FinalizedBatch → Map Text FinalizedBatch
  pub groups : Map Text (List FinalizedBatch) → Map Text (List FinalizedBatch)

pub data VoteError : Type 0 where
  window_closed epoch_mismatch : VoteError

-- What a call ends with: its error, the consensus that it hands to the callback, neither, or a
-- run-time panic.
pub data VoteOutcome : Type 0 where
  refused : VoteError → VoteOutcome
  pending : VoteOutcome
  reached : ConsensusResult → VoteOutcome
  panicked : VoteOutcome

abbrev pub root_of : FinalizedBatch → Text
unfolding hex_encode
root_of b = hex_encode b.merkle_root

unfoldable pub group_votes :
    List (Text × FinalizedBatch) → Map Text (List FinalizedBatch) → Map Text (List FinalizedBatch)
unfolding get put
group_votes [] groups = groups
group_votes ((_, b) ∷ bs) groups =
    group_votes bs (put (root_of b) (or_nil (get (root_of b) groups) ++ b ∷ []) groups)

-- The first group with as many votes as are required.
unfoldable pub first_group : ℕ → List (Text × List FinalizedBatch) → Option (List FinalizedBatch)
first_group required [] = none
first_group required ((_, bs) ∷ rest) =
    if leb required (length bs) then some bs else first_group required rest

-- The signatures in hexadecimal, one after the other.
unfoldable pub combined_signatures : List FinalizedBatch → Text
unfolding hex_encode
combined_signatures [] = []
combined_signatures (b ∷ bs) = hex_encode b.bls_signature ++ combined_signatures bs

-- The first 64 characters; `none` where there are fewer, which is a slice out of bounds.
unfoldable pub aggregate_signatures : List FinalizedBatch → Option Text
unfolding combined_signatures
aggregate_signatures bs =
    if ltb (length (combined_signatures bs)) 64
    then none
    else some (take 64 (combined_signatures bs))

-- The byte of the bitmap from the bit for participant `8 * k`, where `n` participants are left.
abbrev pub bitmap_byte : ℕ → ℕ
bitmap_byte n = if ltb n 8 then 2 ^ n - 1 else 255

bitmap_from : ℕ → ℕ → List ℕ
bitmap_from zero n = []
bitmap_from (suc bytes) n = bitmap_byte n ∷ bitmap_from bytes (n - 8)

-- (n+7)/8 bytes, in which the first n bits are set.
unfoldable pub create_participant_bitmap : ℕ → List ℕ
unfolding bitmap_from
create_participant_bitmap n = bitmap_from ((n + 7) / 8) n

-- The result takes the first batch of the group as the reference; the counts are uint32. The code
-- reads batches[0], which an empty group does not have.
unfoldable pub build_consensus_result : ℕ → List FinalizedBatch → VoteOutcome
unfolding aggregate_signatures create_participant_bitmap
build_consensus_result total [] = panicked
build_consensus_result total (b ∷ bs) = elim (aggregate_signatures (b ∷ bs)) [
  | none ↦ panicked
  | some signature ↦ reached (record {
    epoch_id = b.epoch_id;
    project_ids = b.project_ids;
    snapshot_cids = b.snapshot_cids;
    aggregate_signature = signature;
    participant_bitmap = create_participant_bitmap (length (b ∷ bs));
    total_validators = total % 2 ^ 32;
    participating_validators = length (b ∷ bs) % 2 ^ 32;
    merkle_root = b.merkle_root;
  })
]

module _ (required : ℕ → ℕ) (v : Visits) where
  -- The batches that agree, if there are enough.
  unfoldable pub agreeing_batches : Map Text FinalizedBatch → Option (List FinalizedBatch)
  unfolding group_votes first_group
  agreeing_batches votes =
      first_group (required (length votes)) (v.groups (group_votes (v.votes votes) []))

  unfoldable pub check_consensus : VoteAggregator → VoteOutcome
  unfolding agreeing_batches build_consensus_result
  check_consensus va = elim (agreeing_batches va.votes) [
    | none ↦ pending
    | some bs ↦ build_consensus_result (length va.votes) bs
  ]

  -- AddVote at a time
  unfoldable pub add_vote : ℕ → FinalizedBatch → VoteAggregator → VoteOutcome × VoteAggregator
  unfolding put check_consensus
  add_vote now b va =
      let va' = record va { votes = put b.sequencer_id b va.votes } in
      if ltb va.voting_deadline now
      then (refused window_closed, va)
      else (if not (nat_eqb b.epoch_id va.epoch_id)
          then (refused epoch_mismatch, va)
          else (check_consensus va', va'))
