-- ===== src/Consensus/Epochs/Outcomes.antt =====
-- What the operations of `P2PConsensus` do to its state, on each of their branches.
use snapshot_sequencer_valid.Base.{
  if◌then◌else◌, ◌≢◌, ◌%◌, ◌^◌, ℕ, ◌+◌, ◌*◌, ◌≤◌, ◌<◌, Text, text_eq, nat_eq, Bool, true, false,
  none, some, List, [], Map, get, put, get-put, beq_self, length, ltb, ◌≡◌, ◌⊎◌, inl, inr, refl,
  arith, Bool-cases,
}
use snapshot_sequencer_valid.Votes.{or_nil}
use snapshot_sequencer_valid.Consensus.Types.{ValidatorBatch, AggregationStatus, P2pConsensus}
use snapshot_sequencer_valid.Consensus.Visit.{IsVisit}
use snapshot_sequencer_valid.Consensus.Handler.{
  BatchError, validate_batch, store_validator_batch, prints_short_cid,
}
use snapshot_sequencer_valid.Consensus.Epochs.{
  Visits, status_of, publish_status, aggregate_epoch_votes, accept_batch, process_batch_message,
}
use snapshot_sequencer_valid.Consensus.Aggregate.Counts.{all_ballots}
use snapshot_sequencer_valid.Consensus.Aggregate.Majority.{selected_majority, selected_leader}

-- A status gives a project a CID only if at least half as many votes are for it as there are
-- validators, and no other CID of the project has more votes, in whatever order the maps are visited.
-- A vote is an entry of a metadata or of a loaded batch that names the CID.
pub status_of_majority :
    (v : Visits) (now epoch : ℕ) (batches : Map Text ValidatorBatch) (p cid : Text)
    → IsVisit v.cids
    → IsVisit v.projects
    → get p (status_of v now epoch batches).aggregated_projects ≡ some cid
    → (length batches ≤ 2 * all_ballots p cid (v.batches batches))
      × ((d : Text) → all_ballots p d (v.batches batches) ≤ all_ballots p cid (v.batches batches))
unfolding status_of
status_of_majority v now epoch batches p cid cids projects h =
    selected_majority v.cids v.projects (length batches) p cid (v.batches batches) cids projects h

-- A CID that half as many votes are for as there are validators, and more than for every other CID of
-- its project, is the project's CID in the status, in whatever order the maps are visited.
pub status_of_leader :
    (v : Visits) (now epoch : ℕ) (batches : Map Text ValidatorBatch) (p cid : Text)
    → IsVisit v.cids
    → IsVisit v.projects
    → 0 < length batches
    → length batches ≤ 2 * all_ballots p cid (v.batches batches)
    → ((d : Text)
        → d ≢ cid
        → all_ballots p d (v.batches batches) < all_ballots p cid (v.batches batches))
    → get p (status_of v now epoch batches).aggregated_projects ≡ some cid
unfolding status_of
status_of_leader v now epoch batches p cid cids projects some_batch half most =
    selected_leader v.cids v.projects (length batches) p cid (v.batches batches) cids projects
      some_batch half most

module _ (sha256 : Text → List ℕ) (v : Visits) where
  publish_status-state :
      (now : ℕ) (s : AggregationStatus) (pc : P2pConsensus)
      → ((publish_status sha256 v now s pc).state.validator_batches ≡ pc.validator_batches)
        × ((publish_status sha256 v now s pc).state.aggregation_status
            ≡ put s.epoch_id s pc.aggregation_status)
  unfolding publish_status
  publish_status-state now s pc =
      elim (Bool-cases (prints_short_cid s.project_votes (v.aggregated s.aggregated_projects))) [
        | inl short ↦ (rw short refl, rw short refl)
        | inr long ↦ (rw long refl, rw long refl)
      ]

  aggregate-batches :
      (now epoch : ℕ) (pc : P2pConsensus)
      → (aggregate_epoch_votes sha256 v now epoch pc).state.validator_batches ≡ pc.validator_batches
  unfolding aggregate_epoch_votes
  aggregate-batches now epoch pc =
      elim (Bool-cases (ltb (length (or_nil (get epoch pc.validator_batches))) 2)) [
        | inl few ↦ rw few refl
        | inr enough ↦
            rw enough
              (publish_status-state now
                (status_of v now epoch (or_nil (get epoch pc.validator_batches))) pc).0
      ]

  aggregate-status :
      (now epoch : ℕ) (pc : P2pConsensus)
      → get epoch (aggregate_epoch_votes sha256 v now epoch pc).state.aggregation_status ≡ (
          if ltb (length (or_nil (get epoch pc.validator_batches))) 2
          then get epoch pc.aggregation_status
          else some (status_of v now epoch (or_nil (get epoch pc.validator_batches))))
  unfolding aggregate_epoch_votes status_of
  aggregate-status now epoch pc =
      let batches = or_nil (get epoch pc.validator_batches) in
      elim (Bool-cases (ltb (length batches) 2)) [
        | inl few ↦ rw few refl
        | inr many ↦
            rw
              (
                many,
                (publish_status-state now (status_of v now epoch batches) pc).1,
                get-put,
                beq_self,
              )
              refl
      ]

  -- A batch whose root is shorter than 16 bytes, which stops the goroutine, and one that fails the
  -- validation, which is dropped, leave the state as it is, and nothing is stored.
  pub process_batch_message_rejects :
      (now : ℕ) (stored : Bool) (b : ValidatorBatch) (pc : P2pConsensus)
      → (length b.merkle_root < 16) ⊎ ((e : BatchError) × (validate_batch b ≡ some e))
      → ((process_batch_message sha256 v now stored (some b) pc).state ≡ pc)
        × ((process_batch_message sha256 v now stored (some b) pc).commands ≡ [])
  unfolding process_batch_message
  process_batch_message_rejects now stored b pc (inl short) =
      let panics : ltb (length b.merkle_root) 16 ≡ true = ground arith in
      (rw panics refl, rw panics refl)
  process_batch_message_rejects now stored b pc (inr (e, bad)) =
      let bad' : validate_batch (record b { received_at = now }) ≡ some e =
        unfold validate_batch in bad in
      elim (Bool-cases (ltb (length b.merkle_root) 16)) [
        | inl short ↦ (rw short refl, rw short refl)
        | inr long ↦ (rw (long, bad') refl, rw (long, bad') refl)
      ]

  -- A valid message whose Merkle root has 16 bytes or more replaces the validator's batch of that epoch and
  -- leaves the other validators'. Where two validators or more have then reported, the epoch has the
  -- status that is computed from these batches, and where there is one, the status that it had.
  pub process_batch_message_stores :
      (now : ℕ) (stored : Bool) (b : ValidatorBatch) (pc : P2pConsensus)
      → 16 ≤ length b.merkle_root
      → validate_batch b ≡ none
      → let batches =
          put b.validator_id
            (record b { received_at = now })
            (or_nil (get b.epoch_id pc.validator_batches)) in
        let state = (process_batch_message sha256 v now stored (some b) pc).state in
        (get b.epoch_id state.validator_batches ≡ some batches)
        × (get b.epoch_id state.aggregation_status ≡ (
            if ltb (length batches) 2
            then get b.epoch_id pc.aggregation_status
            else some (status_of v now b.epoch_id batches)))
  unfolding process_batch_message accept_batch store_validator_batch
  process_batch_message_stores now stored b pc long valid =
      let b1 = record b { received_at = now } in
      let pc1 = store_validator_batch b1 pc in
      let pc2 = record pc1 { received_batches = (pc1.received_batches + 1) % 2 ^ 64 } in
      let long' : ltb (length b.merkle_root) 16 ≡ false = ground arith in
      let valid' : validate_batch (record b { received_at = now }) ≡ none =
        unfold validate_batch in valid in
      (
        rw (long', valid', aggregate-batches now b.epoch_id pc2, get-put, beq_self) refl,
        rw (long', valid', aggregate-status now b.epoch_id pc2, get-put, beq_self) refl,
      )
