-- ===== src/Consensus/Handler.antt =====
-- The handling of batches in pkgs/consensus/p2p_consensus.go: what a validator broadcasts, a message
-- that it receives, the load from IPFS, and the aggregation of an epoch. Each operation gives the
-- state, the commands for Redis, and whether the goroutine comes to its end or stops by a run-time
-- panic. SHA-256, the orders of visits, the clock, JSON and the answers of Redis and IPFS are
-- arguments.
use snapshot_sequencer_valid.Base.{
  ℕ, Text, text_eq, nat_eq, bytes, decimal, hex_encode, is_empty, Bool, false, ◌&&◌, ◌||◌, Option,
  none, some, List, [], ◌∷◌, ◌++◌, map, get, put, length, take, ltb, nat_eqb, if◌then◌else◌, ◌==◌,
}
use snapshot_sequencer_valid.Redis.Join.{join}
use snapshot_sequencer_valid.Redis.Command.{Command, set, sadd, expire}
use snapshot_sequencer_valid.Votes.{Votes, or_nil, votes_of}
use snapshot_sequencer_valid.Consensus.Types.{
  FinalizedBatch, ValidatorBatch, P2pConsensus, Payload, batch, result,
}

-- BatchValidityDuration, in seconds
abbrev pub batch_validity : ℕ
batch_validity = 7200

abbrev pub min_validators_for_consensus : ℕ
min_validators_for_consensus = 2

pub data Ended : Type 0 where
  returned panicked : Ended

pub record Run : Type 0 where
  pub ended : Ended
  pub state : P2pConsensus
  pub commands : List (Command Payload)

pub data BatchError : Type 0 where
  no_cid no_root no_validator no_epoch publish_failed : BatchError

unfoldable pub validate_batch : ValidatorBatch → Option BatchError
validate_batch b =
    if is_empty b.batch_ipfs_cid
    then some no_cid
    else (if is_empty b.merkle_root
        then some no_root
        else (if is_empty b.validator_id
            then some no_validator
            else (if nat_eqb b.epoch_id 0 then some no_epoch else none)))

unfoldable pub store_validator_batch : ValidatorBatch → P2pConsensus → P2pConsensus
unfolding get put
store_validator_batch b pc = record pc {
  validator_batches =
      put b.epoch_id (put b.validator_id b (or_nil (get b.epoch_id pc.validator_batches)))
        pc.validator_batches;
}

unfoldable pub batch_key : ValidatorBatch → Text
unfolding join decimal
batch_key b = join (bytes "validator" ∷ b.validator_id ∷ bytes "batch" ∷ decimal b.epoch_id ∷ [])

unfoldable pub validators_key : ℕ → Text
unfolding join decimal
validators_key epoch = join (bytes "epoch" ∷ decimal epoch ∷ bytes "validators" ∷ [])

unfoldable pub status_key : ℕ → Text
unfolding join decimal
status_key epoch = join (bytes "consensus" ∷ bytes "epoch" ∷ decimal epoch ∷ bytes "status" ∷ [])

unfoldable pub result_key : ℕ → Text
unfolding join decimal
result_key epoch = join (bytes "consensus" ∷ bytes "epoch" ∷ decimal epoch ∷ bytes "result" ∷ [])

-- The validator is added to the epoch's set if the batch could be stored.
unfoldable pub store_batch_in_redis : Bool → ValidatorBatch → List (Command Payload)
unfolding batch_key validators_key
store_batch_in_redis stored b =
    set (batch_key b) (batch b) batch_validity
    ∷ (if stored
        then sadd (validators_key b.epoch_id) b.validator_id
          ∷ expire (validators_key b.epoch_id) batch_validity
          ∷ []
        else [])

-- The text that is hashed; `none` where a CID is missing, which is an index out of range.
unfoldable pub combined : List Text → List Text → Option Text
combined [] cids = some []
combined (project ∷ projects) [] = none
combined (project ∷ projects) (cid ∷ cids) = elim (combined projects cids) [
  | none ↦ none
  | some rest ↦ some (project ++ bytes ":" ++ cid ++ bytes "," ++ rest)
]

-- A CID is printed with its first twelve bytes, where it has a vote.
unfoldable pub prints_short_cid : Votes → List (Text × Text) → Bool
unfolding get
prints_short_cid votes [] = false
prints_short_cid votes ((project, cid) ∷ rest) =
    (ltb 0 (votes_of project cid votes) && ltb (length cid) 12) || prints_short_cid votes rest

module _ (sha256 : Text → List ℕ) where
  unfoldable pub calculate_merkle_root : List Text → List Text → Option (List ℕ)
  unfolding combined
  calculate_merkle_root projects cids = elim (combined projects cids) [
    | none ↦ none
    | some text ↦ some (sha256 text)
  ]

  -- What is loaded is put to the entry that the validator has at that time. `loaded` is the batch, if
  -- IPFS answers and the answer parses.
  unfoldable pub fetch_batch_from_ipfs :
      Option FinalizedBatch → ValidatorBatch → P2pConsensus → Ended × P2pConsensus
  unfolding get put calculate_merkle_root hex_encode
  fetch_batch_from_ipfs none b pc = (returned, pc)
  fetch_batch_from_ipfs (some d) b pc = elim (calculate_merkle_root d.project_ids d.snapshot_cids) [
    | none ↦ (panicked, pc)
    | some root ↦
        if hex_encode root == b.merkle_root
        then (
          returned,
          elim (get b.validator_id (or_nil (get b.epoch_id pc.validator_batches))) [
            | none ↦ pc
            | some vb ↦ record pc {
              validator_batches =
                  put b.epoch_id
                    (put b.validator_id (record vb { batch_data = some d })
                      (or_nil (get b.epoch_id pc.validator_batches)))
                    pc.validator_batches;
            }
          ],
        )
        else (returned, pc)
  ]

  -- The commands at the end of an aggregation; a hash has 32 bytes.
  unfoldable pub on_aggregation_complete :
      ℕ → Text → ℕ → List (Text × Text) → List (Command Payload)
  unfolding calculate_merkle_root hex_encode result_key
  on_aggregation_complete now sequencer epoch projects =
      let root =
        hex_encode
          (or_nil (calculate_merkle_root (map (λ e. e.0) projects) (map (λ e. e.1) projects))) in
      set (result_key epoch)
        (result (record {
          epoch_id = epoch;
          cid = take 16 root ++ bytes "...";
          merkle_root = root;
          validator_id = sequencer;
          timestamp = now;
          projects = length projects;
        }))
        batch_validity
      ∷ []
