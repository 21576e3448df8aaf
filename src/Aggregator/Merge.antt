-- ===== src/Aggregator/Merge.antt =====
-- `createAggregatedBatch` of cmd/aggregator/main.go: the merge of the validators' batches. What Redis
-- and json.Unmarshal answer for a key, the orders in which maps are visited, SHA-256 and the clock are
-- arguments.
pub mod Confirmations
pub mod Consensus
use snapshot_sequencer_valid.Base.{
  false, ℕ, ◌+◌, Text, text_eq, bytes, is_empty, Bool, not, ◌&&◌, Option, none, some, List, [], ◌∷◌,
  ◌++◌, map, Map, get, put, length, ltb, nat_eqb, if◌then◌else◌,
}
use snapshot_sequencer_valid.Redis.Join.{split}
use snapshot_sequencer_valid.Votes.{or_nil, or_zero, winner}
use snapshot_sequencer_valid.Consensus.Types.{FinalizedBatch, SubmissionMetadata, ValidatorBatch}

-- What the data under a key decode to, as a message of a peer and as a batch.
pub record Answer : Type 0 where
  pub message : Option ValidatorBatch
  pub batch : Option FinalizedBatch

pub record Merging : Type 0 where
  pub epoch_id : ℕ
  pub details : Map Text (List SubmissionMetadata)
  pub votes : Map Text ℕ
  pub views : Map Text FinalizedBatch
  pub batch_cids : Map Text Text

pub record Visits : Type 0 where
  pub details : Map Text (List SubmissionMetadata) → Map Text (List SubmissionMetadata)
  pub merged : Map Text SubmissionMetadata → Map Text SubmissionMetadata
  pub votes : Map Text ℕ → Map Text ℕ
  pub counts : Map Text ℕ → Map Text ℕ

unfoldable pub append_details :
    Text
    → List SubmissionMetadata
    → Map Text (List SubmissionMetadata)
    → Map Text (List SubmissionMetadata)
unfolding get put
append_details project subs details = put project (or_nil (get project details) ++ subs) details

-- The loop over our own batch: its votes are taken as they are.
unfoldable pub add_own : Map Text ℕ → Map Text (List SubmissionMetadata) → Merging → Merging
unfolding get put append_details
add_own own [] m = m
add_own own ((project, subs) ∷ rest) m = add_own own rest (record m {
  details = append_details project subs m.details;
  votes = put project (or_zero (get project own)) m.votes;
})

-- The larger count is kept, and the first one of a project.
unfoldable pub merge_votes : ℕ → Option ℕ → ℕ
merge_votes new none = new
merge_votes new (some current) = if ltb current new then new else current

unfoldable pub add_incoming : Map Text ℕ → Map Text (List SubmissionMetadata) → Merging → Merging
unfolding get put append_details merge_votes
add_incoming theirs [] m = m
add_incoming theirs ((project, subs) ∷ rest) m = add_incoming theirs rest (record m {
  details = append_details project subs m.details;
  votes = put project (merge_votes (or_zero (get project theirs)) (get project m.votes)) m.votes;
})

-- The fourth segment of the key.
unfoldable pub id_of_key : Text → Text
unfolding split
id_of_key key = elim (split key) [ a ∷ b ∷ c ∷ d ∷ rest ↦ d | _ ↦ [] ]

module _ (v : Visits) where
  unfoldable pub add_batch : Text → FinalizedBatch → Merging → Merging
  unfolding put add_incoming
  add_batch validator b m =
      add_incoming b.project_votes (v.details b.submission_details) (record m {
        epoch_id = if nat_eqb m.epoch_id 0 then b.epoch_id else m.epoch_id;
        views = put validator b m.views;
      })

  unfoldable pub add_message : ValidatorBatch → Option FinalizedBatch → Merging → Merging
  unfolding put add_batch
  add_message b none m = record m { batch_cids = put b.validator_id b.batch_ipfs_cid m.batch_cids }
  add_message b (some d) m =
      add_batch b.validator_id d
        (record m { batch_cids = put b.validator_id b.batch_ipfs_cid m.batch_cids })

  unfoldable pub add_plain : Text → Option FinalizedBatch → Merging → Merging
  unfolding add_batch id_of_key
  add_plain key none m = m
  add_plain key (some d) m =
      add_batch (if is_empty d.sequencer_id then id_of_key key else d.sequencer_id) d m

  -- The body of the loop over the keys; `none` where GET fails.
  unfoldable pub add_key : Text → Option Answer → Merging → Merging
  unfolding add_message add_plain
  add_key key none m = m
  add_key key (some a) m = elim a.message [
    | none ↦ add_plain key a.batch m
    | some b ↦
        if is_empty b.batch_ipfs_cid then add_plain key a.batch m else add_message b a.batch m
  ]

  unfoldable pub add_keys : (Text → Option Answer) → List Text → Merging → Merging
  unfolding add_key
  add_keys answer [] m = m
  add_keys answer (key ∷ keys) m = add_keys answer keys (add_key key (answer key) m)

  unfoldable pub start : Option FinalizedBatch → Merging
  unfolding add_own
  start none = record { epoch_id = 0; details = []; votes = []; views = []; batch_cids = [] }
  start (some b) = add_own b.project_votes (v.details b.submission_details) (record {
    epoch_id = b.epoch_id;
    details = [];
    votes = [];
    views = (b.sequencer_id, b) ∷ [];
    batch_cids = [];
  })

-- submitter_id:snapshot_cid
abbrev pub merge_key : SubmissionMetadata → Text
merge_key s = s.submitter_id ++ bytes ":" ++ s.snapshot_cid

-- A submission that another validator saw as well.
abbrev pub confirm : SubmissionMetadata → Option SubmissionMetadata → SubmissionMetadata
confirm s none = s
confirm s (some existing) = record existing {
  validators_confirming = existing.validators_confirming ++ s.validators_confirming;
  vote_count = existing.vote_count + 1;
}

unfoldable pub merge_duplicates :
    List SubmissionMetadata → Map Text SubmissionMetadata → Map Text SubmissionMetadata
unfolding get put
merge_duplicates [] merged = merged
merge_duplicates (s ∷ subs) merged =
    merge_duplicates subs (put (merge_key s) (confirm s (get (merge_key s) merged)) merged)

unfoldable pub count_cids : List SubmissionMetadata → Map Text ℕ → Map Text ℕ
unfolding get put
count_cids [] counts = counts
count_cids (s ∷ subs) counts =
    count_cids subs (put s.snapshot_cid (or_zero (get s.snapshot_cid counts) + 1) counts)

module _ (v : Visits) where
  unfoldable pub merged_list : List SubmissionMetadata → List SubmissionMetadata
  unfolding merge_duplicates
  merged_list subs = map (λ e. e.1) (v.merged (merge_duplicates subs []))

  -- The CID with the most entries of a project.
  unfoldable pub consensus_cid : List SubmissionMetadata → Text
  unfolding count_cids winner
  consensus_cid subs = (winner (v.counts (count_cids subs []))).0

abbrev pub pairs_text : List (Text × Text) → Text
pairs_text [] = []
pairs_text ((project, cid) ∷ rest) = project ++ bytes ":" ++ cid ++ bytes "," ++ pairs_text rest

module _ (sha256 : Text → List ℕ) (v : Visits) where
  unfoldable pub create_aggregated_batch :
      ℕ → Text → Option FinalizedBatch → (Text → Option Answer) → List Text → FinalizedBatch
  unfolding get add_keys start merged_list consensus_cid
  create_aggregated_batch now sequencer ours answer keys =
      let m = add_keys v answer keys (start v ours) in
      let details : Map Text (List SubmissionMetadata) =
        map (λ e. (e.0, merged_list v e.1)) m.details in
      let chosen : List (Text × Text) =
        map (λ e. (e.0, consensus_cid v (or_nil (get e.0 details)))) (v.votes m.votes) in
      record {
        epoch_id = m.epoch_id;
        project_ids = map (λ e. e.0) chosen;
        snapshot_cids = map (λ e. e.1) chosen;
        merkle_root = sha256 (pairs_text chosen);
        bls_signature = [];
        sequencer_id = sequencer;
        timestamp = now;
        project_votes = m.votes;
        submission_details = details;
        validator_batches = m.batch_cids;
        batch_ipfs_cid = [];
        validator_count = length m.views;
      }
