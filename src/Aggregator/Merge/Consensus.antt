-- ===== src/Aggregator/Merge/Consensus.antt =====
-- Which CID the aggregated batch gives a project.
use snapshot_sequencer_valid.Base.{
  length, length-map, sym, ◌∙◌, All, ℕ, ◌+◌, ◌≤◌, Text, text_eq, List, [], ◌∷◌, Map, get, put,
  count_if, ◌==◌, ◌≡◌, arith, Distinct, put-Distinct,
}
use snapshot_sequencer_valid.Votes.{or_zero, increment, winner}
use snapshot_sequencer_valid.Votes.Winner.{winner_most, winner_count}
use snapshot_sequencer_valid.Consensus.Types.{SubmissionMetadata}
use snapshot_sequencer_valid.Consensus.Visit.{IsVisit}
use snapshot_sequencer_valid.Aggregator.Merge.{
  map, FinalizedBatch, or_nil, Option, Answer, add_keys, start, merged_list,
  create_aggregated_batch, Visits, count_cids, consensus_cid,
}

-- How many entries of the list have the CID.
abbrev pub supporters : Text → List SubmissionMetadata → ℕ
supporters cid subs = count_if (λ s. s.snapshot_cid == cid) subs

count_cids-get :
    (cid : Text) (subs : List SubmissionMetadata) (counts : Map Text ℕ)
    → or_zero (get cid (count_cids subs counts)) ≡ supporters cid subs + or_zero (get cid counts)
unfolding count_cids
count_cids-get cid [] counts = omega arith
count_cids-get cid (s ∷ subs) counts =
    let next = put s.snapshot_cid (or_zero (get s.snapshot_cid counts) + 1) counts in
    omega (arith, count_cids-get cid subs next, increment s.snapshot_cid cid counts)

count_cids-Distinct :
    (subs : List SubmissionMetadata) (counts : Map Text ℕ)
    → Distinct counts
    → Distinct (count_cids subs counts)
unfolding count_cids
count_cids-Distinct [] counts d = d
count_cids-Distinct (s ∷ subs) counts d =
    count_cids-Distinct subs (put s.snapshot_cid (or_zero (get s.snapshot_cid counts) + 1) counts)
      (put-Distinct s.snapshot_cid (or_zero (get s.snapshot_cid counts) + 1) counts d)

-- No CID of a list has more entries than the one that is taken for it, in whatever order the counts
-- are visited.
pub consensus_cid_most :
    (v : Visits) (subs : List SubmissionMetadata) (d : Text)
    → IsVisit v.counts
    → supporters d subs ≤ supporters (consensus_cid v subs) subs
unfolding consensus_cid get
consensus_cid_most v subs d law =
    let counts = count_cids subs [] in
    let (distinct, same) = law counts (count_cids-Distinct subs [] tt) in
    let (held, bound) = winner_most (v.counts counts) distinct in
    let each : (x : Text) → or_zero (get x (v.counts counts)) ≡ supporters x subs =
      λ x. rw (same x) (omega (arith, count_cids-get x subs [])) in
    omega (
      arith,
      bound d,
      each d,
      each (winner (v.counts counts)).0,
      winner_count (v.counts counts) distinct,
    )

-- The projects of a batch with their CIDs.
abbrev pub paired : List Text → List Text → List (Text × Text)
paired (project ∷ projects) (cid ∷ cids) = (project, cid) ∷ paired projects cids
paired _ _ = []

-- Each project has the CID of its submissions, whatever the list of projects.
chosen_lead :
    (v : Visits) (details : Map Text (List SubmissionMetadata)) (d : Text)
    (projects : List (Text × ℕ))
    → IsVisit v.counts
    → All
        (λ e. supporters d (or_nil (get e.0 details)) ≤ supporters e.1 (or_nil (get e.0 details)))
        (paired
          (map {A = Text × Text}
            (λ e. e.0)
            (map {A = Text × ℕ} (λ e. (e.0, consensus_cid v (or_nil (get e.0 details)))) projects))
          (map {A = Text × Text}
            (λ e. e.1)
            (map {A = Text × ℕ} (λ e. (e.0, consensus_cid v (or_nil (get e.0 details)))) projects)))
chosen_lead v details d [] law = tt
chosen_lead v details d ((project, n) ∷ projects) law = (
  consensus_cid_most v (or_nil (get project details)) d law,
  chosen_lead v details d projects law,
)

-- In an aggregated batch every project is paired with a CID, and no CID has more entries among the
-- project's submissions in the batch, in whatever order the counts are visited.
pub create_aggregated_batch-leads :
    (sha256 : Text → List ℕ) (v : Visits) (now : ℕ) (sequencer : Text)
    (ours : Option FinalizedBatch) (answer : Text → Option Answer) (keys : List Text) (d : Text)
    → IsVisit v.counts
    → (length (create_aggregated_batch sha256 v now sequencer ours answer keys).project_ids
        ≡ length (create_aggregated_batch sha256 v now sequencer ours answer keys).snapshot_cids)
      × All
          (λ e.
            supporters d (
              or_nil (
                get e.0
                  (create_aggregated_batch sha256 v now sequencer ours answer
                    keys).submission_details))
            ≤ supporters e.1 (
                or_nil (
                  get e.0
                    (create_aggregated_batch sha256 v now sequencer ours answer
                      keys).submission_details)))
          (paired
            (create_aggregated_batch sha256 v now sequencer ours answer keys).project_ids
            (create_aggregated_batch sha256 v now sequencer ours answer keys).snapshot_cids)
unfolding create_aggregated_batch
create_aggregated_batch-leads sha256 v now sequencer ours answer keys d law =
    let m = add_keys v answer keys (start v ours) in
    let details : Map Text (List SubmissionMetadata) =
      map (λ e. (e.0, merged_list v e.1)) m.details in
    let chosen : List (Text × Text) =
      map (λ e. (e.0, consensus_cid v (or_nil (get e.0 details)))) (v.votes m.votes) in
    (
      length-map (λ e. e.0) chosen ∙ sym (length-map (λ e. e.1) chosen),
      chosen_lead v details d (v.votes m.votes) law,
    )
