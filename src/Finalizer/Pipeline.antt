-- ===== src/Finalizer/Pipeline.antt =====
-- From the projects of an epoch to the validator's own batch: the split into batches of
-- pkgs/eventmonitor, the finalizers of cmd/unified and the first level of cmd/aggregator.
use snapshot_sequencer_valid.Base.{
  inl, inr, Option-cases, ℕ, Text, text_eq, Option, none, some, List, [], ◌∷◌, Map, get, put,
  put-Distinct, Distinct, map, map_option, ◌<◌, ◌≡◌, refl, ap, ◌∙◌, ℤ,
}
use snapshot_sequencer_valid.Json.{Json, ◌>>=◌}
use snapshot_sequencer_valid.Consensus.Visit.{IsVisit}
use snapshot_sequencer_valid.Consensus.Types.{FinalizedBatch}
use snapshot_sequencer_valid.Monitor.Batches.{split_into_batches}
use snapshot_sequencer_valid.Aggregator.Merge.Consensus.{paired}
use snapshot_sequencer_valid.Aggregator.Epoch.{Aggregator, Strconv, with_cid}
use snapshot_sequencer_valid.Aggregator.Parts.{
  Conversions, merge_results, collect_parts, create_finalized_batch_from_parts, local_batch,
}
use snapshot_sequencer_valid.Aggregator.Parts.Cids.{result_cid, batch_from_parts-cids}
use snapshot_sequencer_valid.Finalizer.Part.{ProjectResult, project_result}
use snapshot_sequencer_valid.Finalizer.Part.Whole.{stored, parts_as_whole, stored_cid}

merge_results-Distinct :
    (results : List (Text × Json)) (merged : Map Text Json)
    → Distinct merged
    → Distinct (merge_results results merged)
unfolding merge_results
merge_results-Distinct [] merged d = d
merge_results-Distinct ((project, result) ∷ rest) merged d =
    merge_results-Distinct rest (put project result merged) (put-Distinct project result merged d)

collect_parts-Distinct :
    (parts : List (Option (List (Text × Json)))) (merged : Map Text Json)
    → Distinct merged
    → Distinct (collect_parts parts merged)
unfolding collect_parts
collect_parts-Distinct [] merged d = d
collect_parts-Distinct (none ∷ parts) merged d = collect_parts-Distinct parts merged d
collect_parts-Distinct (some results ∷ parts) merged d =
    collect_parts-Distinct parts (merge_results results merged)
      (merge_results-Distinct results merged d)

-- The projects of a batch with their CIDs; its IPFS CID has no part in them.
abbrev pub projects_of : FinalizedBatch → List (Text × Text)
projects_of b = paired b.project_ids b.snapshot_cids

with_cid-projects :
    (ipfs : Option (FinalizedBatch → Option Text)) (b : FinalizedBatch)
    → projects_of (with_cid ipfs b) ≡ projects_of b
unfolding with_cid
with_cid-projects none b = refl
with_cid-projects (some store) b = elim (Option-cases (store b)) [
  | inl unstored ↦ rw (with_cid, unstored) refl
  | inr (cid, stored') ↦ rw (with_cid, stored') refl
]

module _ (sha256 : Text → List ℕ) (visit : Map Text Json → Map Text Json) (c : Conversions)
    (visit_votes : Map Text ℤ → Map Text ℤ) where
  -- Through the split into batches of any positive size, the finalizers' parts and their merge, a project that
  -- comes once gets in the validator's own batch the CID that a finalizer chooses for its votes, and a
  -- project for which none is chosen is left out; in whatever order the results are visited.
  pub local_batch-winners :
      (now : ℕ) (a : Aggregator) (ipfs : Option (FinalizedBatch → Option Text)) (conv : Strconv)
      (epoch size : ℕ) (projects : List (Text × Json)) (project : Text)
      → IsVisit visit
      → 0 < size
      → Distinct projects
      → get project (
          projects_of (
            local_batch sha256 visit c conv now a ipfs epoch
              (map (λ p. some (stored visit_votes p)) (split_into_batches size projects))))
        ≡ map_option
            (λ (r : ProjectResult). r.cid)
            (get project projects >>= project_result visit_votes)
  unfolding local_batch
  local_batch-winners now a ipfs conv epoch size projects project law h d =
      let parts = map (λ p. some (stored visit_votes p)) (split_into_batches size projects) in
      ap (get project) (
        with_cid-projects ipfs (
          create_finalized_batch_from_parts sha256 visit c now a.sequencer_id epoch
            (collect_parts parts [])))
      ∙ batch_from_parts-cids sha256 visit c now a.sequencer_id epoch (collect_parts parts [])
          project law (collect_parts-Distinct parts [] tt)
      ∙ ap (λ o. o >>= result_cid) (parts_as_whole visit_votes size projects project h d)
      ∙ stored_cid visit_votes project projects d
