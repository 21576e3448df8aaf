-- ===== src/Consensus/Aggregate.antt =====
-- The computation of `aggregateEpochVotes` in pkgs/consensus/p2p_consensus.go: the votes that the
-- validators' batches of an epoch give, and the CID of each project. `visit` is the order in which a
-- map is visited; the batches are listed in the order in which their map is.
--
-- The test float64(maxVotes)/float64(totalValidators) >= 0.5 is written on whole numbers; the two
-- agree for every number of validators below 2^53.
pub mod Counts
pub mod Proper
pub mod Majority
use snapshot_sequencer_valid.Base.{
  ℕ, ◌*◌, Text, text_eq, bytes, Option, none, some, List, [], ◌∷◌, ◌++◌, Map, get, put, leb,
  if◌then◌else◌,
}
use snapshot_sequencer_valid.Json.{Json, as_map, as_string, member, ◌>>=◌}
use snapshot_sequencer_valid.Votes.{Votes, or_nil, add_vote, winner}
use snapshot_sequencer_valid.Consensus.Types.{
  ValidatorBatch, FinalizedBatch, MetaValue, decoded, whole, counts,
}

pub record Tally : Type 0 where
  pub votes : Votes
  pub contributions : Map Text (List Text)

-- The inner map is made where it is nil.
unfoldable pub touch : Text → Votes → Votes
unfolding get put
touch project votes = put project (or_nil (get project votes)) votes

-- One vote of the validator for the CID, and the project among its contributions.
unfoldable pub vote : Text → Text → Text → Tally → Tally
unfolding get put add_vote
vote validator project cid t = record {
  votes = add_vote project cid t.votes;
  contributions =
      put validator (or_nil (get validator t.contributions) ++ project ∷ []) t.contributions;
}

-- The CID that an entry of the metadata names: under "cid" in a map, or the string itself.
unfoldable pub named_cid : Json → Option Text
unfolding member
named_cid value = elim (as_map value) [
  | some m ↦ member as_string (bytes "cid") m
  | none ↦ as_string value
]

unfoldable pub count_entry : Text → Text → Option Text → Tally → Tally
unfolding touch vote
count_entry validator project none t = record {
  votes = touch project t.votes;
  contributions = t.contributions;
}
count_entry validator project (some cid) t = vote validator project cid t

unfoldable pub count_metadata : Text → List (Text × Json) → Tally → Tally
unfolding count_entry named_cid
count_metadata validator [] t = t
count_metadata validator ((project, value) ∷ rest) t =
    count_metadata validator rest (count_entry validator project (named_cid value) t)

-- The projects with an index below the number of CIDs.
unfoldable pub count_batch_data : Text → List Text → List Text → Tally → Tally
unfolding vote
count_batch_data validator (project ∷ projects) (cid ∷ cids) t =
    count_batch_data validator projects cids (vote validator project cid t)
count_batch_data validator _ _ t = t

unfoldable pub count_loaded : Text → Option FinalizedBatch → Tally → Tally
unfolding count_batch_data
count_loaded validator none t = t
count_loaded validator (some d) t = count_batch_data validator d.project_ids d.snapshot_cids t

-- vBatch.Metadata["votes"].(map[string]interface{}); a map of another type fails the assertion.
abbrev meta_map : MetaValue → Option (List (Text × Json))
meta_map (decoded j) = as_map j
meta_map (whole n) = none
meta_map (counts m) = none

unfoldable pub declared : ValidatorBatch → List (Text × Json)
unfolding get
declared b = or_nil (get (bytes "votes") b.meta_data >>= meta_map)

unfoldable pub count_validator : Text × ValidatorBatch → Tally → Tally
unfolding declared count_metadata count_loaded
count_validator (validator, b) t =
    count_loaded validator b.batch_data (count_metadata validator (declared b) t)

unfoldable pub count_validators : List (Text × ValidatorBatch) → Tally → Tally
unfolding count_validator
count_validators [] t = t
count_validators (b ∷ bs) t = count_validators bs (count_validator b t)

abbrev pub no_votes : Tally
no_votes = record { votes = []; contributions = [] }

module _ (visit : Map Text ℕ → Map Text ℕ) where
  -- The CID with the most votes of each project, where they are half of the validators.
  unfoldable pub select : ℕ → List (Text × Map Text ℕ) → Map Text Text → Map Text Text
  unfolding winner put
  select total [] acc = acc
  select total ((project, cids) ∷ rest) acc =
      let (cid, most) = winner (visit cids) in
      select total rest (if leb total (2 * most) then put project cid acc else acc)
