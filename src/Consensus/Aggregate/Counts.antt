-- ===== src/Consensus/Aggregate/Counts.antt =====
-- How many votes the batches of an epoch give to a CID, by an independent count of the entries.
use snapshot_sequencer_valid.Base.{
  ℕ, ◌+◌, Text, text_eq, text_eqb_iff, Option, none, some, List, [], ◌∷◌, ◌&&◌, if◌then◌else◌, ◌==◌,
  ◌≡◌, refl, arith, get-put, Bool-cases, inl, inr,
}
use snapshot_sequencer_valid.Json.{Json}
use snapshot_sequencer_valid.Votes.{Votes, votes_of, votes_of-add_vote}
use snapshot_sequencer_valid.Consensus.Types.{ValidatorBatch, FinalizedBatch}
use snapshot_sequencer_valid.Consensus.Aggregate.{
  declared, Tally, touch, vote, named_cid, count_entry, count_metadata, count_batch_data,
  count_loaded, count_validator, count_validators,
}

abbrev names : Text → Text → Text → Option Text → ℕ
names p c project none = 0
names p c project (some cid) = if (project == p) && (cid == c) then 1 else 0

abbrev pub metadata_ballots : Text → Text → List (Text × Json) → ℕ
metadata_ballots p c [] = 0
metadata_ballots p c ((project, value) ∷ rest) =
    names p c project (named_cid value) + metadata_ballots p c rest

abbrev data_ballots : Text → Text → List Text → List Text → ℕ
data_ballots p c (project ∷ projects) (cid ∷ cids) =
    (if (project == p) && (cid == c) then 1 else 0) + data_ballots p c projects cids
data_ballots p c _ _ = 0

abbrev loaded_ballots : Text → Text → Option FinalizedBatch → ℕ
loaded_ballots p c none = 0
loaded_ballots p c (some d) = data_ballots p c d.project_ids d.snapshot_cids

-- The entries of one batch that name the CID for the project: those of its metadata, and those of the
-- batch that is loaded from IPFS.
unfoldable pub ballots : Text → Text → ValidatorBatch → ℕ
unfolding declared named_cid
ballots p c b = metadata_ballots p c (declared b) + loaded_ballots p c b.batch_data

unfoldable pub all_ballots : Text → Text → List (Text × ValidatorBatch) → ℕ
unfolding ballots
all_ballots p c [] = 0
all_ballots p c ((_, b) ∷ bs) = ballots p c b + all_ballots p c bs

votes_of-touch :
    (project p c : Text) (votes : Votes) → votes_of p c (touch project votes) ≡ votes_of p c votes
unfolding touch
votes_of-touch project p c votes = elim (Bool-cases (project == p)) [
  | inl same ↦ let e : project ≡ p = (text_eqb_iff project p).0 same in rw (get-put, same, e) refl
  | inr other ↦ rw (get-put, other) refl
]

count_entry-votes :
    (p c validator project : Text) (named : Option Text) (t : Tally)
    → votes_of p c (count_entry validator project named t).votes
      ≡ names p c project named + votes_of p c t.votes
unfolding count_entry vote
count_entry-votes p c validator project none t = rw votes_of-touch (omega arith)
count_entry-votes p c validator project (some cid) t = votes_of-add_vote project cid p c t.votes

count_metadata-votes :
    (p c validator : Text) (entries : List (Text × Json)) (t : Tally)
    → votes_of p c (count_metadata validator entries t).votes
      ≡ metadata_ballots p c entries + votes_of p c t.votes
unfolding count_metadata
count_metadata-votes p c validator [] t = omega arith
count_metadata-votes p c validator ((project, value) ∷ rest) t = omega (
  arith,
  count_metadata-votes p c validator rest (count_entry validator project (named_cid value) t),
  count_entry-votes p c validator project (named_cid value) t,
)

count_batch_data-votes :
    (p c validator : Text) (projects cids : List Text) (t : Tally)
    → votes_of p c (count_batch_data validator projects cids t).votes
      ≡ data_ballots p c projects cids + votes_of p c t.votes
unfolding count_batch_data vote
count_batch_data-votes p c validator [] cids t = omega arith
count_batch_data-votes p c validator (project ∷ projects) [] t = omega arith
count_batch_data-votes p c validator (project ∷ projects) (cid ∷ cids) t = omega (
  arith,
  count_batch_data-votes p c validator projects cids (vote validator project cid t),
  votes_of-add_vote project cid p c t.votes,
)

count_loaded-votes :
    (p c validator : Text) (d : Option FinalizedBatch) (t : Tally)
    → votes_of p c (count_loaded validator d t).votes ≡ loaded_ballots p c d + votes_of p c t.votes
unfolding count_loaded
count_loaded-votes p c validator none t = omega arith
count_loaded-votes p c validator (some d) t =
    count_batch_data-votes p c validator d.project_ids d.snapshot_cids t

count_validator-votes :
    (p c : Text) (validator : Text) (b : ValidatorBatch) (t : Tally)
    → votes_of p c (count_validator (validator, b) t).votes ≡ ballots p c b + votes_of p c t.votes
unfolding count_validator ballots
count_validator-votes p c validator b t =
    let entries = declared b in
    omega (
      arith,
      count_loaded-votes p c validator b.batch_data (count_metadata validator entries t),
      count_metadata-votes p c validator entries t,
    )

-- The votes that an epoch's batches add for a CID are the entries that name it: one for each entry of
-- a metadata and of a loaded batch, so two from a validator that has it in both.
pub count_validators-votes :
    (p c : Text) (batches : List (Text × ValidatorBatch)) (t : Tally)
    → votes_of p c (count_validators batches t).votes
      ≡ all_ballots p c batches + votes_of p c t.votes
unfolding count_validators all_ballots
count_validators-votes p c [] t = omega arith
count_validators-votes p c ((validator, b) ∷ bs) t = omega (
  arith,
  count_validators-votes p c bs (count_validator (validator, b) t),
  count_validator-votes p c validator b t,
)
