-- ===== src/Consensus/Aggregate/Proper.antt =====
-- The votes of an aggregation are maps of distinct keys, at every step of the count.
use snapshot_sequencer_valid.Base.{
  ◌+◌, ap, ℕ, Text, text_eq, Option, none, some, List, [], ◌∷◌, Map, get, put, ◌==◌, ◌≡◌, refl,
  get-put, Bool-cases, inl, inr, Distinct, put-Distinct,
}
use snapshot_sequencer_valid.Json.{Json}
use snapshot_sequencer_valid.Votes.{Votes, or_nil, or_zero, add_vote}
use snapshot_sequencer_valid.Consensus.Types.{ValidatorBatch, FinalizedBatch}
use snapshot_sequencer_valid.Consensus.Aggregate.{
  declared, Tally, touch, vote, named_cid, count_entry, count_metadata, count_batch_data,
  count_loaded, count_validator, count_validators, no_votes,
}

-- Every map of the votes has distinct keys.
abbrev pub IsProper : Votes → Type 0
IsProper votes =
    Distinct votes × ((p : Text) (cids : Map Text ℕ) → get p votes ≡ some cids → Distinct cids)

or_nil-Distinct : (p : Text) (votes : Votes) → IsProper votes → Distinct (or_nil (get p votes))
or_nil-Distinct p votes w = given (get p votes) refl
  where
    given : (o : Option (Map Text ℕ)) → get p votes ≡ o → Distinct (or_nil o)
    given none e = tt
    given (some cids) e = w.1 p cids e

Distinct-of : (cids other : Map Text ℕ) → some cids ≡ some other → Distinct cids → Distinct other
Distinct-of cids other e d = let e1 : cids ≡ other = ap or_nil e in rw e1 at d

put-IsProper :
    (project : Text) (cids : Map Text ℕ) (votes : Votes)
    → Distinct cids
    → IsProper votes
    → IsProper (put project cids votes)
put-IsProper project cids votes d w = (put-Distinct project cids votes w.0, inner)
  where
    inner :
        (p : Text) (other : Map Text ℕ)
        → get p (put project cids votes) ≡ some other
        → Distinct other
    inner p other e = elim (Bool-cases (project == p)) [
      | inl same ↦
          let e1 : some cids ≡ some other = rw (get-put, same) at e in Distinct-of cids other e1 d
      | inr differ ↦ w.1 p other (rw (get-put, differ) at e)
    ]

add_vote-IsProper :
    (project cid : Text) (votes : Votes) → IsProper votes → IsProper (add_vote project cid votes)
unfolding add_vote
add_vote-IsProper project cid votes w =
    let cids = or_nil (get project votes) in
    put-IsProper project (put cid (or_zero (get cid cids) + 1) cids) votes
      (put-Distinct cid (or_zero (get cid cids) + 1) cids (or_nil-Distinct project votes w)) w

count_entry-IsProper :
    (validator project : Text) (named : Option Text) (t : Tally)
    → IsProper t.votes
    → IsProper (count_entry validator project named t).votes
unfolding count_entry vote touch
count_entry-IsProper validator project none t w =
    put-IsProper project (or_nil (get project t.votes)) t.votes (or_nil-Distinct project t.votes w)
      w
count_entry-IsProper validator project (some cid) t w = add_vote-IsProper project cid t.votes w

count_metadata-IsProper :
    (validator : Text) (entries : List (Text × Json)) (t : Tally)
    → IsProper t.votes
    → IsProper (count_metadata validator entries t).votes
unfolding count_metadata
count_metadata-IsProper validator [] t w = w
count_metadata-IsProper validator ((project, value) ∷ rest) t w =
    count_metadata-IsProper validator rest (count_entry validator project (named_cid value) t)
      (count_entry-IsProper validator project (named_cid value) t w)

count_batch_data-IsProper :
    (validator : Text) (projects cids : List Text) (t : Tally)
    → IsProper t.votes
    → IsProper (count_batch_data validator projects cids t).votes
unfolding count_batch_data vote
count_batch_data-IsProper validator [] cids t w = w
count_batch_data-IsProper validator (project ∷ projects) [] t w = w
count_batch_data-IsProper validator (project ∷ projects) (cid ∷ cids) t w =
    count_batch_data-IsProper validator projects cids (vote validator project cid t)
      (add_vote-IsProper project cid t.votes w)

count_loaded-IsProper :
    (validator : Text) (d : Option FinalizedBatch) (t : Tally)
    → IsProper t.votes
    → IsProper (count_loaded validator d t).votes
unfolding count_loaded
count_loaded-IsProper validator none t w = w
count_loaded-IsProper validator (some d) t w =
    count_batch_data-IsProper validator d.project_ids d.snapshot_cids t w

count_validators-IsProper :
    (batches : List (Text × ValidatorBatch)) (t : Tally)
    → IsProper t.votes
    → IsProper (count_validators batches t).votes
unfolding count_validators count_validator
count_validators-IsProper [] t w = w
count_validators-IsProper ((validator, b) ∷ bs) t w =
    count_validators-IsProper bs (count_validator (validator, b) t) (
      count_loaded-IsProper validator b.batch_data (count_metadata validator (declared b) t)
        (count_metadata-IsProper validator (declared b) t w))

pub tallied-IsProper :
    (batches : List (Text × ValidatorBatch)) → IsProper (count_validators batches no_votes).votes
unfolding get
tallied-IsProper batches = count_validators-IsProper batches no_votes (tt, λ p cids e. cc)
