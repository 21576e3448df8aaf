-- ===== src/Finalizer/Part/Winners.antt =====
-- Which CID a finalizer takes for a project, and what it reports of the votes.
use snapshot_sequencer_valid.Base.{
  ℕ, ◌≤◌, Text, text_eq, Option, none, some, List, [], ◌∷◌, Map, get, has, Distinct, ◌≡◌, refl, sym,
  ap, ◌∙◌, arith, ℤ, pos_part, false, Bool-cases, inl, inr, is_empty,
}
use snapshot_sequencer_valid.Json.{Json}
use snapshot_sequencer_valid.Votes.{or_zero, winner}
use snapshot_sequencer_valid.Votes.Winner.{winner_most, winner_count}
use snapshot_sequencer_valid.Consensus.Visit.{IsVisit}
use snapshot_sequencer_valid.Finalizer.Part.{ProjectResult, positive, result_of}

abbrev positive_part : Option ℤ → ℕ
positive_part none = 0
positive_part (some n) = pos_part n

-- The votes for a CID, 0 where there are none.
abbrev pub votes_for : Text → Map Text ℤ → ℕ
votes_for cid votes = positive_part (get cid votes)

positive-get : (k : Text) (m : Map Text ℤ) → or_zero (get k (positive m)) ≡ votes_for k m
unfolding positive get
positive-get k [] = refl
positive-get k ((j, n) ∷ m) = ground (arith, positive-get k m)

positive-has : (k : Text) (m : Map Text ℤ) → has k (positive m) ≡ has k m
unfolding positive has
positive-has k [] = refl
positive-has k ((j, n) ∷ m) = ground (arith, positive-has k m)

positive-Distinct : (m : Map Text ℤ) → Distinct m → Distinct (positive m)
unfolding positive
positive-Distinct [] d = tt
positive-Distinct ((j, n) ∷ m) d = (positive-has j m ∙ d.0, positive-Distinct m d.1)

-- The CID of a result is no empty text, has the votes that the result reports, and no CID has more, in
-- whatever order the votes are visited; a negative count is no vote.
pub result_of-most :
    (visit : Map Text ℤ → Map Text ℤ) (votes : Map Text ℤ) (metadata : Option (List Json))
    (r : ProjectResult) (d : Text)
    → IsVisit visit
    → Distinct votes
    → result_of visit votes metadata ≡ some r
    → (is_empty r.cid ≡ false) × (r.votes ≡ votes_for r.cid votes) × (votes_for d votes ≤ r.votes)
unfolding result_of
result_of-most visit votes metadata r d law distinct h =
    elim (Bool-cases (is_empty (winner (positive (visit votes))).0)) [
      | inl no_cid ↦ let nothing : none ≡ some r = rw no_cid at h in absurd (cc)
      | inr some_cid ↦
          let e : some _ ≡ some r = rw some_cid at h in
          let cid : (winner (positive (visit votes))).0 ≡ r.cid = ap cid_of e in
          let most : (winner (positive (visit votes))).1 ≡ r.votes = ap votes_in e in
          let visited : Distinct (positive (visit votes)) =
            positive-Distinct (visit votes) (law votes distinct).0 in
          let each : (x : Text) → or_zero (get x (positive (visit votes))) ≡ votes_for x votes =
            λ x. positive-get x (visit votes) ∙ ap positive_part ((law votes distinct).1 x) in
          (
            ap is_empty (sym cid) ∙ some_cid,
            sym most
                ∙ sym (winner_count (positive (visit votes)) visited)
                ∙ each (winner (positive (visit votes))).0
                ∙ ap (λ (x : Text). votes_for x votes) cid,
            omega (arith, (winner_most (positive (visit votes)) visited).1 d, each d),
          )
    ]
  where
    cid_of : Option ProjectResult → Text
    cid_of none = []
    cid_of (some x) = x.cid

    votes_in : Option ProjectResult → ℕ
    votes_in none = 0
    votes_in (some x) = x.votes
