-- ===== src/Consensus/Aggregate/Majority.antt =====
-- Which CID an aggregation gives a project: the one with the most votes, where they are half.
use snapshot_sequencer_valid.Base.{
  ap, has-of-get, Option-cases, has, ℕ, ◌*◌, ◌≤◌, ◌<◌, Text, text_eq, text_eqb_iff, Option, none,
  some, List, [], ◌∷◌, Map, get, put, leb, if◌then◌else◌, ◌==◌, ◌≡◌, ◌≢◌, refl, arith, get-put,
  Bool-cases, inl, inr, Distinct, sym, ◌∙◌, true, false,
}
use snapshot_sequencer_valid.Votes.{or_nil, or_zero, votes_of, winner}
use snapshot_sequencer_valid.Votes.Winner.{winner_most, winner_strict, winner_count}
use snapshot_sequencer_valid.Consensus.Types.{ValidatorBatch}
use snapshot_sequencer_valid.Consensus.Visit.{IsVisit}
use snapshot_sequencer_valid.Consensus.Aggregate.{count_validators, select, no_votes}
use snapshot_sequencer_valid.Consensus.Aggregate.Proper.{tallied-IsProper}
use snapshot_sequencer_valid.Consensus.Aggregate.Counts.{all_ballots, count_validators-votes}

module _ (visit : Map Text ℕ → Map Text ℕ) where
  abbrev chosen : ℕ → Option (Map Text ℕ) → Option Text → Option Text
  chosen total none old = old
  chosen total (some cids) old =
      if leb total (2 * (winner (visit cids)).1) then some (winner (visit cids)).0 else old

  has-none : (q : Text) (m : Map Text (Map Text ℕ)) → has q m ≡ false → get q m ≡ none
  has-none q m h = elim (Option-cases (get q m)) [
    | inl e ↦ e
    | inr (v, e) ↦ absurd (cc (has-of-get q m v e))
  ]

  abbrev grown : ℕ → Text → Map Text ℕ → Map Text Text → Map Text Text
  grown total p cids acc =
      if leb total (2 * (winner (visit cids)).1) then put p (winner (visit cids)).0 acc else acc

  grown-get :
      (total : ℕ) (p : Text) (cids : Map Text ℕ) (acc : Map Text Text) (q : Text)
      → get q (grown total p cids acc)
        ≡ (if p == q then chosen total (some cids) (get q acc) else get q acc)
  grown-get total p cids acc q = ground (arith, get-put p q (winner (visit cids)).0 acc)

  select-get :
      (total : ℕ) (q : Text) (entries : Map Text (Map Text ℕ)) (acc : Map Text Text)
      → Distinct entries
      → get q (select visit total entries acc) ≡ chosen total (get q entries) (get q acc)
  unfolding select get
  select-get total q [] acc d = refl
  select-get total q ((p, cids) ∷ rest) acc d = elim (Bool-cases (p == q)) [
    | inl same ↦
        let e : p ≡ q = (text_eqb_iff p q).0 same in
        let absent : get q rest ≡ none = has-none q rest (rw e at d.0) in
        rw (select-get total q rest (grown total p cids acc) d.1, absent, same, grown-get)
          (ground arith)
    | inr other ↦
        rw (select-get total q rest (grown total p cids acc) d.1, other, grown-get) (ground arith)
  ]

tallied_votes :
    (p d : Text) (batches : List (Text × ValidatorBatch))
    → votes_of p d (count_validators batches no_votes).votes ≡ all_ballots p d batches
unfolding get
tallied_votes p d batches = omega (arith, count_validators-votes p d batches no_votes)

module _ (visit : Map Text ℕ → Map Text ℕ)
    (visit_projects : Map Text (Map Text ℕ) → Map Text (Map Text ℕ)) where
  -- What `aggregateEpochVotes` selects from the batches of an epoch.
  abbrev pub selected : ℕ → List (Text × ValidatorBatch) → Map Text Text
  selected total batches =
      select visit total (visit_projects (count_validators batches no_votes).votes) []

  selected-get :
      (total : ℕ) (p : Text) (batches : List (Text × ValidatorBatch))
      → IsVisit visit_projects
      → get p (selected total batches)
        ≡ chosen visit total (get p (count_validators batches no_votes).votes) none
  unfolding get
  selected-get total p batches law =
      let votes = (count_validators batches no_votes).votes in
      let (distinct, same) = law votes (tallied-IsProper batches).0 in
      rw (select-get visit total p (visit_projects votes) [] distinct, same p) refl

  -- The votes of a project whose map of CIDs is known, as the visit shows them.
  visited_votes :
      (p d : Text) (cids : Map Text ℕ) (batches : List (Text × ValidatorBatch))
      → IsVisit visit
      → Distinct cids
      → get p (count_validators batches no_votes).votes ≡ some cids
      → or_zero (get d (visit cids)) ≡ all_ballots p d batches
  visited_votes p d cids batches law dist e =
      let known : or_zero (get d cids) ≡ all_ballots p d batches =
        rw e at (tallied_votes p d batches) in
      rw ((law cids dist).1 d) known

  chosen_majority :
      (total : ℕ) (p cid : Text) (cids : Map Text ℕ) (batches : List (Text × ValidatorBatch))
      → IsVisit visit
      → Distinct cids
      → get p (count_validators batches no_votes).votes ≡ some cids
      → chosen visit total (some cids) none ≡ some cid
      → (total ≤ 2 * all_ballots p cid batches)
        × ((d : Text) → all_ballots p d batches ≤ all_ballots p cid batches)
  chosen_majority total p cid cids batches law dist e h =
      let w = winner (visit cids) in
      let distinct : Distinct (visit cids) = (law cids dist).0 in
      elim (Bool-cases (leb total (2 * (winner (visit cids)).1))) [
        | inl enough ↦
            let won : some (winner (visit cids)).0 ≡ some cid = rw enough at h in
            let it : (winner (visit cids)).0 ≡ cid = ap or_nil won in
            let count : (winner (visit cids)).1 ≡ all_ballots p cid batches =
              sym (winner_count (visit cids) distinct)
              ∙ visited_votes p (winner (visit cids)).0 cids batches law dist e
              ∙ ap (λ (x : Text). all_ballots p x batches) it in
            (
              ground arith,
              λ d. omega (
                arith,
                (winner_most (visit cids) distinct).1 d,
                visited_votes p d cids batches law dist e,
              ),
            )
        | inr few ↦ let lost : none ≡ some cid = rw few at h in absurd (cc)
      ]

  -- The CID that an aggregation gives a project has at least half as many votes as there are
  -- validators, and no other CID of the project has more, in whatever order the maps are visited.
  pub selected_majority :
      (total : ℕ) (p cid : Text) (batches : List (Text × ValidatorBatch))
      → IsVisit visit
      → IsVisit visit_projects
      → get p (selected total batches) ≡ some cid
      → (total ≤ 2 * all_ballots p cid batches)
        × ((d : Text) → all_ballots p d batches ≤ all_ballots p cid batches)
  selected_majority total p cid batches law law_projects h =
      given (get p (count_validators batches no_votes).votes) refl
        (sym (selected-get total p batches law_projects) ∙ h)
    where
      given :
          (o : Option (Map Text ℕ))
          → get p (count_validators batches no_votes).votes ≡ o
          → chosen visit total (get p (count_validators batches no_votes).votes) none ≡ some cid
          → (total ≤ 2 * all_ballots p cid batches)
            × ((d : Text) → all_ballots p d batches ≤ all_ballots p cid batches)
      given none e c = let lost : none ≡ some cid = rw e at c in absurd (cc)
      given (some cids) e c =
          chosen_majority total p cid cids batches law ((tallied-IsProper batches).1 p cids e) e
            (rw e at c)

  -- A CID with the votes of half of the validators and more votes than every other of its project is
  -- the one that is selected, in whatever order the maps are visited.
  pub selected_leader :
      (total : ℕ) (p cid : Text) (batches : List (Text × ValidatorBatch))
      → IsVisit visit
      → IsVisit visit_projects
      → 0 < total
      → total ≤ 2 * all_ballots p cid batches
      → ((d : Text) → d ≢ cid → all_ballots p d batches < all_ballots p cid batches)
      → get p (selected total batches) ≡ some cid
  unfolding get
  selected_leader total p cid batches law law_projects some_total half most =
      given (get p (count_validators batches no_votes).votes) refl
    where
      counted :
          (cids : Map Text ℕ) (o : Option ℕ)
          → Distinct (visit cids)
          → get cid (visit cids) ≡ o
          → or_zero o ≡ all_ballots p cid batches
          → ((d : Text) → or_zero (get d (visit cids)) ≡ all_ballots p d batches)
          → chosen visit total (some cids) none ≡ some cid
      counted cids none dist g n each = absurd (omega arith)
      counted cids (some n) dist g count each =
          let won : winner (visit cids) ≡ (cid, n) =
            winner_strict (visit cids) cid n dist g (omega arith)
              (λ j other. omega (arith, most j other, each j)) in
          let enough : leb total (2 * n) ≡ true = ground arith in rw (won, enough) refl

      given :
          (o : Option (Map Text ℕ))
          → get p (count_validators batches no_votes).votes ≡ o
          → get p (selected total batches) ≡ some cid
      given none e =
          let no_ballot : 0 ≡ all_ballots p cid batches = rw e at (tallied_votes p cid batches) in
          absurd (omega arith)
      given (some cids) e =
          let dist = (tallied-IsProper batches).1 p cids e in
          rw (selected-get total p batches law_projects, e)
            (counted cids (get cid (visit cids)) (law cids dist).0 refl
              (visited_votes p cid cids batches law dist e)
              (λ d. visited_votes p d cids batches law dist e))
