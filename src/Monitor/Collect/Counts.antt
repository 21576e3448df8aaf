-- ===== src/Monitor/Collect/Counts.antt =====
-- What the votes and the submitters collected for a project are.
use snapshot_sequencer_valid.Base.{
  ap, ◌⊎◌, ◌<◌, has-put, has, ℕ, ◌+◌, Text, text_eq, text_eqb_iff, is_empty, Option, none, some,
  List, [], ◌∷◌, map, Map, get, get-put, length, length-append, Bool, true, false, if◌then◌else◌,
  count_if, ◌≡◌, refl, arith, ◌&&◌, ◌==◌, inl, inr, Bool-cases, not,
}
use snapshot_sequencer_valid.Votes.{Votes, or_zero, or_nil, add_vote, votes_of, votes_of-add_vote}
use snapshot_sequencer_valid.Json.{Json, ◌>>=◌}
use snapshot_sequencer_valid.Monitor.Collect.{
  nothing, Reading, read, Votes, Collected, SubmitterEntry, ProjectSubmissions, or_zero, or_nil,
  add_vote, note_submitter, tally, collect_from, collect_epoch_submissions,
}

-- The submitters of a project.
abbrev pub submitters_of : Text → Map Text (List SubmitterEntry) → ℕ
submitters_of p metadata = length (or_nil (get p metadata))

-- The record names the project and the CID.
abbrev reads : Text → Text → Option Reading → Bool
reads p cid none = false
reads p cid (some r) = (r.project == p) && (r.cid == cid)

-- The record names the project, a CID and a submitter.
abbrev reads_signed : Text → Option Reading → Bool
reads_signed p none = false
reads_signed p (some r) = (r.project == p) && not (is_empty r.submitter)

abbrev pub votes_for : Text → Text → Option Json → Bool
votes_for p cid j = reads p cid (j >>= read)

abbrev pub signed_for : Text → Option Json → Bool
signed_for p j = reads_signed p (j >>= read)

submitters_of-note :
    (now : ℕ) (r : Reading) (q : Text) (m : Map Text (List SubmitterEntry))
    → submitters_of q (note_submitter now r m)
      ≡ (if r.project == q then 1 else 0) + submitters_of q m
unfolding note_submitter
submitters_of-note now r q m = elim (Bool-cases (r.project == q)) [
  | inl same ↦
      let e : r.project ≡ q = (text_eqb_iff r.project q).0 same in
      rw (get-put, same, ← e) (omega (arith, length-append {0}))
  | inr other ↦ rw (get-put, other) (ground arith)
]

votes_of-tally :
    (now : ℕ) (p cid : Text) (o : Option Reading) (c : Collected)
    → votes_of p cid (tally now o c).project_votes
      ≡ (if reads p cid o then 1 else 0) + votes_of p cid c.project_votes
unfolding tally
votes_of-tally now p cid none c = omega arith
votes_of-tally now p cid (some r) c = votes_of-add_vote r.project r.cid p cid c.project_votes

submitters_of-tally :
    (now : ℕ) (p : Text) (o : Option Reading) (c : Collected)
    → submitters_of p (tally now o c).submission_metadata
      ≡ (if reads_signed p o then 1 else 0) + submitters_of p c.submission_metadata
unfolding tally
submitters_of-tally now p none c = omega arith
submitters_of-tally now p (some r) c = elim (Bool-cases (is_empty r.submitter)) [
  | inl nobody ↦ ground arith
  | inr somebody ↦ ground (arith, submitters_of-note now r p c.submission_metadata)
]

votes_of-collect :
    (now : ℕ) (p cid : Text) (js : List (Option Json)) (c : Collected)
    → votes_of p cid (collect_from now js c).project_votes
      ≡ count_if (votes_for p cid) js + votes_of p cid c.project_votes
unfolding collect_from
votes_of-collect now p cid [] c = omega arith
votes_of-collect now p cid (j ∷ js) c =
    let o = j >>= read in
    omega (arith, votes_of-collect now p cid js (tally now o c), votes_of-tally now p cid o c)

submitters_of-collect :
    (now : ℕ) (p : Text) (js : List (Option Json)) (c : Collected)
    → submitters_of p (collect_from now js c).submission_metadata
      ≡ count_if (signed_for p) js + submitters_of p c.submission_metadata
unfolding collect_from
submitters_of-collect now p [] c = omega arith
submitters_of-collect now p (j ∷ js) c =
    let o = j >>= read in
    omega (arith, submitters_of-collect now p js (tally now o c), submitters_of-tally now p o c)

abbrev summary_of : Collected → Text × Map Text ℕ → Text × ProjectSubmissions
summary_of c e = (
  e.0,
  record {
    cid_votes = e.1;
    total_submissions = length e.1;
    submission_metadata = or_nil (get e.0 c.submission_metadata);
  },
)

-- What the collected data says of a project that it does not hold.
abbrev pub none_collected : ProjectSubmissions
none_collected = record { cid_votes = []; total_submissions = 0; submission_metadata = [] }

abbrev pub project_of : Text → List (Text × ProjectSubmissions) → ProjectSubmissions
project_of p l = elim (get p l) [ none ↦ none_collected | some s ↦ s ]

get-map_summary :
    (c : Collected) (p : Text) (votes : Votes)
    → (project_of p (map (summary_of c) votes)).cid_votes ≡ or_nil (get p votes)
unfolding get
get-map_summary c p [] = refl
get-map_summary c p ((q, m) ∷ votes) = ground (arith, get-map_summary c p votes)

get-map_submitters :
    (c : Collected) (p : Text) (votes : Votes)
    → length (project_of p (map (summary_of c) votes)).submission_metadata
      ≡ (if has p votes then submitters_of p c.submission_metadata else 0)
unfolding get has
get-map_submitters c p [] = refl
get-map_submitters c p ((q, m) ∷ votes) = elim (Bool-cases (q == p)) [
  | inl same ↦
      let e : q ≡ p = (text_eqb_iff q p).0 same in
      ground (arith, ap (λ (k : Text). submitters_of k c.submission_metadata) e)
  | inr other ↦ ground (arith, get-map_submitters c p votes)
]

abbrev names_project : Text → Option Reading → Bool
names_project p none = false
names_project p (some r) = r.project == p

-- A record that names a submitter lists its project; `n` counts such records among those to come.
has-tally :
    (now : ℕ) (p : Text) (o : Option Reading) (c : Collected) (n : ℕ)
    → (has p c.project_votes ≡ true) ⊎ (0 < (if reads_signed p o then 1 else 0) + n)
    → (has p (tally now o c).project_votes ≡ true) ⊎ (0 < n)
unfolding tally add_vote
has-tally now p none c n (inl h) = inl h
has-tally now p none c n (inr h) = inr (omega arith)
has-tally now p (some r) c n h = elim (Bool-cases (r.project == p)) [
  | inl same ↦ inl (rw (has-put, same))
  | inr other ↦ rw (has-put, other) (ground arith)
]

has-collect :
    (now : ℕ) (p : Text) (js : List (Option Json)) (c : Collected)
    → (has p c.project_votes ≡ true) ⊎ (0 < count_if (signed_for p) js)
    → has p (collect_from now js c).project_votes ≡ true
unfolding collect_from
has-collect now p [] c (inl h) = h
has-collect now p [] c (inr h) = absurd (omega arith)
has-collect now p (j ∷ js) c h =
    has-collect now p js (tally now (j >>= read) c)
      (has-tally now p (j >>= read) c (count_if (signed_for p) js) h)

-- For every project and CID the votes are the records that name the two, a record without a submitter
-- included; the submitters listed are as many as the records of the project that name one.
pub collect_counts :
    (now : ℕ) (p cid : Text) (js : List (Option Json))
    → (or_zero (get cid (project_of p (collect_epoch_submissions now (some js))).cid_votes)
        ≡ count_if (votes_for p cid) js)
      × (length (project_of p (collect_epoch_submissions now (some js))).submission_metadata
          ≡ count_if (signed_for p) js)
unfolding collect_epoch_submissions
collect_counts now p cid js =
    let c = collect_from now js nothing in
    let listed = λ (h : 0 < count_if (signed_for p) js). has-collect now p js nothing (inr h) in
    (
      rw (get-map_summary c p c.project_votes)
          (omega (arith, votes_of-collect now p cid js nothing)),
      rw (get-map_submitters c p c.project_votes)
          (ground (arith, submitters_of-collect now p js nothing, listed)),
    )
