-- ===== src/Consensus/Signatures/Groups.antt =====
-- Which batches agree when a consensus is reached.
use snapshot_sequencer_valid.Base.{
  beq_self, ◌⊎◌, ℕ, ◌≤◌, Text, text_eq, text_eqb_iff, true, false, some, List, [], ◌∷◌, ◌++◌, Map,
  get, put, get-put, has, has-of-get, length, leb, if◌then◌else◌, ◌==◌, ◌≡◌, refl, sym, ap, ◌∙◌,
  arith, Bool-cases, inl, inr, Distinct, put-Distinct,
}
use snapshot_sequencer_valid.Votes.{or_nil}
use snapshot_sequencer_valid.Consensus.Types.{FinalizedBatch}
use snapshot_sequencer_valid.Consensus.Visit.{IsVisit}
use snapshot_sequencer_valid.Consensus.Signatures.{
  Visits, root_of, group_votes, first_group, agreeing_batches,
}

-- The votes with the root, in the order of the visit.
abbrev pub with_root : Text → List (Text × FinalizedBatch) → List FinalizedBatch
with_root k [] = []
with_root k ((_, b) ∷ bs) = (if root_of b == k then b ∷ [] else []) ++ with_root k bs

assoc : (xs ys zs : List FinalizedBatch) → (xs ++ ys) ++ zs ≡ xs ++ (ys ++ zs)
assoc [] ys zs = refl
assoc (x ∷ xs) ys zs = ap (◌∷◌ x) (assoc xs ys zs)

right_nil : (xs : List FinalizedBatch) → xs ++ [] ≡ xs
right_nil [] = refl
right_nil (x ∷ xs) = ap (◌∷◌ x) (right_nil xs)

group_votes-get :
    (k : Text) (bs : List (Text × FinalizedBatch)) (groups : Map Text (List FinalizedBatch))
    → or_nil (get k (group_votes bs groups)) ≡ or_nil (get k groups) ++ with_root k bs
unfolding group_votes
group_votes-get k [] groups = sym (right_nil (or_nil (get k groups)))
group_votes-get k ((s, b) ∷ bs) groups =
    group_votes-get k bs (put (root_of b) (or_nil (get (root_of b) groups) ++ b ∷ []) groups)
    ∙ elim (Bool-cases (root_of b == k)) [
      | inl same ↦
          let e : root_of b ≡ k = (text_eqb_iff (root_of b) k).0 same in
          rw (get-put, same, e, assoc (or_nil (get k groups)) (b ∷ []) (with_root k bs)) refl
      | inr other ↦ rw (get-put, other) refl
    ]

group_votes-Distinct :
    (bs : List (Text × FinalizedBatch)) (groups : Map Text (List FinalizedBatch))
    → Distinct groups
    → Distinct (group_votes bs groups)
unfolding group_votes
group_votes-Distinct [] groups d = d
group_votes-Distinct ((s, b) ∷ bs) groups d =
    group_votes-Distinct bs (put (root_of b) (or_nil (get (root_of b) groups) ++ b ∷ []) groups)
      (put-Distinct (root_of b) (or_nil (get (root_of b) groups) ++ b ∷ []) groups d)

-- The group that is found stands under a key of the map, and has the votes required.
first_group-some :
    (required : ℕ) (groups : Map Text (List FinalizedBatch)) (bs : List FinalizedBatch)
    → Distinct groups
    → first_group required groups ≡ some bs
    → (k : Text) × (get k groups ≡ some bs) × (required ≤ length bs)
unfolding first_group get
first_group-some required [] bs d h = cc
first_group-some required ((j, c) ∷ rest) bs d h = elim (Bool-cases (leb required (length c))) [
  | inl enough ↦
      let e : some c ≡ some bs = rw enough at h in
      let same : c ≡ bs = ap or_nil e in (j, rw (beq_self j) e, rw (← same) (ground arith))
  | inr few ↦
      let (k, here, large) = first_group-some required rest bs d.1 (rw few at h) in
      (k, later k here (Bool-cases (j == k)), large)
]
  where
    later :
        (k : Text)
        → get k rest ≡ some bs
        → ((j == k) ≡ true) ⊎ ((j == k) ≡ false)
        → get k ((j, c) ∷ rest) ≡ some bs
    later k here (inl same) =
        let e : j ≡ k = (text_eqb_iff j k).0 same in
        let absent : has k rest ≡ false = rw e at d.0 in absurd (cc (has-of-get k rest bs here))
    later k here (inr other) = rw other here

-- Where a consensus is reached, the agreeing batches are all the votes with one Merkle root, in the
-- order of the visit, and are as many as the threshold requires of all votes, in whatever order the
-- votes and the groups are visited.
pub agreeing_batches-some :
    (required : ℕ → ℕ) (v : Visits) (votes : Map Text FinalizedBatch) (bs : List FinalizedBatch)
    → IsVisit v.groups
    → agreeing_batches required v votes ≡ some bs
    → (root : Text) × (bs ≡ with_root root (v.votes votes)) × (required (length votes) ≤ length bs)
unfolding agreeing_batches get
agreeing_batches-some required v votes bs law h =
    let groups = group_votes (v.votes votes) [] in
    let (distinct, same) = law groups (group_votes-Distinct (v.votes votes) [] tt) in
    let (k, here, enough) =
      first_group-some (required (length votes)) (v.groups groups) bs distinct h in
    (k, sym (ap or_nil here) ∙ ap or_nil (same k) ∙ group_votes-get k (v.votes votes) [], enough)
