-- ===== src/Votes.antt =====
-- Votes of a project for CIDs, as the event monitor and the consensus count them, and the choice of
-- the CID with the most votes.
pub mod Winner
use snapshot_sequencer_valid.Base.{
  ℕ, ◌+◌, Text, text_eq, text_eqb_iff, Option, none, some, List, [], ◌∷◌, Map, get, put, get-put,
  ◌≡◌, refl, arith, ◌&&◌, ◌==◌, Bool-cases, inl, inr, if◌then◌else◌, ltb,
}

abbrev pub Votes : Type 0
Votes = Map Text (Map Text ℕ)

abbrev pub or_zero : Option ℕ → ℕ
or_zero none = 0
or_zero (some n) = n

abbrev pub or_nil {ℓ} : {A : Type ℓ} → Option (List A) → List A
or_nil none = []
or_nil (some l) = l

-- projectVotes[project][cid]++, the inner map made where it is nil
unfoldable pub add_vote : Text → Text → Votes → Votes
unfolding get put
add_vote project cid votes =
    let cids = or_nil (get project votes) in
    put project (put cid (or_zero (get cid cids) + 1) cids) votes

abbrev pub votes_of : Text → Text → Votes → ℕ
votes_of p cid votes = or_zero (get cid (or_nil (get p votes)))

-- m[k]++
pub increment :
    (k j : Text) (m : Map Text ℕ)
    → or_zero (get j (put k (or_zero (get k m) + 1) m))
      ≡ (if k == j then 1 else 0) + or_zero (get j m)
increment k j m = elim (Bool-cases (k == j)) [
  | inl same ↦ let e : k ≡ j = (text_eqb_iff k j).0 same in rw (get-put, same, ← e) (omega arith)
  | inr other ↦ rw (get-put, other) (omega arith)
]

pub votes_of-add_vote :
    (p cid q d : Text) (votes : Votes)
    → votes_of q d (add_vote p cid votes)
      ≡ (if (p == q) && (cid == d) then 1 else 0) + votes_of q d votes
unfolding add_vote
votes_of-add_vote p cid q d votes = elim (Bool-cases (p == q)) [
  | inl same ↦
      let e : p ≡ q = (text_eqb_iff p q).0 same in
      rw (get-put, same, increment cid d (or_nil (get p votes)), e) refl
  | inr other ↦ rw (get-put, other) (ground arith)
]

-- The loop that keeps the CID with the most votes so far, and their number.
unfoldable pub winner_from : Text → ℕ → List (Text × ℕ) → Text × ℕ
winner_from best most [] = (best, most)
winner_from best most ((cid, n) ∷ rest) =
    winner_from (if ltb most n then cid else best) (if ltb most n then n else most) rest

-- From no CID and no vote, in the order in which the map is visited.
unfoldable pub winner : List (Text × ℕ) → Text × ℕ
unfolding winner_from
winner = winner_from [] 0
