-- ===== src/Submissions/Cleanup.antt =====
-- `cleanupOldSubmissions` of pkgs/submissions/dequeuer.go: the exchange sort by processing time, and
-- the deletion of the oldest entries. `visit` is the order in which `range` goes through the map.
pub mod Order
pub mod Effect
pub mod Recent
use snapshot_sequencer_valid.Base.{
  ℕ, zero, suc, ◌-◌, Text, text_eq, Bool, List, [], ◌∷◌, map, Map, del, length, take, ltb, leb,
  if◌then◌else◌,
}
use snapshot_sequencer_valid.Submissions.Types.{ProcessedSubmission}

pub record SubmissionEntry : Type 0 where
  pub id : Text
  pub time : ℕ

pub entry_of : Text × ProcessedSubmission → SubmissionEntry
entry_of (k, sub) = record { id = k; time = sub.processed_at }

-- The inner loop for one `i`: the element at `i` is `x`, those after it are the list.
unfoldable pub sort_pass :
    SubmissionEntry → List SubmissionEntry → SubmissionEntry × List SubmissionEntry
sort_pass x [] = (x, [])
sort_pass x (y ∷ ys) =
    let (least, rest) = sort_pass (if ltb y.time x.time then y else x) ys in
    (least, (if ltb y.time x.time then x else y) ∷ rest)

-- The outer loop, `n` rounds left.
unfoldable pub sort_rounds : ℕ → List SubmissionEntry → List SubmissionEntry
unfolding sort_pass
sort_rounds zero xs = xs
sort_rounds (suc n) [] = []
sort_rounds (suc n) (x ∷ xs) = let (least, rest) = sort_pass x xs in least ∷ sort_rounds n rest

unfoldable pub delete_all {ℓ} : {V : Type ℓ} → List SubmissionEntry → Map Text V → Map Text V
unfolding del
delete_all [] m = m
delete_all (x ∷ xs) m = delete_all xs (del x.id m)

module _ (visit : List (Text × ProcessedSubmission) → List (Text × ProcessedSubmission)) where
  -- The entries, oldest first.
  unfoldable pub sorted_entries : Map Text ProcessedSubmission → List SubmissionEntry
  unfolding entry_of sort_rounds
  sorted_entries m =
      let entries = map entry_of (visit m) in sort_rounds (length entries - 1) entries

  unfoldable pub cleanup_old_submissions :
      Map Text ProcessedSubmission → Map Text ProcessedSubmission
  cleanup_old_submissions m =
      let entries = sorted_entries m in
      if leb (length m) 500 then m else delete_all (take (length entries - 500) entries) m
