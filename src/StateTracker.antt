-- ===== src/StateTracker.antt =====
-- cmd/state-tracker/worker.go: the counters of `StateWorker`, and what it prunes. A sorted set of Redis is
-- the list of its scores and members; of the counters of Prometheus nothing is kept.
pub mod Periods
pub mod Datasets
pub mod Epochs
pub mod Remaining
pub mod Participation
pub mod Tests
use snapshot_sequencer_valid.Base.{
  ℕ, ◌+◌, ◌-◌, ◌*◌, Text, text_eq, bytes, Bool, true, false, Option, none, some, List, [], ◌∷◌,
  ◌++◌, length, ltb, leb, if◌then◌else◌, ◌==◌,
}
use snapshot_sequencer_valid.Redis.Join.{split}

pub record StateWorker : Type 0 where
  pub submissions : ℕ
  pub validations : ℕ
  pub epochs : ℕ
  pub batches : ℕ
  pub last_reset : ℕ

unfoldable pub new_state_worker : ℕ → StateWorker
new_state_worker now = record {
  submissions = 0;
  validations = 0;
  epochs = 0;
  batches = 0;
  last_reset = now;
}

unfoldable pub process_simple_state_change : Text → Text → StateWorker → StateWorker
process_simple_state_change event_type action sw =
    if event_type == bytes "submission"
    then record sw { submissions = sw.submissions + 1 }
    else if event_type == bytes "validation"
    then record sw { validations = sw.validations + 1 }
    else if event_type == bytes "epoch"
    then if action == bytes "open" then record sw { epochs = sw.epochs + 1 } else sw
    else if event_type == bytes "batch"
    then record sw { batches = sw.batches + 1 }
    else sw

-- processStateChange, of the older events.
unfoldable pub process_state_change : Text → StateWorker → StateWorker
process_state_change event_type sw =
    if event_type == bytes "submission"
    then record sw { submissions = sw.submissions + 1 }
    else if event_type == bytes "validation"
    then record sw { validations = sw.validations + 1 }
    else if event_type == bytes "epoch"
    then record sw { epochs = sw.epochs + 1 }
    else if event_type == bytes "batch"
    then record sw { batches = sw.batches + 1 }
    else sw

on_parts : List Text → StateWorker → StateWorker
unfolding process_simple_state_change
on_parts (event_type ∷ action ∷ _) sw = process_simple_state_change event_type action sw
on_parts _ sw = sw

-- A message of the channel "state:change".
unfoldable pub on_state_change : Text → StateWorker → StateWorker
unfolding on_parts split
on_state_change payload sw = on_parts (split payload) sw

unfoldable pub listen : List Text → StateWorker → StateWorker
unfolding on_state_change
listen [] sw = sw
listen (payload ∷ payloads) sw = listen payloads (on_state_change payload sw)

abbrev pub day : ℕ
day = 24 * 3600

abbrev pub SortedSet : Type 0
SortedSet = List (ℕ × Text)

-- ZREMRANGEBYSCORE key -inf cutoff.
unfoldable pub remove_until : ℕ → SortedSet → SortedSet
remove_until cutoff [] = []
remove_until cutoff ((score, member) ∷ rest) =
    let kept = remove_until cutoff rest in if leb score cutoff then kept else (score, member) ∷ kept

-- The two timelines that are pruned.
pub record Timelines : Type 0 where
  pub epochs : SortedSet
  pub batches : SortedSet

-- pruneOldData, where Redis answers.
unfoldable pub prune_old_data : ℕ → Timelines × StateWorker → Timelines × StateWorker
unfolding remove_until
prune_old_data now (t, sw) = (
  record {
    epochs = remove_until (now - day) t.epochs;
    batches = remove_until (now - day) t.batches;
  },
  if ltb day (now - sw.last_reset)
      then record { submissions = 0; validations = 0; epochs = 0; batches = 0; last_reset = now }
      else sw,
)
