-- ===== src/Sequencer/Messages/Processing.antt =====
-- What the messages do to the dequeuer.
use snapshot_sequencer_valid.Base.{ℕ, suc, Text, Option, none, some, List, [], ◌∷◌, ◌++◌, ◌≡◌, refl}
use snapshot_sequencer_valid.Redis.Command.{Command}
use snapshot_sequencer_valid.Submissions.Types.{SnapshotSubmission, ProcessedSubmission}
use snapshot_sequencer_valid.Submissions.Eip712.{Ethereum}
use snapshot_sequencer_valid.Submissions.Dequeuer.{Float64, Clock, Payload, Dequeuer}
use snapshot_sequencer_valid.Sequencer.Messages.{
  Taken, done, panicked, process_one, followed_by, process_batch,
}

module _ (f : Float64) (eth : Ethereum)
    (visit : List (Text × ProcessedSubmission) → List (Text × ProcessedSubmission))
    (clocks : ℕ → Clock) where
  -- The state that a message leaves.
  abbrev left : Taken × Option (Dequeuer f) × List (Command Payload) → Option (Dequeuer f)
  left (t, d, cs) = d

  abbrev pub stopped :
      Taken × Option (Dequeuer f) × List (Command Payload)
      → Taken × Option (Dequeuer f) × List (Command Payload)
  stopped (t, d, cs) = (panicked, d, cs)

  stopped-followed_by :
      (r : Taken × Option (Dequeuer f) × List (Command Payload))
      (k k' : Option (Dequeuer f) → Taken × Option (Dequeuer f) × List (Command Payload))
      → ((d : Option (Dequeuer f)) → k' d ≡ stopped (k d))
      → followed_by f eth visit clocks r k' ≡ stopped (followed_by f eth visit clocks r k)
  unfolding followed_by
  stopped-followed_by (panicked, d, cs) k k' h = refl
  stopped-followed_by (done, d, cs) k k' h = rw (h d) refl

  -- A null submission in a batch stops the worker by a run-time panic. The submissions before it are
  -- processed as those of a batch of their own, and the ones after it are not.
  pub null_submission_panics :
      (i : ℕ) (peer : Text) (before after : List (Option SnapshotSubmission))
      (d : Option (Dequeuer f))
      → process_batch f eth visit clocks i peer (before ++ none ∷ after) d
        ≡ stopped (process_batch f eth visit clocks i peer before d)
  unfolding process_batch
  null_submission_panics i peer [] after d = refl
  null_submission_panics i peer (none ∷ before) after d = refl
  null_submission_panics i peer (some s ∷ before) after d =
      stopped-followed_by (process_one f eth visit clocks i peer s d)
        (process_batch f eth visit clocks (suc i) peer before)
        (process_batch f eth visit clocks (suc i) peer (before ++ none ∷ after))
        (null_submission_panics (suc i) peer before after)
