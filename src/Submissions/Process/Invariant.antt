-- ===== src/Submissions/Process/Invariant.antt =====
-- The invariant of the dequeuer's state.
use snapshot_sequencer_valid.Base.{
  ◌+◌, ◌%◌, ◌^◌, ◌≤◌, Text, text_eq, Bool, Option, List, ◌≡◌, arith, Distinct, length, put, has,
  ltb, put-Distinct, Bool-cases, inl, inr, count_if, Map, true, false,
}
use snapshot_sequencer_valid.Submissions.Types.{
  SnapshotSubmission, MetaValue, Address, ProcessedSubmission, Outcome, ok, err, panic,
}
use snapshot_sequencer_valid.Submissions.Eip712.{Ethereum}
use snapshot_sequencer_valid.Submissions.Cleanup.Recent.{length-cleanup, cleanup-Distinct}
use snapshot_sequencer_valid.Submissions.Dequeuer.{
  Float64, Clock, DequeuerStats, Dequeuer, update_stats,
}
use snapshot_sequencer_valid.Submissions.Process.{
  cleanup_old_submissions, check, finish, process_submission, remember,
}

-- No submission is stored twice, at most 1000 are stored, and every processed submission is counted
-- as a success or a failure, in the arithmetic of uint64.
pub record IsValid {f : Float64} (d : Dequeuer f) : Type 0 where
  pub distinct : Distinct d.processed_submissions
  pub bounded : length d.processed_submissions ≤ 1000
  pub counted : (d.stats.successful_count + d.stats.failed_count) % 2 ^ 64 ≡ d.stats.total_processed

module _ (f : Float64) where
  update_stats-counted :
      (b : Bool) (clock : Clock) (s : DequeuerStats f)
      → (s.successful_count + s.failed_count) % 2 ^ 64 ≡ s.total_processed
      → ((update_stats f b clock s).successful_count + (update_stats f b clock s).failed_count)
          % 2 ^ 64
        ≡ (update_stats f b clock s).total_processed
  unfolding update_stats
  update_stats-counted true clock s h = omega arith
  update_stats-counted false clock s h = omega arith

module _ (f : Float64) (eth : Ethereum)
    (visit : List (Text × ProcessedSubmission) → List (Text × ProcessedSubmission))
    (visits : (p : Text × ProcessedSubmission → Bool) (m : Map Text ProcessedSubmission)
      → count_if p (visit m) ≡ count_if p m) where
  remember-valid :
      (id : Text) (p : ProcessedSubmission) (m : Map Text ProcessedSubmission)
      → Distinct m
      → length m ≤ 1000
      → Distinct (remember f eth visit id p m) × (length (remember f eth visit id p m) ≤ 1000)
  unfolding remember
  remember-valid id p m d h =
      let d' = put-Distinct id p m d in
      elim (Bool-cases (ltb 1000 (length (put id p m)))) [
        | inl full ↦
            let left : length (cleanup_old_submissions visit (put id p m)) ≡ 500 =
              length-cleanup visit visits (put id p m) d' (ground arith) in
            rw full (cleanup-Distinct visit visits (put id p m) d', omega arith)
        | inr fits ↦ rw fits (d', ground arith)
      ]

  finish-IsValid :
      (o : Outcome Address) (d : Dequeuer f) (clock : Clock) (s : SnapshotSubmission) (id : Text)
      (meta : Option (List (Text × MetaValue)))
      → IsValid d
      → IsValid (finish f eth visit o d clock s id meta).1
  unfolding finish
  finish-IsValid panic d clock s id meta v = v
  finish-IsValid (err e) d clock s id meta v = record {
    distinct = v.distinct;
    bounded = v.bounded;
    counted = update_stats-counted f false clock d.stats v.counted;
  }
  finish-IsValid (ok a) d clock s id meta v =
      let stored = remember-valid id _ d.processed_submissions v.distinct v.bounded in
      record {
        distinct = stored.0;
        bounded = stored.1;
        counted = update_stats-counted f true clock d.stats v.counted;
      }

  -- Whatever the submission and the outcome, a call keeps the invariant: distinct identifiers, at most
  -- 1000 of them, and the counters in step.
  pub process_submission-IsValid :
      (d : Dequeuer f) (clock : Clock) (s : SnapshotSubmission) (id : Text)
      (meta : Option (List (Text × MetaValue)))
      → IsValid d
      → IsValid (process_submission f eth visit d clock s id meta).1
  unfolding process_submission
  process_submission-IsValid d clock s id meta v =
      elim (Bool-cases (has id d.processed_submissions)) [
        | inl known ↦ rw known v
        | inr fresh ↦ rw fresh (finish-IsValid (check f eth d s) d clock s id meta v)
      ]
