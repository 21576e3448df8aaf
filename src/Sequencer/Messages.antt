-- ===== src/Sequencer/Messages.antt =====
-- `runDequeuerWorker` of cmd/unified/main.go: what a worker does with a message of the submission queue.
-- What json.Unmarshal makes of a text, as a map, as a batch or as a submission, is an argument.
pub mod Processing
use snapshot_sequencer_valid.Base.{
  ℕ, suc, Text, text_eq, bytes, decimal, Option, none, some, List, [], ◌∷◌, ◌++◌, get,
}
use snapshot_sequencer_valid.Json.{Json, null, str}
use snapshot_sequencer_valid.Redis.Command.{Command}
use snapshot_sequencer_valid.Submissions.Types.{
  SnapshotRequest, SnapshotSubmission, ProcessedSubmission, MetaValue, text, Outcome, ok, err,
  panic,
}
use snapshot_sequencer_valid.Submissions.Eip712.{Ethereum}
use snapshot_sequencer_valid.Submissions.Dequeuer.{Float64, Clock, Payload, Dequeuer}
use snapshot_sequencer_valid.Submissions.Process.{process_submission}

-- The text and the peer's ID of a wrapped message, whose two fields are not null.
unfoldable pub unwrap_fields : Text → Option Json → Option Json → Text × Text
unwrap_fields raw none content = (raw, [])
unwrap_fields raw (some null) content = (raw, [])
unwrap_fields raw (some peer) none = (raw, [])
unwrap_fields raw (some peer) (some null) = (raw, [])
unwrap_fields raw (some (str peer)) (some (str content)) = (content, peer)
unwrap_fields raw (some (str peer)) (some content) = (raw, peer)
unwrap_fields raw (some peer) (some (str content)) = (content, [])
unwrap_fields raw (some peer) (some content) = (raw, [])

unfoldable pub unwrap : (Text → Option (List (Text × Json))) → Text → Text × Text
unfolding unwrap_fields get
unwrap as_object raw = elim (as_object raw) [
  | none ↦ (raw, [])
  | some m ↦ unwrap_fields raw (get (bytes "peer_id") m) (get (bytes "data") m)
]

-- fmt.Sprintf("%d-%s-%d-%s", …)
unfoldable pub submission_id : SnapshotRequest → Text
unfolding decimal
submission_id r =
    decimal r.epoch_id
    ++ bytes "-"
    ++ r.project_id
    ++ bytes "-"
    ++ decimal r.slot_id
    ++ bytes "-"
    ++ r.snapshot_cid

-- How the worker ends with a message: it goes on to the next, also where a submission has failed, or
-- stops by a run-time panic.
pub data Taken : Type 0 where
  done panicked : Taken

pub record Decoders : Type 0 where
  pub as_object : Text → Option (List (Text × Json))
  -- The submissions of a P2PSnapshotSubmission, where they are not null; each is a pointer.
  pub as_batch : Text → Option (Option (List (Option SnapshotSubmission)))
  pub as_submission : Text → Option SnapshotSubmission

module _ (f : Float64) (eth : Ethereum)
    (visit : List (Text × ProcessedSubmission) → List (Text × ProcessedSubmission))
    (clocks : ℕ → Clock) where
  ended : Outcome (Unit {0}) → Taken
  ended panic = panicked
  ended _ = done

  -- One submission, at the i-th reading of the clock.
  unfoldable pub process_one :
      ℕ
      → Text
      → SnapshotSubmission
      → Option (Dequeuer f)
      → Taken × Option (Dequeuer f) × List (Command Payload)
  unfolding submission_id process_submission ended
  process_one i peer s none = (done, none, [])
  process_one i peer s (some d) =
      let (o, d', commands) =
        process_submission f eth visit d (clocks i) s (submission_id s.request)
          (some ((bytes "peer_id", text peer) ∷ [])) in
      (ended o, some d', commands)

  -- The rest of a batch after a submission.
  unfoldable pub followed_by :
      Taken × Option (Dequeuer f) × List (Command Payload)
      → (Option (Dequeuer f) → Taken × Option (Dequeuer f) × List (Command Payload))
      → Taken × Option (Dequeuer f) × List (Command Payload)
  followed_by (panicked, d, commands) rest = (panicked, d, commands)
  followed_by (done, d, commands) rest = let (t, d', more) = rest d in (t, d', commands ++ more)

  -- The submissions of a batch in their order; a null one is dereferenced.
  unfoldable pub process_batch :
      ℕ
      → Text
      → List (Option SnapshotSubmission)
      → Option (Dequeuer f)
      → Taken × Option (Dequeuer f) × List (Command Payload)
  unfolding process_one followed_by
  process_batch i peer [] d = (done, d, [])
  process_batch i peer (none ∷ rest) d = (panicked, d, [])
  process_batch i peer (some s ∷ rest) d =
      followed_by (process_one i peer s d) (process_batch (suc i) peer rest)

  process_single :
      Text
      → Option SnapshotSubmission
      → Option (Dequeuer f)
      → Taken × Option (Dequeuer f) × List (Command Payload)
  unfolding process_one
  process_single peer none d = (done, d, [])
  process_single peer (some s) d = process_one 0 peer s d

  process_decoded :
      Text
      → Option (Option (List (Option SnapshotSubmission)))
      → Option SnapshotSubmission
      → Option (Dequeuer f)
      → Taken × Option (Dequeuer f) × List (Command Payload)
  unfolding process_batch process_single
  process_decoded peer (some (some batch)) single d = process_batch 0 peer batch d
  process_decoded peer (some none) single d = process_single peer single d
  process_decoded peer none single d = process_single peer single d

  -- A message that was popped from the queue.
  unfoldable pub process_message :
      Decoders → Text → Option (Dequeuer f) → Taken × Option (Dequeuer f) × List (Command Payload)
  unfolding unwrap process_decoded
  process_message c raw d =
      let (message, peer) = unwrap c.as_object raw in
      process_decoded peer (c.as_batch message) (c.as_submission message) d
