-- ===== src/Finalizer/Worker.antt =====
-- `runFinalizationWorker` and `parseEpochID` of cmd/unified/main.go: what a worker does with a message of
-- the finalization queue. `object` is what json.Unmarshal makes of it as a map, if it can.
use snapshot_sequencer_valid.Base.{
  ◌^◌, ℕ, Text, text_eq, bytes, decimal, Option, none, some, List, [], ◌++◌, Map, get, map, ℤ, pos,
  negsuc, Bool, true, false, ltb, if◌then◌else◌,
}
use snapshot_sequencer_valid.Json.{Json, num, real, str, as_map, member}
use snapshot_sequencer_valid.Votes.{or_zero}
use snapshot_sequencer_valid.Workers.{
  WorkerMonitor, processing_started, processing_completed, processing_failed, cleanup_worker,
}
use snapshot_sequencer_valid.Finalizer.Part.{
  Finalizer, ProjectResult, Ended, done, refused, panicked, Sent, tracked, process_batch_part,
}

-- A float64, where it is finite by the largest integer that does not exceed it.
pub data Float : Type 0 where
  finite : ℤ → Float
  infinite : Bool → Float
  not_a_number : Float

-- strconv.ParseUint and strconv.ParseFloat, the conversion to uint64, and "%.0f".
pub record Numbers : Type 0 where
  pub parse_uint : Text → Option ℕ
  pub parse_float : Text → Option Float
  pub to_uint64 : Float → ℕ
  pub print_float : Json → Text

-- Below 0, or above the float64 nearest to the largest uint64, which is 2 ^ 64.
abbrev pub out_of_range : Float → Bool
out_of_range (finite (pos n)) = ltb (2 ^ 64) n
out_of_range (finite (negsuc n)) = true
out_of_range (infinite _) = true
out_of_range not_a_number = false

unfoldable pub parse_epoch_id : Numbers → Text → Option ℕ
parse_epoch_id c s = elim (c.parse_uint s) [
  | some n ↦ some n
  | none ↦ elim (c.parse_float s) [
    | none ↦ none
    | some v ↦ if out_of_range v then none else some (c.to_uint64 v)
  ]
]

-- The epoch's text: a string, or a number as it is printed.
epoch_text : Numbers → Option Json → Option Text
epoch_text c (some (str s)) = some s
epoch_text c (some (num n)) = some (c.print_float (num n))
epoch_text c (some (real z)) = some (c.print_float (real z))
epoch_text c _ = none

-- How the worker ends with a message. `not_followed` is one with a number of a part or of the parts that is
-- negative or not whole, which the event monitor does not write.
pub data Handled : Type 0 where
  skipped processed failed stopped not_followed : Handled

unfoldable pub batch_info : ℕ → ℕ → ℕ → Text
unfolding decimal
batch_info epoch part total =
    bytes "epoch:" ++ decimal epoch ++ bytes ":batch:" ++ decimal part ++ bytes "/" ++ decimal total

module _ (visit : Map Text ℤ → Map Text ℤ)
    (visit_results : Map Text ProjectResult → Map Text ProjectResult) (accepts : Text → Bool)
    (now : ℕ) (wm : WorkerMonitor) (c : Numbers) (error_text : Text) where
  -- The worker's status after the part; the deferred CleanupWorker runs also when the worker panics.
  unfoldable pub finish_message : Ended → Handled × List Sent
  unfolding processing_completed processing_failed cleanup_worker
  finish_message done = (processed, map tracked (processing_completed accepts now wm))
  finish_message refused = (failed, map tracked (processing_failed accepts now wm error_text))
  finish_message panicked = (stopped, map tracked (cleanup_worker accepts now wm))

  -- The message with its epoch and its two numbers.
  unfoldable pub work_on :
      Finalizer → ℕ → ℕ → ℕ → ℕ → Option (List (Text × Json)) → Handled × List Sent
  unfolding process_batch_part finish_message processing_started batch_info
  work_on f epoch part total completed none = (skipped, [])
  work_on f epoch part total completed (some projects) =
      let (e, sent) =
        process_batch_part visit visit_results accepts now f epoch part total completed projects in
      let (h, rest) = finish_message e in
      (
        h,
        map tracked (processing_started accepts now wm (batch_info epoch part total))
            ++ sent
            ++ rest,
      )

  -- `batchPart["batch_id"].(float64)` panics where it is no number.
  with_number : Option Json → (ℕ → Handled × List Sent) → Handled × List Sent
  unfolding finish_message
  with_number (some (num n)) k = k n
  with_number (some (real z)) k = (not_followed, [])
  with_number _ k = finish_message panicked

  with_epoch : Finalizer → ℕ → List (Text × Json) → Option Text → Handled × List Sent
  unfolding get parse_epoch_id with_number work_on member
  with_epoch f completed m none = (skipped, [])
  with_epoch f completed m (some epoch) = with_number (get (bytes "batch_id") m) (λ part.
      with_number (get (bytes "total_batches") m) (λ total.
        work_on f (or_zero (parse_epoch_id c epoch)) part total completed
          (member as_map (bytes "projects") m)))

  -- `completed` is what INCR answers for the part, 0 where it fails.
  unfoldable pub handle_message : Finalizer → ℕ → Option (List (Text × Json)) → Handled × List Sent
  unfolding get epoch_text with_epoch
  handle_message f completed none = (skipped, [])
  handle_message f completed (some m) =
      with_epoch f completed m (epoch_text c (get (bytes "epoch_id") m))
