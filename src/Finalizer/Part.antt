-- ===== src/Finalizer/Part.antt =====
-- `processBatchPart` of cmd/unified/main.go: the choice of a CID for each project of a part, and what
-- is stored. The projects come in the order in which `range` visits them; `visit` is the order of the
-- visit of a project's CIDs. A vote is a float64, which is converted to int.
pub mod Winners
pub mod Whole
use snapshot_sequencer_valid.Base.{
  take, ◌||◌, ltb, false, ℕ, ◌*◌, Text, text_eq, bytes, decimal, is_empty, Bool, Option, none, some,
  List, [], ◌∷◌, ◌++◌, Map, get, put, map, length, if◌then◌else◌, ℤ, pos, pos_part, ◌+ℤ◌,
}
use snapshot_sequencer_valid.Json.{Json, as_map, as_int, as_array, member, ◌>>=◌}
use snapshot_sequencer_valid.Votes.{or_nil, winner}
use snapshot_sequencer_valid.Redis.Join.{join}
use snapshot_sequencer_valid.Redis.Command.{Command, set, expire, zadd, hincrby, publish, incr}
use snapshot_sequencer_valid.Redis.Keys.{KeyBuilder, batch_part, epoch_parts_completed}
use snapshot_sequencer_valid.Workers.{Payload, track_batch_part, update_batch_parts_progress}
use snapshot_sequencer_valid.Workers as Workers

pub record ProjectResult : Type 0 where
  pub cid : Text
  pub votes : ℕ
  pub total_votes : ℤ
  pub unique_cids : ℕ
  pub submission_metadata : Option (List Json)

-- The votes that are numbers, converted to int.
unfoldable pub counted : List (Text × Json) → Map Text ℤ
unfolding put
counted [] = []
counted ((cid, n) ∷ rest) =
    let others = counted rest in
    elim (as_int n) [ none ↦ others | some votes ↦ put cid votes others ]

-- The sum of the votes, where it fits an int64.
unfoldable pub total_of : List (Text × ℤ) → ℤ
total_of [] = pos 0
total_of ((_, n) ∷ rest) = n +ℤ total_of rest

-- A count that is not positive never exceeds the largest so far, which starts at 0.
unfoldable pub positive : List (Text × ℤ) → List (Text × ℕ)
positive [] = []
positive ((cid, n) ∷ rest) = (cid, pos_part n) ∷ positive rest

module _ (visit : Map Text ℤ → Map Text ℤ) where
  -- The result for a project with these votes, where a CID wins.
  unfoldable pub result_of : Map Text ℤ → Option (List Json) → Option ProjectResult
  unfolding winner positive total_of
  result_of votes metadata =
      let (cid, most) = winner (positive (visit votes)) in
      if is_empty cid
      then none
      else some (record {
        cid = cid;
        votes = most;
        total_votes = total_of (visit votes);
        unique_cids = length votes;
        submission_metadata = metadata;
      })

  -- The body of the loop: a project without a map of votes is passed over.
  unfoldable pub project_result : Json → Option ProjectResult
  unfolding get member counted result_of
  project_result submission = do
    project ← as_map submission
    votes ← member as_map (bytes "cid_votes") project
    result_of (counted votes) (member as_array (bytes "submission_metadata") project)

  unfoldable pub part_results : List (Text × Json) → Map Text ProjectResult → Map Text ProjectResult
  unfolding put project_result
  part_results [] results = results
  part_results ((project, submission) ∷ rest) results =
      part_results rest
        (elim (project_result submission) [ none ↦ results | some r ↦ put project r results ])

pub data PartPayload : Type 0 where
  results : Map Text ProjectResult → PartPayload
  -- the epoch, the part, the number of parts and of projects, the finalizer and the time
  part_info : ℕ → ℕ → ℕ → ℕ → Text → ℕ → PartPayload

-- A command of the part itself, or one of the tracking of the worker.
pub data Sent : Type 0 where
  own : Command PartPayload → Sent
  tracked : Command Payload → Sent

pub record Finalizer : Type 0 where
  pub key_builder : KeyBuilder
  -- of ProtocolStateContract and the first of DataMarketAddresses, where there is one; processBatchPart panics
  -- without
  pub progress_builder : KeyBuilder
  pub sequencer_id : Text

abbrev pub part_id : ℕ → ℕ → Text
unfolding join decimal
part_id epoch part = join (decimal epoch ∷ decimal part ∷ [])

-- The metrics of a part.
unfoldable pub part_metrics : Finalizer → ℕ → ℕ → ℕ → ℕ → ℕ → List (Command PartPayload)
unfolding join decimal
part_metrics f now epoch part total projects =
    let parts_key = join (bytes "metrics" ∷ bytes "epoch" ∷ decimal epoch ∷ bytes "parts" ∷ []) in
    hincrby parts_key (bytes "count") 1
    ∷ expire parts_key 7200
    ∷ set (join (bytes "metrics" ∷ bytes "part" ∷ part_id epoch part ∷ []))
        (part_info epoch part total projects f.sequencer_id now) 3600
    ∷ zadd (bytes "metrics:parts:timeline") now (part_id epoch part)
    ∷ publish (bytes "state:change")
        (join (bytes "part" ∷ bytes "created" ∷ part_id epoch part ∷ []))
    ∷ []

-- How a part ends: done, with the error of a refused Set, or by a run-time panic.
pub data Ended : Type 0 where
  done refused panicked : Ended

abbrev short_cid : List (Text × ProjectResult) → Bool
short_cid [] = false
short_cid ((_, r) ∷ rest) = ltb (length r.cid) 16 || short_cid rest

-- The first three CIDs are printed with 16 bytes each.
unfoldable pub prints_short_cid : List (Text × ProjectResult) → Bool
prints_short_cid visited = short_cid (take 3 visited)

module _ (visit : Map Text ℤ → Map Text ℤ)
    (visit_results : Map Text ProjectResult → Map Text ProjectResult) (accepts : Text → Bool)
    (now : ℕ) where
  -- What is sent before and with the Set of the results.
  unfoldable pub begun : Finalizer → ℕ → ℕ → Map Text ProjectResult → List Sent
  unfolding decimal track_batch_part
  begun f epoch part r =
      map tracked (track_batch_part accepts (decimal epoch) part (bytes "processing"))
      ++ own (set (batch_part f.key_builder (decimal epoch) part) (results r) 7200) ∷ []

  -- What follows. `completed` is what INCR answers, 0 where it fails.
  unfoldable pub completed_commands : Finalizer → ℕ → ℕ → ℕ → ℕ → ℕ → List Sent
  unfolding decimal track_batch_part part_metrics update_batch_parts_progress
  completed_commands f epoch part total completed projects =
      map tracked (track_batch_part accepts (decimal epoch) part (bytes "completed"))
      ++ (map own (part_metrics f now epoch part total projects)
          ++ (tracked (incr (epoch_parts_completed f.key_builder (decimal epoch)))
              ∷ map tracked (
                  update_batch_parts_progress f.progress_builder now (decimal epoch) completed
                    total)))

  unfoldable pub process_batch_part :
      Finalizer → ℕ → ℕ → ℕ → ℕ → List (Text × Json) → Ended × List Sent
  unfolding part_results begun completed_commands prints_short_cid
  process_batch_part f epoch part total completed projects =
      let r = part_results visit projects [] in
      if accepts (batch_part f.key_builder (decimal epoch) part)
      then (
        (if prints_short_cid (visit_results r) then panicked else done),
        begun f epoch part r ++ completed_commands f epoch part total completed (length projects),
      )
      else (refused, begun f epoch part r)
