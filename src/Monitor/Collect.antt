-- ===== src/Monitor/Collect.antt =====
-- `collectEpochSubmissions` of pkgs/eventmonitor/monitor.go: the votes for the CIDs of a project, and
-- who submitted them. Redis answers with the texts of the processed submissions, in some order; a
-- record is what Unmarshal makes of one, or nothing where GET or Unmarshal fails.
pub mod Counts
use snapshot_sequencer_valid.Base.{
  ◌-◌, ◌%◌, ◌^◌, pos, negsuc, ℕ, ◌+◌, Text, text_eq, bytes, is_empty, Option, none, some, List, [],
  ◌∷◌, ◌++◌, map, Map, get, put, length, Bool, true, false, if◌then◌else◌,
}
use snapshot_sequencer_valid.Votes.{Votes, or_zero, or_nil, add_vote}
use snapshot_sequencer_valid.Json.{real, num, Json, as_map, as_string, as_number, member, ◌>>=◌}

pub record SubmitterEntry : Type 0 where
  pub submitter_id : Text
  pub snapshot_cid : Text
  pub slot_id : ℕ
  pub signature : Text
  pub timestamp : ℕ

pub record Collected : Type 0 where
  pub project_votes : Votes
  pub submission_metadata : Map Text (List SubmitterEntry)

-- What the code reads of a record, where it finds a project and a CID: the two, the submitter ("" if
-- there is none), the slot and the signature.
pub record Reading : Type 0 where
  pub project : Text
  pub cid : Text
  pub submitter : Text
  pub slot : ℕ
  pub signature : Text

-- uint64(slot) of a float64, which drops what is behind the point; a negative one wraps, as on amd64.
as_slot : Json → Option ℕ
as_slot (num n) = some n
as_slot (real (pos n)) = some n
as_slot (real (negsuc n)) = some ((2 ^ 64 - 1 - n) % 2 ^ 64)
as_slot _ = none

unfoldable pub read : Json → Option Reading
unfolding member as_slot
read j = do
  submission ← as_map j
  sub_data ← member as_map (bytes "Submission") submission
  request ← member as_map (bytes "request") sub_data
  project ← member as_string (bytes "projectId") request
  cid ← member as_string (bytes "snapshotCid") request
  some (record {
    project = project;
    cid = cid;
    submitter = or_nil (member as_string (bytes "SnapshotterAddr") submission);
    slot = or_zero (member as_slot (bytes "slotId") request);
    signature = or_nil (member as_string (bytes "signature") sub_data);
  })

unfoldable pub note_submitter :
    ℕ → Reading → Map Text (List SubmitterEntry) → Map Text (List SubmitterEntry)
unfolding get put
note_submitter now r metadata =
    put r.project
      (or_nil (get r.project metadata)
        ++ record {
          submitter_id = r.submitter;
          snapshot_cid = r.cid;
          slot_id = r.slot;
          signature = r.signature;
          timestamp = now;
        }
          ∷ [])
      metadata

-- The body of the loop over the keys of a submission.
unfoldable pub tally : ℕ → Option Reading → Collected → Collected
unfolding add_vote note_submitter
tally now none c = c
tally now (some r) c = record {
  project_votes = add_vote r.project r.cid c.project_votes;
  submission_metadata =
      if is_empty r.submitter
      then c.submission_metadata
      else note_submitter now r c.submission_metadata;
}

unfoldable pub collect_from : ℕ → List (Option Json) → Collected → Collected
unfolding tally
collect_from now [] c = c
collect_from now (j ∷ js) c = collect_from now js (tally now (j >>= read) c)

-- What is stored for a project.
pub record ProjectSubmissions : Type 0 where
  pub cid_votes : Map Text ℕ
  pub total_submissions : ℕ
  pub submission_metadata : List SubmitterEntry

unfoldable pub summary : Collected → List (Text × ProjectSubmissions)
unfolding get
summary c =
    map
      (λ e. (
        e.0,
        record {
          cid_votes = e.1;
          total_submissions = length e.1;
          submission_metadata = or_nil (get e.0 c.submission_metadata);
        },
      ))
      c.project_votes

abbrev pub nothing : Collected
nothing = record { project_votes = []; submission_metadata = [] }

-- `none` where SMEMBERS fails.
unfoldable pub collect_epoch_submissions :
    ℕ → Option (List (Option Json)) → List (Text × ProjectSubmissions)
unfolding collect_from summary
collect_epoch_submissions now none = []
collect_epoch_submissions now (some records) = summary (collect_from now records nothing)
