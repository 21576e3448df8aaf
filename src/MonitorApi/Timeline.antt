-- ===== src/MonitorApi/Timeline.antt =====
-- cmd/monitor-api/main.go: RecentTimeline, parseEntityID and fetchSubmissionMetadata.
use snapshot_sequencer_valid.Base.{
  ℕ, ◌+◌, Text, text_eq, bytes, Bool, true, false, not, ◌&&◌, ◌||◌, Option, none, some, List, [],
  ◌∷◌, ◌++◌, take, drop, length, leb, nat_eqb, is_empty, if◌then◌else◌, ◌==◌,
}
use snapshot_sequencer_valid.Json.{Json, as_string, member}
use snapshot_sequencer_valid.Votes.{or_nil}
use snapshot_sequencer_valid.Redis.Join.{split}

pub record TimelineEventMetadata : Type 0 where
  pub epoch_id : Text
  pub slot_id : Text
  pub project_id : Text
  pub peer_id : Text
  pub validator_id : Text
  pub data_market : Text
  pub submission_type : Text
  pub event_type : Text
  pub is_enhanced : Bool

abbrev pub only_type : Text → TimelineEventMetadata
only_type t = record {
  epoch_id = [];
  slot_id = [];
  project_id = [];
  peer_id = [];
  validator_id = [];
  data_market = [];
  submission_type = [];
  event_type = t;
  is_enhanced = false;
}

-- The classes of the regular expressions: `\d`, `[a-fA-F0-9]`, `[a-zA-Z0-9]`, and `.`.
abbrev pub between : ℕ → ℕ → ℕ → Bool
between lo hi c = leb lo c && leb c hi

abbrev pub is_digit : ℕ → Bool
is_digit c = between 48 57 c

abbrev pub is_hex : ℕ → Bool
is_hex c = is_digit c || between 97 102 c || between 65 70 c

abbrev pub is_alnum : ℕ → Bool
is_alnum c = is_digit c || between 97 122 c || between 65 90 c

abbrev pub is_not_newline : ℕ → Bool
is_not_newline c = not (nat_eqb c 10)

unfoldable pub all_of : (ℕ → Bool) → Text → Bool
all_of class [] = true
all_of class (c ∷ s) = class c && all_of class s

-- One or more of the class.
unfoldable pub some_of : (ℕ → Bool) → Text → Bool
unfolding all_of
some_of class [] = false
some_of class (c ∷ s) = class c && all_of class s

unfoldable pub parse_enhanced : Text → List Text → Option TimelineEventMetadata
unfolding some_of
parse_enhanced t (epoch ∷ slot ∷ project ∷ peer ∷ []) =
    if some_of is_digit epoch
      && some_of is_digit slot
      && some_of is_hex project
      && some_of is_hex peer
    then some (record (only_type t) {
      is_enhanced = true;
      epoch_id = epoch;
      slot_id = slot;
      project_id = project;
      peer_id = peer;
      submission_type = bytes "snapshot";
    })
    else none
parse_enhanced t _ = none

unfoldable pub parse_submission : Text → List Text → TimelineEventMetadata
unfolding some_of
parse_submission t (epoch ∷ project ∷ []) =
    if some_of is_digit epoch && some_of is_hex project
    then record (only_type t) {
      epoch_id = epoch;
      project_id = project;
      submission_type = bytes "snapshot";
    }
    else only_type t
parse_submission t _ = only_type t

parse_validation : Text → List Text → TimelineEventMetadata
unfolding some_of
parse_validation t (epoch ∷ project ∷ validator ∷ []) =
    if some_of is_digit epoch && some_of is_hex project && some_of is_alnum validator
    then record (only_type t) {
      epoch_id = epoch;
      project_id = project;
      validator_id = validator;
      submission_type = bytes "validation";
    }
    else only_type t
parse_validation t _ = only_type t

-- `^p:(.+)$`
has_prefix : Text → Text → Bool
unfolding some_of
has_prefix p entity =
    (take (length p + 1) entity == p ++ bytes ":")
    && some_of is_not_newline (drop (length p + 1) entity)

-- `^(a|b):(.+)$`
after_prefix : Text → Text → Text → Text → TimelineEventMetadata
unfolding has_prefix
after_prefix t a b entity =
    if has_prefix a entity
    then record (only_type t) { epoch_id = drop (length a + 1) entity }
    else if has_prefix b entity
    then record (only_type t) { epoch_id = drop (length b + 1) entity }
    else only_type t

unfoldable pub parse_legacy : Text → Text → TimelineEventMetadata
unfolding parse_submission parse_validation after_prefix split
parse_legacy entity t =
    if t == bytes "submission"
    then parse_submission t (split entity)
    else if t == bytes "validation"
    then parse_validation t (split entity)
    else if t == bytes "batch"
    then after_prefix t (bytes "local") (bytes "aggregated") entity
    else if t == bytes "epoch"
    then after_prefix t (bytes "open") (bytes "close") entity
    else only_type t

unfoldable pub parse_entity_id : Text → Text → TimelineEventMetadata
unfolding parse_enhanced parse_legacy split
parse_entity_id entity t = elim (parse_enhanced t (split entity)) [
  | some m ↦ m
  | none ↦ parse_legacy entity t
]

-- What GET answers for a key: nothing there, an error, or a text, with what json.Unmarshal makes of it.
pub data Value : Type 0 where
  absent get_failed : Value
  json : Option (List (Text × Json)) → Value

pub data Fetched : Type 0 where
  nothing fetch_failed parse_failed : Fetched
  fetched : TimelineEventMetadata → Fetched

unfoldable pub string_of : Text → List (Text × Json) → Text
unfolding member
string_of k m = or_nil (member as_string k m)

unfoldable pub fetch_submission_metadata : Value → Fetched
unfolding string_of
fetch_submission_metadata absent = nothing
fetch_submission_metadata get_failed = fetch_failed
fetch_submission_metadata (json none) = parse_failed
fetch_submission_metadata (json (some m)) = fetched (record {
  epoch_id = string_of (bytes "epoch_id") m;
  slot_id = string_of (bytes "slot_id") m;
  project_id = string_of (bytes "project_id") m;
  peer_id = string_of (bytes "peer_id") m;
  validator_id = string_of (bytes "validator_id") m;
  data_market = string_of (bytes "data_market") m;
  submission_type = string_of (bytes "submission_type") m;
  event_type = string_of (bytes "event_type") m;
  is_enhanced = true;
})

unfoldable pub prefer : Text → Text → Text
prefer new old = if is_empty new then old else new

unfoldable pub merge_metadata : Fetched → TimelineEventMetadata → TimelineEventMetadata
unfolding prefer
merge_metadata (fetched d) m = record m {
  epoch_id = prefer d.epoch_id m.epoch_id;
  slot_id = prefer d.slot_id m.slot_id;
  project_id = prefer d.project_id m.project_id;
  peer_id = prefer d.peer_id m.peer_id;
  validator_id = prefer d.validator_id m.validator_id;
  data_market = prefer d.data_market m.data_market;
  submission_type = prefer d.submission_type m.submission_type;
  is_enhanced = d.is_enhanced;
}
merge_metadata _ m = m

-- The metadata of an event of the timeline.
unfoldable pub event_metadata : Bool → Text → Text → Value → TimelineEventMetadata
unfolding merge_metadata parse_entity_id fetch_submission_metadata
event_metadata include t entity value =
    let parsed = parse_entity_id entity t in
    if include && (t == bytes "submission")
    then merge_metadata (fetch_submission_metadata value) parsed
    else parsed

is_valid_type : Text → Bool
is_valid_type t =
    (t == bytes "submission")
    || (t == bytes "validation")
    || (t == bytes "epoch")
    || (t == bytes "batch")

-- The type that a request gets, and the name of its timeline.
unfoldable pub timeline_type : Text → Text
unfolding is_valid_type
timeline_type t = if is_valid_type t then t else bytes "submission"

unfoldable pub timeline_name : Text → Text
timeline_name t =
    if t == bytes "submission"
    then bytes "submissions"
    else if t == bytes "validation"
    then bytes "validations"
    else if t == bytes "epoch"
    then bytes "epochs"
    else if t == bytes "batch"
    then bytes "batches"
    else t
