-- ===== src/MonitorApi/Unread.antt =====
-- What the timeline shows of the submissions that the gateway and the dequeuer record.
use snapshot_sequencer_valid.Base.{
  ℕ, Text, text_eq, text_eqb, bytes, Bool, Bool-cases, true, false, none, some, List, [], ◌∷◌, ◌++◌,
  get, is_empty, ltb, inl, inr, ◌≡◌, refl, not, ◌&&◌,
}
use snapshot_sequencer_valid.Json.{Json, num, str}
use snapshot_sequencer_valid.Redis.Join.{join, split, push_byte}
use snapshot_sequencer_valid.Submissions.Types.{SnapshotRequest}
use snapshot_sequencer_valid.Gateway.{SubmissionMetadata, generate_entity_id}
use snapshot_sequencer_valid.MonitorApi.Timeline.{
  TimelineEventMetadata, only_type, parse_enhanced, parse_submission, parse_legacy, parse_entity_id,
  some_of, Value, absent, get_failed, json, string_of, prefer, fetch_submission_metadata,
  merge_metadata, event_metadata,
}

-- The metadata that the dequeuer writes, as json.Unmarshal reads it back: of a map, with the whole numbers as such.
abbrev pub dequeuer_metadata : SnapshotRequest → ℕ → Text → Text → List (Text × Json)
dequeuer_metadata r timestamp peer entity =
    (bytes "cid", str r.snapshot_cid)
    ∷ (bytes "entity_id", str entity)
    ∷ (bytes "epoch_id", num r.epoch_id)
    ∷ (bytes "peer_id", str peer)
    ∷ (bytes "project_id", str r.project_id)
    ∷ (bytes "slot_id", num r.slot_id)
    ∷ (bytes "timestamp", num timestamp)
    ∷ []

-- What may stand under the key of a recorded submission: nothing, the hash of the gateway, which GET refuses, and
-- the text of the dequeuer.
pub data IsRecorded : Value → Type 0 where
  expired : IsRecorded absent
  of_gateway : IsRecorded get_failed
  of_dequeuer :
      (r : SnapshotRequest) (timestamp : ℕ) (peer entity : Text)
      → IsRecorded (json (some (dequeuer_metadata r timestamp peer entity)))

abbrev pub received : Text
received = bytes "received:"

split-received : (s : Text) → split (received ++ s) ≡ bytes "received" ∷ split s
unfolding split push_byte
split-received s = refl

parse_enhanced_received :
    (t : Text) (segments : List Text) → parse_enhanced t (bytes "received" ∷ segments) ≡ none
unfolding parse_enhanced some_of
parse_enhanced_received t [] = refl
parse_enhanced_received t (a ∷ []) = refl
parse_enhanced_received t (a ∷ b ∷ []) = refl
parse_enhanced_received t (a ∷ b ∷ c ∷ []) = refl
parse_enhanced_received t (a ∷ b ∷ c ∷ d ∷ s) = refl

parse_submission_received :
    (t : Text) (segments : List Text)
    → parse_submission t (bytes "received" ∷ segments) ≡ only_type t
unfolding parse_submission some_of
parse_submission_received t [] = refl
parse_submission_received t (a ∷ []) = refl
parse_submission_received t (a ∷ b ∷ s) = refl

legacy_submission :
    (entity : Text)
    → parse_legacy entity (bytes "submission")
      ≡ parse_submission (bytes "submission") (split entity)
unfolding parse_legacy text_eqb
legacy_submission entity = refl

parse_split :
    (entity : Text) (segments : List Text)
    → split entity ≡ bytes "received" ∷ segments
    → parse_entity_id entity (bytes "submission") ≡ only_type (bytes "submission")
unfolding parse_entity_id
parse_split entity segments e =
    rw
      (
        parse_entity_id,
        e,
        parse_enhanced_received (bytes "submission") segments,
        legacy_submission entity,
        e,
        parse_submission_received (bytes "submission") segments,
      )
      refl

-- No epoch and no slot.
abbrev pub Unplaced : TimelineEventMetadata → Type 0
Unplaced m = (m.epoch_id ≡ []) × (m.slot_id ≡ [])

merge_recorded :
    (m : TimelineEventMetadata) (value : Value)
    → IsRecorded value
    → Unplaced m
    → Unplaced (merge_metadata (fetch_submission_metadata value) m)
unfolding merge_metadata fetch_submission_metadata prefer string_of get text_eqb
merge_recorded m _ expired u = u
merge_recorded m _ of_gateway u = u
merge_recorded m _ (of_dequeuer r timestamp peer entity) u = u

generated_received :
    (m : SubmissionMetadata)
    → (s : List Text) × (split (generate_entity_id m).0 ≡ bytes "received" ∷ s)
unfolding generate_entity_id join split push_byte
generated_received m =
    elim (Bool-cases (ltb 0 m.epoch_id && ltb 0 m.slot_id && not (is_empty m.project_id))) [
      | inl enhanced ↦ rw enhanced (_, refl)
      | inr legacy ↦ rw legacy (_, refl)
    ]

-- Of a submission that the gateway names, the timeline shows neither the epoch nor the slot, whichever of the
-- gateway's and the dequeuer's metadata are there, if any, and whether or not they are asked for.
pub event_metadata-Unplaced :
    (include : Bool) (m : SubmissionMetadata) (value : Value)
    → IsRecorded value
    → Unplaced (event_metadata include (bytes "submission") (generate_entity_id m).0 value)
unfolding event_metadata text_eqb
event_metadata-Unplaced true m value recorded =
    let (s, e) = generated_received m in
    rw (event_metadata, parse_split (generate_entity_id m).0 s e)
      (merge_recorded (only_type (bytes "submission")) value recorded (refl, refl))
event_metadata-Unplaced false m value recorded =
    let (s, e) = generated_received m in
    rw (event_metadata, parse_split (generate_entity_id m).0 s e) (refl, refl)
