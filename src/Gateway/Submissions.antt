-- ===== src/Gateway/Submissions.antt =====
-- cmd/p2p-gateway/main.go: what the gateway does with a submission of a peer, and the metadata that it
-- keeps of it in a hash of Redis. The events and the counters of the metrics are left out.
pub mod Metadata
pub mod Wrapped
use snapshot_sequencer_valid.Base.{
  ℕ, ◌*◌, Text, text_eq, bytes, decimal, Bool, true, false, Option, none, some, List, [], ◌∷◌, ◌++◌,
  Map, get, length, if◌then◌else◌, ◌==◌,
}
use snapshot_sequencer_valid.Votes.{or_nil}
use snapshot_sequencer_valid.Redis.Command.{
  Command, Reply, found, missing, failed, zadd, hset, expire, lpush,
}
use snapshot_sequencer_valid.Redis.Keys.{KeyBuilder, submission_queue}
use snapshot_sequencer_valid.Redis.MetricKeys.{
  metrics_submissions_timeline, metrics_submissions_metadata,
}
use snapshot_sequencer_valid.Gateway.{
  SubmissionMetadata, SubmissionMessage, Payload, raw, hash, extract_submission_metadata,
  generate_entity_id,
}

-- The fields that HMSET writes; `entity` is the entity's identifier.
unfoldable pub metadata_fields : ℕ → Text → SubmissionMetadata → Map Text Text
unfolding decimal
metadata_fields now entity m =
    (bytes "entityId", entity)
    ∷ (bytes "epochId", decimal m.epoch_id)
    ∷ (bytes "slotId", decimal m.slot_id)
    ∷ (bytes "projectId", m.project_id)
    ∷ (bytes "peerId", m.peer_id)
    ∷ (bytes "timestamp", decimal m.timestamp)
    ∷ (bytes "dataMarket", m.data_market)
    ∷ (bytes "nodeVersion", m.node_version)
    ∷ (bytes "messageSize", decimal m.message_size)
    ∷ (bytes "topicName", m.topic_name)
    ∷ (bytes "storedAt", decimal now)
    ∷ []

-- `taken` says whether Redis takes the HMSET.
unfoldable pub store_submission_metadata :
    KeyBuilder → ℕ → Bool → Text → SubmissionMetadata → List (Command Payload)
unfolding metadata_fields
store_submission_metadata kb now taken entity m =
    let key = metrics_submissions_metadata kb entity in
    hset key (hash (metadata_fields now entity m))
    ∷ (if taken then expire key (24 * 3600) ∷ [] else [])

pub data MetadataError : Type 0 where
  not_found not_read : MetadataError

pub data Result : Type 0 where
  ok : Text → SubmissionMetadata → Result
  error : MetadataError → Result

-- strconv.ParseUint(s, 10, 64), ParseInt(s, 10, 64) and Atoi, none being an error; of the values that are
-- written here none is negative.
pub record Parsers : Type 0 where
  pub parse_uint : Text → Option ℕ
  pub parse_int : Text → Option ℕ
  pub atoi : Text → Option ℕ

-- A number is 0 where its text is not read; `parse` is strconv's function for it.
number : (Text → Option ℕ) → Option Text → ℕ
number parse none = elim (parse []) [ none ↦ 0 | some n ↦ n ]
number parse (some s) = elim (parse s) [ none ↦ 0 | some n ↦ n ]

unfoldable pub read_metadata : Parsers → Map Text Text → Result
unfolding get number
read_metadata p data_of = ok (or_nil (get (bytes "entityId") data_of)) (record {
  epoch_id = number p.parse_uint (get (bytes "epochId") data_of);
  slot_id = number p.parse_uint (get (bytes "slotId") data_of);
  project_id = or_nil (get (bytes "projectId") data_of);
  peer_id = or_nil (get (bytes "peerId") data_of);
  timestamp = number p.parse_int (get (bytes "timestamp") data_of);
  data_market = or_nil (get (bytes "dataMarket") data_of);
  node_version = or_nil (get (bytes "nodeVersion") data_of);
  message_size = number p.atoi (get (bytes "messageSize") data_of);
  topic_name = or_nil (get (bytes "topicName") data_of);
})

read_hash : Parsers → Reply (Map Text Text) → Result
unfolding read_metadata
read_hash p failed = error not_read
read_hash p missing = error not_found
read_hash p (found []) = error not_found
read_hash p (found (f ∷ fields)) = read_metadata p (f ∷ fields)

-- `hgetall` answers for a key.
unfoldable pub get_submission_metadata :
    KeyBuilder → Parsers → (Text → Reply (Map Text Text)) → Text → Result
unfolding read_hash
get_submission_metadata kb p hgetall entity =
    read_hash p (hgetall (metrics_submissions_metadata kb entity))

-- The map that is queued for the dequeuer.
unfoldable pub submission_with_metadata : Text → Text → Map Text Text
submission_with_metadata peer message = (bytes "peer_id", peer) ∷ (bytes "data", message) ∷ []

-- A message of a submission topic, of another peer: `decoded` is what json.Unmarshal makes of it, `marshal` is
-- json.Marshal of a map of strings, and `taken` is Redis, of the HMSET.
unfoldable pub handle_submission_message :
    KeyBuilder
    → ℕ
    → (Map Text Text → Text)
    → Bool
    → Option SubmissionMessage
    → Text
    → Text
    → Text
    → List (Command Payload)
unfolding extract_submission_metadata generate_entity_id store_submission_metadata
    submission_with_metadata
handle_submission_message kb now marshal taken decoded message peer topic =
    let m = extract_submission_metadata decoded message peer now topic in
    let (entity, id_type) = generate_entity_id m in
    zadd (metrics_submissions_timeline kb) now entity
      ∷ (if id_type == bytes "enhanced"
          then store_submission_metadata kb now taken entity m
          else [])
    ++ lpush (submission_queue kb) (raw (marshal (submission_with_metadata peer message))) ∷ []
