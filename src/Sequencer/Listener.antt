-- ===== src/Sequencer/Listener.antt =====
-- `queueSubmissionFromP2P` of cmd/unified/main.go: what becomes of a message of a gossip topic. The
-- operations of Redis and of the deduplicator's cache, json.Unmarshal into a map, "%v", and the
-- conversions of numbers are arguments.
pub mod Queueing
use snapshot_sequencer_valid.Base.{
  nat_eqb, ℕ, ◌*◌, Text, text_eq, bytes, decimal, is_empty, Bool, true, false, not, ◌&&◌, Option,
  none, some, List, [], ◌∷◌, ◌++◌, get, has, put, length, take, ltb, if◌then◌else◌, ◌==◌, ℤ,
}
use snapshot_sequencer_valid.Json.{Json, num, real, str, null, as_map, as_int, member, ◌>>=◌}
use snapshot_sequencer_valid.Votes.{or_zero}
use snapshot_sequencer_valid.Redis.Command.{Command, set, expire, zadd, hincrby, publish, lpush}
use snapshot_sequencer_valid.Redis.Keys.{KeyBuilder, submission_queue}
use snapshot_sequencer_valid.Redis.MetricKeys.{metrics_submissions_timeline}
use snapshot_sequencer_valid.Deduplication.{
  SetNx, Marked, is_new, seen, store_error, generate_key, check_and_mark,
}

pub record Listener : Type 0 where
  pub key_builder : KeyBuilder
  pub protocol_state_contract : Text
  pub data_market_addresses : List Text
  -- s.dedup != nil, and the lifetime that it gives to keys
  pub dedup : Bool
  pub dedup_ttl : ℕ
  -- s.redisClient != nil
  pub connected : Bool

-- The readings of the clock: nanoseconds, two times in seconds, and the hour as `YYYYMMDDHH`.
pub record Clock : Type 0 where
  pub nanoseconds : ℕ
  pub timestamp : ℕ
  pub timestamp' : ℕ
  pub hour : Text

pub data Payload : Type 0 where
  raw : Text → Payload
  enriched : List (Text × Json) → Payload
  -- the epoch, the project, the start of the peer's ID, the time and the data market
  details : Text → Text → Text → ℕ → Text → Payload

-- How the call ends.
pub data Received : Type 0 where
  heartbeat duplicate queued not_queued panicked : Received

-- `peerID[:16]` panics.
abbrev pub short_peer : Text → Bool
short_peer peer = ltb (length peer) 16

abbrev zero_epoch : Json → Bool
zero_epoch (num n) = nat_eqb n 0
zero_epoch (str s) = s == bytes "0"
zero_epoch _ = false

abbrev is_null : Option Json → Bool
is_null (some null) = true
is_null _ = false

-- A message of epoch 0 whose submissions are null.
unfoldable pub is_heartbeat : List (Text × Json) → Bool
unfolding get
is_heartbeat info = elim (get (bytes "epoch_id") info) [
  | none ↦ false
  | some epoch ↦ zero_epoch epoch && is_null (get (bytes "submissions") info)
]

-- The key is put only where there is none.
abbrev pub put_missing : Text → Json → List (Text × Json) → List (Text × Json)
put_missing key v info = if has key info then info else put key v info

-- The first market is the default.
abbrev pub put_market : List Text → List (Text × Json) → List (Text × Json)
put_market [] info = info
put_market (market ∷ _) info = put_missing (bytes "data_market") (str market) info

-- What is queued of a message that is an object.
unfoldable pub enrich : Listener → List (Text × Json) → List (Text × Json)
unfolding has put
enrich l info =
    put_market l.data_market_addresses
      (put_missing (bytes "protocol_state") (str l.protocol_state_contract) info)

module _ (to_uint64 : ℤ → ℕ) (parse_uint : Text → Option ℕ) where
  -- The epoch of the deduplication key, 0 where it is neither a number nor the text of one.
  unfoldable pub dedup_epoch : Option Json → ℕ
  dedup_epoch (some (num n)) = to_uint64 (ℤ.pos n)
  dedup_epoch (some (real z)) = to_uint64 z
  dedup_epoch (some (str s)) = or_zero (parse_uint s)
  dedup_epoch _ = 0
  -- The deduplication key, where there is one.

unfoldable pub queue_metrics : Listener → Clock → Text → Text → Text → Text → List (Command Payload)
unfolding decimal
queue_metrics l clock epoch project peer market =
    let id = epoch ++ bytes "-" ++ project ++ bytes "-" ++ decimal clock.nanoseconds in
    let hourly = bytes "metrics:hourly:" ++ clock.hour ++ bytes ":submissions" in
    zadd (metrics_submissions_timeline l.key_builder) clock.timestamp id
    ∷ set (bytes "metrics:submission:" ++ id)
        (details epoch project (take 16 peer) clock.timestamp market) 3600
    ∷ hincrby hourly (bytes "total") 1
    ∷ expire hourly (2 * 3600)
    ∷ zadd (metrics_submissions_timeline l.key_builder) clock.timestamp'
        (bytes "received:" ++ id ++ bytes ":" ++ decimal clock.timestamp')
    ∷ publish (bytes "state:change") (bytes "submission:received:" ++ id)
    ∷ []

module _ (show : Option Json → Text) where
  -- The text of a field of the message, as the metrics name it.
  unfoldable pub shown_field : Text → Option (List (Text × Json)) → Text
  unfolding get
  shown_field name none = bytes "unknown"
  shown_field name (some info) = elim (get name info) [
    | none ↦ bytes "unknown"
    | some v ↦ show (some v)
  ]

  -- What follows the LPUSH, where Redis has taken it.
  unfoldable pub after_push :
      Listener → Clock → Option (List (Text × Json)) → Text → Received × List (Command Payload)
  unfolding shown_field queue_metrics
  after_push l clock info peer =
      let epoch = shown_field (bytes "epochId") info in
      let project = shown_field (bytes "projectId") info in
      if short_peer peer
      then (panicked, [])
      else if epoch == bytes "0" && is_empty project
      then (queued, [])
      else elim l.data_market_addresses [
        | [] ↦ (panicked, [])
        | market ∷ _ ↦ (queued, queue_metrics l clock epoch project peer market)
      ]

  -- `info` is none where the message is no object.
  unfoldable pub enqueue :
      Listener
      → (Text → Bool)
      → Clock
      → Text
      → Option (List (Text × Json))
      → Text
      → Received × List (Command Payload)
  unfolding enrich after_push submission_queue
  enqueue l accepts clock message info peer =
      let key = submission_queue l.key_builder in
      let pushed = lpush key (elim info [ none ↦ raw message | some m ↦ enriched (enrich l m) ]) in
      if not l.connected
      then (not_queued, [])
      else if accepts key
      then (let (r, cs) = after_push l clock info peer in (r, pushed ∷ cs))
      else (not_queued, pushed ∷ [])

module _ (to_uint64 : ℤ → ℕ) (parse_uint : Text → Option ℕ) (show : Option Json → Text)
    (sha256 : Text → List ℕ) where
  request_key : ℕ → List (Text × Json) → Option Text
  unfolding get generate_key
  request_key epoch request =
      let project = show (get (bytes "project_id") request) in
      let cid = show (get (bytes "snapshot_cid") request) in
      if not (is_empty project) && not (is_empty cid)
      then some (generate_key sha256 project epoch cid)
      else none

  unfoldable pub dedup_key : List (Text × Json) → Option Text
  unfolding member get dedup_epoch request_key
  dedup_key info = do
    request ← member as_map (bytes "request") info
    request_key (dedup_epoch to_uint64 parse_uint (get (bytes "epoch_id") info)) request

  module _ {S C : Type 0} (set_nx : Text → ℕ → S → SetNx × S) (contains : Text → C → Bool)
      (add : Text → C → C) where
    -- The check for duplicates, where the message has a key; an error does not stop the message.
    unfoldable pub is_duplicate : Listener → List (Text × Json) → C → S → Bool × C × S
    unfolding dedup_key check_and_mark
    is_duplicate l info c s = if not l.dedup then (false, c, s) else elim (dedup_key info) [
      | none ↦ (false, c, s)
      | some key ↦
          let (m, c', s') = check_and_mark set_nx contains add l.dedup_ttl key c s in
          (elim m [ seen ↦ true | _ ↦ false ], c', s')
    ]

    receive_object :
        Listener
        → (Text → Bool)
        → Clock
        → Text
        → List (Text × Json)
        → Text
        → C
        → S
        → (Received × List (Command Payload)) × C × S
    unfolding has is_heartbeat is_duplicate enqueue
    receive_object l accepts clock message info peer c s =
        if has (bytes "epoch_id") info && short_peer peer
        then ((panicked, []), c, s)
        else if is_heartbeat info
        then ((heartbeat, []), c, s)
        else let (old, c', s') = is_duplicate l info c s in
          if old
          then ((duplicate, []), c', s')
          else (enqueue show l accepts clock message (some info) peer, c', s')

    -- `parsed` is what json.Unmarshal makes of the message: an error, null, or an object.
    unfoldable pub queue_submission_from_p2p :
        Listener
        → (Text → Bool)
        → Clock
        → Text
        → Option (Option (List (Text × Json)))
        → Text
        → C
        → S
        → (Received × List (Command Payload)) × C × S
    unfolding receive_object enqueue
    queue_submission_from_p2p l accepts clock message none peer c s =
        if short_peer peer
        then ((panicked, []), c, s)
        else (enqueue show l accepts clock message none peer, c, s)
    queue_submission_from_p2p l accepts clock message (some none) peer c s =
        (enqueue show l accepts clock message none peer, c, s)
    queue_submission_from_p2p l accepts clock message (some (some info)) peer c s =
        receive_object l accepts clock message info peer c s
