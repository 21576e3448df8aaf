-- ===== src/Sequencer/Listener/Queueing.antt =====
-- What is queued of the messages.
use snapshot_sequencer_valid.Base.{
  or_else_assoc, is_empty, ◌&&◌, ap, ◌∙◌, key-cases, or_else-none, ◌⊎◌, ℕ, Text, text_eq,
  text_eqb_iff, bytes, Bool, Bool-cases, inl, inr, true, false, ◌||◌, Option, none, some, List, [],
  ◌∷◌, get, get-put, has, or_else, if◌then◌else◌, ◌==◌, ℤ, ◌≡◌, refl, arith,
}
use snapshot_sequencer_valid.Json.{Json, str, as_map, member}
use snapshot_sequencer_valid.Redis.Command.{Command, lpush}
use snapshot_sequencer_valid.Redis.Keys.{submission_queue}
use snapshot_sequencer_valid.Deduplication.{SetNx}
use snapshot_sequencer_valid.Sequencer.Listener.{
  shown_field, request_key, put_market, Listener, Clock, Payload, heartbeat, duplicate, queued,
  not_queued, enriched, short_peer, is_heartbeat, put_missing, enrich, enqueue, after_push,
  queue_metrics, dedup_key, dedup_epoch, is_duplicate, receive_object, queue_submission_from_p2p,
}

abbrev pub first_market : List Text → Option Json
first_market [] = none
first_market (market ∷ _) = some (str market)

-- The value of a field that the listener fills in.
abbrev pub default_field : Listener → Text → Option Json
default_field l k =
    if bytes "protocol_state" == k
    then some (str l.protocol_state_contract)
    else if bytes "data_market" == k
    then first_market l.data_market_addresses
    else none

put_missing-get :
    (j k : Text) (v : Json) (m : List (Text × Json))
    → get k (put_missing j v m) ≡ or_else (get k m) (if j == k then some v else none)
put_missing-get j k v m = elim (key-cases j m) [
  | inr (w, e, there) ↦ rw there (present (Bool-cases (j == k)) w e)
  | inl (e, missing) ↦ rw (missing, get-put j k v m) (added (Bool-cases (j == k)) e)
]
  where
    present :
        (j == k ≡ true) ⊎ (j == k ≡ false)
        → (w : Json) → get j m ≡ some w
        → get k m ≡ or_else (get k m) (if j == k then some v else none)
    present (inr other) w e = rw (other, or_else-none (get k m)) refl
    present (inl same) w e = ground (arith, text_eqb_iff j k)

    added :
        (j == k ≡ true) ⊎ (j == k ≡ false)
        → get j m ≡ none
        → (if j == k then some v else get k m) ≡ or_else (get k m) (if j == k then some v else none)
    added (inr other) e = rw (other, or_else-none (get k m)) refl
    added (inl same) e = ground (arith, text_eqb_iff j k)

or_else_if {ℓ} :
    {A : Type ℓ} (b : Bool) (x : A) (o : Option A)
    → or_else (if b then some x else none) o ≡ (if b then some x else o)
or_else_if true x o = refl
or_else_if false x o = refl

put_market-get :
    (markets : List Text) (k : Text) (m : List (Text × Json))
    → get k (put_market markets m)
      ≡ or_else (get k m) (if bytes "data_market" == k then first_market markets else none)
put_market-get [] k m = ground arith
put_market-get (market ∷ _) k m = put_missing-get (bytes "data_market") k (str market) m

-- A queued object has each field of the message, and the two that the listener fills in where the message has
-- none.
pub enrich-get :
    (l : Listener) (info : List (Text × Json)) (k : Text)
    → get k (enrich l info) ≡ or_else (get k info) (default_field l k)
unfolding enrich
enrich-get l info k =
    let contract = some (str l.protocol_state_contract) in
    let named : Option Json = if bytes "protocol_state" == k then contract else none in
    let other : Option Json =
      if bytes "data_market" == k then first_market l.data_market_addresses else none in
    put_market-get l.data_market_addresses k
      (put_missing (bytes "protocol_state") (str l.protocol_state_contract) info)
    ∙ ap (λ o. or_else o other)
        (put_missing-get (bytes "protocol_state") k (str l.protocol_state_contract) info)
    ∙ or_else_assoc (get k info) named other
    ∙ ap (or_else (get k info))
        (or_else_if (bytes "protocol_state" == k) (str l.protocol_state_contract) other)

and_false : (b : Bool) → (b && false) ≡ false
and_false true = refl
and_false false = refl

-- What the commands push, with the queues.
abbrev pub pushes : List (Command Payload) → List (Text × Payload)
pushes [] = []
pushes (lpush queue payload ∷ rest) = (queue, payload) ∷ pushes rest
pushes (_ ∷ rest) = pushes rest

module _ (show : Option Json → Text) where
  after_push-quiet :
      (l : Listener) (clock : Clock) (info : Option (List (Text × Json))) (peer market : Text)
      (markets : List Text)
      → short_peer peer ≡ false
      → l.data_market_addresses ≡ market ∷ markets
      → ((after_push show l clock info peer).0 ≡ queued)
        × (pushes (after_push show l clock info peer).1 ≡ [])
  unfolding after_push queue_metrics
  after_push-quiet l clock info peer market markets long some_market =
      rw (long, some_market)
        (elim (Bool-cases (
          shown_field show (bytes "epochId") info == bytes "0"
          && is_empty (shown_field show (bytes "projectId") info))) [
            | inl no_metrics ↦ rw no_metrics (refl, refl)
            | inr metrics ↦ rw metrics (refl, refl)
          ])

  -- The end and the push of what is neither heartbeat nor duplicate.
  enqueue-push :
      (l : Listener) (accepts : Text → Bool) (clock : Clock) (message : Text)
      (info : List (Text × Json)) (peer market : Text) (markets : List Text)
      → l.connected ≡ true
      → short_peer peer ≡ false
      → l.data_market_addresses ≡ market ∷ markets
      → ((enqueue show l accepts clock message (some info) peer).0
          ≡ (if accepts (submission_queue l.key_builder) then queued else not_queued))
        × (pushes (enqueue show l accepts clock message (some info) peer).1
            ≡ (submission_queue l.key_builder, enriched (enrich l info)) ∷ [])
  unfolding enqueue after_push queue_metrics
  enqueue-push l accepts clock message info peer market markets on long some_market =
      let quiet = after_push-quiet l clock (some info) peer market markets long some_market in
      rw on (elim (Bool-cases (accepts (submission_queue l.key_builder))) [
        | inl taken ↦ rw taken (
          quiet.0,
          ap (λ rest. (submission_queue l.key_builder, enriched (enrich l info)) ∷ rest) quiet.1,
        )
        | inr refused ↦ rw refused (refl, refl)
      ])

module _ (to_uint64 : ℤ → ℕ) (parse_uint : Text → Option ℕ) (show : Option Json → Text)
    (sha256 : Text → List ℕ) where
  -- Projects of messages without the fields "project_id" and "snapshot_cid" in the request are one to the
  -- deduplicator: of the same epoch, they have the same key.
  pub dedup_key_collision :
      (info info' : List (Text × Json)) (request request' : List (Text × Json))
      → member as_map (bytes "request") info ≡ some request
      → member as_map (bytes "request") info' ≡ some request'
      → get (bytes "project_id") request ≡ none
      → get (bytes "snapshot_cid") request ≡ none
      → get (bytes "project_id") request' ≡ none
      → get (bytes "snapshot_cid") request' ≡ none
      → dedup_epoch to_uint64 parse_uint (get (bytes "epoch_id") info)
        ≡ dedup_epoch to_uint64 parse_uint (get (bytes "epoch_id") info')
      → dedup_key to_uint64 parse_uint show sha256 info
        ≡ dedup_key to_uint64 parse_uint show sha256 info'
  unfolding dedup_key request_key
  dedup_key_collision info info' request request' e e' p c p' c' same =
      rw (e, e', p, c, p', c', same) refl

  module _ {S C : Type 0} (set_nx : Text → ℕ → S → SetNx × S) (contains : Text → C → Bool)
      (add : Text → C → C) where
    abbrev pub is_old : Listener → List (Text × Json) → C → S → Bool
    is_old l info c s =
        (is_duplicate to_uint64 parse_uint show sha256 set_nx contains add l info c s).0

    receive_lem :
        (l : Listener) (accepts : Text → Bool) (clock : Clock) (message : Text)
        (info : List (Text × Json)) (peer : Text) (c : C) (s : S)
        → short_peer peer ≡ false
        → (queue_submission_from_p2p to_uint64 parse_uint show sha256 set_nx contains add l accepts
            clock message
            (some (some info))
            peer
            c
            s).0
          ≡ (if is_heartbeat info
              then (heartbeat, [])
              else if is_old l info c s
              then (duplicate, [])
              else enqueue show l accepts clock message (some info) peer)
    unfolding queue_submission_from_p2p receive_object
    receive_lem l accepts clock message info peer c s long =
        let unlogged : (has (bytes "epoch_id") info && short_peer peer) ≡ false =
          rw long (and_false (has (bytes "epoch_id") info)) in
        rw unlogged (elim (Bool-cases (is_heartbeat info)) [
          | inl beat ↦ rw beat refl
          | inr message' ↦ elim (Bool-cases (is_old l info c s)) [
            | inl old ↦ rw (message', old) refl
            | inr new ↦ rw (message', new) refl
          ]
        ])

    -- With a connection, at least one data market and a peer's ID of 16 bytes or more: an object is pushed
    -- once, to the submission queue, unless it is a heartbeat or a duplicate, which are not pushed; what
    -- is pushed has the fields of the message, and the protocol state and the first data market where it
    -- has none; and the call ends accordingly, with the message queued if Redis accepts it.
    pub queued_once :
        (l : Listener) (accepts : Text → Bool) (clock : Clock) (message : Text)
        (info : List (Text × Json)) (peer market : Text) (markets : List Text) (c : C) (s : S)
        → l.connected ≡ true
        → short_peer peer ≡ false
        → l.data_market_addresses ≡ market ∷ markets
        → let r =
            (queue_submission_from_p2p to_uint64 parse_uint show sha256 set_nx contains add l
              accepts clock message
              (some (some info))
              peer
              c
              s).0 in
          (object : List (Text × Json)) × ((k : Text)
            → get k object ≡ or_else (get k info) (default_field l k))
          × (pushes r.1 ≡ (
              if is_heartbeat info || is_old l info c s
              then []
              else (submission_queue l.key_builder, enriched object) ∷ []))
          × (r.0 ≡ (
              if is_heartbeat info
              then heartbeat
              else if is_old l info c s
              then duplicate
              else if accepts (submission_queue l.key_builder)
              then queued
              else not_queued))
    queued_once l accepts clock message info peer market markets c s on long some_market =
        let pushed =
          enqueue-push show l accepts clock message info peer market markets on long some_market in
        rw (receive_lem l accepts clock message info peer c s long) (
          enrich l info,
          enrich-get l info,
          elim (Bool-cases (is_heartbeat info)) [
            | inl beat ↦ rw beat refl
            | inr message' ↦ elim (Bool-cases (is_old l info c s)) [
              | inl old ↦ rw (message', old) refl
              | inr new ↦ rw (message', new) (pushed.1)
            ]
          ],
          elim (Bool-cases (is_heartbeat info)) [
            | inl beat ↦ rw beat refl
            | inr message' ↦ elim (Bool-cases (is_old l info c s)) [
              | inl old ↦ rw (message', old) refl
              | inr new ↦ rw (message', new) (pushed.0)
            ]
          ],
        )
