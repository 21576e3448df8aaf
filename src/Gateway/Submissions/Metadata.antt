-- ===== src/Gateway/Submissions/Metadata.antt =====
-- The metadata of a submission, as they are written to Redis and read from it.
use snapshot_sequencer_valid.Base.{
  ◌==◌, if◌then◌else◌, ◌<◌, ◌^◌, Bool, true, false, List, beq_self, ℕ, Text, text_eq, bytes,
  decimal, text_eqb, Option, some, [], ◌∷◌, Map, get, has, Distinct, or_else, ◌≡◌, refl, ap, ◌∙◌,
}
use snapshot_sequencer_valid.Redis.Command.{Command, hset, found}
use snapshot_sequencer_valid.Redis.Hash.{set_fields, set_fields-get}
use snapshot_sequencer_valid.Redis.Keys.{KeyBuilder}
use snapshot_sequencer_valid.Redis.MetricKeys.{metrics_submissions_metadata}
use snapshot_sequencer_valid.Gateway.{SubmissionMetadata, Payload, hash}
use snapshot_sequencer_valid.Gateway.Submissions.{
  ok, Parsers, metadata_fields, store_submission_metadata, number, read_metadata, read_hash,
  get_submission_metadata,
}

read_hash-read :
    (p : Parsers) (k v : Text) (h : Map Text Text)
    → get k h ≡ some v
    → read_hash p (found h) ≡ read_metadata p h
unfolding read_hash get
read_hash-read p k v [] e = absurd (cc)
read_hash-read p k v (f ∷ fields) e = refl

-- strconv reads a number from its digits where it has room for it.
pub record IsStrconv (p : Parsers) : Type 0 where
  pub reads_uint : (n : ℕ) → n < 2 ^ 64 → p.parse_uint (decimal n) ≡ some n
  pub reads_int : (n : ℕ) → n < 2 ^ 63 → p.parse_int (decimal n) ≡ some n
  pub reads_size : (n : ℕ) → n < 2 ^ 63 → p.atoi (decimal n) ≡ some n

number_read :
    (parse : Text → Option ℕ) (n : ℕ)
    → parse (decimal n) ≡ some n
    → number parse (some (decimal n)) ≡ n
unfolding number
number_read parse n parses = rw (number, parses) refl

-- What the HSETs of some commands make of the hashes in Redis.
abbrev pub hashes : List (Command Payload) → (Text → Map Text Text) → Text → Map Text Text
unfolding set_fields
hashes [] store = store
hashes (hset key (hash fields) ∷ rest) store =
    hashes rest (λ k. if key == k then set_fields fields (store k) else store k)
hashes (_ ∷ rest) store = hashes rest store

module _ (now : ℕ) (entity : Text) (m : SubmissionMetadata) (old : Map Text Text) where
  abbrev after : Map Text Text
  unfolding set_fields metadata_fields
  after = set_fields (metadata_fields now entity m) old

  fields-Distinct : Distinct (metadata_fields now entity m)
  unfolding metadata_fields has text_eqb
  fields-Distinct =
      (refl, (refl, (refl, (refl, (refl, (refl, (refl, (refl, (refl, (refl, (refl, tt)))))))))))

  written : (k v : Text) → get k (metadata_fields now entity m) ≡ some v → get k after ≡ some v
  unfolding after
  written k v h =
      set_fields-get k (metadata_fields now entity m) old fields-Distinct
      ∙ ap (λ o. or_else o (get k old)) h

  stored_hash :
      (kb : KeyBuilder) (taken : Bool) (store : Text → Map Text Text)
      → store (metrics_submissions_metadata kb entity) ≡ old
      → hashes
          (store_submission_metadata kb now taken entity m)
          store
          (metrics_submissions_metadata kb entity)
        ≡ after
  unfolding after store_submission_metadata hashes
  stored_hash kb true store was = rw (beq_self (metrics_submissions_metadata kb entity), was) refl
  stored_hash kb false store was = rw (beq_self (metrics_submissions_metadata kb entity), was) refl

  -- Metadata whose numbers fit the 64 bits of their types, once stored by storeSubmissionMetadata, are read back
  -- under the entity's ID until they expire, whatever hash was there before; where strconv reads numbers
  -- of its range from their digits.
  pub get_submission_metadata-stored :
      (kb : KeyBuilder) (p : Parsers) (taken : Bool) (store : Text → Map Text Text)
      → store (metrics_submissions_metadata kb entity) ≡ old
      → IsStrconv p
      → m.epoch_id < 2 ^ 64
      → m.slot_id < 2 ^ 64
      → m.timestamp < 2 ^ 63
      → m.message_size < 2 ^ 63
      → get_submission_metadata kb p
          (λ key. found (hashes (store_submission_metadata kb now taken entity m) store key))
          entity
        ≡ ok entity m
  unfolding get_submission_metadata after metadata_fields get text_eqb read_metadata
      store_submission_metadata hashes
  get_submission_metadata-stored kb p taken store was law e f g h =
      let name = written (bytes "entityId") entity refl in
      let read : read_hash p (found after) ≡ ok entity m =
        rw
          (
            read_hash-read p (bytes "entityId") entity after name,
            name,
            written (bytes "epochId") (decimal m.epoch_id) refl,
            written (bytes "slotId") (decimal m.slot_id) refl,
            written (bytes "projectId") m.project_id refl,
            written (bytes "peerId") m.peer_id refl,
            written (bytes "timestamp") (decimal m.timestamp) refl,
            written (bytes "dataMarket") m.data_market refl,
            written (bytes "nodeVersion") m.node_version refl,
            written (bytes "messageSize") (decimal m.message_size) refl,
            written (bytes "topicName") m.topic_name refl,
            number_read p.parse_uint m.epoch_id (law.reads_uint m.epoch_id e),
            number_read p.parse_uint m.slot_id (law.reads_uint m.slot_id f),
            number_read p.parse_int m.timestamp (law.reads_int m.timestamp g),
            number_read p.atoi m.message_size (law.reads_size m.message_size h),
          )
          refl in
      let stored : hashes (store_submission_metadata kb now taken entity m) store
            (metrics_submissions_metadata kb entity)
          ≡ after =
        stored_hash kb taken store was in
      ap (λ x. read_hash p (found x)) stored ∙ read
