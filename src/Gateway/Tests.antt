-- ===== src/Gateway/Tests.antt =====
-- Runs of the gateway on concrete submissions, and the theorems at them.
use snapshot_sequencer_valid.Base.{
  zero, suc, map_option, Bool-cases, inl, inr, ◌==◌, arith, ℕ, Text, text_eq, text_eqb, bytes,
  decimal, value, value-decimal, true, Option, none, some, List, [], ◌∷◌, Map, get, ◌≡◌, refl, ap,
}
use snapshot_sequencer_valid.Json.{Json, str, num}
use snapshot_sequencer_valid.Redis.Command.{found}
use snapshot_sequencer_valid.Redis.Keys.{KeyBuilder, submission_queue}
use snapshot_sequencer_valid.Sequencer.Messages.{unwrap}
use snapshot_sequencer_valid.Gateway.{SubmissionMetadata}
use snapshot_sequencer_valid.Gateway.Submissions.{
  ok, Parsers, store_submission_metadata, get_submission_metadata, handle_submission_message,
}
use snapshot_sequencer_valid.Gateway.Submissions.Metadata.{
  IsStrconv, hashes, get_submission_metadata-stored,
}
use snapshot_sequencer_valid.Gateway.Submissions.Wrapped.{
  IsJson, pushed, handle_submission_message-unwrap,
}
use snapshot_sequencer_valid.Gateway.Outgoing.{handle_outgoing_message, topic_of, batch_topic}
use snapshot_sequencer_valid.Gateway.Streams.{
  ensure_stream_exists, make_stream, has_group, check_groups,
}

abbrev kb : KeyBuilder
kb = record { protocol_state = bytes "p"; data_market = bytes "m" }

abbrev seen_submission : SubmissionMetadata
seen_submission = record {
  epoch_id = 12;
  slot_id = 3;
  project_id = bytes "proj";
  peer_id = bytes "12D3KooW";
  timestamp = 1700;
  data_market = bytes "m";
  node_version = [];
  message_size = 40;
  topic_name = bytes "t";
}

abbrev parse : Text → Option ℕ
unfolding value
parse s = some (value 0 s)

parse-decimal : (n : ℕ) → parse (decimal n) ≡ some n
unfolding parse
parse-decimal n = ap some (value-decimal n)

abbrev parsers : Parsers
parsers = record { parse_uint = parse; parse_int = parse; atoi = parse }

parsers-IsStrconv : IsStrconv parsers
parsers-IsStrconv = record {
  reads_uint = λ n _. parse-decimal n;
  reads_int = λ n _. parse-decimal n;
  reads_size = λ n _. parse-decimal n;
}

get_submission_metadata-stored_example :
    get_submission_metadata kb parsers
      (λ key.
        found (
          hashes
            (store_submission_metadata kb 1701 true (bytes "e") seen_submission)
            (λ k. [])
            key))
      (bytes "e")
    ≡ ok (bytes "e") seen_submission
get_submission_metadata-stored_example =
    get_submission_metadata-stored 1701 (bytes "e") seen_submission [] kb parsers true (λ k. [])
      refl parsers-IsStrconv (omega arith) (omega arith) (omega arith) (omega arith)

-- A map as its texts, each of them with its bytes one higher and a 0 at its end.
ended : Text → Text → Text
ended [] rest = 0 ∷ rest
ended (c ∷ s) rest = suc c ∷ ended s rest

unfoldable marshal : Map Text Text → Text
unfolding ended
marshal [] = []
marshal ((k, v) ∷ m) = ended k (ended v (marshal m))

begin_with : ℕ → List Text → List Text
begin_with c [] = []
begin_with c (s ∷ ss) = (c ∷ s) ∷ ss

texts : Text → List Text
unfolding begin_with
texts [] = []
texts (zero ∷ s) = [] ∷ texts s
texts (suc c ∷ s) = begin_with c (texts s)

pairs : List Text → List (Text × Json)
pairs [] = []
pairs (_ ∷ []) = []
pairs (k ∷ v ∷ rest) = (k, str v) ∷ pairs rest

unfoldable as_object : Text → Option (List (Text × Json))
unfolding texts pairs
as_object s = some (pairs (texts s))

texts-ended : (s rest : Text) → texts (ended s rest) ≡ s ∷ texts rest
unfolding texts ended begin_with
texts-ended [] rest = refl
texts-ended (c ∷ s) rest = ap (begin_with c) (texts-ended s rest)

pairs-marshal :
    (k : Text) (m : Map Text Text) → get k (pairs (texts (marshal m))) ≡ map_option str (get k m)
unfolding marshal texts pairs get
pairs-marshal k [] = refl
pairs-marshal k ((j, v) ∷ m) =
    rw (texts-ended j (ended v (marshal m)), texts-ended v (marshal m), pairs)
      (elim (Bool-cases (j == k)) [
        | inl same ↦ rw same refl
        | inr other ↦ rw other (pairs-marshal k m)
      ])

marshal-IsJson : IsJson (λ s. true) marshal as_object
unfolding as_object
marshal-IsJson = record {
  ascii = λ s h. refl;
  reads_back = λ m d v. (pairs (texts (marshal m)), refl, λ k. pairs-marshal k m);
}

handle_submission_message-unwrap_example :
    (text : Text) × (pushed
        (handle_submission_message kb 5 marshal true none (bytes "hi") (bytes "p") (bytes "t"))
      ≡ (submission_queue kb, text) ∷ [])
    × (unwrap as_object text ≡ (bytes "hi", bytes "p"))
handle_submission_message-unwrap_example =
    handle_submission_message-unwrap kb 5 (λ s. true) marshal true none (bytes "hi") (bytes "p")
      (bytes "t") as_object marshal-IsJson refl refl

outgoing :
    handle_outgoing_message
      (λ v. bytes "x")
      (some ((bytes "type", str (bytes "finalized_batch")) ∷ (bytes "data", num 1) ∷ []))
    ≡ some (batch_topic, bytes "x")
unfolding handle_outgoing_message topic_of get text_eqb
outgoing = refl

created :
    ensure_stream_exists
      (record { info = true; make = true; list_groups = true; create = true })
      (bytes "g")
      (some (record { entries = bytes "1-0" ∷ []; groups = bytes "h" ∷ [] }))
    ≡ (true, some (record { entries = bytes "1-0" ∷ []; groups = bytes "h" ∷ bytes "g" ∷ [] }))
unfolding ensure_stream_exists check_groups make_stream has_group text_eqb
created = refl
