-- ===== src/Gateway/Submissions/Wrapped.antt =====
-- What the dequeuer takes out of the queue of what the gateway puts into it.
use snapshot_sequencer_valid.Base.{
  map_option, ltb, ◌&&◌, true, Map, All, Distinct, has, ℕ, Text, text_eq, bytes, text_eqb, Bool,
  Option, some, List, [], ◌∷◌, get, ◌≡◌, refl, arith,
}
use snapshot_sequencer_valid.Json.{Json, str}
use snapshot_sequencer_valid.Redis.Command.{Command, lpush}
use snapshot_sequencer_valid.Redis.Keys.{KeyBuilder, submission_queue}
use snapshot_sequencer_valid.Sequencer.Messages.{unwrap, unwrap_fields}
use snapshot_sequencer_valid.Gateway.{SubmissionMessage, Payload, raw}
use snapshot_sequencer_valid.Gateway.Submissions.{
  handle_submission_message, store_submission_metadata, submission_with_metadata,
}

-- The texts that the commands push, with their queues.
abbrev pub pushed : List (Command Payload) → List (Text × Text)
pushed [] = []
pushed (lpush queue (raw text) ∷ rest) = (queue, text) ∷ pushed rest
pushed (_ ∷ rest) = pushed rest

abbrev pub is_ascii : Text → Bool
is_ascii [] = true
is_ascii (c ∷ s) = ltb c 128 && is_ascii s

-- What encoding/json documents of maps of strings: where their texts are UTF-8, the map is read back, its fields in
-- some order.
pub record IsJson (valid : Text → Bool) (marshal : Map Text Text → Text)
    (as_object : Text → Option (List (Text × Json))) : Type 0 where
  pub ascii : (s : Text) → is_ascii s ≡ true → valid s ≡ true
  pub reads_back :
      (m : Map Text Text)
      → Distinct m
      → All (λ f. (valid f.0 ≡ true) × (valid f.1 ≡ true)) m
      → (fields : List (Text × Json)) × (as_object (marshal m) ≡ some fields)
        × ((k : Text) → get k fields ≡ map_option str (get k m))

-- Each submission that the gateway takes from a peer, of valid UTF-8 as the peer's ID, is pushed once, to the
-- submission queue, as a text that the dequeuer unwraps to the message and its peer; where json reads
-- back maps of strings that it wrote.
pub handle_submission_message-unwrap :
    (kb : KeyBuilder) (now : ℕ) (valid : Text → Bool) (marshal : Map Text Text → Text)
    (taken : Bool) (decoded : Option SubmissionMessage) (message peer topic : Text)
    (as_object : Text → Option (List (Text × Json)))
    → IsJson valid marshal as_object
    → valid message ≡ true
    → valid peer ≡ true
    → (text : Text) × (pushed
          (handle_submission_message kb now marshal taken decoded message peer topic)
        ≡ (submission_queue kb, text) ∷ [])
      × (unwrap as_object text ≡ (message, peer))
unfolding handle_submission_message store_submission_metadata submission_with_metadata unwrap
    unwrap_fields get has text_eqb
handle_submission_message-unwrap kb now valid marshal taken decoded message peer topic as_object law
      good good' =
    let m = submission_with_metadata peer message in
    let (fields, e, named) =
      law.reads_back m (refl, (refl, tt))
        ((law.ascii (bytes "peer_id") refl, good'), ((law.ascii (bytes "data") refl, good), tt)) in
    (marshal m, ground arith, rw (e, unwrap, named (bytes "peer_id"), named (bytes "data")) refl)
