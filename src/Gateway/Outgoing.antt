-- ===== src/Gateway/Outgoing.antt =====
-- cmd/p2p-gateway/main.go: the messages of the broadcast queue, and the presence of validators.
use snapshot_sequencer_valid.Base.{
  ℕ, ◌*◌, ◌||◌, Text, text_eq, bytes, Option, none, some, List, [], ◌∷◌, get, if◌then◌else◌, ◌==◌,
}
use snapshot_sequencer_valid.Json.{Json, null, as_string, member}
use snapshot_sequencer_valid.Votes.{or_nil}
use snapshot_sequencer_valid.Redis.Command.{Command, set}
use snapshot_sequencer_valid.Redis.GlobalKeys.{validator_active}
use snapshot_sequencer_valid.Gateway.{Payload, seen}

pub data Topic : Type 0 where
  batch_topic presence_topic : Topic

unfoldable pub topic_of : Text → Option Topic
topic_of t =
    if t == bytes "batch" || t == bytes "finalized_batch"
    then some batch_topic
    else if t == bytes "presence"
    then some presence_topic
    else none

value_of : Option Json → Json
value_of none = null
value_of (some v) = v

-- What goes out for an element of the queue: the topic and the text, if its type is known. `marshal` is json.Marshal.
unfoldable pub handle_outgoing_message :
    (Json → Text) → Option (List (Text × Json)) → Option (Topic × Text)
unfolding topic_of get member value_of
handle_outgoing_message marshal none = none
handle_outgoing_message marshal (some msg) =
    elim (topic_of (or_nil (member as_string (bytes "type") msg))) [
      | none ↦ none
      | some topic ↦ some (topic, marshal (value_of (get (bytes "data") msg)))
    ]

unfoldable pub handle_validator_presence : ℕ → Text → List (Command Payload)
handle_validator_presence now validator = set (validator_active validator) (seen now) (5 * 60) ∷ []
