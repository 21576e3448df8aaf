-- ===== src/Aggregator/Stream/Acknowledged.antt =====
-- Which messages of the stream are acknowledged.
use snapshot_sequencer_valid.Base.{
  Option-cases, nat_eq, ℕ, Text, text_eq, bytes, Bool, true, false, ◌&&◌, Option, none, some, List,
  [], ◌∷◌, ◌++◌, get, has, if◌then◌else◌, ◌==◌, ◌≡◌, refl, ap, ◌∙◌, Bool-cases, inl, inr,
}
use snapshot_sequencer_valid.Redis.Command.{Command, Reply, found, missing, failed, xack}
use snapshot_sequencer_valid.Redis.Keys.{KeyBuilder, batch_aggregated}
use snapshot_sequencer_valid.Aggregator.Epoch.{
  process_fields, parse_epoch_id, Aggregator, Strconv, StreamMessage, MessageError, Payload,
  process_stream_message, move_to_dead_letter_queue, open_if_new, start_aggregation_window,
}
use snapshot_sequencer_valid.Aggregator.Stream.{after_message, consume_stream_messages}

abbrev is_some {ℓ} : {A : Type ℓ} → Option A → Bool
is_some none = false
is_some (some a) = true

abbrev pub check_fails : Reply (Unit {0}) → Bool
check_fails failed = true
check_fails _ = false

unfoldable pub fields_fail :
    KeyBuilder
    → (Text → Reply (Unit {0}))
    → Option Text
    → Option Text
    → Option Text
    → Option Text
    → Option Text
    → Bool
fields_fail kb exists (some epoch) (some _) (some _) (some _) (some type) =
    (type == bytes "validator_batch") && check_fails (exists (batch_aggregated kb epoch))
fields_fail kb exists _ _ _ _ _ = true

-- A message that lacks a field, or one of a validator's batch where Redis does not say whether its epoch is
-- aggregated.
unfoldable pub fails : KeyBuilder → StreamMessage × (Text → Reply (Unit {0})) → Bool
unfolding get fields_fail
fails kb (m, exists) =
    fields_fail kb exists (get (bytes "epoch") m.values) (get (bytes "validator") m.values)
      (get (bytes "batch_key") m.values) (get (bytes "timestamp") m.values)
      (get (bytes "type") m.values)

-- What the processing of a message gives: an error or none, and the aggregator under the same keys.
abbrev Gives : Option MessageError × Aggregator → Bool → Aggregator → Type 0
Gives r b a = (is_some r.0 ≡ b) × (r.1.key_builder ≡ a.key_builder)

window-key_builder :
    (c : Strconv) (epoch : Text) (a : Aggregator)
    → (start_aggregation_window c epoch a).key_builder ≡ a.key_builder
unfolding start_aggregation_window
window-key_builder c epoch a = elim (Option-cases (parse_epoch_id c epoch)) [
  | inl e ↦ rw (start_aggregation_window, e) refl
  | inr (id, e) ↦ elim (Bool-cases (has id a.epoch_timers)) [
    | inl open_already ↦ rw (start_aggregation_window, e, open_already) refl
    | inr new ↦ rw (start_aggregation_window, e, new) refl
  ]
]

opened :
    (c : Strconv) (r : Reply (Unit {0})) (epoch : Text) (a : Aggregator)
    → Gives (open_if_new c r epoch a) (check_fails r) a
unfolding open_if_new
opened c failed epoch a = (refl, refl)
opened c missing epoch a = (refl, window-key_builder c epoch a)
opened c (found n) epoch a = (refl, refl)

fields_fail-right :
    (c : Strconv) (exists : Text → Reply (Unit {0})) (a : Aggregator)
    (epoch validator key timestamp type : Option Text)
    → Gives
        (process_fields c exists a epoch validator key timestamp type)
        (fields_fail a.key_builder exists epoch validator key timestamp type)
        a
unfolding process_fields fields_fail
fields_fail-right c exists a none validator key timestamp type = (refl, refl)
fields_fail-right c exists a (some e) none key timestamp type = (refl, refl)
fields_fail-right c exists a (some e) (some v) none timestamp type = (refl, refl)
fields_fail-right c exists a (some e) (some v) (some k) none type = (refl, refl)
fields_fail-right c exists a (some e) (some v) (some k) (some t) none = (refl, refl)
fields_fail-right c exists a (some e) (some v) (some k) (some t) (some type) =
    elim (Bool-cases (type == bytes "validator_batch")) [
      | inl batch ↦ rw batch (opened c (exists (batch_aggregated a.key_builder e)) e a)
      | inr other ↦ rw other (refl, refl)
    ]

-- The messages that the commands acknowledge.
unfoldable pub acknowledged : List (Command Payload) → List Text
acknowledged [] = []
acknowledged (xack _ _ id ∷ rest) = id ∷ acknowledged rest
acknowledged (_ ∷ rest) = acknowledged rest

-- The messages that fail, in their order.
unfoldable pub failing : KeyBuilder → List (StreamMessage × (Text → Reply (Unit {0}))) → List Text
unfolding fails
failing kb [] = []
failing kb (m ∷ rest) = if fails kb m then m.0.id ∷ failing kb rest else failing kb rest

after-acknowledged :
    (now : ℕ) (stream group : Text) (m : StreamMessage) (e : Option MessageError)
    (commands : List (Command Payload))
    → acknowledged (after_message now stream group m e ++ commands)
      ≡ (if is_some e then m.id ∷ acknowledged commands else acknowledged commands)
unfolding after_message move_to_dead_letter_queue acknowledged
after-acknowledged now stream group m none commands = refl
after-acknowledged now stream group m (some e) commands = refl

-- Of the messages of a read those are acknowledged that fail, in their order, and no others: a message
-- that is processed stays pending.
pub consume-acknowledged :
    (c : Strconv) (now : ℕ) (stream group : Text)
    (messages : List (StreamMessage × (Text → Reply (Unit {0})))) (a : Aggregator)
    → acknowledged (consume_stream_messages c now stream group messages a).1
      ≡ failing a.key_builder messages
unfolding consume_stream_messages process_stream_message fails failing acknowledged
consume-acknowledged c now stream group [] a = refl
consume-acknowledged c now stream group ((m, exists) ∷ rest) a =
    let (e, a') = process_stream_message c exists m a in
    let commands = (consume_stream_messages c now stream group rest a').1 in
    let right =
      fields_fail-right c exists a (get (bytes "epoch") m.values) (get (bytes "validator") m.values)
        (get (bytes "batch_key") m.values) (get (bytes "timestamp") m.values)
        (get (bytes "type") m.values) in
    after-acknowledged now stream group m e commands
    ∙ ap (λ b. if b then m.id ∷ acknowledged commands else acknowledged commands) right.0
    ∙ ap (λ ids. if fails a.key_builder (m, exists) then m.id ∷ ids else ids)
        (consume-acknowledged c now stream group rest a' ∙ ap (λ kb. failing kb rest) right.1)
