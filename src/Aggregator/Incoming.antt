-- ===== src/Aggregator/Incoming.antt =====
-- The keys of the batches of other validators, in cmd/aggregator/main.go: `extractValidatorIDs`, and
-- the loop of `aggregateEpoch` that builds them.
use snapshot_sequencer_valid.Base.{
  ◌∙◌, inl, inr, Bool-cases, Text, text_eq, bytes, List, [], ◌∷◌, if◌then◌else◌, ◌==◌, ◌≡◌, refl,
  All, ap,
}
use snapshot_sequencer_valid.Redis.Join.{split, Plain, split-join}
use snapshot_sequencer_valid.Redis.Keys.{KeyBuilder, incoming_batch}

-- The sixth segment of each key that has one.
unfoldable pub extract_validator_ids : List Text → List Text
unfolding split
extract_validator_ids [] = []
extract_validator_ids (key ∷ keys) =
    let rest = extract_validator_ids keys in
    elim (split key) [ a ∷ b ∷ c ∷ d ∷ e ∷ f ∷ more ↦ f ∷ rest | _ ↦ rest ]

-- The keys of the validators of an epoch but our own.
unfoldable pub incoming_keys : KeyBuilder → Text → Text → List Text → List Text
unfolding incoming_batch
incoming_keys kb own epoch [] = []
incoming_keys kb own epoch (id ∷ ids) =
    let rest = incoming_keys kb own epoch ids in
    if id == own then rest else incoming_batch kb epoch id ∷ rest

abbrev pub others : Text → List Text → List Text
others own [] = []
others own (id ∷ ids) = let rest = others own ids in if id == own then rest else id ∷ rest

extract-cons :
    (key a b c d e f : Text) (keys : List Text)
    → split key ≡ a ∷ b ∷ c ∷ d ∷ e ∷ f ∷ []
    → extract_validator_ids (key ∷ keys) ≡ f ∷ extract_validator_ids keys
unfolding extract_validator_ids
extract-cons key a b c d e f keys h = rw (extract_validator_ids, h) refl

split-incoming_batch :
    (kb : KeyBuilder) (epoch id : Text)
    → Plain kb.protocol_state
    → Plain kb.data_market
    → Plain epoch
    → Plain id
    → split (incoming_batch kb epoch id)
      ≡ kb.protocol_state ∷ kb.data_market ∷ bytes "incoming" ∷ bytes "batch" ∷ epoch ∷ id ∷ []
unfolding incoming_batch
split-incoming_batch kb epoch id p m e h =
    split-join kb.protocol_state
      (kb.data_market ∷ bytes "incoming" ∷ bytes "batch" ∷ epoch ∷ id ∷ [])
      (p, (m, (incoming_plain, (batch_plain, (e, (h, tt))))))
  where
    incoming_plain : Plain (bytes "incoming")
    incoming_plain = (refl, (refl, (refl, (refl, (refl, (refl, (refl, (refl, tt))))))))

    batch_plain : Plain (bytes "batch")
    batch_plain = (refl, (refl, (refl, (refl, (refl, tt)))))

-- The identifiers that are extracted from the keys of an epoch are those of the other validators, in
-- their order, where no segment of a key contains the separator.
pub extract-incoming_keys :
    (kb : KeyBuilder) (own epoch : Text) (ids : List Text)
    → Plain kb.protocol_state
    → Plain kb.data_market
    → Plain epoch
    → All Plain ids
    → extract_validator_ids (incoming_keys kb own epoch ids) ≡ others own ids
unfolding incoming_keys extract_validator_ids
extract-incoming_keys kb own epoch [] p m e h = refl
extract-incoming_keys kb own epoch (id ∷ ids) p m e h = elim (Bool-cases (id == own)) [
  | inl ours ↦ rw ours (extract-incoming_keys kb own epoch ids p m e h.1)
  | inr other ↦ rw other (
      extract-cons (incoming_batch kb epoch id) kb.protocol_state kb.data_market (bytes "incoming")
        (bytes "batch") epoch id (incoming_keys kb own epoch ids)
        (split-incoming_batch kb epoch id p m e h.0)
      ∙ ap (◌∷◌ id) (extract-incoming_keys kb own epoch ids p m e h.1))
]
