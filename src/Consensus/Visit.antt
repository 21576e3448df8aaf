-- ===== src/Consensus/Visit.antt =====
-- The order in which `range` visits a map: any order, each key once, with the map's value.
use snapshot_sequencer_valid.Base.{◌≡◌, Text, text_eq, Map, get, Distinct}

-- What the language says of an order, for a map of distinct keys.
abbrev pub IsVisit {ℓ} : {A : Type ℓ} → (Map Text A → Map Text A) → Type ℓ
IsVisit visit =
    (m : Map Text _) → Distinct m → Distinct (visit m) × ((k : Text) → get k (visit m) ≡ get k m)
