-- ===== src/Aggregator/Epoch/Outcomes.antt =====
-- What an aggregation of an epoch stores and removes, and when a window is opened.
use snapshot_sequencer_valid.Base.{
  sym, ◌∙◌, Option-cases, ℕ, Text, text_eq, nat_eq, Bool, true, false, none, some, List, [], ◌∷◌,
  has, put, has-put, beq_self, if◌then◌else◌, ◌≡◌, refl, Bool-cases, inl, inr,
}
use snapshot_sequencer_valid.Redis.Command.{Command, Reply, found, missing, failed, set}
use snapshot_sequencer_valid.Redis.Keys.{batch_aggregated}
use snapshot_sequencer_valid.Aggregator.Merge.{Visits}
use snapshot_sequencer_valid.Aggregator.Epoch.{
  epoch_keys, Aggregator, Answers, Payload, Strconv, aggregated, aggregate_epoch, aggregated_batch,
  store_aggregated, after_store, day_seconds, start_aggregation_window, parse_epoch_id,
}

-- The commands remove a key.
abbrev pub removes : List (Command Payload) → Bool
removes [] = false
removes (Command.del keys ∷ rest) = true
removes (_ ∷ rest) = removes rest

-- The source batches of an epoch are removed only where the epoch was not aggregated before, Redis
-- has taken the aggregated batch, and the first command was to store it.
pub aggregate_epoch-removes :
    (sha256 : Text → List ℕ) (v : Visits) (c : Strconv) (epoch : Text) (a : Aggregator)
    (answers : Answers)
    → removes (aggregate_epoch sha256 v c epoch a answers) ≡ true
    → (answers.exists ≡ missing)
      × (answers.set_succeeds ≡ true)
      × ((rest : List (Command Payload)) × (aggregate_epoch sha256 v c epoch a answers
            ≡ set
                (batch_aggregated a.key_builder epoch)
                (aggregated (aggregated_batch sha256 v c epoch a answers))
                day_seconds
              ∷ rest))
unfolding aggregate_epoch store_aggregated
aggregate_epoch-removes sha256 v c epoch a answers h = by_status answers.exists refl
  where
    after : List (Command Payload)
    after =
        after_store sha256 v c epoch a answers (epoch_keys epoch a answers.validator_ids)
          (aggregated_batch sha256 v c epoch a answers)

    goal : Reply (Unit {0}) → Type 0
    goal r =
        (r ≡ missing)
        × (answers.set_succeeds ≡ true)
        × ((rest : List (Command Payload)) × (aggregate_epoch sha256 v c epoch a answers
              ≡ set (batch_aggregated a.key_builder epoch)
                  (aggregated (aggregated_batch sha256 v c epoch a answers)) day_seconds
                ∷ rest))

    by_status : (r : Reply (Unit {0})) → answers.exists ≡ r → goal answers.exists
    by_status (found n) e = let none_sent : false ≡ true = rw e at h in absurd (cc)
    by_status failed e = let none_sent : false ≡ true = rw e at h in absurd (cc)
    by_status missing e = elim (Bool-cases answers.set_succeeds) [
      | inl taken ↦ (e, taken, (after, rw (e, taken) refl))
      | inr refused ↦ let none_sent : false ≡ true = rw (e, refused) at h in absurd (cc)
    ]

start_none :
    (c : Strconv) (epoch : Text) (a : Aggregator)
    → parse_epoch_id c epoch ≡ none
    → start_aggregation_window c epoch a ≡ a
unfolding start_aggregation_window
start_none c epoch a h = rw (start_aggregation_window, h) refl

start_known :
    (c : Strconv) (epoch : Text) (a : Aggregator) (id : ℕ)
    → parse_epoch_id c epoch ≡ some id
    → start_aggregation_window c epoch a ≡ (
        if has id a.epoch_timers
        then a
        else record a { epoch_timers = put id epoch a.epoch_timers })
unfolding start_aggregation_window
start_known c epoch a id h = rw (start_aggregation_window, h) refl

-- A window that is open is not started again, however the epoch is written: another text of the same
-- number changes nothing.
pub start_aggregation_window_shared :
    (c : Strconv) (first second : Text) (a : Aggregator)
    → parse_epoch_id c first ≡ parse_epoch_id c second
    → start_aggregation_window c second (start_aggregation_window c first a)
      ≡ start_aggregation_window c first a
start_aggregation_window_shared c first second a h = elim (Option-cases (parse_epoch_id c first)) [
  | inl bad ↦ start_none c second (start_aggregation_window c first a) (sym h ∙ bad)
  | inr (id, good) ↦
      start_known c second (start_aggregation_window c first a) id (sym h ∙ good)
      ∙ rw (opened id good) refl
]
  where
    opened :
        (id : ℕ)
        → parse_epoch_id c first ≡ some id
        → has id (start_aggregation_window c first a).epoch_timers ≡ true
    opened id good = elim (Bool-cases (has id a.epoch_timers)) [
      | inl there ↦ rw (start_known c first a id good, there) there
      | inr new ↦ rw (start_known c first a id good, new, has-put, beq_self) refl
    ]
