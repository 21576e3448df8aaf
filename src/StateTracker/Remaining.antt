-- ===== src/StateTracker/Remaining.antt =====
-- What the tracker says of the time that a submission window has left.
use snapshot_sequencer_valid.Base.{
  ℕ, Text, text_eq, text_eqb, bytes, decimal, none, some, [], ◌∷◌, Map, get, has, Distinct, or_else,
  ◌≡◌, refl, arith,
}
use snapshot_sequencer_valid.Redis.Hash.{set_fields, set_fields-get}
use snapshot_sequencer_valid.StateTracker.Epochs.{
  or_default, parsed, began_at, is_open, submission, Reads, Parsers, duration_of, phase_and_time,
  status_of, active_status,
}

-- The fields that StartSubmissionWindow writes into the hash of an epoch; `duration` is the text of the seconds.
abbrev pub opened_fields : ℕ → Text → Text → ℕ → Map Text Text
opened_fields now market duration start_block =
    (bytes "status", bytes "open")
    ∷ (bytes "start", decimal now)
    ∷ (bytes "data_market", market)
    ∷ (bytes "duration", duration)
    ∷ (bytes "start_block", decimal start_block)
    ∷ []

opened_fields-Distinct :
    (now : ℕ) (market duration : Text) (start_block : ℕ)
    → Distinct (opened_fields now market duration start_block)
unfolding has text_eqb
opened_fields-Distinct now market duration start_block = (refl, (refl, (refl, (refl, (refl, tt)))))

module _ (began start_block d : ℕ) (market duration : Text) (old : Map Text Text) where
  written :
      (k : Text)
      → get k (set_fields (opened_fields began market duration start_block) old)
        ≡ or_else (get k (opened_fields began market duration start_block)) (get k old)
  written k =
      set_fields-get k (opened_fields began market duration start_block) old
        (opened_fields-Distinct began market duration start_block)

  -- Of an active epoch whose window is open, the tracker says at every time that the whole window is left: the hash
  -- has its beginning in another field than the tracker reads, where its older fields do not have this one.
  pub active_status-whole :
      (p : Parsers) (r : Reads) (now : ℕ) (first : Text)
      → p.parse_float duration ≡ some d
      → get (bytes "timestamp") old ≡ none
      → r.info_of (p.format_epoch_id first)
        ≡ some (set_fields (opened_fields began market duration start_block) old)
      → ((active_status p r now first).phase ≡ submission)
        × ((active_status p r now first).time_remaining ≡ d)
  unfolding active_status status_of phase_and_time duration_of is_open began_at parsed or_default
      get text_eqb
  active_status-whole p r now first parses absent stored =
      rw
        (
          stored,
          written (bytes "status"),
          written (bytes "duration"),
          written (bytes "timestamp"),
          absent,
          parses,
        )
        (refl, omega arith)
