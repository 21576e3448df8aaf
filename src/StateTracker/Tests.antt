-- ===== src/StateTracker/Tests.antt =====
-- Runs of the tracker on concrete timelines, and the theorems at them.
use snapshot_sequencer_valid.Base.{
  ◌+◌, ◌*◌, text_eq, text_eqb, bytes, false, none, some, [], ◌∷◌, get, ◌≡◌, refl,
}
use snapshot_sequencer_valid.Redis.Join.{split, push_byte}
use snapshot_sequencer_valid.Redis.Hash.{set_fields}
use snapshot_sequencer_valid.StateTracker.{
  SortedSet, new_state_worker, listen, on_state_change, on_parts, process_simple_state_change,
}
use snapshot_sequencer_valid.StateTracker.Periods.{
  zcount, hour, hourly_breakdown, sum, at_hours, hourly_breakdown_sum,
}
use snapshot_sequencer_valid.StateTracker.Epochs.{Reads, Parsers, submission, active_status}
use snapshot_sequencer_valid.StateTracker.Remaining.{opened_fields, active_status-whole}

abbrev timeline : SortedSet
timeline = (10, bytes "open:1") ∷ (3610, bytes "close:1") ∷ (7000, bytes "open:2") ∷ []

hourly_breakdown_sum_example :
    sum (hourly_breakdown 2 10 timeline)
    ≡ zcount 10 (10 + 2 * hour) timeline + at_hours 1 10 timeline
hourly_breakdown_sum_example = hourly_breakdown_sum 1 10 timeline

counted_twice : (sum (hourly_breakdown 2 10 timeline) ≡ 4) × (zcount 10 7210 timeline ≡ 3)
unfolding sum hourly_breakdown zcount
counted_twice = (refl, refl)

opens :
    (listen (bytes "epoch:open:1" ∷ bytes "epoch:closed:1" ∷ []) (new_state_worker 0)).epochs ≡ 1
unfolding listen on_state_change on_parts process_simple_state_change new_state_worker split
    push_byte text_eqb
opens = refl

abbrev parsers : Parsers
parsers = record { format_epoch_id = λ s. s; parse_int = λ s. none; parse_float = λ s. some 30 }

abbrev reads : Reads
unfolding set_fields
reads = record {
  active_epochs = bytes "1" ∷ [];
  info_of = λ epoch. some (set_fields (opened_fields 100 (bytes "m") (bytes "30") 7) []);
  level1_exists = λ epoch. false;
  level2_exists = λ epoch. false;
  processed_of = λ epoch. 0;
  latest_epochs = [];
}

active_status-whole_example :
    ((active_status parsers reads 125 (bytes "1")).phase ≡ submission)
    × ((active_status parsers reads 125 (bytes "1")).time_remaining ≡ 30)
unfolding reads get
active_status-whole_example =
    active_status-whole 100 7 30 (bytes "m") (bytes "30") [] parsers reads 125 (bytes "1") refl refl
      refl
