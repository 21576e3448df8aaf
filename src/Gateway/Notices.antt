-- ===== src/Gateway/Notices.antt =====
-- What the aggregator makes of the gateway's notices.
use snapshot_sequencer_valid.Base.{ℕ, Text, text_eq, text_eqb, get, ◌≡◌, refl}
use snapshot_sequencer_valid.Redis.Command.{Reply}
use snapshot_sequencer_valid.Redis.Keys.{KeyBuilder, batch_aggregated}
use snapshot_sequencer_valid.Aggregator.Stream.Acknowledged.{fails, fields_fail, check_fails}
use snapshot_sequencer_valid.Gateway.{notice_values}

-- A notice of the gateway fails at the aggregator only where Redis does not say whether its epoch is aggregated.
notice_fails :
    (kb : KeyBuilder) (now : ℕ) (epoch validator id : Text) (exists : Text → Reply (Unit {0}))
    → fails kb (record { id = id; values = notice_values kb now epoch validator }, exists)
      ≡ check_fails (exists (batch_aggregated kb epoch))
unfolding fails notice_values get text_eqb fields_fail
notice_fails kb now epoch validator id exists = refl
