-- ===== src/Sequencer/Component.antt =====
-- Which component a sequencer is, and the small helpers of cmd/unified/main.go.
use snapshot_sequencer_valid.Base.{
  ℕ, Text, bytes, Bool, ltb, leb, length, take, ◌++◌, if◌then◌else◌, [], ◌∷◌, count_if,
}

-- detectPrimaryComponent: the component that is enabled, the last of them if there are more.
unfoldable pub detect_primary_component : Bool → Bool → Bool → Bool → Bool → Text
detect_primary_component listener dequeuer finalizer batch_aggregation event_monitor =
    let enabled =
      count_if (λ b. b)
        (listener ∷ dequeuer ∷ finalizer ∷ batch_aggregation ∷ event_monitor ∷ []) in
    let primary =
      (if event_monitor
        then bytes "event-monitor"
        else if batch_aggregation
        then bytes "batch-aggregator"
        else if finalizer
        then bytes "finalizer"
        else if dequeuer
        then bytes "dequeuer"
        else if listener
        then bytes "listener"
        else bytes "unknown") in
    if ltb 1 enabled then bytes "multi-component" else primary

unfoldable pub truncate_string : Text → ℕ → Text
truncate_string s max_len = if leb (length s) max_len then s else take max_len s ++ bytes "..."

-- min
abbrev pub min : ℕ → ℕ → ℕ
min a b = if ltb a b then a else b
