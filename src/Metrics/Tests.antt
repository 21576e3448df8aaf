-- ===== src/Metrics/Tests.antt =====
-- Runs of metrics with whole numbers for floats, and the theorems at them.
use snapshot_sequencer_valid.Base.{
  ℕ, ◌+◌, ◌/◌, text_eq, bytes, none, some, List, [], ◌∷◌, map, leb, ltb, ◌≡◌, refl, arith,
}
use snapshot_sequencer_valid.Metrics.{u64}
use snapshot_sequencer_valid.Metrics.Histogram.{new_histogram, observe_all, export_buckets}
use snapshot_sequencer_valid.Metrics.Histogram.Cumulative.{
  Ascending, at_most, export_buckets-at_most,
}
use snapshot_sequencer_valid.Metrics.Registry.{
  MetricConfig, Metric, counter, find, get_or_create, get_or_create_at, get_or_create-race,
}
use snapshot_sequencer_valid.Metrics.Series.{
  TimeSeries, TimeSeriesPoint, Floats, new_time_series, add_all, query, round_to, second,
}
use snapshot_sequencer_valid.Metrics.Series.Counted.{counts, within, added, query_counts}

abbrev bounds : List ℕ
bounds = 5 ∷ 10 ∷ []

bounds-Ascending : Ascending leb bounds
bounds-Ascending = ((λ x h. ground arith, tt), (tt, tt))

abbrev observations : List (ℕ × ℕ)
observations = (1, 5) ∷ (2, 7) ∷ (3, 12) ∷ []

export_buckets-at_most_example :
    export_buckets (
      observe_all leb
        (λ a b. a + b)
        0
        observations
        (new_histogram leb (λ a b. a + b) 0 (λ bs. bs) bounds))
    ≡ (map (λ b. (b, u64 (at_most leb observations b))) bounds, u64 3)
export_buckets-at_most_example =
    export_buckets-at_most leb (λ a b. a + b) 0 (λ bs. bs) bounds observations bounds-Ascending

cumulative_counts : (at_most leb observations 5 ≡ 1) × (at_most leb observations 10 ≡ 2)
cumulative_counts = (refl, refl)

abbrev config : MetricConfig
config = record { name = bytes "n"; kind = some counter; labels = [] }

get_or_create-race_example :
    ((m : Metric) × ((get_or_create (λ l. l) config []).0 ≡ some m)
      × (find (λ l. l) (bytes "n") [] (get_or_create (λ l. l) config []).1 ≡ some m))
    × (find (λ l. l) (bytes "n") [] [] ≡ none
        → (get_or_create_at (λ l. l) config [] (get_or_create (λ l. l) config []).1).0 ≡ none)
get_or_create-race_example = get_or_create-race (λ l. l) config counter [] refl

abbrev floats : Floats ℕ
floats = record {
  nil = 0;
  plus = λ a b. a + b;
  less = ltb;
  divide = λ a n. a / n;
  sort_floats = λ vs. vs;
  percentile = λ vs p. 0;
}

query_counts_example :
    (ts : TimeSeries ℕ) × (points : List (TimeSeriesPoint ℕ)) × (add_all floats
        ((7, 61) ∷ (8, 65) ∷ (9, 70) ∷ [])
        (new_time_series (bytes "s") 10_000_000_000 0)
      ≡ some ts)
    × (query floats 60 69 ts ≡ some points)
    × (counts floats points
        ≡ added floats
            (10_000_000_000 / second)
            (within floats
              (round_to (10_000_000_000 / second) 60)
              (round_to (10_000_000_000 / second) 69))
            ((7, 61) ∷ (8, 65) ∷ (9, 70) ∷ []))
query_counts_example =
    query_counts floats (bytes "s") 10_000_000_000 0 ((7, 61) ∷ (8, 65) ∷ (9, 70) ∷ []) 60 69
      (omega arith)
