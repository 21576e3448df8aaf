-- ===== src/Metrics.antt =====
-- pkgs/metrics: the registry, the kinds of metrics, and time series. A float64 is a value of a type that is an
-- argument, with the comparison that the code makes of two; a counter is a uint64.
pub mod Registry
pub mod Histogram
pub mod Series
pub mod Tests
use snapshot_sequencer_valid.Base.{
  ℕ, ◌+◌, ◌-◌, ◌%◌, Bool, true, false, Option, none, some, List, [], ◌∷◌, ◌++◌, length, drop, ltb,
  if◌then◌else◌,
}

abbrev pub u64 : ℕ → ℕ
u64 n = n % 18_446_744_073_709_551_616

pub record MetricPoint {ℓ} (F : Type ℓ) : Type ℓ where
  pub timestamp : ℕ
  pub value : F

-- Only the last 1000 points are kept.
unfoldable pub keep_points {ℓ} :
    {F : Type ℓ} → List (MetricPoint F) → MetricPoint F → List (MetricPoint F)
keep_points points p =
    let all = points ++ p ∷ [] in
    if ltb 1000 (length all) then drop (length all - 1000) all else all

-- The points after a time.
unfoldable pub points_since {ℓ} : {F : Type ℓ} → ℕ → List (MetricPoint F) → List (MetricPoint F)
points_since since [] = []
points_since since (p ∷ ps) =
    let rest = points_since since ps in if ltb since p.timestamp then p ∷ rest else rest

pub record Counter {ℓ} (F : Type ℓ) : Type ℓ where
  pub value : ℕ
  pub points : List (MetricPoint F)

pub record Gauge {ℓ} (F : Type ℓ) : Type ℓ where
  pub value : F
  pub points : List (MetricPoint F)

-- A counter counts whole numbers; `whole` is the conversion of a float to uint64, none for a negative one.
module _ {ℓ} {F : Type ℓ} where
  unfoldable pub new_counter : Counter F
  new_counter = record { value = 0; points = [] }

  -- Add at a time.
  unfoldable pub add : (F → Option ℕ) → (ℕ → F) → ℕ → F → Counter F → Counter F
  unfolding keep_points
  add whole float now delta c = elim (whole delta) [
    | none ↦ c
    | some n ↦
        let value = u64 (c.value + n) in
        record {
          value = value;
          points = keep_points c.points (record { timestamp = now; value = float value });
        }
  ]

  unfoldable pub reset_counter : Counter F → Counter F
  reset_counter c = record { value = 0; points = [] }

  unfoldable pub set_gauge : ℕ → F → Gauge F → Gauge F
  unfolding keep_points
  set_gauge now v g = record {
    value = v;
    points = keep_points g.points (record { timestamp = now; value = v });
  }

  -- Gauge.Add, where no other goroutine comes between.
  unfoldable pub add_gauge : (F → F → F) → ℕ → F → Gauge F → Gauge F
  unfolding set_gauge
  add_gauge plus now delta g = set_gauge now (plus g.value delta) g

-- The events of a rate within its window, at the time of the last.
unfoldable pub recent : ℕ → List ℕ → List ℕ
recent cutoff [] = []
recent cutoff (t ∷ ts) = let rest = recent cutoff ts in if ltb cutoff t then t ∷ rest else rest

pub record Rate {ℓ} (F : Type ℓ) : Type ℓ where
  pub window : ℕ
  pub events : List ℕ
  pub last_rate : F
  pub last_update : ℕ
  pub points : List (MetricPoint F)

-- Mark; `per_window` divides a number of events by the seconds of the window.
unfoldable pub mark {ℓ} : {F : Type ℓ} → (ℕ → ℕ → F) → ℕ → Rate F → Rate F
unfolding recent keep_points
mark per_window now r =
    let events = recent (now - r.window) (r.events ++ now ∷ []) in
    let rate = per_window (length events) r.window in
    if ltb 0 (length events)
    then record r {
      events = events;
      last_rate = rate;
      last_update = now;
      points = keep_points r.points (record { timestamp = now; value = rate });
    }
    else record r { events = events }
