-- ===== src/Metrics/Histogram.antt =====
-- pkgs/metrics/registry.go: Histogram.
pub mod Cumulative
use snapshot_sequencer_valid.Base.{
  ℕ, zero, suc, ◌+◌, Bool, List, [], ◌∷◌, ◌++◌, length, if◌then◌else◌,
}
use snapshot_sequencer_valid.Metrics.{u64, MetricPoint, keep_points}

pub record Histogram {ℓ} (F : Type ℓ) : Type ℓ where
  pub buckets : List F
  pub counts : List ℕ
  pub sum : F
  pub count : ℕ
  pub points : List (MetricPoint F)
  pub last_update : ℕ

unfoldable pub zeros {ℓ} : {F : Type ℓ} → List F → List ℕ
zeros [] = 0 ∷ []
zeros (_ ∷ bounds) = 0 ∷ zeros bounds

unfoldable pub increment_at : ℕ → List ℕ → List ℕ
increment_at n [] = []
increment_at zero (c ∷ cs) = u64 (c + 1) ∷ cs
increment_at (suc n) (c ∷ cs) = c ∷ increment_at n cs

unfoldable pub clear : List ℕ → List ℕ
clear [] = []
clear (_ ∷ cs) = 0 ∷ clear cs

-- `leq` is `<=` of floats.
module _ {ℓ} {F : Type ℓ} (leq : F → F → Bool) where
  -- The first index whose bound is not below the value, or the number of bounds: sort.SearchFloat64s.
  unfoldable pub search : F → List F → ℕ
  search x [] = 0
  search x (b ∷ bs) = let later = suc (search x bs) in if leq x b then 0 else later

module _ {ℓ} {F : Type ℓ} (leq : F → F → Bool) (plus : F → F → F) (nil : F) where
  -- NewHistogram; `sort` is sort.Float64s.
  unfoldable pub new_histogram : (List F → List F) → List F → Histogram F
  unfolding zeros
  new_histogram sort buckets = record {
    buckets = sort buckets;
    counts = zeros (sort buckets);
    sum = nil;
    count = 0;
    points = [];
    last_update = 0;
  }

  unfoldable pub observe : ℕ → F → Histogram F → Histogram F
  unfolding search increment_at keep_points
  observe now x h = record h {
    counts = increment_at (search leq x h.buckets) h.counts;
    sum = plus h.sum x;
    count = u64 (h.count + 1);
    last_update = now;
    points = keep_points h.points (record { timestamp = now; value = x });
  }

  unfoldable pub reset : Histogram F → Histogram F
  unfolding clear
  reset h = record h { counts = clear h.counts; sum = nil; count = 0; points = [] }

  -- Observations, each with its time.
  unfoldable pub observe_all : List (ℕ × F) → Histogram F → Histogram F
  unfolding observe
  observe_all [] h = h
  observe_all ((now, x) ∷ rest) h = observe_all rest (observe now x h)

-- The buckets that Export writes: the cumulative counts of the bounds, and that of +Inf.
unfoldable pub cumulative {ℓ} : {F : Type ℓ} → ℕ → List F → List ℕ → List (F × ℕ) × ℕ
cumulative acc [] [] = ([], acc)
cumulative acc [] (c ∷ cs) = ([], u64 (acc + c))
cumulative acc (b ∷ bs) [] = ([], acc)
cumulative acc (b ∷ bs) (c ∷ cs) =
    let (rest, total) = cumulative (u64 (acc + c)) bs cs in ((b, u64 (acc + c)) ∷ rest, total)

unfoldable pub export_buckets {ℓ} : {F : Type ℓ} → Histogram F → List (F × ℕ) × ℕ
unfolding cumulative
export_buckets h = cumulative 0 h.buckets h.counts
