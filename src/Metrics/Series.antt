-- ===== src/Metrics/Series.antt =====
-- pkgs/metrics/timeseries.go: TimeSeries. A time is a number of seconds after 1970, and a resolution one of
-- nanoseconds, of which the whole seconds are used; a division by zero is a panic: none. The arithmetic of
-- floats, percentile and sort.Float64s are arguments.
pub mod Sorted
pub mod Queries
pub mod Counted
pub mod Retention
use snapshot_sequencer_valid.Base.{
  ℕ, zero, suc, ◌+◌, ◌-◌, ◌*◌, ◌/◌, Text, bytes, Bool, true, false, Option, none, some, List, [],
  ◌∷◌, ◌++◌, Map, get, put, del, length, take, drop, ltb, leb, nat_eqb, nat_eq, if◌then◌else◌,
}

pub record Bucket {ℓ} (F : Type ℓ) : Type ℓ where
  pub timestamp : ℕ
  pub count : ℕ
  pub sum : F
  pub min : F
  pub max : F
  pub values : List F

pub record TimeSeries {ℓ} (F : Type ℓ) : Type ℓ where
  pub name : Text
  pub resolution : ℕ
  pub retention : ℕ
  pub buckets : Map ℕ (Bucket F)
  pub sorted : List ℕ

abbrev pub second : ℕ
second = 1_000_000_000

abbrev default_to : ℕ → ℕ → ℕ
default_to d n = if nat_eqb n 0 then d else n

-- NewTimeSeries, without the goroutine that it starts, which calls `cleanup` from time to time.
unfoldable pub new_time_series {ℓ} : {F : Type ℓ} → Text → ℕ → ℕ → TimeSeries F
new_time_series name resolution retention = record {
  name = name;
  resolution = default_to second resolution;
  retention = default_to (24 * 3600) retention;
  buckets = [];
  sorted = [];
}

-- The beginning of the bucket of a time, for a resolution of whole seconds.
unfoldable pub round_to : ℕ → ℕ → ℕ
round_to seconds t = t / seconds * seconds

-- roundTime: a resolution below one second is a division by zero.
unfoldable pub round_time : ℕ → ℕ → Option ℕ
unfolding round_to
round_time resolution t =
    if nat_eqb (resolution / second) 0 then none else some (round_to (resolution / second) t)

-- sort.Search for the first of an ascending list that is not below the key.
unfoldable pub index_of : ℕ → List ℕ → ℕ
index_of key [] = 0
index_of key (s ∷ ss) = let later = suc (index_of key ss) in if leb key s then 0 else later

unfoldable pub starts_with : ℕ → List ℕ → Bool
starts_with key [] = false
starts_with key (s ∷ _) = nat_eqb s key

unfoldable pub insert_sorted : ℕ → List ℕ → List ℕ
unfolding index_of starts_with
insert_sorted key sorted =
    let i = index_of key sorted in
    if starts_with key (drop i sorted) then sorted else take i sorted ++ key ∷ drop i sorted

pub record Floats {ℓ} (F : Type ℓ) : Type ℓ where
  pub nil : F
  pub plus : F → F → F
  pub less : F → F → Bool
  pub divide : F → ℕ → F
  pub sort_floats : List F → List F
  -- of a sorted list, the percentile by its number of hundredths
  pub percentile : List F → ℕ → F

pub record TimeSeriesPoint {ℓ} (F : Type ℓ) : Type ℓ where
  pub timestamp : ℕ
  pub count : ℕ
  pub sum : F
  pub min : F
  pub max : F
  pub avg : F
  pub p50 : F
  pub p90 : F
  pub p95 : F
  pub p99 : F

module _ {ℓ} {F : Type ℓ} (f : Floats F) where
  open f use {nil, plus, less, divide, sort_floats, percentile}

  unfoldable pub fresh : ℕ → F → Bucket F
  fresh key v = record { timestamp = key; count = 0; sum = nil; min = v; max = v; values = [] }

  unfoldable pub update : F → Bucket F → Bucket F
  update v b = record b {
    count = b.count + 1;
    sum = plus b.sum v;
    values = b.values ++ v ∷ [];
    min = if less v b.min then v else b.min;
    max = if less b.max v then v else b.max;
  }

  -- Add, for the beginning of the bucket.
  unfoldable pub add_at : F → ℕ → TimeSeries F → TimeSeries F
  unfolding get put insert_sorted fresh update
  add_at v key ts = elim (get key ts.buckets) [
    | some b ↦ record ts { buckets = put key (update v b) ts.buckets }
    | none ↦ record ts {
      buckets = put key (update v (fresh key v)) ts.buckets;
      sorted = insert_sorted key ts.sorted;
    }
  ]

  unfoldable pub add : F → ℕ → TimeSeries F → Option (TimeSeries F)
  unfolding add_at round_time
  add v t ts = elim (round_time ts.resolution t) [ none ↦ none | some key ↦ some (add_at v key ts) ]

  unfoldable pub add_all : List (F × ℕ) → TimeSeries F → Option (TimeSeries F)
  unfolding add
  add_all [] ts = some ts
  add_all ((v, t) ∷ rest) ts = elim (add v t ts) [ none ↦ none | some ts' ↦ add_all rest ts' ]

  percentile_of : List F → ℕ → F
  percentile_of [] p = nil
  percentile_of (v ∷ vs) p = percentile (sort_floats (v ∷ vs)) p

  unfoldable pub point_of : Bucket F → TimeSeriesPoint F
  unfolding percentile_of
  point_of b = record {
    timestamp = b.timestamp;
    count = b.count;
    sum = b.sum;
    min = b.min;
    max = b.max;
    avg = divide b.sum b.count;
    p50 = percentile_of b.values 50;
    p90 = percentile_of b.values 90;
    p95 = percentile_of b.values 95;
    p99 = percentile_of b.values 99;
  }

  -- The points of the keys up to `to`.
  unfoldable pub collect : ℕ → Map ℕ (Bucket F) → List ℕ → List (TimeSeriesPoint F)
  unfolding get point_of
  collect to buckets [] = []
  collect to buckets (key ∷ keys) =
      let rest = collect to buckets keys in
      if ltb to key then [] else elim (get key buckets) [ none ↦ rest | some b ↦ point_of b ∷ rest ]

  unfoldable pub points_between :
      TimeSeries F → Option ℕ → Option ℕ → Option (List (TimeSeriesPoint F))
  unfolding collect index_of
  points_between ts (some from) (some to) =
      some (collect to ts.buckets (drop (index_of from ts.sorted) ts.sorted))
  points_between ts _ _ = none

  -- The points of Query.
  unfoldable pub query : ℕ → ℕ → TimeSeries F → Option (List (TimeSeriesPoint F))
  unfolding points_between round_time
  query start end ts =
      points_between ts (round_time ts.resolution start) (round_time ts.resolution end)

unfoldable pub remove_keys {ℓ} : {F : Type ℓ} → List ℕ → Map ℕ (Bucket F) → Map ℕ (Bucket F)
unfolding del
remove_keys [] buckets = buckets
remove_keys (key ∷ keys) buckets = remove_keys keys (del key buckets)

-- One round of cleanup.
unfoldable pub cleanup {ℓ} : {F : Type ℓ} → ℕ → TimeSeries F → TimeSeries F
unfolding remove_keys index_of
cleanup now ts =
    let keep = index_of (now - ts.retention) ts.sorted in
    record ts {
      buckets = remove_keys (take keep ts.sorted) ts.buckets;
      sorted = if ltb 0 keep then drop keep ts.sorted else ts.sorted;
    }
