-- ===== src/Metrics/Series/Counted.antt =====
-- That a query counts each value once.
use snapshot_sequencer_valid.Base.{
  ℕ, ◌+◌, ◌/◌, ◌≤◌, ◌<◌, Text, Bool, Bool-cases, Option-cases, true, false, ◌&&◌, some, List, [],
  ◌∷◌, Map, get, All, drop, ltb, leb, nat_eq, count_if, if◌then◌else◌, ◌≡◌, refl, ap, ◌∙◌, arith,
  inl, inr,
}
use snapshot_sequencer_valid.Metrics.Series.{
  Bucket, TimeSeries, TimeSeriesPoint, Floats, new_time_series, round_to, round_time, second,
  index_of, add_at, add, add_all, point_of, collect, query, points_between,
}
use snapshot_sequencer_valid.Metrics.Series.Sorted.{Ascending, contains}
use snapshot_sequencer_valid.Metrics.Series.Queries.{count_at, total, IsSeries, add_at-IsSeries}

module _ {ℓ} {F : Type ℓ} (f : Floats F) where
  -- The values that the points count together.
  abbrev pub counts : List (TimeSeriesPoint F) → ℕ
  counts [] = 0
  counts (p ∷ ps) = p.count + counts ps

  abbrev pub within : ℕ → ℕ → ℕ → Bool
  within from to k = leb from k && leb k to

  total_beyond :
      (from to key : ℕ) (ks : List ℕ) (m : Map ℕ (Bucket F))
      → to < key
      → All (λ j. key < j) ks
      → total (within from to) ks m ≡ 0
  unfolding total
  total_beyond from to key [] m h a = refl
  total_beyond from to key (k ∷ ks) m h a = ground (arith, total_beyond from to key ks m h a.1, a.0)

  collect-total :
      (from to : ℕ) (ks : List ℕ) (m : Map ℕ (Bucket F))
      → Ascending ks
      → All (λ j. from ≤ j) ks
      → counts (collect f to m ks) ≡ total (within from to) ks m
  unfolding collect total point_of count_at
  collect-total from to [] m a low = refl
  collect-total from to (k ∷ ks) m a low = elim (Bool-cases (ltb to k)) [
    | inl beyond ↦ ground (arith, total_beyond from to k ks m (ground arith) a.0)
    | inr inside ↦ elim (Option-cases (get k m)) [
      | inl absent ↦ ground (arith, collect-total from to ks m a.1 low.1, low.0)
      | inr (b, there) ↦ ground (arith, collect-total from to ks m a.1 low.1, low.0)
    ]
  ]

  low-All : (from k : ℕ) (ks : List ℕ) → from ≤ k → All (λ j. k < j) ks → All (λ j. from ≤ j) ks
  low-All from k [] h a = tt
  low-All from k (j ∷ ks) h a = (omega (arith, a.0), low-All from k ks h a.1)

  drop_inside :
      (from k : ℕ) (ks : List ℕ)
      → leb from k ≡ true
      → drop (index_of from (k ∷ ks)) (k ∷ ks) ≡ k ∷ ks
  unfolding index_of
  drop_inside from k ks h = rw h refl

  drop_below :
      (from k : ℕ) (ks : List ℕ)
      → leb from k ≡ false
      → drop (index_of from (k ∷ ks)) (k ∷ ks) ≡ drop (index_of from ks) ks
  unfolding index_of
  drop_below from k ks h = rw h refl

  total_below :
      (from to k : ℕ) (ks : List ℕ) (m : Map ℕ (Bucket F))
      → leb from k ≡ false
      → total (within from to) (k ∷ ks) m ≡ total (within from to) ks m
  unfolding total
  total_below from to k ks m h = ground arith

  skip_total :
      (from to : ℕ) (ks : List ℕ) (m : Map ℕ (Bucket F))
      → Ascending ks
      → counts (collect f to m (drop (index_of from ks) ks)) ≡ total (within from to) ks m
  unfolding index_of
  skip_total from to [] m a = collect-total from to [] m a tt
  skip_total from to (k ∷ ks) m a = elim (Bool-cases (leb from k)) [
    | inl inside ↦
        rw (drop_inside from k ks inside)
          (collect-total from to (k ∷ ks) m a (ground arith, low-All from k ks (ground arith) a.0))
    | inr below ↦
        rw (drop_below from k ks below, total_below from to k ks m below)
          (skip_total from to ks m a.1)
  ]

  -- The beginning of the bucket of a time is there for a resolution of a second or more.
  round_time-some :
      (resolution t : ℕ)
      → 0 < resolution / second
      → round_time resolution t ≡ some (round_to (resolution / second) t)
  unfolding round_time
  round_time-some resolution t h = ground arith

  add_at-resolution :
      (v : F) (key : ℕ) (ts : TimeSeries F) → (add_at f v key ts).resolution ≡ ts.resolution
  unfolding add_at
  add_at-resolution v key ts = ground arith

  add-some :
      (v : F) (t resolution : ℕ) (ts : TimeSeries F)
      → ts.resolution ≡ resolution
      → 0 < resolution / second
      → add f v t ts ≡ some (add_at f v (round_to (resolution / second) t) ts)
  unfolding add
  add-some v t resolution ts same positive =
      let e : round_time ts.resolution t ≡ some (round_to (resolution / second) t) =
        ap (λ n. round_time n t) same ∙ round_time-some resolution t positive in
      rw (add, e) refl

  add_all-cons :
      (v : F) (t : ℕ) (xs : List (F × ℕ)) (ts ts1 : TimeSeries F)
      → add f v t ts ≡ some ts1
      → add_all f ((v, t) ∷ xs) ts ≡ add_all f xs ts1
  unfolding add_all
  add_all-cons v t xs ts ts1 e = rw (add_all, e) refl

  -- How many of the values are of a time whose bucket is within the range.
  abbrev pub added : ℕ → (ℕ → Bool) → List (F × ℕ) → ℕ
  added seconds r xs = count_if (λ o. r (round_to seconds o.1)) xs

  add_all-IsSeries :
      (r : ℕ → Bool) (n resolution : ℕ) (xs : List (F × ℕ)) (ts : TimeSeries F)
      → 0 < resolution / second
      → ts.resolution ≡ resolution
      → IsSeries r n ts
      → (ts' : TimeSeries F) × (add_all f xs ts ≡ some ts')
        × (ts'.resolution ≡ resolution)
        × IsSeries r (n + added (resolution / second) r xs) ts'
  unfolding add_all
  add_all-IsSeries r n resolution [] ts positive same i =
      let none_added : n + 0 ≡ n = omega arith in (ts, refl, same, rw none_added i)
  add_all-IsSeries r n resolution ((v, t) ∷ xs) ts positive same i =
      let key = round_to (resolution / second) t in
      let (ts', e, same', i') =
        add_all-IsSeries r (n + (if r key then 1 else 0)) resolution xs (add_at f v key ts) positive
          (add_at-resolution v key ts ∙ same) (add_at-IsSeries f r v key n ts i) in
      let sum : n + (if r key then 1 else 0) + added (resolution / second) r xs
          ≡ n + added (resolution / second) r ((v, t) ∷ xs) =
        omega arith in
      (
        ts',
        add_all-cons v t xs ts (add_at f v key ts) (add-some v t resolution ts same positive) ∙ e,
        same',
        rw sum at i',
      )

  from_zero : (n : ℕ) → 0 + n ≡ n
  from_zero n = omega arith

  new-IsSeries :
      (r : ℕ → Bool) (name : Text) (resolution retention : ℕ)
      → IsSeries {F = F} r 0 (new_time_series name resolution retention)
  unfolding new_time_series get contains total
  new-IsSeries r name resolution retention = record {
    ascending = tt;
    listed = λ k h. refl;
    kept = λ k h. refl;
    counted = refl;
  }

  -- A new series whose resolution is a second or more takes any values at any times, and, where no
  -- cleanup comes in between, a query then answers with points that together count each value once whose bucket begins within the buckets of the two ends, and no other.
  pub query_counts :
      (name : Text) (resolution retention : ℕ) (xs : List (F × ℕ)) (start end : ℕ)
      → 0 < resolution / second
      → (ts : TimeSeries F) × (points : List (TimeSeriesPoint F)) × (add_all f xs
            (new_time_series name resolution retention)
          ≡ some ts)
        × (query f start end ts ≡ some points)
        × (counts points
            ≡ added
                (resolution / second)
                (within (round_to (resolution / second) start) (round_to (resolution / second) end))
                xs)
  unfolding query points_between new_time_series
  query_counts name resolution retention xs start end positive =
      let seconds = resolution / second in
      let from = round_to seconds start in
      let to = round_to seconds end in
      let r = within from to in
      let ts0 : TimeSeries F = new_time_series name resolution retention in
      let kept : ts0.resolution ≡ resolution = ground arith in
      let (ts, e, same, i) =
        add_all-IsSeries r 0 resolution xs ts0 positive kept
          (new-IsSeries r name resolution retention) in
      (
        ts,
        collect f to ts.buckets (drop (index_of from ts.sorted) ts.sorted),
        e,
        rw
            (
              same,
              round_time-some resolution start positive,
              round_time-some resolution end positive,
            )
            refl,
        skip_total from to ts.sorted ts.buckets i.ascending
            ∙ i.counted
            ∙ from_zero (added seconds r xs),
      )
