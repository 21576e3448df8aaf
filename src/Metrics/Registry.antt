-- ===== src/Metrics/Registry.antt =====
-- pkgs/metrics/registry.go: Registry. The kinds of metrics are those of the source; a metric is known by its
-- kind and its name here. GetOrCreate is a look and a registration, which other goroutines may come between.
use snapshot_sequencer_valid.Base.{
  Text, text_eq, text_eqb_iff, bytes, Option, none, some, [], ◌∷◌, ◌++◌, Map, get, has, put,
  has-put, get-put, key-cases, if◌then◌else◌, ◌≡◌, arith, inl, inr,
}

pub data MetricType : Type 0 where
  counter gauge histogram rate summary : MetricType

pub record MetricConfig : Type 0 where
  pub name : Text
  -- none for a type that is not one of the five
  pub kind : Option MetricType
  pub labels : Map Text Text

pub record Metric : Type 0 where
  pub name : Text
  pub kind : MetricType
  pub labels : Map Text Text

with_labels : Text → Map Text Text → Text
with_labels key [] = key
with_labels key ((k, v) ∷ labels) = with_labels (key ++ bytes "," ++ k ++ bytes "=" ++ v) labels

-- `sort` orders the labels by their keys.
unfoldable pub metric_key : (Map Text Text → Map Text Text) → Text → Map Text Text → Text
unfolding with_labels
metric_key sort name labels = with_labels name (sort labels)

pub data RegisterError : Type 0 where
  already_registered unknown_type : RegisterError

pub data Registered : Type 0 where
  ok : Metric → Registered
  error : RegisterError → Registered

module _ (sort : Map Text Text → Map Text Text) where
  add_metric :
      Text → MetricConfig → Option MetricType → Map Text Metric → Registered × Map Text Metric
  unfolding put
  add_metric key c none metrics = (error unknown_type, metrics)
  add_metric key c (some kind) metrics =
      let m : Metric = record { name = c.name; kind = kind; labels = c.labels } in
      (ok m, put key m metrics)

  unfoldable pub register : MetricConfig → Map Text Metric → Registered × Map Text Metric
  unfolding has metric_key add_metric
  register c metrics =
      let key = metric_key sort c.name c.labels in
      if has key metrics
      then (error already_registered, metrics)
      else add_metric key c c.kind metrics

  -- Get, none for nil.
  unfoldable pub find : Text → Map Text Text → Map Text Metric → Option Metric
  unfolding get metric_key
  find name labels metrics = get (metric_key sort name labels) metrics

  or_nil : Registered → Option Metric
  or_nil (ok m) = some m
  or_nil (error e) = none

  after_look : Option Metric → MetricConfig → Map Text Metric → Option Metric × Map Text Metric
  unfolding register or_nil
  after_look (some m) c metrics = (some m, metrics)
  after_look none c metrics = let (r, metrics') = register c metrics in (or_nil r, metrics')

  -- GetOrCreate, whose look sees `seen` and whose registration `now`.
  unfoldable pub get_or_create_at :
      MetricConfig → Map Text Metric → Map Text Metric → Option Metric × Map Text Metric
  unfolding find after_look
  get_or_create_at c seen now = after_look (find c.name c.labels seen) c now

  unfoldable pub get_or_create : MetricConfig → Map Text Metric → Option Metric × Map Text Metric
  unfolding get_or_create_at
  get_or_create c metrics = get_or_create_at c metrics metrics

  -- A call of GetOrCreate of one of the five types that nothing comes between gives a metric, the one that is found
  -- afterwards; of two that look before either registers, the second gives nil.
  pub get_or_create-race :
      (c : MetricConfig) (kind : MetricType) (metrics : Map Text Metric)
      → c.kind ≡ some kind
      → ((m : Metric) × ((get_or_create c metrics).0 ≡ some m)
          × (find c.name c.labels (get_or_create c metrics).1 ≡ some m))
        × (find c.name c.labels metrics ≡ none
            → (get_or_create_at c metrics (get_or_create c metrics).1).0 ≡ none)
  unfolding get_or_create get_or_create_at find after_look register add_metric or_nil
  get_or_create-race c kind metrics known =
      let key = metric_key sort c.name c.labels in
      let m : Metric = record { name = c.name; kind = kind; labels = c.labels } in
      elim (key-cases key metrics) [
        | inr (w, there, present) ↦ ((w, ground arith, ground arith), λ h. absurd (ground arith))
        | inl (absent, missing) ↦ (
          (m, ground arith, ground (arith, get-put key key m metrics, text_eqb_iff key key)),
          λ h. ground (arith, has-put key key m metrics, text_eqb_iff key key),
        )
      ]
