-- ===== src/Metrics/Series/Retention.antt =====
-- What a round of cleanup leaves of a time series.
use snapshot_sequencer_valid.Base.{
  ℕ, ◌-◌, ◌<◌, Bool-cases, false, none, List, [], ◌∷◌, Map, get, get-del, del, All, take, ltb, leb,
  nat_eq, if◌then◌else◌, ◌≡◌, refl, ◌∙◌, arith, inl, inr,
}
use snapshot_sequencer_valid.Metrics.Series.{Bucket, TimeSeries, index_of, remove_keys, cleanup}
use snapshot_sequencer_valid.Metrics.Series.Sorted.{Ascending, contains}

below-All : (k : ℕ) (s : ℕ) (ss : List ℕ) → k < s → All (λ j. s < j) ss → contains k ss ≡ false
unfolding contains
below-All k s [] h a = refl
below-All k s (j ∷ ss) h a = ground (arith, below-All k s ss h a.1, a.0)

-- Of the ascending keys those below the cutoff come first.
contains-take :
    (cutoff k : ℕ) (ss : List ℕ)
    → Ascending ss
    → contains k (take (index_of cutoff ss) ss) ≡ (if ltb k cutoff then contains k ss else false)
unfolding index_of contains
contains-take cutoff k [] a = ground arith
contains-take cutoff k (s ∷ ss) a = elim (Bool-cases (leb cutoff s)) [
  | inl late ↦ rw late (ground (arith, below-All k s ss, a.0))
  | inr early ↦ rw early (ground (arith, contains-take cutoff k ss a.1))
]

module _ {ℓ} {F : Type ℓ} where
  remove_keys-get :
      (k : ℕ) (keys : List ℕ) (m : Map ℕ (Bucket F))
      → get k (remove_keys keys m) ≡ (if contains k keys then none else get k m)
  unfolding remove_keys contains
  remove_keys-get k [] m = refl
  remove_keys-get k (key ∷ keys) m =
      ground (arith, remove_keys-get k keys (del key m), get-del key k m)

  -- A round of cleanup removes the buckets that began before the retention time, and leaves every other as it is, where the
  -- keys are ascending and are those of the buckets.
  pub cleanup-get :
      (now k : ℕ) (ts : TimeSeries F)
      → Ascending ts.sorted
      → ((j : ℕ) → contains j ts.sorted ≡ false → get j ts.buckets ≡ none)
      → get k (cleanup now ts).buckets
        ≡ (if ltb k (now - ts.retention) then none else get k ts.buckets)
  unfolding cleanup
  cleanup-get now k ts a listed =
      let cutoff = now - ts.retention in
      remove_keys-get k (take (index_of cutoff ts.sorted) ts.sorted) ts.buckets
      ∙ rw (contains-take cutoff k ts.sorted a) (ground (arith, listed k))
