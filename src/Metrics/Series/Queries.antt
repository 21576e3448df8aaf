-- ===== src/Metrics/Series/Queries.antt =====
-- What a query of a time series counts.
use snapshot_sequencer_valid.Base.{
  ℕ, ◌+◌, Bool, Bool-cases, Option-cases, true, false, none, some, List, [], ◌∷◌, Map, get, put,
  get-put, nat_eqb, nat_eqb_iff, nat_eq, if◌then◌else◌, ◌==◌, ◌≡◌, refl, arith, inl, inr,
}
use snapshot_sequencer_valid.Metrics.Series.{
  Bucket, TimeSeries, Floats, insert_sorted, update, fresh, add_at,
}
use snapshot_sequencer_valid.Metrics.Series.Sorted.{
  insert, insert_sorted-insert, Ascending, contains, contains-insert, insert-Ascending,
  absent_above,
}

module _ {ℓ} {F : Type ℓ} where
  -- How many values the bucket of a key has.
  unfoldable pub count_at : ℕ → Map ℕ (Bucket F) → ℕ
  unfolding get
  count_at k m = elim (get k m) [ none ↦ 0 | some b ↦ b.count ]

  count_at-put :
      (key k : ℕ) (b : Bucket F) (m : Map ℕ (Bucket F))
      → count_at k (put key b m) ≡ (if key == k then b.count else count_at k m)
  unfolding count_at
  count_at-put key k b m = ground (arith, get-put key k b m)

  -- How many values the keys that pass a test have.
  unfoldable pub total : (ℕ → Bool) → List ℕ → Map ℕ (Bucket F) → ℕ
  unfolding count_at
  total r [] m = 0
  total r (k ∷ ks) m = (if r k then count_at k m else 0) + total r ks m

  total-put_absent :
      (r : ℕ → Bool) (key : ℕ) (b : Bucket F) (ks : List ℕ) (m : Map ℕ (Bucket F))
      → contains key ks ≡ false
      → total r ks (put key b m) ≡ total r ks m
  unfolding total contains
  total-put_absent r key b [] m h = refl
  total-put_absent r key b (k ∷ ks) m h = ground (
    arith,
    count_at-put key k b m,
    total-put_absent r key b ks m,
    nat_eqb_iff key k,
    nat_eqb_iff k key,
  )

  total-put :
      (r : ℕ → Bool) (key : ℕ) (b : Bucket F) (ks : List ℕ) (m : Map ℕ (Bucket F))
      → Ascending ks
      → contains key ks ≡ true
      → total r ks (put key b m) + (if r key then count_at key m else 0)
        ≡ total r ks m + (if r key then b.count else 0)
  unfolding total contains
  total-put r key b [] m a h = absurd (cc)
  total-put r key b (k ∷ ks) m a h = elim (Bool-cases (nat_eqb k key)) [
    | inl same ↦
        let e : k ≡ key = (nat_eqb_iff k key).0 same in
        ground (arith, count_at-put key k b m, total-put_absent r key b ks m, absent_above k ks a.0)
    | inr other ↦
        ground (arith, count_at-put key k b m, total-put r key b ks m a.1, nat_eqb_iff key k)
  ]

  total-insert :
      (r : ℕ → Bool) (key : ℕ) (ks : List ℕ) (m : Map ℕ (Bucket F))
      → contains key ks ≡ false
      → total r (insert key ks) m ≡ total r ks m + (if r key then count_at key m else 0)
  unfolding total insert contains
  total-insert r key [] m h = omega arith
  total-insert r key (k ∷ ks) m h = ground (arith, total-insert r key ks m)

  count_at-some :
      (k : ℕ) (b : Bucket F) (m : Map ℕ (Bucket F)) → get k m ≡ some b → count_at k m ≡ b.count
  unfolding count_at
  count_at-some k b m h = ground arith

  -- The keys are ascending, and are those of the buckets; each bucket of the tests passed so far is counted.
  pub record IsSeries (r : ℕ → Bool) (n : ℕ) (ts : TimeSeries F) : Type ℓ where
    pub ascending : Ascending ts.sorted
    pub listed : (k : ℕ) → contains k ts.sorted ≡ false → get k ts.buckets ≡ none
    pub kept : (k : ℕ) → get k ts.buckets ≡ none → contains k ts.sorted ≡ false
    pub counted : total r ts.sorted ts.buckets ≡ n

  is_listed :
      (r : ℕ → Bool) (n key : ℕ) (b : Bucket F) (ts : TimeSeries F)
      → IsSeries r n ts
      → get key ts.buckets ≡ some b
      → contains key ts.sorted ≡ true
  is_listed r n key b ts i there = elim (Bool-cases (contains key ts.sorted)) [
    | inl there ↦ there
    | inr missing ↦ let absent = i.listed key missing in absurd (cc)
  ]

  put_old :
      (r : ℕ → Bool) (n key : ℕ) (b b' : Bucket F) (ts : TimeSeries F)
      → IsSeries r n ts
      → get key ts.buckets ≡ some b
      → b'.count ≡ b.count + 1
      → IsSeries r (n + (if r key then 1 else 0)) (record ts { buckets = put key b' ts.buckets })
  put_old r n key b b' ts i there more =
      let present = is_listed r n key b ts i there in
      let counts : count_at key ts.buckets ≡ b.count = count_at-some key b ts.buckets there in
      record {
        ascending = i.ascending;
        listed = λ k missing.
            ground (arith, get-put key k b' ts.buckets, nat_eqb_iff key k, i.listed k missing);
        kept = λ k gone. ground (arith, get-put key k b' ts.buckets, nat_eqb_iff key k, i.kept k);
        counted =
            ground (arith, total-put r key b' ts.sorted ts.buckets i.ascending present, i.counted);
      }

  put_new :
      (r : ℕ → Bool) (n key : ℕ) (b : Bucket F) (ts : TimeSeries F)
      → IsSeries r n ts
      → get key ts.buckets ≡ none
      → b.count ≡ 1
      → IsSeries r
          (n + (if r key then 1 else 0))
          (record ts { buckets = put key b ts.buckets; sorted = insert_sorted key ts.sorted })
  put_new r n key b ts i gone one =
      let absent = i.kept key gone in
      let buckets = put key b ts.buckets in
      rw (insert_sorted-insert key ts.sorted) (record {
        ascending = insert-Ascending key ts.sorted i.ascending;
        listed = λ k no.
            ground (arith, contains-insert key k ts.sorted, get-put key k b ts.buckets, i.listed k);
        kept = λ k none_there.
            ground (arith, contains-insert key k ts.sorted, get-put key k b ts.buckets, i.kept k);
        counted = ground (
          arith,
          total-insert r key ts.sorted buckets absent,
          total-put_absent r key b ts.sorted ts.buckets absent,
          count_at-put key key b ts.buckets,
          i.counted,
        );
      })

  module _ (f : Floats F) (r : ℕ → Bool) where
    pub add_at-IsSeries :
        (v : F) (key n : ℕ) (ts : TimeSeries F)
        → IsSeries r n ts
        → IsSeries r (n + (if r key then 1 else 0)) (add_at f v key ts)
    unfolding add_at update fresh
    add_at-IsSeries v key n ts i = elim (Option-cases (get key ts.buckets)) [
      | inr (b, there) ↦ rw (add_at, there) (put_old r n key b (update f v b) ts i there refl)
      | inl absent ↦
          rw (add_at, absent) (put_new r n key (update f v (fresh f key v)) ts i absent refl)
    ]
