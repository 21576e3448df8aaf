-- ===== src/Metrics/Histogram/Cumulative.antt =====
-- What the exported buckets of a histogram count.
use snapshot_sequencer_valid.Base.{
  ℕ, ◌+◌, Bool, Bool-cases, true, false, List, [], ◌∷◌, All, map, length, count_if, ◌≡◌, refl,
  arith, inl, inr, if◌then◌else◌,
}
use snapshot_sequencer_valid.Metrics.{u64}
use snapshot_sequencer_valid.Metrics.Histogram.{
  Histogram, zeros, increment_at, search, new_histogram, observe, observe_all, cumulative,
  export_buckets,
}

module _ {ℓ} {F : Type ℓ} (leq : F → F → Bool) where
  -- Ascending bounds: what is at most one is at most every later one.
  abbrev pub Ascending : List F → Type ℓ
  Ascending [] = Unit
  Ascending (b ∷ bs) = All (λ b'. (x : F) → leq x b ≡ true → leq x b' ≡ true) bs × Ascending bs

  -- The counts of the bounds are, added up from `acc` on, the numbers that `n` gives, and all together `total`.
  abbrev pub Counts : ℕ → List F → List ℕ → (F → ℕ) → ℕ → Type 0
  Counts acc [] (c ∷ []) n total = u64 (acc + c) ≡ u64 total
  Counts acc (b ∷ bs) (c ∷ cs) n total =
      (u64 (acc + c) ≡ u64 (n b)) × Counts (u64 (acc + c)) bs cs n total
  Counts acc _ _ n total = ⊥

  one_if : F → F → ℕ
  one_if x b = if leq x b then 1 else 0

  shift :
      (x : F) (acc acc' : ℕ) (bs : List F) (cs : List ℕ) (n : F → ℕ) (total : ℕ)
      → u64 acc' ≡ u64 (acc + 1)
      → All (λ b. leq x b ≡ true) bs
      → Counts acc bs cs n total
      → Counts acc' bs cs (λ b. n b + one_if x b) (total + 1)
  unfolding one_if
  shift x acc acc' [] [] n total e a h = h
  shift x acc acc' [] (c ∷ []) n total e a h = omega (arith, e, h)
  shift x acc acc' [] (c ∷ d ∷ cs) n total e a h = h
  shift x acc acc' (b ∷ bs) [] n total e a h = h
  shift x acc acc' (b ∷ bs) (c ∷ cs) n total e a h = (
    rw (a.0) (omega (arith, e, h.0)),
    shift x (u64 (acc + c)) (u64 (acc' + c)) bs cs n total (omega (arith, e)) a.1 h.1,
  )

  All-above :
      (x b : F) (bs : List F)
      → leq x b ≡ true
      → All (λ b'. (y : F) → leq y b ≡ true → leq y b' ≡ true) bs
      → All (λ b'. leq x b' ≡ true) bs
  All-above x b [] below a = tt
  All-above x b (b' ∷ bs) below a = (a.0 x below, All-above x b bs below a.1)

  one_if-below : (x b : F) → leq x b ≡ true → one_if x b ≡ 1
  unfolding one_if
  one_if-below x b h = rw h refl

  one_if-above : (x b : F) → leq x b ≡ false → one_if x b ≡ 0
  unfolding one_if
  one_if-above x b h = rw h refl

  Counts-ext :
      (acc : ℕ) (bs : List F) (cs : List ℕ) (n m : F → ℕ) (total total' : ℕ)
      → ((b : F) → n b ≡ m b)
      → total ≡ total'
      → Counts acc bs cs n total
      → Counts acc bs cs m total'
  Counts-ext acc [] [] n m total total' e e' h = h
  Counts-ext acc [] (c ∷ []) n m total total' e e' h = omega (arith, h, e')
  Counts-ext acc [] (c ∷ d ∷ cs) n m total total' e e' h = h
  Counts-ext acc (b ∷ bs) [] n m total total' e e' h = h
  Counts-ext acc (b ∷ bs) (c ∷ cs) n m total total' e e' h =
      (omega (arith, h.0, e b), Counts-ext (u64 (acc + c)) bs cs n m total total' e e' h.1)

  step :
      (x : F) (acc : ℕ) (bs : List F) (cs : List ℕ) (n : F → ℕ) (total : ℕ)
      → Ascending bs
      → Counts acc bs cs n total
      → Counts acc bs (increment_at (search leq x bs) cs) (λ b. n b + one_if x b) (total + 1)
  unfolding search increment_at
  step x acc [] [] n total a h = h
  step x acc [] (c ∷ []) n total a h = omega (arith, h)
  step x acc [] (c ∷ d ∷ cs) n total a h = h
  step x acc (b ∷ bs) [] n total a h = absurd h
  step x acc (b ∷ bs) (c ∷ cs) n total a h = elim (Bool-cases (leq x b)) [
    | inl below ↦ rw below (
      omega (arith, h.0, one_if-below x b below),
      shift x (u64 (acc + c)) (u64 (acc + u64 (c + 1))) bs cs n total (omega arith)
          (All-above x b bs below a.0) h.1,
    )
    | inr above ↦
        rw above
          (omega (arith, h.0, one_if-above x b above), step x (u64 (acc + c)) bs cs n total a.1 h.1)
  ]

  cumulative-Counts :
      (acc : ℕ) (bs : List F) (cs : List ℕ) (n : F → ℕ) (total : ℕ)
      → Counts acc bs cs n total
      → cumulative acc bs cs ≡ (map (λ b. (b, u64 (n b))) bs, u64 total)
  unfolding cumulative
  cumulative-Counts acc [] [] n total h = absurd h
  cumulative-Counts acc [] (c ∷ []) n total h = rw h refl
  cumulative-Counts acc [] (c ∷ d ∷ cs) n total h = absurd h
  cumulative-Counts acc (b ∷ bs) [] n total h = absurd h
  cumulative-Counts acc (b ∷ bs) (c ∷ cs) n total h =
      rw (cumulative-Counts (u64 (acc + c)) bs cs n total h.1, h.0) refl

  zeros-Counts : (bs : List F) → Counts 0 bs (zeros bs) (λ b. 0) 0
  unfolding zeros
  zeros-Counts [] = refl
  zeros-Counts (b ∷ bs) = (refl, zeros-Counts bs)

  -- How many of the observations are at most the bound, added to `n`.
  abbrev pub at_most : List (ℕ × F) → F → ℕ
  at_most xs b = count_if (λ o. leq o.1 b) xs

  split_first :
      (n : F → ℕ) (now : ℕ) (x : F) (xs : List (ℕ × F)) (b : F)
      → n b + one_if x b + at_most xs b ≡ n b + at_most ((now, x) ∷ xs) b
  unfolding one_if
  split_first n now x xs b = omega arith

  module _ (plus : F → F → F) (nil : F) where
    observe_all-Counts :
        (xs : List (ℕ × F)) (h : Histogram F) (n : F → ℕ) (total : ℕ)
        → Ascending h.buckets
        → Counts 0 h.buckets h.counts n total
        → ((observe_all leq plus nil xs h).buckets ≡ h.buckets)
          × Counts 0 h.buckets
              (observe_all leq plus nil xs h).counts
              (λ b. n b + at_most xs b)
              (total + length xs)
    unfolding observe_all observe
    observe_all-Counts [] h n total a c = (
      refl,
      Counts-ext 0 h.buckets h.counts n (λ b. n b + 0) total (total + 0) (λ b. omega arith)
          (omega arith) c,
    )
    observe_all-Counts ((now, x) ∷ xs) h n total a c =
        let h' = observe leq plus nil now x h in
        let rest =
          observe_all-Counts xs h' (λ b. n b + one_if x b) (total + 1) a
            (step x 0 h.buckets h.counts n total a c) in
        (
          rest.0,
          Counts-ext 0 h.buckets (observe_all leq plus nil xs h').counts
              (λ b. n b + one_if x b + at_most xs b) (λ b. n b + at_most ((now, x) ∷ xs) b)
              (total + 1 + length xs) (total + length ((now, x) ∷ xs))
              (λ b. split_first n now x xs b) (omega arith) rest.1,
        )

    -- A new histogram exports after any observations for each of its bounds the number of them that are at most the
    -- bound, and for +Inf the number of all, as far as a uint64 holds it; where sorting leaves the bounds ascending.
    pub export_buckets-at_most :
        (sort : List F → List F) (bounds : List F) (xs : List (ℕ × F))
        → Ascending (sort bounds)
        → export_buckets (observe_all leq plus nil xs (new_histogram leq plus nil sort bounds))
          ≡ (map (λ b. (b, u64 (at_most xs b))) (sort bounds), u64 (length xs))
    unfolding export_buckets new_histogram
    export_buckets-at_most sort bounds xs a =
        let h = new_histogram leq plus nil sort bounds in
        let counted = observe_all-Counts xs h (λ b. 0) 0 a (zeros-Counts (sort bounds)) in
        rw (counted.0) (
          cumulative-Counts 0 (sort bounds) (observe_all leq plus nil xs h).counts (at_most xs)
            (length xs)
            (Counts-ext 0 (sort bounds) (observe_all leq plus nil xs h).counts
              (λ b. 0 + at_most xs b) (at_most xs) (0 + length xs) (length xs) (λ b. omega arith)
              (omega arith) counted.1))
