-- ===== src/Submissions/Cleanup/Order.antt =====
-- The exchange sort of `cleanupOldSubmissions`: it orders the entries by time and keeps them all.
use snapshot_sequencer_valid.Base.{
  ℕ, zero, suc, ◌≤◌, Bool, List, [], ◌∷◌, ◌≡◌, refl, arith, length, count_if, All, if◌then◌else◌,
  ltb, Bool-cases, inl, inr,
}
use snapshot_sequencer_valid.Submissions.Cleanup.{SubmissionEntry, sort_pass, sort_rounds}

-- Oldest first.
abbrev pub IsSorted : List SubmissionEntry → Type 0
IsSorted [] = Unit
IsSorted (x ∷ xs) = All (λ y. x.time ≤ y.time) xs × IsSorted xs

abbrev passed : SubmissionEntry → List SubmissionEntry → List SubmissionEntry
passed x xs = let (least, rest) = sort_pass x xs in least ∷ rest

count_if-sort_pass :
    (p : SubmissionEntry → Bool) (x : SubmissionEntry) (xs : List SubmissionEntry)
    → count_if p (passed x xs) ≡ count_if p (x ∷ xs)
unfolding sort_pass
count_if-sort_pass p x [] = refl
count_if-sort_pass p x (y ∷ ys) = elim (Bool-cases (ltb y.time x.time)) [
  | inl earlier ↦ rw earlier (omega (arith, count_if-sort_pass p y ys))
  | inr later ↦ rw later (omega (arith, count_if-sort_pass p x ys))
]

length-sort_pass :
    (x : SubmissionEntry) (xs : List SubmissionEntry) → length (sort_pass x xs).1 ≡ length xs
unfolding sort_pass
length-sort_pass x [] = refl
length-sort_pass x (y ∷ ys) =
    omega (arith, length-sort_pass (if ltb y.time x.time then y else x) ys)

All-sort_pass :
    (P : SubmissionEntry → Type 0) (x : SubmissionEntry) (xs : List SubmissionEntry)
    → P x
    → All P xs
    → P (sort_pass x xs).0 × All P (sort_pass x xs).1
unfolding sort_pass
All-sort_pass P x [] h hs = (h, hs)
All-sort_pass P x (y ∷ ys) h hs = elim (Bool-cases (ltb y.time x.time)) [
  | inl earlier ↦ rw earlier (let (a, b) = All-sort_pass P y ys hs.0 hs.1 in (a, (h, b)))
  | inr later ↦ rw later (let (a, b) = All-sort_pass P x ys h hs.1 in (a, (hs.0, b)))
]

sort_pass-le : (x : SubmissionEntry) (xs : List SubmissionEntry) → (sort_pass x xs).0.time ≤ x.time
unfolding sort_pass
sort_pass-le x [] = omega arith
sort_pass-le x (y ∷ ys) = ground (arith, sort_pass-le x ys, sort_pass-le y ys)

-- The element that a pass brings to the front is least; `b` is its time.
sort_pass_least :
    (b : ℕ) (x : SubmissionEntry) (xs : List SubmissionEntry)
    → b ≡ (sort_pass x xs).0.time
    → All (λ y. b ≤ y.time) (sort_pass x xs).1
unfolding sort_pass
sort_pass_least b x [] e = tt
sort_pass_least b x (y ∷ ys) e = elim (Bool-cases (ltb y.time x.time)) [
  | inl earlier ↦
      let e' : b ≡ (sort_pass y ys).0.time = rw earlier at e in
      rw earlier (ground (arith, sort_pass-le y ys), sort_pass_least b y ys e')
  | inr later ↦
      let e' : b ≡ (sort_pass x ys).0.time = rw later at e in
      rw later (ground (arith, sort_pass-le x ys), sort_pass_least b x ys e')
]

pub count_if-sort_rounds :
    (p : SubmissionEntry → Bool) (n : ℕ) (xs : List SubmissionEntry)
    → count_if p (sort_rounds n xs) ≡ count_if p xs
unfolding sort_rounds
count_if-sort_rounds p zero xs = refl
count_if-sort_rounds p (suc n) [] = refl
count_if-sort_rounds p (suc n) (x ∷ xs) =
    omega (arith, count_if-sort_pass p x xs, count_if-sort_rounds p n (sort_pass x xs).1)

pub length-sort_rounds : (n : ℕ) (xs : List SubmissionEntry) → length (sort_rounds n xs) ≡ length xs
unfolding sort_rounds
length-sort_rounds zero xs = refl
length-sort_rounds (suc n) [] = refl
length-sort_rounds (suc n) (x ∷ xs) =
    omega (arith, length-sort_pass x xs, length-sort_rounds n (sort_pass x xs).1)

All-sort_rounds :
    (P : SubmissionEntry → Type 0) (n : ℕ) (xs : List SubmissionEntry)
    → All P xs
    → All P (sort_rounds n xs)
unfolding sort_rounds
All-sort_rounds P zero xs h = h
All-sort_rounds P (suc n) [] h = h
All-sort_rounds P (suc n) (x ∷ xs) h =
    let (a, b) = All-sort_pass P x xs h.0 h.1 in (a, All-sort_rounds P n (sort_pass x xs).1 b)

pub sort_rounds-IsSorted :
    (n : ℕ) (xs : List SubmissionEntry) → length xs ≤ suc n → IsSorted (sort_rounds n xs)
unfolding sort_rounds
sort_rounds-IsSorted zero [] h = tt
sort_rounds-IsSorted zero (x ∷ []) h = (tt, tt)
sort_rounds-IsSorted zero (x ∷ y ∷ ys) h = absurd (omega arith)
sort_rounds-IsSorted (suc n) [] h = tt
sort_rounds-IsSorted (suc n) (x ∷ xs) h = (
  All-sort_rounds (λ y. (sort_pass x xs).0.time ≤ y.time) n (sort_pass x xs).1
      (sort_pass_least (sort_pass x xs).0.time x xs refl),
  sort_rounds-IsSorted n (sort_pass x xs).1 (omega (arith, length-sort_pass x xs)),
)
