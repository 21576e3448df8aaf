-- ===== src/Submissions/Cleanup/Recent.antt =====
-- `cleanupOldSubmissions` keeps the 500 most recent submissions, in whatever order `range` visits.
use snapshot_sequencer_valid.Base.{
  ℕ, zero, suc, ◌+◌, ◌-◌, ◌≤◌, ◌<◌, Text, text_eq, text_eqb_iff, Bool, true, false, Option, none,
  some, List, [], ◌∷◌, map, ◌≡◌, refl, ap, arith, length, count_if, take, drop, leb, Bool-cases,
  inl, inr, Map, get, has, Distinct, ◌==◌, has-of-get,
}
use snapshot_sequencer_valid.Submissions.Types.{ProcessedSubmission}
use snapshot_sequencer_valid.Submissions.Cleanup.{
  SubmissionEntry, entry_of, sorted_entries, cleanup_old_submissions,
}
use snapshot_sequencer_valid.Submissions.Cleanup.Order.{
  IsSorted, count_if-sort_rounds, sort_rounds-IsSorted,
}
use snapshot_sequencer_valid.Submissions.Cleanup.Effect.{
  names, stands, key_is, count_key, length-delete_all, delete_all-Distinct, get-delete_all,
  count_take-drop, sorted_split,
}

count_if-map {ℓ κ} :
    {A : Type ℓ} {B : Type κ} (p : B → Bool) (f : A → B) (xs : List A)
    → count_if p (map f xs) ≡ count_if (λ x. p (f x)) xs
count_if-map p f [] = refl
count_if-map p f (x ∷ xs) = omega (arith, count_if-map p f xs)

length-count_if {ℓ} : {A : Type ℓ} (xs : List A) → count_if (λ _. true) xs ≡ length xs
length-count_if [] = refl
length-count_if (x ∷ xs) = omega (arith, length-count_if xs)

length-take {ℓ} : {A : Type ℓ} (n : ℕ) (xs : List A) → n ≤ length xs → length (take n xs) ≡ n
length-take zero xs h = refl
length-take (suc n) [] h = absurd (omega arith)
length-take (suc n) (x ∷ xs) h = omega (arith, length-take n xs (omega arith))

stands-le-names :
    (k : Text) (t : ℕ) (xs : List SubmissionEntry)
    → count_if (stands k t) xs ≤ count_if (names k) xs
stands-le-names k t [] = omega arith
stands-le-names k t (x ∷ xs) = ground (arith, stands-le-names k t xs)

absent_stands :
    (k : Text) (t : ℕ) (m : Map Text ProcessedSubmission)
    → has k m ≡ false
    → count_if (λ e. stands k t (entry_of e)) m ≡ 0
unfolding has entry_of
absent_stands k t [] h = refl
absent_stands k t ((j, v) ∷ m) h = ground (arith, absent_stands k t m)

-- In a map with distinct keys the entry of a key stands once, with the time of its submission.
count_stands :
    (k : Text) (sub : ProcessedSubmission) (m : Map Text ProcessedSubmission)
    → Distinct m
    → get k m ≡ some sub
    → count_if (λ e. stands k sub.processed_at (entry_of e)) m ≡ 1
unfolding get has entry_of
count_stands k sub [] d g = cc
count_stands k sub ((j, v) ∷ m) d g = elim (Bool-cases (j == k)) [
  | inl same ↦
      let e : j ≡ k = (text_eqb_iff j k).0 same in
      let absent = absent_stands k sub.processed_at m (rw e at d.0) in
      ground (arith, ap (λ (s : Option ProcessedSubmission). s) g)
  | inr other ↦ ground (arith, count_stands k sub m d.1)
]

module _ (visit : List (Text × ProcessedSubmission) → List (Text × ProcessedSubmission))
    (visits : (p : Text × ProcessedSubmission → Bool) (m : Map Text ProcessedSubmission)
      → count_if p (visit m) ≡ count_if p m)
    (m : Map Text ProcessedSubmission) (distinct : Distinct m) where
  count_sorted :
      (p : SubmissionEntry → Bool)
      → count_if p (sorted_entries visit m) ≡ count_if (λ e. p (entry_of e)) m
  unfolding sorted_entries
  count_sorted p =
      let entries = map entry_of (visit m) in
      rw (count_if-sort_rounds p (length entries - 1) entries, count_if-map p entry_of (visit m))
        (visits (λ e. p (entry_of e)) m)

  length-sorted : length (sorted_entries visit m) ≡ length m
  length-sorted =
      rw (← length-count_if (sorted_entries visit m), count_sorted (λ _. true)) (length-count_if m)

  sorted_entries-IsSorted : IsSorted (sorted_entries visit m)
  unfolding sorted_entries
  sorted_entries-IsSorted =
      let entries = map entry_of (visit m) in
      sort_rounds-IsSorted (length entries - 1) entries (omega arith)

  count_names : (k : Text) → count_if (names k) (sorted_entries visit m) ≡ count_if (key_is k) m
  unfolding entry_of
  count_names k = count_sorted (names k)

  count_prefix :
      (n : ℕ) (k : Text)
      → count_if (names k) (take n (sorted_entries visit m)) ≤ count_if (key_is k) m
  count_prefix n k =
      omega (arith, count_take-drop (names k) n (sorted_entries visit m), count_names k)

  -- An entry stands with its time where its name stands.
  stands_with_name :
      (n : ℕ) (k : Text) (sub : ProcessedSubmission)
      → get k m ≡ some sub
      → let s = sorted_entries visit m in
        (count_if (names k) (take n s) ≡ count_if (stands k sub.processed_at) (take n s))
        × (count_if (names k) (drop n s) ≡ count_if (stands k sub.processed_at) (drop n s))
        × (count_if (names k) (take n s) + count_if (names k) (drop n s) ≡ 1)
  stands_with_name n k sub g =
      let s = sorted_entries visit m in
      let t = sub.processed_at in
      let there = has-of-get k m sub g in
      ground (
        arith,
        there,
        count_key k m distinct,
        count_names k,
        count_sorted (stands k t),
        count_stands k sub m distinct g,
        count_take-drop (names k) n s,
        count_take-drop (stands k t) n s,
        stands-le-names k t (take n s),
        stands-le-names k t (drop n s),
      )

  -- Of more than 500 submissions 500 are left, in whatever order the map is visited.
  pub length-cleanup : 500 < length m → length (cleanup_old_submissions visit m) ≡ 500
  unfolding cleanup_old_submissions
  length-cleanup h =
      let s = sorted_entries visit m in
      let n = length s - 500 in
      let size : length (take n s) ≡ n = length-take n s (omega arith) in
      ground (arith, size, length-sorted, length-delete_all (take n s) m distinct (count_prefix n))

  -- A submission that is gone was processed no later than any that is left.
  pub cleanup_recent :
      (j k : Text) (s t : ProcessedSubmission)
      → get j m ≡ some s
      → get j (cleanup_old_submissions visit m) ≡ none
      → get k (cleanup_old_submissions visit m) ≡ some t
      → s.processed_at ≤ t.processed_at
  unfolding cleanup_old_submissions
  cleanup_recent j k s t a b c =
      let xs = sorted_entries visit m in
      let n = length xs - 500 in
      let gone = get-delete_all (take n xs) j m in
      let left = get-delete_all (take n xs) k m in
      let g : get k m ≡ some t = ground arith in
      let first : 0 < count_if (names j) (take n xs) = ground arith in
      let second : count_if (names k) (take n xs) ≡ 0 = ground arith in
      let sj = stands_with_name n j s a in
      let sk = stands_with_name n k t g in
      sorted_split j k s.processed_at t.processed_at n xs sorted_entries-IsSorted (omega arith)
        (omega arith)

  pub cleanup-Distinct : Distinct (cleanup_old_submissions visit m)
  unfolding cleanup_old_submissions
  cleanup-Distinct = elim (Bool-cases (leb (length m) 500)) [
    | inl few ↦ rw few distinct
    | inr many ↦
        let xs = sorted_entries visit m in
        rw many (delete_all-Distinct (take (length xs - 500) xs) m distinct)
  ]
