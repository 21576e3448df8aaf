-- ===== src/Submissions/Cleanup/Effect.antt =====
-- What `cleanupOldSubmissions` leaves: the 500 most recent submissions, whatever the map's order.
use snapshot_sequencer_valid.Base.{
  ℕ, zero, suc, ◌+◌, ◌≤◌, ◌<◌, Text, text_eq, text_eqb_iff, Bool, true, false, ◌&&◌, none, List, [],
  ◌∷◌, ◌≡◌, refl, arith, length, count_if, All, take, drop, if◌then◌else◌, leb, nat_eqb, Bool-cases,
  inl, inr, Map, get, has, del, Distinct, has-del, get-del, length-del, del-Distinct, ◌==◌,
  beq_self, has_nonempty,
}
use snapshot_sequencer_valid.Submissions.Cleanup.{SubmissionEntry, delete_all}
use snapshot_sequencer_valid.Submissions.Cleanup.Order.{IsSorted}

-- The entry of the key `k`; and that with the time `t`.
abbrev pub names : Text → SubmissionEntry → Bool
names k e = e.id == k

abbrev pub stands : Text → ℕ → SubmissionEntry → Bool
stands k t e = (e.id == k) && nat_eqb e.time t

module _ {V : Type 0} where
  abbrev pub key_is : Text → Text × V → Bool
  key_is k (j, _) = j == k

  pub count_absent : (k : Text) (m : Map Text V) → has k m ≡ false → count_if (key_is k) m ≡ 0
  unfolding has
  count_absent k [] h = refl
  count_absent k ((j, v) ∷ m) h = ground (arith, count_absent k m)

  pub count_key :
      (k : Text) (m : Map Text V) → Distinct m → count_if (key_is k) m ≡ (if has k m then 1 else 0)
  unfolding has
  count_key k [] d = refl
  count_key k ((j, v) ∷ m) d = elim (Bool-cases (j == k)) [
    | inl same ↦
        rw same (
          let e : j ≡ k = (text_eqb_iff j k).0 same in
          omega (arith, count_absent k m (rw e at d.0)))
    | inr other ↦ rw other (omega (arith, count_key k m d.1))
  ]

  -- Deleting entries whose names are distinct and present takes away exactly so many.
  pub length-delete_all :
      (xs : List SubmissionEntry) (m : Map Text V)
      → Distinct m
      → ((k : Text) → count_if (names k) xs ≤ count_if (key_is k) m)
      → length (delete_all xs m) + length xs ≡ length m
  unfolding delete_all
  length-delete_all [] m d h = omega arith
  length-delete_all (x ∷ xs) m d h =
      let present : has x.id m ≡ true = ground (arith, h x.id, count_key x.id m d, beq_self x.id) in
      let d' = del-Distinct x.id m d in
      let rest = length-delete_all xs (del x.id m) d' (λ k.
        ground (arith, h k, count_key k m d, count_key k (del x.id m) d', has-del x.id k m)) in
      ground (arith, rest, length-del x.id m d, has_nonempty x.id m present)

  pub delete_all-Distinct :
      (xs : List SubmissionEntry) (m : Map Text V) → Distinct m → Distinct (delete_all xs m)
  unfolding delete_all
  delete_all-Distinct [] m d = d
  delete_all-Distinct (x ∷ xs) m d = delete_all-Distinct xs (del x.id m) (del-Distinct x.id m d)

  pub get-delete_all :
      (xs : List SubmissionEntry) (k : Text) (m : Map Text V)
      → get k (delete_all xs m) ≡ (if leb (count_if (names k) xs) 0 then get k m else none)
  unfolding delete_all
  get-delete_all [] k m = refl
  get-delete_all (x ∷ xs) k m = ground (arith, get-delete_all xs k (del x.id m), get-del x.id k m)

pub count_take-drop :
    (p : SubmissionEntry → Bool) (n : ℕ) (xs : List SubmissionEntry)
    → count_if p (take n xs) + count_if p (drop n xs) ≡ count_if p xs
count_take-drop p zero xs = omega arith
count_take-drop p (suc n) [] = omega arith
count_take-drop p (suc n) (x ∷ xs) = omega (arith, count_take-drop p n xs)

least_of_rest :
    (a t : ℕ) (k : Text) (n : ℕ) (xs : List SubmissionEntry)
    → All (λ y. a ≤ y.time) xs
    → 0 < count_if (stands k t) (drop n xs)
    → a ≤ t
least_of_rest a t k zero (x ∷ xs) h c = elim (Bool-cases (stands k t x)) [
  | inl here ↦ ground arith
  | inr later ↦ least_of_rest a t k zero xs h.1 (ground arith)
]
least_of_rest a t k (suc n) [] h c = absurd (omega arith)
least_of_rest a t k zero [] h c = absurd (omega arith)
least_of_rest a t k (suc n) (x ∷ xs) h c = least_of_rest a t k n xs h.1 c

-- In a sorted list what stands in the first part is not later than what stands in the rest.
pub sorted_split :
    (j k : Text) (s t n : ℕ) (xs : List SubmissionEntry)
    → IsSorted xs
    → 0 < count_if (stands j s) (take n xs)
    → 0 < count_if (stands k t) (drop n xs)
    → s ≤ t
sorted_split j k s t zero xs h c d = absurd (omega arith)
sorted_split j k s t (suc n) [] h c d = absurd (omega arith)
sorted_split j k s t (suc n) (x ∷ xs) h c d = elim (Bool-cases (stands j s x)) [
  | inl here ↦ let le : x.time ≤ t = least_of_rest x.time t k n xs h.0 d in ground arith
  | inr later ↦ sorted_split j k s t n xs h.1 (ground arith) d
]
