-- ===== src/Metrics/Series/Sorted.antt =====
-- The sorted keys of a time series: insertion by position is insertion by recursion.
use snapshot_sequencer_valid.Base.{
  ℕ, ◌<◌, Bool, Bool-cases, true, false, List, [], ◌∷◌, All, drop, leb, nat_eqb, if◌then◌else◌, ◌≡◌,
  refl, arith, sym, inl, inr,
}
use snapshot_sequencer_valid.Metrics.Series.{index_of, insert_sorted, starts_with}

-- Insertion by recursion.
unfoldable pub insert : ℕ → List ℕ → List ℕ
insert key [] = key ∷ []
insert key (s ∷ ss) =
    let rest = insert key ss in
    if leb key s then if nat_eqb s key then s ∷ ss else key ∷ s ∷ ss else s ∷ rest

pub insert_sorted-insert : (key : ℕ) (ss : List ℕ) → insert_sorted key ss ≡ insert key ss
unfolding insert_sorted insert index_of starts_with
insert_sorted-insert key [] = refl
insert_sorted-insert key (s ∷ ss) = elim (Bool-cases (leb key s)) [
  | inl below ↦ rw below refl
  | inr above ↦
      rw (above, sym (insert_sorted-insert key ss))
        (elim (Bool-cases (starts_with key (drop (index_of key ss) ss))) [
          | inl there ↦ rw there refl
          | inr absent ↦ rw absent refl
        ])
]

abbrev pub Ascending : List ℕ → Type 0
Ascending [] = Unit
Ascending (k ∷ ks) = All (λ j. k < j) ks × Ascending ks

unfoldable pub contains : ℕ → List ℕ → Bool
contains k [] = false
contains k (s ∷ ss) = if nat_eqb s k then true else contains k ss

pub contains-insert :
    (key j : ℕ) (ss : List ℕ)
    → contains j (insert key ss) ≡ (if nat_eqb key j then true else contains j ss)
unfolding contains insert
contains-insert key j [] = refl
contains-insert key j (s ∷ ss) = ground (arith, contains-insert key j ss)

All-insert :
    (low key : ℕ) (ss : List ℕ)
    → low < key
    → All (λ j. low < j) ss
    → All (λ j. low < j) (insert key ss)
unfolding insert
All-insert low key [] h a = (h, tt)
All-insert low key (s ∷ ss) h a = elim (Bool-cases (leb key s)) [
  | inr above ↦ rw above (a.0, All-insert low key ss h a.1)
  | inl below ↦
      rw below
        (elim (Bool-cases (nat_eqb s key)) [ inl same ↦ rw same a | inr other ↦ rw other (h, a) ])
]

pub All-trans : (low k : ℕ) (ss : List ℕ) → low < k → All (λ j. k < j) ss → All (λ j. low < j) ss
All-trans low k [] h a = tt
All-trans low k (s ∷ ss) h a = (omega (arith, a.0), All-trans low k ss h a.1)

pub insert-Ascending : (key : ℕ) (ss : List ℕ) → Ascending ss → Ascending (insert key ss)
unfolding insert
insert-Ascending key [] a = (tt, tt)
insert-Ascending key (s ∷ ss) a = elim (Bool-cases (leb key s)) [
  | inr above ↦ rw above (All-insert s key ss (ground arith) a.0, insert-Ascending key ss a.1)
  | inl below ↦ rw below (elim (Bool-cases (nat_eqb s key)) [
    | inl same ↦ rw same a
    | inr other ↦ rw other ((ground arith, All-trans key s ss (ground arith) a.0), a)
  ])
]

pub absent_above : (k : ℕ) (ss : List ℕ) → All (λ j. k < j) ss → contains k ss ≡ false
unfolding contains
absent_above k [] a = refl
absent_above k (s ∷ ss) a = ground (arith, absent_above k ss a.1, a.0)
