-- ===== src/Votes/Winner.antt =====
-- Which CID wins a count of votes, in whatever order the map is visited.
use snapshot_sequencer_valid.Base.{
  ◌∙◌, false, ◌≢◌, sym, ℕ, ◌≤◌, ◌<◌, Text, text_eq, text_eqb_iff, List, [], ◌∷◌, ◌≡◌, refl, arith,
  All, Map, get, some, ltb, Bool-cases, inl, inr, ◌⊎◌, ◌==◌, has, Distinct, true, ap,
}
use snapshot_sequencer_valid.Votes.{winner, winner_from, or_zero}

-- What the loop keeps is a bound of the votes that it has seen; `top` is the bound at the end.
winner_from-ge :
    (top : ℕ) (best : Text) (most : ℕ) (rest : List (Text × ℕ))
    → top ≡ (winner_from best most rest).1
    → (most ≤ top) × All (λ e. e.1 ≤ top) rest
unfolding winner_from
winner_from-ge top best most [] h = (omega arith, tt)
winner_from-ge top best most ((cid, n) ∷ rest) h = elim (Bool-cases (ltb most n)) [
  | inl more ↦
      let (a, b) = winner_from-ge top cid n rest (rw (more, winner_from) at h) in
      (ground arith, (a, b))
  | inr less ↦
      let (a, b) = winner_from-ge top best most rest (rw (less, winner_from) at h) in
      (a, (ground arith, b))
]

-- The entry stands in the list.
abbrev Listed : Text × ℕ → List (Text × ℕ) → Type 0
Listed e [] = ⊥
Listed e (x ∷ xs) = (x ≡ e) ⊎ Listed e xs

winner_from-Listed :
    (w : Text × ℕ) (best : Text) (most : ℕ) (rest : List (Text × ℕ))
    → w ≡ winner_from best most rest
    → (w ≡ (best, most)) ⊎ Listed w rest
unfolding winner_from
winner_from-Listed w best most [] h = inl h
winner_from-Listed w best most ((cid, n) ∷ rest) h = elim (Bool-cases (ltb most n)) [
  | inl more ↦ first (winner_from-Listed w cid n rest (rw (more, winner_from) at h))
  | inr less ↦ later (winner_from-Listed w best most rest (rw (less, winner_from) at h))
]
  where
    first : (w ≡ (cid, n)) ⊎ Listed w rest → (w ≡ (best, most)) ⊎ (((cid, n) ≡ w) ⊎ Listed w rest)
    first (inl e) = inr (inl (sym e))
    first (inr l) = inr (inr l)

    later :
        (w ≡ (best, most)) ⊎ Listed w rest → (w ≡ (best, most)) ⊎ (((cid, n) ≡ w) ⊎ Listed w rest)
    later (inl e) = inl e
    later (inr l) = inr (inr l)

Listed-has : (e : Text × ℕ) (m : Map Text ℕ) → Listed e m → has e.0 m ≡ true
unfolding has
Listed-has e [] l = elim l [ ]
Listed-has e ((j, n) ∷ m) (inl here) =
    let same : j ≡ e.0 = ap (λ (x : Text × ℕ). x.0) here in ground (arith, text_eqb_iff j e.0)
Listed-has e ((j, n) ∷ m) (inr there) = ground (arith, Listed-has e m there)

Listed-get : (e : Text × ℕ) (m : Map Text ℕ) → Distinct m → Listed e m → get e.0 m ≡ some e.1
unfolding get
Listed-get e [] d l = elim l [ ]
Listed-get e ((j, n) ∷ m) d (inl here) =
    let same : j ≡ e.0 = ap (λ (x : Text × ℕ). x.0) here in
    let count : n ≡ e.1 = ap (λ (x : Text × ℕ). x.1) here in ground (arith, text_eqb_iff j e.0)
Listed-get e ((j, n) ∷ m) d (inr there) = elim (Bool-cases (j == e.0)) [
  | inl same ↦
      let eq : j ≡ e.0 = (text_eqb_iff j e.0).0 same in
      absurd (ground (arith, Listed-has e m there, ap (λ (k : Text). has k m) eq))
  | inr other ↦ rw other (Listed-get e m d.1 there)
]

get-le :
    (top : ℕ) (cid : Text) (m : Map Text ℕ) → All (λ e. e.1 ≤ top) m → or_zero (get cid m) ≤ top
unfolding get
get-le top cid [] h = omega arith
get-le top cid ((j, n) ∷ m) h = ground (arith, get-le top cid m h.1)

-- The winner has the votes that are reported for it, and no CID has more, in whatever order the map
-- is visited; with no vote at all it is the empty CID.
pub winner_most :
    (votes : Map Text ℕ)
    → Distinct votes
    → ((winner votes ≡ ([], 0)) ⊎ (get (winner votes).0 votes ≡ some (winner votes).1))
      × ((cid : Text) → or_zero (get cid votes) ≤ (winner votes).1)
unfolding winner
winner_most votes d = (
  held (winner_from-Listed (winner_from [] 0 votes) [] 0 votes refl),
  λ cid.
      get-le (winner_from [] 0 votes).1 cid votes
        (winner_from-ge (winner_from [] 0 votes).1 [] 0 votes refl).1,
)
  where
    held :
        (winner_from [] 0 votes ≡ ([], 0)) ⊎ Listed (winner_from [] 0 votes) votes
        → (winner_from [] 0 votes ≡ ([], 0))
          ⊎ (get (winner_from [] 0 votes).0 votes ≡ some (winner_from [] 0 votes).1)
    held (inl e) = inl e
    held (inr l) = inr (Listed-get (winner_from [] 0 votes) votes d l)

-- The number that is reported is the winner's own count.
pub winner_count :
    (votes : Map Text ℕ) → Distinct votes → or_zero (get (winner votes).0 votes) ≡ (winner votes).1
winner_count votes d =
    let (held, bound) = winner_most votes d in from_held held (bound (winner votes).0)
  where
    from_held :
        (winner votes ≡ ([], 0)) ⊎ (get (winner votes).0 votes ≡ some (winner votes).1)
        → or_zero (get (winner votes).0 votes) ≤ (winner votes).1
        → or_zero (get (winner votes).0 votes) ≡ (winner votes).1
    from_held (inl e) b =
        let none_left : (winner votes).1 ≡ 0 = ap (λ (x : Text × ℕ). x.1) e in omega arith
    from_held (inr held) b = ap or_zero held

-- A CID with more votes than every other wins, in whatever order the map is visited.
pub winner_strict :
    (votes : Map Text ℕ) (cid : Text) (n : ℕ)
    → Distinct votes
    → get cid votes ≡ some n
    → 0 < n
    → ((j : Text) → j ≢ cid → or_zero (get j votes) < n)
    → winner votes ≡ (cid, n)
winner_strict votes cid n d g p h =
    let (held, bound) = winner_most votes d in
    let most : n ≤ (winner votes).1 = rw g at (bound cid) in
    from_held most held (Bool-cases ((winner votes).0 == cid))
  where
    from_held :
        n ≤ (winner votes).1
        → (winner votes ≡ ([], 0)) ⊎ (get (winner votes).0 votes ≡ some (winner votes).1)
        → ((winner votes).0 == cid ≡ true) ⊎ ((winner votes).0 == cid ≡ false)
        → winner votes ≡ (cid, n)
    from_held most (inl e) c =
        let none_left : (winner votes).1 ≡ 0 = ap (λ (x : Text × ℕ). x.1) e in absurd (omega arith)
    from_held most (inr held) (inl same) =
        let e : (winner votes).0 ≡ cid = (text_eqb_iff (winner votes).0 cid).0 same in
        let same_get : some n ≡ some (winner votes).1 =
          sym g ∙ sym (ap (λ (k : Text). get k votes) e) ∙ held in
        let count : n ≡ (winner votes).1 = ap or_zero same_get in λ i. (e i, sym count i)
    from_held most (inr held) (inr other) =
        let less : or_zero (get (winner votes).0 votes) < n =
          h (winner votes).0 (λ e. ground (arith, text_eqb_iff (winner votes).0 cid)) in
        let less1 : (winner votes).1 < n = rw held at less in absurd (omega arith)
