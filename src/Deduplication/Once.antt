-- ===== src/Deduplication/Once.antt =====
-- However many deduplicators share a Redis, a key is new once in its lifetime. `left` is how long a key
-- still lives in Redis, 0 where it is absent; what is assumed of SETNX and of the passing of time is what
-- Redis documents.
use snapshot_sequencer_valid.Base.{
  ℕ, ◌+◌, ◌-◌, ◌≤◌, ◌<◌, Text, text_eq, text_eqb_iff, Bool, true, false, List, [], ◌∷◌, count_if,
  if◌then◌else◌, nat_eqb, ◌==◌, ◌≡◌, refl, arith, Bool-cases, inl, inr,
}
use snapshot_sequencer_valid.Deduplication.{
  SetNx, was_set, already_set, failed, Marked, is_new, full_key, marked_by, check_and_mark, run,
}

module _ {S : Type 0} (set_nx : Text → ℕ → S → SetNx × S) (pass : ℕ → S → S)
    (left : Text → S → ℕ) where
  -- A key is set only where it is absent, and then lives as long as it is told; another call takes nothing
  -- of its life, and time takes as much as passes.
  pub record IsSetNx : Type 0 where
    pub set_absent : (k : Text) (ttl : ℕ) (s : S) → (set_nx k ttl s).0 ≡ was_set → left k s ≡ 0
    pub set_present :
        (k : Text) (ttl : ℕ) (s : S)
        → (set_nx k ttl s).0 ≡ was_set
        → left k (set_nx k ttl s).1 ≡ ttl
    pub keeps : (j k : Text) (ttl : ℕ) (s : S) → left j s ≤ left j (set_nx k ttl s).1
    pub ages : (k : Text) (time : ℕ) (s : S) → left k (pass time s) ≡ left k s - time

-- The answer says that the key is new.
abbrev pub says_new : Text → Text × Marked → Bool
says_new k (j, is_new) = j == k
says_new k (j, _) = false

-- The time that passes before and between the calls.
unfoldable pub elapsed : List (ℕ × ℕ × Text) → ℕ
elapsed [] = 0
elapsed ((wait, _, _) ∷ calls) = wait + elapsed calls

module _ {S C : Type 0} (set_nx : Text → ℕ → S → SetNx × S) (pass : ℕ → S → S) (left : Text → S → ℕ)
    (contains : Text → C → Bool) (add : Text → C → C) (ttl : ℕ)
    (law : IsSetNx set_nx pass left) where
  abbrev call : Text → C → S → Marked × C × S
  call key c s = check_and_mark set_nx contains add ttl key c s

  abbrev marked : SetNx × S → Text → C → Marked × C × S
  marked r key c = marked_by set_nx contains add ttl r key c

  held_answer :
      (k key : Text) (n : ℕ) (r : SetNx × S) (c : C)
      → (r.0 ≡ was_set → (key == k) ≡ false)
      → n ≤ left (full_key k) r.1
      → (says_new k (key, (marked r key c).0) ≡ false) × (n ≤ left (full_key k) (marked r key c).2)
  unfolding marked_by
  held_answer k key n (was_set, s) c other h = (other refl, h)
  held_answer k key n (already_set, s) c other h = (refl, h)
  held_answer k key n (failed, s) c other h = (refl, h)

  -- A call while a key lives: the key is not new, and loses nothing of its life.
  held_call :
      (k key : Text) (n : ℕ) (c : C) (s : S)
      → 0 < n
      → n ≤ left (full_key k) s
      → (says_new k (key, (call key c s).0) ≡ false) × (n ≤ left (full_key k) (call key c s).2)
  unfolding check_and_mark
  held_call k key n c s some_life h = elim (Bool-cases (contains key c)) [
    | inl cached ↦ rw cached (refl, h)
    | inr uncached ↦ rw uncached (
        held_answer k key n (set_nx (full_key key) ttl s) c differs
          (omega (arith, law.keeps (full_key k) (full_key key) ttl s)))
  ]
    where
      differs : (set_nx (full_key key) ttl s).0 ≡ was_set → (key == k) ≡ false
      differs set = elim (Bool-cases (key == k)) [
        | inl same ↦
            let e : key ≡ k = (text_eqb_iff key k).0 same in
            let absent : left (full_key k) s ≡ 0 =
              rw e at (law.set_absent (full_key key) ttl s set) in
            absurd (omega arith)
        | inr other ↦ other
      ]

  new_answer :
      (k key : Text) (r : SetNx × S) (c : C)
      → (r.0 ≡ was_set → left (full_key key) r.1 ≡ ttl)
      → says_new k (key, (marked r key c).0) ≡ true
      → left (full_key k) (marked r key c).2 ≡ ttl
  unfolding marked_by
  new_answer k key (was_set, s) c present n =
      let e : key ≡ k = (text_eqb_iff key k).0 n in rw e at (present refl)
  new_answer k key (already_set, s) c present n = absurd (cc)
  new_answer k key (failed, s) c present n = absurd (cc)

  -- A call that says that a key is new leaves it in Redis with its whole life.
  new_call :
      (k key : Text) (c : C) (s : S)
      → says_new k (key, (call key c s).0) ≡ true
      → left (full_key k) (call key c s).2 ≡ ttl
  unfolding check_and_mark
  new_call k key c s n = elim (Bool-cases (contains key c)) [
    | inl cached ↦ let none_new : false ≡ true = rw cached at n in absurd (cc)
    | inr uncached ↦ rw uncached (
        new_answer k key (set_nx (full_key key) ttl s) c (law.set_present (full_key key) ttl s)
          (rw uncached at n))
  ]

  abbrev answers : List (ℕ × ℕ × Text) → (ℕ → C) → S → List (Text × Marked)
  answers calls caches s = run set_nx contains add ttl pass calls caches s

  held_run :
      (k : Text) (calls : List (ℕ × ℕ × Text)) (caches : ℕ → C) (s : S)
      → elapsed calls < left (full_key k) s
      → count_if (says_new k) (answers calls caches s) ≡ 0
  unfolding run elapsed
  held_run k [] caches s h = refl
  held_run k ((wait, i, key) ∷ calls) caches s h =
      let s' = pass wait s in
      let aged = law.ages (full_key k) wait s in
      let (old, stays) =
        held_call k key (left (full_key k) s') (caches i) s' (omega arith) (omega arith) in
      let rest =
        held_run k calls (λ j. if nat_eqb j i then (call key (caches i) s').1 else caches j)
          (call key (caches i) s').2 (omega arith) in
      rw (old, rest) (omega arith)

  -- Whatever the calls of however many deduplicators, in whatever order Redis serves them, and whatever
  -- their caches say: where less time passes with them than the lifetime of a key, at most one answer says
  -- that a key is new.
  pub new_once :
      (k : Text) (calls : List (ℕ × ℕ × Text)) (caches : ℕ → C) (s : S)
      → elapsed calls < ttl
      → count_if (says_new k) (run set_nx contains add ttl pass calls caches s) ≤ 1
  unfolding run elapsed
  new_once k [] caches s h = omega arith
  new_once k ((wait, i, key) ∷ calls) caches s h =
      let s' = pass wait s in
      let caches' : ℕ → C = λ j. if nat_eqb j i then (call key (caches i) s').1 else caches j in
      elim (Bool-cases (says_new k (key, (call key (caches i) s').0))) [
        | inl new ↦
            let whole = new_call k key (caches i) s' new in
            let rest = held_run k calls caches' (call key (caches i) s').2 (omega arith) in
            rw (new, rest) (omega arith)
        | inr old ↦
            let rest = new_once k calls caches' (call key (caches i) s').2 (omega arith) in
            rw old (omega (arith, rest))
      ]
