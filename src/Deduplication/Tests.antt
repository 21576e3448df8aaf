-- ===== src/Deduplication/Tests.antt =====
-- Two deduplicators that share a store of keys, and the theorem at their calls.
use snapshot_sequencer_valid.Base.{
  text_eqb_iff, ltb, ◌-◌, text_eqb, ℕ, ◌≤◌, Text, text_eq, bytes, Bool, false, ◌||◌, List, [], ◌∷◌,
  count_if, if◌then◌else◌, ◌==◌, ◌≡◌, refl, arith, beq_self, Bool-cases, inl, inr,
}
use snapshot_sequencer_valid.Deduplication.{
  SetNx, was_set, already_set, is_new, seen, marked_by, check_and_mark, run,
}
use snapshot_sequencer_valid.Deduplication.Once.{IsSetNx, elapsed, says_new, new_once}

unfoldable member : Text → List Text → Bool
member k [] = false
member k (x ∷ xs) = (x == k) || member k xs

-- The keys with what is left of their lives; one with nothing left is absent.
unfoldable left : Text → List (Text × ℕ) → ℕ
left k [] = 0
left k ((x, n) ∷ xs) = let rest = left k xs in if x == k then n else rest

unfoldable set_nx : Text → ℕ → List (Text × ℕ) → SetNx × List (Text × ℕ)
unfolding left
set_nx k ttl s = if ltb 0 (left k s) then (already_set, s) else (was_set, (k, ttl) ∷ s)

unfoldable pass : ℕ → List (Text × ℕ) → List (Text × ℕ)
pass time [] = []
pass time ((k, n) ∷ s) = (k, n - time) ∷ pass time s

left-pass : (k : Text) (time : ℕ) (s : List (Text × ℕ)) → left k (pass time s) ≡ left k s - time
unfolding left pass
left-pass k time [] = omega arith
left-pass k time ((x, n) ∷ s) = ground (arith, left-pass k time s)

set_nx-IsSetNx : IsSetNx set_nx pass left
unfolding set_nx left
set_nx-IsSetNx = record {
  set_absent = λ k ttl s h. elim (Bool-cases (ltb 0 (left k s))) [
    | inl there ↦ let kept : already_set ≡ was_set = rw there at h in absurd (cc)
    | inr new ↦ ground arith
  ];
  set_present = λ k ttl s h. elim (Bool-cases (ltb 0 (left k s))) [
    | inl there ↦ let kept : already_set ≡ was_set = rw there at h in absurd (cc)
    | inr new ↦ rw (new, beq_self k) refl
  ];
  keeps = λ j k ttl s. elim (Bool-cases (ltb 0 (left k s))) [
    | inl there ↦ rw there (omega arith)
    | inr new ↦ rw new (ground (arith, text_eqb_iff k j))
  ];
  ages = left-pass;
}

abbrev calls : List (ℕ × ℕ × Text)
calls = (5, 0, bytes "a") ∷ (1, 1, bytes "a") ∷ (1, 0, bytes "b") ∷ (2, 0, bytes "a") ∷ []

new_once_example :
    count_if (says_new (bytes "a")) (run set_nx member (λ k c. k ∷ c) 7200 pass calls (λ i. []) [])
    ≤ 1
unfolding elapsed
new_once_example =
    new_once set_nx pass left member (λ k c. k ∷ c) 7200 set_nx-IsSetNx (bytes "a") calls (λ i. [])
      [] (omega arith)

first_is_new :
    run set_nx member (λ k c. k ∷ c) 7200 pass calls (λ i. []) []
    ≡ (bytes "a", is_new) ∷ (bytes "a", seen) ∷ (bytes "b", is_new) ∷ (bytes "a", seen) ∷ []
unfolding run check_and_mark marked_by set_nx member text_eqb left pass
first_is_new = refl
