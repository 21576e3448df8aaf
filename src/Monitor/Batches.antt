-- ===== src/Monitor/Batches.antt =====
-- `splitIntoBatches` of pkgs/eventmonitor/monitor.go. The projects come in the order in which `range`
-- visits the map; keys are distinct, so a batch is the list of what was put into it.
use snapshot_sequencer_valid.Base.{
  ℕ, suc, ◌≤◌, ◌<◌, ◌≡◌, refl, arith, List, [], ◌∷◌, ◌++◌, length, length-append, leb,
  if◌then◌else◌, Bool-cases, inl, inr,
}
use mathlib.Core.List.{append_assoc}

module _ {A : Type 0} where
  -- `if len(currentBatch) > 0 { batches = append(batches, currentBatch) }`
  abbrev close_batch : List A → List (List A)
  close_batch [] = []
  close_batch (x ∷ xs) = (x ∷ xs) ∷ []

  -- The loop, with the current batch and its `count`; what it returns is what is appended from here.
  unfoldable pub split_loop : ℕ → List A → ℕ → List A → List (List A)
  split_loop size batch count [] = close_batch batch
  split_loop size batch count (x ∷ xs) =
      let next = batch ++ x ∷ [] in
      let full = next ∷ split_loop size [] 0 xs in
      let more = split_loop size next (suc count) xs in if leb size (suc count) then full else more

  unfoldable pub split_into_batches : ℕ → List A → List (List A)
  unfolding split_loop
  split_into_batches size xs = split_loop size [] 0 xs

  abbrev pub concat : List (List A) → List A
  concat [] = []
  concat (xs ∷ xss) = xs ++ concat xss

  -- Every batch but the last has `size` projects, and the last has between 1 and `size`.
  abbrev pub IsSplit : ℕ → List (List A) → Type 0
  IsSplit size [] = Unit
  IsSplit size (b ∷ []) = (0 < length b) × (length b ≤ size)
  IsSplit size (b ∷ c ∷ bs) = (length b ≡ size) × IsSplit size (c ∷ bs)

  concat-loop :
      (size : ℕ) (batch : List A) (count : ℕ) (xs : List A)
      → concat (split_loop size batch count xs) ≡ batch ++ xs
  unfolding split_loop
  concat-loop size [] count [] = refl
  concat-loop size (b ∷ bs) count [] = refl
  concat-loop size batch count (x ∷ xs) = elim (Bool-cases (leb size (suc count))) [
    | inl full ↦ rw (full, concat-loop size [] 0 xs) (append_assoc batch (x ∷ []) xs)
    | inr more ↦
        rw (more, concat-loop size (batch ++ x ∷ []) (suc count) xs)
          (append_assoc batch (x ∷ []) xs)
  ]

  cons-IsSplit :
      (size : ℕ) (b : List A) (bs : List (List A))
      → 0 < size
      → length b ≡ size
      → IsSplit size bs
      → IsSplit size (b ∷ bs)
  cons-IsSplit size b [] p e h = (omega arith, omega arith)
  cons-IsSplit size b (c ∷ bs) p e h = (e, h)

  loop-IsSplit :
      (size : ℕ) (batch : List A) (count : ℕ) (xs : List A)
      → count < size
      → length batch ≡ count
      → IsSplit size (split_loop size batch count xs)
  unfolding split_loop
  loop-IsSplit size [] count [] h e = tt
  loop-IsSplit size (b ∷ bs) count [] h e = (omega arith, omega arith)
  loop-IsSplit size batch count (x ∷ xs) h e =
      let grown = length-append batch (x ∷ []) in
      elim (Bool-cases (leb size (suc count))) [
        | inl full ↦ rw full (
            cons-IsSplit size (batch ++ x ∷ []) (split_loop size [] 0 xs) (omega arith)
              (ground arith) (loop-IsSplit size [] 0 xs (omega arith) refl))
        | inr more ↦
            rw more
              (loop-IsSplit size (batch ++ x ∷ []) (suc count) xs (ground arith) (omega arith))
      ]

  -- The batches hold the projects, each once and in the order of the visit, and all but the last are full.
  pub split_into_batches_lem :
      (size : ℕ) (xs : List A)
      → 0 < size
      → (concat (split_into_batches size xs) ≡ xs) × IsSplit size (split_into_batches size xs)
  unfolding split_into_batches
  split_into_batches_lem size xs h = (concat-loop size [] 0 xs, loop-IsSplit size [] 0 xs h refl)
