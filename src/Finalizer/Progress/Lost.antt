-- ===== src/Finalizer/Progress/Lost.antt =====
-- A race of two finalizers that loses an epoch.
use snapshot_sequencer_valid.Base.{
  ◌≤◌, nat_eqb_iff, ◌++◌, ℕ, zero, suc, ◌+◌, ◌<◌, Text, List, [], ◌∷◌, ◌≡◌, refl, arith,
}
use snapshot_sequencer_valid.Redis.Keys.{KeyBuilder}
use snapshot_sequencer_valid.Finalizer.Progress.{State, Reach, count, reports, here, next, begin}
use snapshot_sequencer_valid.Finalizer.Progress.Counting.{count_part_lem, report_lem, told}

-- Nothing was told to the queue yet.
abbrev untold : ℕ → ℕ → List ℕ → State
untold completed waiting answered = record {
  store = record { completed = completed; announced = 0 };
  waiting = waiting;
  answered = answered;
}

module _ (kb : KeyBuilder) (epoch : Text) (total : ℕ) (start : State) where
  after_count :
      (c n : ℕ) (ns : List ℕ)
      → Reach kb epoch total start (untold c (suc n) ns)
      → Reach kb epoch total start (untold (suc c) n (suc c ∷ ns))
  after_count c n ns r =
      let counted = next r (count (untold c (suc n) ns) n refl) in
      rw (count_part_lem kb epoch (record { completed = c; announced = 0 })) at counted

  not_told : (answer : ℕ) → answer < total → told total answer 0 ≡ 0
  not_told answer h = ground (arith, nat_eqb_iff answer total)

  after_report :
      (c n now : ℕ) (before : List ℕ) (answer : ℕ) (after : List ℕ)
      → answer < total
      → Reach kb epoch total start (untold c n (before ++ answer ∷ after))
      → Reach kb epoch total start (untold answer n (before ++ after))
  after_report c n now before answer after h r =
      let reported =
        next r (reports (untold c n (before ++ answer ∷ after)) now before answer after refl) in
      rw
        (
          report_lem kb epoch now total answer (record { completed = c; announced = 0 }),
          not_told answer h,
        )
        at reported

  -- More parts that are finished one after the other.
  finish_rest :
      (n c : ℕ)
      → n + c < total
      → Reach kb epoch total start (untold c n [])
      → (d : ℕ) × Reach kb epoch total start (untold d 0 [])
  finish_rest zero c h r = (c, r)
  finish_rest (suc n) c h r =
      finish_rest n (suc c) (omega arith)
        (after_report (suc c) n 0 [] (suc c) [] (omega arith) (after_count c n [] r))

-- For an epoch of three parts or more there is an order of the commands in which every part is counted and
-- reported and the aggregation queue is told nothing: the report of an earlier answer sets the counter back.
pub epoch_lost :
    (kb : KeyBuilder) (epoch : Text) (total : ℕ)
    → 3 ≤ total
    → (s : State) × Reach kb epoch total (begin total) s
      × (s.waiting ≡ 0)
      × (s.answered ≡ [])
      × (s.store.announced ≡ 0)
epoch_lost kb epoch (suc (suc (suc n))) h =
    let total = suc (suc (suc n)) in
    let counted =
      after_count kb epoch total (begin total) 1 (suc n) (1 ∷ [])
        (after_count kb epoch total (begin total) 0 (suc (suc n)) [] here) in
    let second =
      after_report kb epoch total (begin total) 2 (suc n) 0 [] 2 (1 ∷ []) (omega arith) counted in
    let first =
      after_report kb epoch total (begin total) 2 (suc n) 0 [] 1 [] (omega arith) second in
    let (d, r) = finish_rest kb epoch total (begin total) (suc n) 1 (omega arith) first in
    (untold d 0 [], r, refl, refl, refl)
epoch_lost kb epoch _ h = absurd (omega arith)
