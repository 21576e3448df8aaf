-- ===== src/Finalizer/Progress/Counting.antt =====
-- When the aggregation queue is told of an epoch.
use snapshot_sequencer_valid.Base.{
  ◌∙◌, count_if, count_if-append, sym, zero, ap, ◌≤◌, ◌<◌, inr, inl, text_eqb_iff, true, Bool-cases,
  nat_eqb_iff, false, ◌++◌, ℕ, suc, ◌+◌, Text, text_eq, ◌==◌, if◌then◌else◌, List, [], ◌∷◌, ◌≡◌,
  All, refl, ltb, nat_eqb, ◌&&◌, arith,
}
use snapshot_sequencer_valid.Base.Strings.{text_eqb}
use snapshot_sequencer_valid.Redis.Join.{join}
use snapshot_sequencer_valid.Redis.Keys.{
  KeyBuilder, epoch_parts_completed, epoch_parts_total, aggregation_queue_level1,
}
use snapshot_sequencer_valid.Workers.{update_batch_parts_progress, ready_commands}
use snapshot_sequencer_valid.Finalizer.Progress.{
  Store, State, execute, execute_all, count_part, report, finish_part, finish_parts, Step, Reach,
  count, reports, here, next, begin,
}

append-eqb : (s a b : Text) → text_eqb (s ++ a) (s ++ b) ≡ text_eqb a b
unfolding text_eqb
append-eqb [] a b = refl
append-eqb (c ∷ s) a b = ground (arith, nat_eqb_iff c c, append-eqb s a b)

-- A report tells the queue where the answer is the number of the parts.
abbrev pub told : ℕ → ℕ → ℕ → ℕ
told total answer n = if nat_eqb answer total && ltb 0 total then suc n else n

-- How often the queue was told after so many parts.
abbrev pub told_all : ℕ → ℕ → ℕ
told_all total n = if nat_eqb n total then 1 else 0

module _ (kb : KeyBuilder) (epoch : Text) where
  total_key : (epoch_parts_total kb epoch == epoch_parts_completed kb epoch) ≡ false
  unfolding epoch_parts_total epoch_parts_completed join text_eqb
  total_key = rw (append-eqb kb.protocol_state, append-eqb kb.data_market, append-eqb epoch) refl

  same_key : (k : Text) → (k == k) ≡ true
  same_key k = (text_eqb_iff k k).1 refl

  pub count_part_lem :
      (s : Store) → count_part kb epoch s ≡ record s { completed = suc s.completed }
  unfolding count_part execute
  count_part_lem s = rw (same_key (epoch_parts_completed kb epoch)) refl

  pub report_lem :
      (now total answer : ℕ) (s : Store)
      → report kb epoch now total answer s
        ≡ record { completed = answer; announced = told total answer s.announced }
  unfolding report execute_all execute update_batch_parts_progress ready_commands
  report_lem now total answer s = elim (Bool-cases (nat_eqb answer total && ltb 0 total)) [
    | inl done ↦
        rw
          (
            done,
            same_key (epoch_parts_completed kb epoch),
            total_key,
            same_key (aggregation_queue_level1 kb),
          )
          refl
    | inr more ↦ rw (more, same_key (epoch_parts_completed kb epoch), total_key) refl
  ]

  none_told : (total : ℕ) → 0 < total → told_all total 0 ≡ 0
  none_told total h = ground (arith, nat_eqb_iff 0 total)

  told_step :
      (total n : ℕ) → suc n ≤ total → told total (suc n) (told_all total n) ≡ told_all total (suc n)
  told_step total n h = ground (arith, nat_eqb_iff n total, nat_eqb_iff (suc n) total)

  finish_part_lem :
      (now total : ℕ) (s : Store)
      → finish_part kb epoch now total s ≡ record {
        completed = suc s.completed;
        announced = told total (suc s.completed) s.announced;
      }
  unfolding finish_part
  finish_part_lem now total s =
      rw
        (
          count_part_lem s,
          report_lem now total (suc s.completed) (record s { completed = suc s.completed }),
        )
        refl

  -- Parts that are finished one after the other, without another finalizer's commands in between, are told to the
  -- aggregation queue exactly once, with the last of them.
  pub finish_parts_announced :
      (now total n : ℕ)
      → 0 < total
      → n ≤ total
      → finish_parts kb epoch now total n (record { completed = 0; announced = 0 })
        ≡ record { completed = n; announced = told_all total n }
  unfolding finish_parts
  finish_parts_announced now total zero h k =
      ap (λ a. record { completed = 0; announced = a }) (sym (none_told total h))
  finish_parts_announced now total (suc n) h k =
      ap (finish_part kb epoch now total) (finish_parts_announced now total n h (omega arith))
      ∙ finish_part_lem now total (record { completed = n; announced = told_all total n })
      ∙ ap (λ a. record { completed = suc n; announced = a }) (told_step total n k)

  told_all_late : (total n : ℕ) → n < total → told_all total n ≡ 0
  told_all_late total n h = ground (arith, nat_eqb_iff n total)

  told_all_once : (total n : ℕ) → told_all total n ≤ 1
  told_all_once total n = ground arith

  told_bound : (total answer n : ℕ) → told total answer n ≤ told_all total answer + n
  told_bound total answer n = ground arith

  -- How many of the answers are the number of the parts.
  abbrev last_answers : ℕ → List ℕ → ℕ
  last_answers total ns = count_if (λ n. nat_eqb n total) ns

  last_answers-append :
      (total : ℕ) (before : List ℕ) (answer : ℕ) (after : List ℕ)
      → last_answers total (before ++ answer ∷ after)
        ≡ told_all total answer + last_answers total (before ++ after)
  last_answers-append total before answer after = omega (
    arith,
    count_if-append (λ n. nat_eqb n total) before (answer ∷ after),
    count_if-append (λ n. nat_eqb n total) before after,
  )

  All-take_out :
      (P : ℕ → Type 0) (before : List ℕ) (answer : ℕ) (after : List ℕ)
      → All P (before ++ answer ∷ after)
      → P answer × All P (before ++ after)
  All-take_out P [] answer after h = h
  All-take_out P (b ∷ before) answer after h =
      let rest = All-take_out P before answer after h.1 in (rest.0, (h.0, rest.1))

  All-weaken : (n : ℕ) (ns : List ℕ) → All (λ a. a ≤ n) ns → All (λ a. a ≤ suc n) ns
  All-weaken n [] h = tt
  All-weaken n (a ∷ ns) h = (omega arith, All-weaken n ns h.1)

  -- Of `total` parts, `counted` are counted: no answer is larger, and the queue is told at most once, after all
  -- of them are counted.
  record IsCounting (total : ℕ) (s : State) : Type 0 where
    counted : ℕ
    counted_sum : counted + s.waiting ≡ total
    completed_counted : s.store.completed ≤ counted
    answered_counted : All (λ a. a ≤ counted) s.answered
    told_late : counted < total → s.store.announced + last_answers total s.answered ≡ 0
    told_once : s.store.announced + last_answers total s.answered ≤ 1

  begin-IsCounting : (total : ℕ) → IsCounting total (begin total)
  begin-IsCounting total = record {
    counted = 0;
    counted_sum = omega arith;
    completed_counted = omega arith;
    answered_counted = tt;
    told_late = λ h. refl;
    told_once = omega arith;
  }

  Step-IsCounting :
      {total : ℕ} {s t : State} → Step kb epoch total s t → IsCounting total s → IsCounting total t
  Step-IsCounting {total = total} (count s n e) i =
      let one = count_part_lem s.store in
      let more = ap (λ (x : Store). x.completed) one in
      let same = ap (λ (x : Store). x.announced) one in
      let none_yet = i.told_late (omega (arith, i.counted_sum, e)) in
      record {
        counted = suc i.counted;
        counted_sum = omega (arith, i.counted_sum, e);
        completed_counted = omega (arith, more, i.completed_counted);
        answered_counted = (
          omega (arith, more, i.completed_counted),
          All-weaken i.counted s.answered i.answered_counted,
        );
        told_late = λ h. omega (
          arith,
          same,
          none_yet,
          told_all_late total (count_part kb epoch s.store).completed
              (omega (arith, more, i.completed_counted)),
        );
        told_once =
            omega
              (arith, same, none_yet, told_all_once total (count_part kb epoch s.store).completed);
      }
  Step-IsCounting {total = total} (reports s now before answer after e) i =
      let tell = told_bound total answer s.store.announced in
      let done = report_lem now total answer s.store in
      let sent = ap (λ (x : Store). x.announced) done in
      let taken =
        All-take_out (λ a. a ≤ i.counted) before answer after (rw e at i.answered_counted) in
      let counts = ap (last_answers total) e ∙ last_answers-append total before answer after in
      record {
        counted = i.counted;
        counted_sum = i.counted_sum;
        completed_counted = omega (arith, ap (λ (x : Store). x.completed) done, taken.0);
        answered_counted = taken.1;
        told_late = λ h. omega (arith, tell, sent, counts, i.told_late h);
        told_once = omega (arith, tell, sent, counts, i.told_once);
      }

  Reach-IsCounting :
      {total : ℕ} {s t : State} → IsCounting total s → Reach kb epoch total s t → IsCounting total t
  Reach-IsCounting i here = i
  Reach-IsCounting i (next r step) = Step-IsCounting step (Reach-IsCounting i r)

  -- In whatever order the finalizers' commands run, the aggregation queue is told at most once of an epoch with
  -- `total` parts, and not before all of its parts are counted.
  pub told_once_late :
      {total : ℕ} {s : State}
      → Reach kb epoch total (begin total) s
      → (s.store.announced ≤ 1) × (0 < s.waiting → s.store.announced ≡ 0)
  told_once_late {total = total} r =
      let i = Reach-IsCounting (begin-IsCounting total) r in
      (omega (arith, i.told_once), λ h. omega (arith, i.told_late (omega (arith, i.counted_sum))))
