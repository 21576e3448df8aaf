-- ===== src/Monitor/Windows/Calls.antt =====
-- The functions of the window manager as runs of the interleaved machine.
use snapshot_sequencer_valid.Base.{
  ℕ, ◌≡◌, refl, Text, some, List, Bool-cases, Option-cases, inl, inr, arith,
}
use snapshot_sequencer_valid.Redis.Command.{Command}
use snapshot_sequencer_valid.Monitor.Collect.{ProjectSubmissions}
use snapshot_sequencer_valid.Monitor.Windows.{
  WindowManager, EpochWindow, Payload, is_window_open, try_acquire, remove_window, release,
  get_key_builder, start_submission_window, close_window,
}
use snapshot_sequencer_valid.Monitor.Windows.Interleaving.{
  Starter, idle, look, take, insert, fire, give, build, Reach, here, next,
}

-- A call of StartSubmissionWindow that nothing interrupts is a run of the machine.
pub start_submission_window-Reach :
    (wm : WindowManager) (n d : ℕ) (market : Text) (epoch duration start_block now : ℕ)
    → Reach
        (record { manager = wm; starter = idle; closing = n; dropped = d })
        (record {
          manager = (start_submission_window wm market epoch duration start_block now).1;
          starter = idle;
          closing = n;
          dropped = d;
        })
unfolding start_submission_window
start_submission_window-Reach wm n d market epoch duration start_block now =
    elim (Bool-cases (is_window_open wm market epoch)) [
      | inl active ↦ rw active here
      | inr shut ↦ elim (Option-cases (try_acquire wm)) [
        | inl full ↦ rw (shut, full) here
        | inr (m, room) ↦
            let w : EpochWindow = record {
              epoch_id = epoch;
              data_market_address = market;
              start_time = now;
              window_duration = duration;
              start_block_num = start_block;
            } in
            rw (shut, room)
              (next
                (next (next (next here (look _ w refl shut)) (take _ w m refl room))
                  (insert _ w refl))
                (build _ market))
      ]
    ]

-- A call of closeWindow that nothing interrupts is a run of the machine.
pub close_window-Reach :
    (wm wm' : WindowManager) (st : Starter) (n d : ℕ) (market : Text) (epoch now : ℕ)
    (projects : List (Text × ProjectSubmissions)) (cs : List (Command Payload))
    → close_window wm market epoch now projects ≡ some (wm', cs)
    → Reach
        (record { manager = wm; starter = st; closing = n; dropped = d })
        (record { manager = wm'; starter = st; closing = n; dropped = d })
unfolding close_window
close_window-Reach wm wm' st n d market epoch now projects cs h =
    elim (Option-cases (remove_window market epoch wm)) [
      | inl absent ↦ let e : wm ≡ wm' = ground arith in rw (← e) here
      | inr ((w, m), there) ↦ elim (Option-cases (release m)) [
        | inl waits ↦ absurd (ground arith)
        | inr (m', token) ↦
            let e : (get_key_builder m' market).1 ≡ wm' = ground arith in
            rw (← e) (
              next (next (next here (fire _ market epoch w m there)) (give _ n m' refl token))
                (build _ market))
      ]
    ]
