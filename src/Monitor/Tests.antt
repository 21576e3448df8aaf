-- ===== src/Monitor/Tests.antt =====
-- Runs of the event monitor on concrete inputs, and the theorems at them.
use snapshot_sequencer_valid.Base.{
  true, ◌^◌, All, ℕ, ◌≤◌, ◌<◌, ◌≡◌, ◌&&◌, refl, arith, Text, text_eq, text_eqb, bytes, decimal,
  Option, none, some, List, [], ◌∷◌, length, get, has, put, del, count_if, ltb, leb, if◌then◌else◌,
  pos,
}
use snapshot_sequencer_valid.Json.{Json, str, obj, end, field}
use snapshot_sequencer_valid.Redis.Command.{Command}
use snapshot_sequencer_valid.Monitor.Collect.{ProjectSubmissions, read, collect_epoch_submissions}
use snapshot_sequencer_valid.Votes.{or_zero}
use snapshot_sequencer_valid.Monitor.Collect.Counts.{
  project_of, votes_for, signed_for, collect_counts,
}
use snapshot_sequencer_valid.Monitor.Windows.{
  WindowManager, Payload, start_submission_window, close_window, is_window_open, try_acquire,
  insert_window, remove_window, release, get_key_builder,
}
use snapshot_sequencer_valid.Monitor.Windows.Interleaving.{
  State, idle, Reach, IsBalanced, next, fire, Reach-IsBalanced,
}
use snapshot_sequencer_valid.Monitor.Windows.Calls.{start_submission_window-Reach}
use snapshot_sequencer_valid.Monitor.Windows.Cycle.{
  IsCache, queued, own_builder, opened_then_closed,
}
use snapshot_sequencer_valid.Redis.Keys.{finalization_queue}
use snapshot_sequencer_valid.Monitor.Poll.{check_for_new_events, after_query}
use snapshot_sequencer_valid.Monitor.Poll.Ranges.{Answers, IsHead, contains, polls, polls_cover}

abbrev record_of : Text → Text → Text → Json
record_of project cid submitter = obj (
    field (bytes "SnapshotterAddr") (str submitter) (
      field (bytes "Submission")
        (obj (
          field (bytes "request")
            (obj
              (field (bytes "projectId") (str project) (field (bytes "snapshotCid") (str cid) end)))
            end))
        end))

-- Two votes, of which one has no submitter, a record of another project, and a GET that failed.
abbrev records : List (Option Json)
records =
    some (record_of (bytes "eth") (bytes "c1") (bytes "0xa"))
    ∷ some (record_of (bytes "eth") (bytes "c1") [])
    ∷ none
    ∷ some (record_of (bytes "btc") (bytes "c2") (bytes "0xb"))
    ∷ []

votes_without_submitter :
    (count_if (votes_for (bytes "eth") (bytes "c1")) records ≡ 2)
    × (count_if (signed_for (bytes "eth")) records ≡ 1)
unfolding read get text_eqb
votes_without_submitter = (refl, refl)

collect_counts_example :
    (or_zero (
        get
          (bytes "c1")
          (project_of (bytes "eth") (collect_epoch_submissions 9 (some records))).cid_votes)
      ≡ count_if (votes_for (bytes "eth") (bytes "c1")) records)
    × (length
          (project_of
            (bytes "eth")
            (collect_epoch_submissions 9 (some records))).submission_metadata
        ≡ count_if (signed_for (bytes "eth")) records)
collect_counts_example = collect_counts 9 (bytes "eth") (bytes "c1") records

abbrev three : List ℕ
three = 1 ∷ 2 ∷ 3 ∷ []

abbrev manager : WindowManager
manager = record {
  active_windows = [];
  semaphore = 0;
  max_windows = 2;
  protocol_state = bytes "0xp";
  finalization_batch_size = pos 0;
  key_builders = [];
}

abbrev market : Text
market = bytes "0xm"

-- The manager with the window of epoch 5 open.
abbrev opened : WindowManager
opened = (start_submission_window manager market 5 60 100 1).1

start : State
start = record { manager = manager; starter = idle; closing = 0; dropped = 0 }

start-IsBalanced : IsBalanced start
unfolding start
start-IsBalanced = record { distinct = tt; balance = refl; bounded = omega arith; new = refl }

program : Unit {0}
unfolding start_submission_window close_window is_window_open try_acquire insert_window
    remove_window release get_key_builder get has put del text_eqb start check_for_new_events
    after_query polls
program = tt

Reach-IsBalanced_example :
    IsBalanced (record { manager = opened; starter = idle; closing = 0; dropped = 0 })
unfolding start
Reach-IsBalanced_example =
    Reach-IsBalanced start-IsBalanced (start_submission_window-Reach manager 0 0 market 5 60 100 1)

-- The manager after the window's timer has taken it out.
abbrev emptied : WindowManager
emptied = record opened { active_windows = [] }

closing_run : Reach start (record { manager = emptied; starter = idle; closing = 1; dropped = 0 })
unfolding program
closing_run = next (start_submission_window-Reach manager 0 0 market 5 60 100 1) (
    fire (record { manager = opened; starter = idle; closing = 0; dropped = 0 }) market 5 _ emptied
      refl)

abbrev closed : WindowManager
closed = record emptied { semaphore = 0 }

closes : (cs : List (Command Payload)) × (close_window opened market 5 61 [] ≡ some (closed, cs))
unfolding program
closes = (_, refl)

-- A node that first fails, then is 1500 blocks ahead.
abbrev answers : List Answers
answers =
    record { head = none; logs = λ q. some [] }
    ∷ record { head = some 1500; logs = λ q. some [] }
    ∷ record { head = some 1500; logs = λ q. none }
    ∷ record { head = some 1500; logs = λ q. some [] }
    ∷ []

ahead : (c : ℕ) → ◌≡◌ {A = Option ℕ} (some 1500) (some c) → c < 2 ^ 63
ahead c h = ground arith

heads : All IsHead answers
heads = (λ c h. cc, (ahead, (ahead, (ahead, tt))))

polls_cover_example :
    (0 ≤ (polls decimal (market ∷ []) 0 answers).0)
    × (count_if (contains 1200) (polls decimal (market ∷ []) 0 answers).1
        ≡ (if ltb 0 1200 && leb 1200 (polls decimal (market ∷ []) 0 answers).0 then 1 else 0))
polls_cover_example = polls_cover decimal (market ∷ []) 0 1200 answers heads

polls_reach : (polls decimal (market ∷ []) 0 answers).0 ≡ 1500
unfolding program
polls_reach = refl

abbrev eth : List (Text × ProjectSubmissions)
eth =
    (
      bytes "eth",
      record { cid_votes = (bytes "c1", 2) ∷ []; total_submissions = 1; submission_metadata = [] },
    )
    ∷ []

manager-IsCache : IsCache manager market
unfolding get
manager-IsCache = record { own = λ kb found. absurd (cc) }

opened_then_closed_example :
    let (error, opened, sent) = start_submission_window manager market 5 60 100 1 in
    (closed : WindowManager) × (cs : List (Command Payload)) × (error ≡ none)
    × (is_window_open opened market 5 ≡ true)
    × (close_window opened market 5 61 eth ≡ some (closed, cs))
    × (closed.active_windows ≡ manager.active_windows)
    × (closed.semaphore ≡ manager.semaphore)
    × (queued (finalization_queue (own_builder manager market)) 5 market cs ≡ eth)
unfolding is_window_open get has
opened_then_closed_example =
    opened_then_closed manager market 5 60 100 1 61 eth manager-IsCache refl (omega arith)
