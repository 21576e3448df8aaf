-- ===== src/Finalizer/Progress.antt =====
-- How the finalizers of an epoch count its parts: the INCR of processBatchPart (cmd/unified/main.go)
-- and the pipeline of UpdateBatchPartsProgress (pkgs/workers/monitoring.go) that follows it. Redis runs
-- the commands of the finalizers in some interleaving. Of Redis this holds the counter of the epoch
-- and how many entries the aggregation queue was given; the keys do not expire meanwhile,
-- and both commands are sent under the keys of one KeyBuilder, as they are where the first data market
-- is configured.
pub mod Counting
pub mod Lost
use snapshot_sequencer_valid.Base.{
  ◌++◌, ℕ, zero, suc, ◌+◌, Text, text_eq, ◌==◌, if◌then◌else◌, List, [], ◌∷◌, ◌≡◌,
}
use snapshot_sequencer_valid.Redis.Command.{Command, set, incr, lpush}
use snapshot_sequencer_valid.Redis.Keys.{
  KeyBuilder, epoch_parts_completed, aggregation_queue_level1,
}
use snapshot_sequencer_valid.Workers.{Payload, number, update_batch_parts_progress}

pub record Store : Type 0 where
  pub completed : ℕ
  pub announced : ℕ

-- The finalizers of an epoch: the parts that are not counted yet, and the answers of INCR that
-- their finalizers have not reported yet.
pub record State : Type 0 where
  pub store : Store
  pub waiting : ℕ
  pub answered : List ℕ

abbrev pub begin : ℕ → State
begin total = record {
  store = record { completed = 0; announced = 0 };
  waiting = total;
  answered = [];
}

module _ (kb : KeyBuilder) (epoch : Text) where
  unfoldable pub execute : Command Payload → Store → Store
  execute (set key (number n) _) s =
      if key == epoch_parts_completed kb epoch then record s { completed = n } else s
  execute (incr key) s =
      if key == epoch_parts_completed kb epoch then record s { completed = suc s.completed } else s
  execute (lpush key _) s =
      if key == aggregation_queue_level1 kb then record s { announced = suc s.announced } else s
  execute _ s = s

  unfoldable pub execute_all : List (Command Payload) → Store → Store
  unfolding execute
  execute_all [] s = s
  execute_all (c ∷ cs) s = execute_all cs (execute c s)

  -- completed, _ := s.redisClient.Incr(ctx, completedKey).Result()
  unfoldable pub count_part : Store → Store
  unfolding execute
  count_part s = execute (incr (epoch_parts_completed kb epoch)) s

  unfoldable pub report : ℕ → ℕ → ℕ → Store → Store
  unfolding execute_all
  report now total completed s =
      execute_all (update_batch_parts_progress kb now epoch completed total) s

  -- The two, with no other finalizer in between.
  unfoldable pub finish_part : ℕ → ℕ → Store → Store
  unfolding count_part report
  finish_part now total s = let counted = count_part s in report now total counted.completed counted

  -- So many parts, each finished before the next is counted.
  unfoldable pub finish_parts : ℕ → ℕ → ℕ → Store → Store
  unfolding finish_part
  finish_parts now total zero s = s
  finish_parts now total (suc n) s = finish_part now total (finish_parts now total n s)

  pub data Step (total : ℕ) : State → State → Type 0 where
    count :
        (s : State) (n : ℕ)
        → s.waiting ≡ suc n
        → Step total s (record s {
          store = count_part s.store;
          waiting = n;
          answered = (count_part s.store).completed ∷ s.answered;
        })
    reports :
        (s : State) (now : ℕ) (before : List ℕ) (answer : ℕ) (after : List ℕ)
        → s.answered ≡ before ++ answer ∷ after
        → Step total s
            (record s { store = report now total answer s.store; answered = before ++ after })

  pub data Reach (total : ℕ) (s : State) : State → Type 0 where
    here : Reach total s s
    next : {t u : State} → Reach total s t → Step total t u → Reach total s u
