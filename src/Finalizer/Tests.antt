-- ===== src/Finalizer/Tests.antt =====
-- Runs of the finalizer on concrete parts, and the theorems at them.
use snapshot_sequencer_valid.Base.{
  ◌≤◌, ◌<◌, ◌≡◌, refl, arith, Text, text_eq, text_eqb, bytes, none, some, List, [], ◌∷◌, Map, get,
  has, put, map, map_option, Distinct, ℤ, pos, pos_part,
}
use snapshot_sequencer_valid.Json.{Json, num, str, obj, field, end, ◌>>=◌}
use snapshot_sequencer_valid.Redis.Keys.{KeyBuilder}
use snapshot_sequencer_valid.Consensus.Visit.{IsVisit}
use snapshot_sequencer_valid.Monitor.Batches.{split_into_batches}
use snapshot_sequencer_valid.Workers.{WorkerMonitor, finalizer}
use snapshot_sequencer_valid.Aggregator.Epoch.{Aggregator, Strconv}
use snapshot_sequencer_valid.Aggregator.Parts.{Conversions, local_batch}
use snapshot_sequencer_valid.Finalizer.Part.{ProjectResult, Finalizer, result_of, project_result}
use snapshot_sequencer_valid.Finalizer.Part.Whole.{stored}
use snapshot_sequencer_valid.Finalizer.Pipeline.{local_batch-winners, projects_of}
use snapshot_sequencer_valid.Finalizer.Worker.{Numbers, not_a_number}
use snapshot_sequencer_valid.Finalizer.Progress.{
  State, Reach, begin, finish_parts, here, next, count, count_part,
}
use snapshot_sequencer_valid.Finalizer.Progress.Counting.{
  finish_parts_announced, told_once_late, told_all,
}
use snapshot_sequencer_valid.Finalizer.Progress.Lost.{epoch_lost}

abbrev in_order {ℓ} : {A : Type ℓ} → A → A
in_order m = m

in_order-IsVisit {ℓ} : {A : Type ℓ} → IsVisit {A = A} (λ m. m)
in_order-IsVisit m d = (d, λ k. refl)

abbrev builder : KeyBuilder
builder = record { protocol_state = bytes "0xp"; data_market = bytes "0xm" }

abbrev aggregator : Aggregator
aggregator = record { sequencer_id = bytes "v1"; key_builder = builder; epoch_timers = [] }

abbrev conversions : Conversions
conversions = record { to_uint32 = pos_part; to_uint64 = pos_part }

abbrev numbers : Strconv
numbers = record { parse_uint = λ s. none; parse_float = λ s. none; print_float = λ s. none }

abbrev submission : Json
submission = obj (
    field (bytes "cid_votes") (obj (field (bytes "c1") (num 1) (field (bytes "c2") (num 2) end)))
      end)

abbrev projects : List (Text × Json)
projects = (bytes "eth", submission) ∷ (bytes "btc", submission) ∷ (bytes "dot", str []) ∷ []

projects-Distinct : Distinct projects
unfolding has text_eqb
projects-Distinct = (refl, (refl, (refl, tt)))

local_batch-winners_example :
    get (bytes "btc") (
      projects_of (
        local_batch
          (λ s. s)
          (λ m. m)
          conversions
          numbers
          5
          aggregator
          none
          9
          (map (λ p. some (stored (λ m. m) p)) (split_into_batches 2 projects))))
    ≡ map_option
        (λ (r : ProjectResult). r.cid)
        (get (bytes "btc") projects >>= project_result (λ m. m))
local_batch-winners_example =
    local_batch-winners (λ s. s) (λ m. m) conversions (λ m. m) 5 aggregator none numbers 9 2
      projects (bytes "btc") in_order-IsVisit (omega arith) projects-Distinct

abbrev votes : Map Text ℤ
votes = (bytes "c1", pos 1) ∷ (bytes "c2", pos 2) ∷ []

votes-Distinct : Distinct votes
unfolding has text_eqb
votes-Distinct = (refl, (refl, tt))

abbrev result : ProjectResult
result = record {
  cid = bytes "c2";
  votes = 2;
  total_votes = pos 3;
  unique_cids = 2;
  submission_metadata = none;
}

chosen : result_of (λ m. m) votes none ≡ some result
unfolding result_of get put text_eqb
chosen = refl

finish_parts_announced_example :
    finish_parts builder (bytes "9") 5 3 3 (record { completed = 0; announced = 0 })
    ≡ record { completed = 3; announced = told_all 3 3 }
finish_parts_announced_example =
    finish_parts_announced builder (bytes "9") 5 3 3 (omega arith) (omega arith)

-- One of three parts is counted.
abbrev counted : State
counted = record {
  store = count_part builder (bytes "9") (record { completed = 0; announced = 0 });
  waiting = 2;
  answered =
      (count_part builder (bytes "9") (record { completed = 0; announced = 0 })).completed ∷ [];
}

counting : Reach builder (bytes "9") 3 (begin 3) counted
counting = next here (count (begin 3) 2 refl)

told_once_late_example :
    (counted.store.announced ≤ 1) × (0 < counted.waiting → counted.store.announced ≡ 0)
told_once_late_example = told_once_late builder (bytes "9") counting

epoch_lost_example :
    (s : State) × Reach builder (bytes "9") 3 (begin 3) s
    × (s.waiting ≡ 0)
    × (s.answered ≡ [])
    × (s.store.announced ≡ 0)
epoch_lost_example = epoch_lost builder (bytes "9") 3 (omega arith)

abbrev worker : WorkerMonitor
worker = record { worker_id = bytes "finalizer-0"; worker_type = finalizer }

abbrev go_numbers : Numbers
go_numbers = record {
  parse_uint = λ s. some 9;
  parse_float = λ s. some not_a_number;
  to_uint64 = λ v. 0;
  print_float = λ v. bytes "9";
}

abbrev part_maker : Finalizer
part_maker = record { key_builder = builder; progress_builder = builder; sequencer_id = bytes "v1" }

abbrev message : List (Text × Json)
message =
    (bytes "epoch_id", str (bytes "9"))
    ∷ (bytes "batch_id", num 0)
    ∷ (bytes "total_batches", num 1)
    ∷ (bytes "projects", obj (field (bytes "eth") submission end))
    ∷ []
