-- ===== src/MonitorApi/Batches.antt =====
-- cmd/monitor-api/main.go: FinalizedBatches and AggregationResults. A type assertion that fails stops the
-- handler: none.
use snapshot_sequencer_valid.Base.{
  ℕ, suc, ◌≤◌, ◌<◌, ◌⊎◌, inl, inr, Text, text_eq, bytes, Bool, true, false, ◌&&◌, ◌||◌, Option,
  none, some, List, [], ◌∷◌, ◌++◌, take, drop, length, leb, nat_eqb, if◌then◌else◌, ◌==◌, ℤ, ◌≡◌,
  refl, arith,
}
use snapshot_sequencer_valid.Json.{as_int, member}
use snapshot_sequencer_valid.Redis.Join.{split}
use snapshot_sequencer_valid.MonitorApi.Timeline.{Value, json, string_of}

pub data Level : Type 0 where
  local aggregated : Level

pub record BatchView : Type 0 where
  pub epoch_id : Text
  pub level : Level
  pub validator_id : Text
  pub validator_ids : List Text
  pub project_count : ℤ
  pub ipfs_cid : Text
  pub merkle_root : Text
  pub timestamp : ℤ

-- What is read for one key: nothing to show, a panic, or a batch.
pub data Read : Type 0 where
  skipped panics : Read
  read : BatchView → Read

Read-cases : (r : Read) → (r ≡ skipped) ⊎ (r ≡ panics) ⊎ ((b : BatchView) × (r ≡ read b))
Read-cases skipped = inl refl
Read-cases panics = inr (inl refl)
Read-cases (read b) = inr (inr (b, refl))

with_numbers : Option ℤ → Option ℤ → (ℤ → ℤ → BatchView) → Read
with_numbers (some count) (some time) view = read (view count time)
with_numbers _ _ view = panics

unfoldable pub read_level1 : Text → Value → Read
unfolding with_numbers member string_of
read_level1 epoch (json (some m)) =
    with_numbers (member as_int (bytes "project_count") m) (member as_int (bytes "timestamp") m)
      (λ count time. record {
        epoch_id = epoch;
        level = local;
        validator_id = string_of (bytes "validator_id") m;
        validator_ids = [];
        project_count = count;
        ipfs_cid = string_of (bytes "ipfs_cid") m;
        merkle_root = [];
        timestamp = time;
      })
read_level1 epoch _ = skipped

-- `with_names` says whether the CID and the root are read, as FinalizedBatches does.
unfoldable pub read_level2 : Bool → List Text → Text → Value → Read
unfolding with_numbers member string_of
read_level2 with_names validators epoch (json (some m)) =
    with_numbers (member as_int (bytes "project_count") m) (member as_int (bytes "timestamp") m)
      (λ count time. record {
        epoch_id = epoch;
        level = aggregated;
        validator_id = [];
        validator_ids = validators;
        project_count = count;
        ipfs_cid = if with_names then string_of (bytes "ipfs_cid") m else [];
        merkle_root = if with_names then string_of (bytes "merkle_root") m else [];
        timestamp = time;
      })
read_level2 with_names validators epoch _ = skipped

-- What Redis has for an epoch.
pub record BatchStore : Type 0 where
  pub level1_of : Text → Value
  pub level2_of : Text → Value
  pub validators_of : Text → List Text

followed_by : Read → Option (List BatchView) → Option (List BatchView)
followed_by skipped rest = rest
followed_by panics rest = none
followed_by (read b) none = none
followed_by (read b) (some bs) = some (b ∷ bs)

abbrev pub wants_local : ℕ → Bool
wants_local level = nat_eqb level 1 || nat_eqb level 0

abbrev pub wants_aggregated : ℕ → Bool
wants_aggregated level = nat_eqb level 2 || nat_eqb level 0

module _ (store : BatchStore) (level : ℕ) where
  open store use {level1_of, level2_of, validators_of}

  -- FinalizedBatches of one epoch.
  unfoldable pub batches_of_epoch : Text → Option (List BatchView)
  unfolding followed_by read_level1 read_level2
  batches_of_epoch epoch =
      followed_by (if wants_local level then read_level1 epoch (level1_of epoch) else skipped) (
        followed_by
          (if wants_aggregated level
            then read_level2 true (validators_of epoch) epoch (level2_of epoch)
            else skipped)
          (some []))

  read_entry : List Text → Read
  unfolding read_level1 read_level2
  read_entry (kind ∷ epoch ∷ _) =
      if (kind == bytes "local") && wants_local level
      then read_level1 epoch (level1_of epoch)
      else if (kind == bytes "aggregated") && wants_aggregated level
      then read_level2 true (validators_of epoch) epoch (level2_of epoch)
      else skipped
  read_entry _ = skipped

  -- FinalizedBatches of the entries of the timeline.
  unfoldable pub recent_batches : List Text → Option (List BatchView)
  unfolding followed_by read_entry split
  recent_batches [] = some []
  recent_batches (entry ∷ entries) = followed_by (read_entry (split entry)) (recent_batches entries)

-- The text after "aggregated:", if an entry has this prefix.
unfoldable pub aggregated_epoch : Text → Option Text
aggregated_epoch entry = if take 11 entry == bytes "aggregated:" then some (drop 11 entry) else none

or_second : Value → Value → Value
or_second (json m) w = json m
or_second _ w = w

or_names : List Text → List Text → List Text
or_names [] names = names
or_names (n ∷ ns) names = n ∷ ns

module _ (store : BatchStore) (format : Text → Text) (limit : ℕ) where
  open store use {level2_of, validators_of}

  -- The batch of an entry, under its formatted epoch or under the entry's own text.
  read_result : Text → Read
  unfolding or_second or_names read_level2
  read_result original =
      let epoch = format original in
      read_level2 false (or_names (validators_of epoch) (validators_of original)) epoch
        (or_second (level2_of epoch) (level2_of original))

  result_of : Option Text → Read
  unfolding read_result
  result_of none = skipped
  result_of (some original) = read_result original

  -- AggregationResults; `shown` are the batches so far.
  unfoldable pub aggregation_results : List Text → List BatchView → Option (List BatchView)
  unfolding result_of aggregated_epoch
  aggregation_results [] shown = some shown
  aggregation_results (entry ∷ entries) shown =
      let go_on = λ (bs : List BatchView). aggregation_results entries bs in
      elim (result_of (aggregated_epoch entry)) [
        | skipped ↦ go_on shown
        | panics ↦ none
        | read b ↦
            if leb limit (length (shown ++ b ∷ []))
            then some (shown ++ b ∷ [])
            else go_on (shown ++ b ∷ [])
      ]

  length-snoc : (xs : List BatchView) (b : BatchView) → length (xs ++ b ∷ []) ≡ suc (length xs)
  length-snoc [] b = refl
  length-snoc (x ∷ xs) b = ground (arith, length-snoc xs b)

  bounded_go :
      (entries : List Text) (shown bs : List BatchView)
      → length shown < limit
      → aggregation_results entries shown ≡ some bs
      → length bs ≤ limit
  unfolding aggregation_results
  bounded_go [] shown bs room h = ground arith
  bounded_go (entry ∷ entries) shown bs room h =
      elim (Read-cases (result_of (aggregated_epoch entry))) [
        | inl e ↦ bounded_go entries shown bs room (rw (aggregation_results, e) at h)
        | inr (inl e) ↦ absurd (ground (arith, rw (aggregation_results, e) at h))
        | inr (inr (b, e)) ↦ ground (
          arith,
          rw (aggregation_results, e) at h,
          length-snoc shown b,
          bounded_go entries (shown ++ b ∷ []) bs,
        )
      ]

  -- AggregationResults shows no more batches than the positive limit, if it does not stop by a panic.
  pub aggregation_results_bounded :
      (entries : List Text) (bs : List BatchView)
      → 0 < limit
      → aggregation_results entries [] ≡ some bs
      → length bs ≤ limit
  aggregation_results_bounded entries bs positive h = bounded_go entries [] bs positive h
