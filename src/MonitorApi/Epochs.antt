-- ===== src/MonitorApi/Epochs.antt =====
-- cmd/monitor-api/main.go: EpochsTimeline.
use snapshot_sequencer_valid.Base.{
  ℕ, zero, suc, ◌+◌, ◌≤◌, Text, text_eq, text_eqb_iff, bytes, Bool, false, ◌||◌, Option, none, some,
  List, [], ◌∷◌, ◌++◌, Map, get, take, length, count_if, if◌then◌else◌, ◌==◌, ◌≡◌, refl, arith,
}
use snapshot_sequencer_valid.Redis.Join.{split}
use snapshot_sequencer_valid.Votes.{or_nil}

pub record EpochInfo : Type 0 where
  pub epoch_id : Text
  pub status : Text
  pub phase : Text
  pub start_time : ℕ
  pub duration : ℕ
  pub data_market : Text
  pub level1_batch : Bool
  pub level2_batch : Bool

contains : Text → List Text → Bool
contains t [] = false
contains t (x ∷ xs) = (x == t) || contains t xs

note : List Text → List Text → List Text
unfolding contains
note (_ ∷ epoch ∷ _) order = if contains epoch order then order else order ++ epoch ∷ []
note _ order = order

-- The epochs of the entries, each where it comes first.
unfoldable pub epoch_order : List Text → List Text → List Text
unfolding note split
epoch_order [] order = order
epoch_order (entry ∷ entries) order = epoch_order entries (note (split entry) order)

unfoldable pub phase_of : Text → Bool → Bool → Text
phase_of status level1 level2 =
    if status == bytes "open"
    then bytes "submission"
    else if level2
    then bytes "complete"
    else if level1
    then bytes "aggregation"
    else bytes "finalization"

-- What Redis has of an epoch; the hash is empty where it is not answered.
pub record EpochStore : Type 0 where
  pub info_of : Text → Map Text Text
  pub level1_exists : Text → Bool
  pub level2_exists : Text → Bool

module _ (parse : Text → Option ℕ) (store : EpochStore) where
  open store use {info_of, level1_exists, level2_exists}

  number : Option Text → ℕ
  number none = 0
  number (some s) = elim (parse s) [ none ↦ 0 | some n ↦ n ]

  unfoldable pub epoch_info : Text → EpochInfo
  unfolding number get phase_of
  epoch_info epoch =
      let info = info_of epoch in
      let status = or_nil (get (bytes "status") info) in
      record {
        epoch_id = epoch;
        status = status;
        phase = phase_of status (level1_exists epoch) (level2_exists epoch);
        start_time = number (get (bytes "start") info);
        duration = number (get (bytes "duration") info);
        data_market = or_nil (get (bytes "data_market") info);
        level1_batch = level1_exists epoch;
        level2_batch = level2_exists epoch;
      }

  infos : List Text → List EpochInfo
  unfolding epoch_info
  infos [] = []
  infos (epoch ∷ epochs) = epoch_info epoch ∷ infos epochs

  unfoldable pub epochs_timeline : ℕ → List Text → List EpochInfo
  unfolding epoch_order infos
  epochs_timeline limit entries = infos (take limit (epoch_order entries []))

-- How often a text stands in a list.
abbrev pub occurrences : Text → List Text → ℕ
occurrences t xs = count_if (λ x. x == t) xs

occurrences-append :
    (t x : Text) (xs : List Text)
    → occurrences t (xs ++ x ∷ []) ≡ occurrences t xs + (if x == t then 1 else 0)
occurrences-append t x [] = ground arith
occurrences-append t x (y ∷ xs) = ground (arith, occurrences-append t x xs)

contains-occurrences : (t : Text) (xs : List Text) → contains t xs ≡ false → occurrences t xs ≡ 0
unfolding contains
contains-occurrences t [] h = refl
contains-occurrences t (x ∷ xs) h = ground (arith, contains-occurrences t xs)

note_once :
    (t : Text) (segments order : List Text)
    → occurrences t order ≤ 1
    → occurrences t (note segments order) ≤ 1
unfolding note
note_once t [] order h = h
note_once t (kind ∷ []) order h = h
note_once t (kind ∷ epoch ∷ rest) order h = ground (
  arith,
  occurrences-append t epoch order,
  contains-occurrences epoch order,
  text_eqb_iff epoch t,
)

order_once :
    (t : Text) (entries order : List Text)
    → occurrences t order ≤ 1
    → occurrences t (epoch_order entries order) ≤ 1
unfolding epoch_order
order_once t [] order h = h
order_once t (entry ∷ entries) order h =
    order_once t entries (note (split entry) order) (note_once t (split entry) order h)

occurrences-take :
    (t : Text) (n : ℕ) (xs : List Text) → occurrences t (take n xs) ≤ occurrences t xs
occurrences-take t zero xs = omega arith
occurrences-take t (suc n) [] = omega arith
occurrences-take t (suc n) (x ∷ xs) = omega (arith, occurrences-take t n xs)

length-take : (n : ℕ) (xs : List Text) → length (take n xs) ≤ n
length-take zero xs = omega arith
length-take (suc n) [] = omega arith
length-take (suc n) (x ∷ xs) = omega (arith, length-take n xs)

module _ (parse : Text → Option ℕ) (store : EpochStore) where
  infos-count :
      (t : Text) (epochs : List Text)
      → count_if (λ i. i.epoch_id == t) (infos parse store epochs) ≡ occurrences t epochs
  unfolding infos epoch_info
  infos-count t [] = refl
  infos-count t (epoch ∷ epochs) = ground (arith, infos-count t epochs)

  infos-length : (epochs : List Text) → length (infos parse store epochs) ≡ length epochs
  unfolding infos
  infos-length [] = refl
  infos-length (epoch ∷ epochs) = ground (arith, infos-length epochs)

  -- EpochsTimeline shows an epoch once at most, however often the timeline names it, and no more epochs than the
  -- limit.
  pub epochs_timeline_once :
      (limit : ℕ) (entries : List Text) (t : Text)
      → (count_if (λ i. i.epoch_id == t) (epochs_timeline parse store limit entries) ≤ 1)
        × (length (epochs_timeline parse store limit entries) ≤ limit)
  unfolding epochs_timeline
  epochs_timeline_once limit entries t =
      let order = epoch_order entries [] in
      (
        omega (
          arith,
          infos-count t (take limit order),
          occurrences-take t limit order,
          order_once t entries [] (omega arith),
        ),
        omega (arith, infos-length (take limit order), length-take limit order),
      )
