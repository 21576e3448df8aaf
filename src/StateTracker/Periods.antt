-- ===== src/StateTracker/Periods.antt =====
-- cmd/state-tracker/worker.go: how many events of a timeline a period has, and the periods of a day.
use snapshot_sequencer_valid.Base.{
  ℕ, zero, suc, ◌+◌, ◌*◌, ◌≤◌, ◌&&◌, List, [], ◌∷◌, leb, if◌then◌else◌, ◌≡◌, refl, arith,
}
use snapshot_sequencer_valid.StateTracker.{SortedSet}

-- ZCOUNT key from to, both ends included.
unfoldable pub zcount : ℕ → ℕ → SortedSet → ℕ
zcount from to [] = 0
zcount from to ((score, _) ∷ rest) =
    (if leb from score && leb score to then 1 else 0) + zcount from to rest

abbrev pub hour : ℕ
hour = 3600

-- The hourly breakdown of a day: `n` hours from `start` on, where Redis answers every ZCOUNT; one that fails
-- counts as 0 in the code.
unfoldable pub hourly_breakdown : ℕ → ℕ → SortedSet → List ℕ
unfolding zcount
hourly_breakdown zero start epochs = []
hourly_breakdown (suc n) start epochs =
    zcount start (start + hour) epochs ∷ hourly_breakdown n (start + hour) epochs

unfoldable pub sum : List ℕ → ℕ
sum [] = 0
sum (n ∷ ns) = n + sum ns

-- The events that come exactly at the end of one of the `n` hours from `start` on.
unfoldable pub at_hours : ℕ → ℕ → SortedSet → ℕ
unfolding zcount
at_hours zero start epochs = 0
at_hours (suc n) start epochs =
    zcount (start + hour) (start + hour) epochs + at_hours n (start + hour) epochs

zcount_split :
    (a b c : ℕ) (s : SortedSet)
    → a ≤ b
    → b ≤ c
    → zcount a b s + zcount b c s ≡ zcount a c s + zcount b b s
unfolding zcount
zcount_split a b c [] p q = refl
zcount_split a b c ((score, member) ∷ rest) p q = ground (arith, zcount_split a b c rest p q)

breakdown_suc :
    (n start : ℕ) (epochs : SortedSet)
    → sum (hourly_breakdown (suc n) start epochs)
      ≡ zcount start (start + hour) epochs + sum (hourly_breakdown n (start + hour) epochs)
unfolding hourly_breakdown sum
breakdown_suc n start epochs = refl

at_hours-suc :
    (n start : ℕ) (epochs : SortedSet)
    → at_hours (suc n) start epochs
      ≡ zcount (start + hour) (start + hour) epochs + at_hours n (start + hour) epochs
unfolding at_hours
at_hours-suc n start epochs = refl

hours_end : (n start : ℕ) → start + hour + suc n * hour ≡ start + suc (suc n) * hour
hours_end n start = omega arith

one_hour :
    (start : ℕ) (epochs : SortedSet)
    → sum (hourly_breakdown 1 start epochs)
      ≡ zcount start (start + 1 * hour) epochs + at_hours 0 start epochs
unfolding hourly_breakdown sum at_hours
one_hour start epochs = ground arith

-- Over one hour or more, where every ZCOUNT is answered from one sorted set, the hourly breakdown counts each epoch event of the period, and those that come exactly
-- where one hour ends and the next begins once more.
pub hourly_breakdown_sum :
    (n start : ℕ) (epochs : SortedSet)
    → sum (hourly_breakdown (suc n) start epochs)
      ≡ zcount start (start + suc n * hour) epochs + at_hours n start epochs
hourly_breakdown_sum zero start epochs = one_hour start epochs
hourly_breakdown_sum (suc n) start epochs =
    rw
      (
        breakdown_suc (suc n) start epochs,
        hourly_breakdown_sum n (start + hour) epochs,
        at_hours-suc n start epochs,
        hours_end n start,
      )
      (omega (
        arith,
        zcount_split start (start + hour) (start + suc (suc n) * hour) epochs (omega arith)
            (omega arith),
      ))
