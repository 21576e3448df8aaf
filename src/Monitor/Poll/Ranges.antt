-- ===== src/Monitor/Poll/Ranges.antt =====
-- The ranges of blocks that successive polls scan.
use snapshot_sequencer_valid.Base.{
  ◌%◌, true, ℕ, ◌+◌, ◌≤◌, ◌<◌, ◌^◌, Text, Bool, false, ◌&&◌, Option, none, some, List, [], ◌∷◌,
  ◌++◌, All, count_if-append, ◌≡◌, arith, count_if, ltb, leb, if◌then◌else◌, ℤ, pos, Bool-cases,
  inl, inr, Option-cases,
}
use snapshot_sequencer_valid.Monitor.Poll.{
  after_query, FilterQuery, Log, check_for_new_events, int64,
}

abbrev within : ℕ → ℤ → ℤ → Bool
within b (pos f) (pos t) = leb f b && leb b t
within b _ _ = false

-- The block lies in the range of a query.
abbrev pub contains : ℕ → FilterQuery → Bool
contains b q = within b q.from_block q.to_block

-- What the node says in one poll: the current block, and the logs of a query.
pub record Answers : Type 0 where
  pub head : Option ℕ
  pub logs : FilterQuery → Option (List Log)

abbrev query_of : Option FilterQuery → List FilterQuery
query_of none = []
query_of (some q) = q ∷ []

-- Heads of the chain stay below 2^63.
abbrev pub IsHead : Answers → Type 0
IsHead a = (c : ℕ) → a.head ≡ some c → c < 2 ^ 63

module _ (address_hex : ℕ → Text) (markets : List Text) where
  -- Polls with these answers, from the last block processed: the block reached, and the queries.
  unfoldable pub polls : ℕ → List Answers → ℕ × List FilterQuery
  polls last [] = (last, [])
  polls last (a ∷ rest) =
      let r = check_for_new_events address_hex markets last a.head a.logs in
      let (final, queries) = polls r.last_processed_block rest in
      (final, query_of r.answered ++ queries)

  answered_range :
      (last to b : ℕ) (o : Option (List Log))
      → last < to
      → to < 2 ^ 63
      → let q : FilterQuery = record {
        from_block = int64 ((last + 1) % 2 ^ 64);
        to_block = int64 to;
      } in
        let r = after_query address_hex markets last to q o in
        (last ≤ r.last_processed_block)
        × (count_if (contains b) (query_of r.answered)
            ≡ (if ltb last b && leb b r.last_processed_block then 1 else 0))
  unfolding after_query int64
  answered_range last to b none h k = (omega arith, ground arith)
  answered_range last to b (some logs) h k =
      let start : (last + 1) % 2 ^ 64 ≡ last + 1 = omega arith in
      let low : ltb (last + 1) (2 ^ 63) ≡ true = ground arith in
      let high : ltb to (2 ^ 63) ≡ true = ground arith in
      rw (start, low, high) (omega arith, ground arith)

  scan :
      (last b c : ℕ) (logs : FilterQuery → Option (List Log))
      → c < 2 ^ 63
      → let r = check_for_new_events address_hex markets last (some c) logs in
        (last ≤ r.last_processed_block)
        × (count_if (contains b) (query_of r.answered)
            ≡ (if ltb last b && leb b r.last_processed_block then 1 else 0))
  unfolding check_for_new_events
  scan last b c logs below = elim (Bool-cases (leb c last)) [
    | inl done ↦ rw done (omega arith, ground arith)
    | inr more ↦
        let limit = (last + 1000) % 2 ^ 64 in
        let to = if ltb c limit then c else limit in
        let q : FilterQuery = record {
          from_block = int64 ((last + 1) % 2 ^ 64);
          to_block = int64 to;
        } in
        let behind : last < c = ground arith in
        let up : last < to = ground arith in
        let bound : to < 2 ^ 63 = ground arith in
        rw more (answered_range last to b (logs q) up bound)
  ]

  poll_range :
      (last b : ℕ) (a : Answers)
      → IsHead a
      → let r = check_for_new_events address_hex markets last a.head a.logs in
        (last ≤ r.last_processed_block)
        × (count_if (contains b) (query_of r.answered)
            ≡ (if ltb last b && leb b r.last_processed_block then 1 else 0))
  unfolding check_for_new_events
  poll_range last b a h = elim (Option-cases a.head) [
    | inl failed ↦ rw failed (omega arith, ground arith)
    | inr (c, head) ↦ let below = h c head in rw head (scan last b c a.logs below)
  ]

  -- However the polls fail or fall behind, each block from the first to the last processed is in the
  -- range of exactly one answered query, and no other block is in any.
  pub polls_cover :
      (last b : ℕ) (answers : List Answers)
      → All IsHead answers
      → (last ≤ (polls last answers).0)
        × (count_if (contains b) (polls last answers).1
            ≡ (if ltb last b && leb b (polls last answers).0 then 1 else 0))
  unfolding polls
  polls_cover last b [] h = (omega arith, ground arith)
  polls_cover last b (a ∷ rest) h =
      let r = check_for_new_events address_hex markets last a.head a.logs in
      let (le, one) = poll_range last b a h.0 in
      let (le', more) = polls_cover r.last_processed_block b rest h.1 in
      ground (
        arith,
        count_if-append {0} (contains b) (query_of r.answered)
            (polls r.last_processed_block rest).1,
      )
