-- ===== src/Deduplication.antt =====
-- pkgs/deduplication/deduplicator.go: a submission is new once. The local cache, an LRU cache of a
-- library, and SETNX of Redis are arguments: `SetNx` is an answer of Redis, and a section takes the
-- operations of the two.
pub mod Once
pub mod Tests
use snapshot_sequencer_valid.Base.{
  ℕ, Text, bytes, decimal, hex_encode, Bool, true, false, List, [], ◌∷◌, ◌++◌, take, if◌then◌else◌,
  nat_eqb,
}
use snapshot_sequencer_valid.Redis.Join.{join}

pub data SetNx : Type 0 where
  was_set already_set failed : SetNx

-- What CheckAndMark returns.
pub data Marked : Type 0 where
  is_new seen store_error : Marked

-- keyPrefix
abbrev pub full_key : Text → Text
full_key key = bytes "dedup:" ++ key

unfoldable pub generate_key : (Text → List ℕ) → Text → ℕ → Text → Text
unfolding hex_encode decimal join
generate_key sha256 project epoch cid =
    hex_encode (take 16 (sha256 (join (project ∷ decimal epoch ∷ cid ∷ []))))

-- `ttl` is the lifetime of a key that SETNX sets; `contains` and `add` are those of the cache.
module _ {S C : Type 0} (set_nx : Text → ℕ → S → SetNx × S) (contains : Text → C → Bool)
    (add : Text → C → C) (ttl : ℕ) where
  -- The answer of Redis; the key is cached unless the call failed.
  unfoldable pub marked_by : SetNx × S → Text → C → Marked × C × S
  marked_by (was_set, s) key c = (is_new, add key c, s)
  marked_by (already_set, s) key c = (seen, add key c, s)
  marked_by (failed, s) key c = (store_error, c, s)

  unfoldable pub check_and_mark : Text → C → S → Marked × C × S
  unfolding marked_by
  check_and_mark key c s =
      if contains key c then (seen, c, s) else marked_by (set_nx (full_key key) ttl s) key c

  -- Calls of several deduplicators, each with a cache, in the order in which Redis serves them, each with
  -- the time that passes before it; the answers, with their keys. `pass` is time in Redis.
  module _ (pass : ℕ → S → S) where
    unfoldable pub run : List (ℕ × ℕ × Text) → (ℕ → C) → S → List (Text × Marked)
    unfolding check_and_mark
    run [] caches s = []
    run ((wait, i, key) ∷ calls) caches s =
        let (m, c, s') = check_and_mark key (caches i) (pass wait s) in
        (key, m) ∷ run calls (λ j. if nat_eqb j i then c else caches j) s'
