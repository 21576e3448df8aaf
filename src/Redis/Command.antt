-- ===== src/Redis/Command.antt =====
-- The commands that the components send to Redis, with their keys, members and expiry times. What
-- is stored under a key is data of the component: `P`.
use snapshot_sequencer_valid.Base.{ℕ, Text, List}

pub data Command (P : Type 0) : Type 0 where
  set : Text → P → ℕ → Command P
  sadd : Text → Text → Command P
  expire : Text → ℕ → Command P
  zadd : Text → ℕ → Text → Command P
  incr : Text → Command P
  hincrby : Text → Text → ℕ → Command P
  hset : Text → P → Command P
  publish : Text → Text → Command P
  lpush : Text → P → Command P
  xadd : Text → P → Command P
  xack : Text → Text → Text → Command P
  -- the stream, the group, the consumer, the least idle time, and the message
  xclaim : Text → Text → Text → ℕ → Text → Command P
  del : List Text → Command P
  hset_field : Text → Text → P → Command P

-- A reply to GET, EXISTS or SMEMBERS: an answer, no such key, or an error of the client.
pub data Reply {ℓ} (A : Type ℓ) : Type ℓ where
  found : A → Reply A
  missing : Reply A
  failed : Reply A
