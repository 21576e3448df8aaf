-- ===== src/Redis.antt =====
-- Redis as the program uses it: the keys, and the commands that the components send.
pub mod Join
pub mod Keys
pub mod MetricKeys
pub mod GlobalKeys
pub mod Command
pub mod Hash
