-- ===== src/Aggregator.antt =====
-- The aggregator of cmd/aggregator: the second level, where the batches of the validators of an epoch
-- become one.
pub mod Merge
pub mod Incoming
pub mod Epoch
pub mod Parts
pub mod Stream
pub mod Tests
