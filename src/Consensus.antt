-- ===== src/Consensus.antt =====
-- The consensus of validators in pkgs/consensus: the batches that peers send, the votes of an epoch
-- and their aggregation, and the aggregator of whole batches.
pub mod Types
pub mod Visit
pub mod Aggregate
pub mod Handler
pub mod Epochs
pub mod Signatures
pub mod Tests
