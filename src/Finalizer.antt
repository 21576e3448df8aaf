-- ===== src/Finalizer.antt =====
-- The finalizer of cmd/unified: each worker makes a result of a part of an epoch's projects, and the
-- parts are counted until all are there.
pub mod Part
pub mod Pipeline
pub mod Worker
pub mod Progress
pub mod Tests
