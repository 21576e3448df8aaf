-- ===== src/Monitor.antt =====
-- pkgs/eventmonitor/monitor.go: the polling of epoch releases, the submission windows, and what is
-- collected and queued for finalization when a window closes.
mod Tests
pub mod Collect
pub mod Batches
pub mod Windows
pub mod Poll
