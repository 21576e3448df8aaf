-- ===== src/Sequencer.antt =====
-- cmd/unified/main.go: the submissions that come from the gossip topics, and the workers that take them
-- from the queue.
pub mod Component
pub mod Listener
pub mod Messages
pub mod Tests
