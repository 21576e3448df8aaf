-- ===== src/Submissions.antt =====
-- pkgs/submissions and the signature check of pkgs/crypto.
pub mod Tests
pub mod Types
pub mod Eip712
pub mod Slots
pub mod Cleanup
pub mod Validate
pub mod Dequeuer
pub mod Process
