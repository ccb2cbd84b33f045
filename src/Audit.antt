-- ===== src/Audit.antt =====
-- The crate kawach-audit: the tamper-evident log.
pub mod Hash
pub mod Event
pub mod Entry
pub mod Checkpoint
pub mod FileAnchor
pub mod Verify
pub mod Log
