-- ===== src/Rotation.antt =====
-- The crate kawach-rotation: the state machine, its ghost model, and the write-ahead journal.
pub mod State
pub mod Safety
pub mod Journal
