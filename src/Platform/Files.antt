-- ===== src/Platform/Files.antt =====
-- What the file system answers: the end of a call, and the end of a write that is to be durable.
use kawach.Prelude.{ℕ, Text}

-- How a call to the file system ends.
pub data Io (A : Type 0) : Type 0 where
  done : A → Io A
  failed : Text → Io A

-- How `write_all` and `sync_data` end: a write that fails leaves some bytes of the line behind.
pub data Write : Type 0 where
  durable : Write
  write_failed : (bytes : ℕ) (message : Text) → Write
  sync_failed : (message : Text) → Write
