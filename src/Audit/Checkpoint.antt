-- ===== src/Audit/Checkpoint.antt =====
-- crates/kawach-audit/src/checkpoint.rs: signed checkpoints and anchors. Ed25519 is a parameter: the
-- signature of a message under the key.
use kawach.Prelude.{ℕ, Text, ◌++◌, length}
use kawach.Core.Hex.{encode}
use kawach.Audit.Hash.{EntryHash, domain_checkpoint, le_bytes}

unfoldable pub checkpoint_message : Text → ℕ → EntryHash → Text
unfolding le_bytes
checkpoint_message instance_id entry_count head =
    domain_checkpoint
    ++ (le_bytes 4 (length instance_id) ++ (instance_id ++ (le_bytes 8 entry_count ++ head)))

-- The key stands as what `SigningKey::sign` does with it.
pub record CheckpointSigner : Type 0 where
  pub sign_bytes : Text → Text
  pub instance_id : Text

unfoldable pub sign : CheckpointSigner → ℕ → EntryHash → Text
unfolding encode checkpoint_message
sign s entry_count head = encode (s.sign_bytes (checkpoint_message s.instance_id entry_count head))

pub record AnchorRecord : Type 0 where
  pub instance_id : Text
  pub entry_count : ℕ  -- u64
  pub head : EntryHash
  pub at : Text
