-- ===== src/Audit/Entry.antt =====
-- crates/kawach-audit/src/log.rs: a record of the audit log, and the hash it should carry.
use kawach.Prelude.{ℕ, Text}
use kawach.Audit.Hash.{EntryHash, canonical_entry, chain}
use kawach.Audit.Event.{Actor, AuditEvent, run_str, payload}

pub record AuditRecord : Type 0 where
  pub seq : ℕ  -- u64
  pub at : Text
  pub actor : Actor
  pub prev : EntryHash
  pub hash : EntryHash
  pub event : AuditEvent

unfoldable pub canonical_of : AuditRecord → Text
unfolding canonical_entry run_str payload
canonical_of r =
    canonical_entry r.seq r.prev r.at r.actor.principal (run_str r.actor) (payload r.event)

unfoldable pub recompute_hash : (sha256 : Text → Text) → AuditRecord → EntryHash
unfolding chain canonical_of
recompute_hash sha256 r = chain sha256 r.prev (canonical_of r)
