-- ===== src/Audit/Log.antt =====
-- crates/kawach-audit/src/log.rs: the append-only log. Its file is its bytes; the clock and the file
-- system answer by arguments, and serde_json is the codec.
pub mod Open
pub mod Consistent
pub mod Reopen
pub mod Unsynced
pub mod Grows
pub mod History
use kawach.Prelude.{
  ℕ, ◌+◌, ◌%◌, Text, codes, Bool, true, false, ◌||◌, Option, none, some, List, [], ◌∷◌, ◌++◌, take,
  ◌==◌, if◌then◌else◌,
}
use kawach.Platform.Codec.{Parsed, parsed, malformed, Codec}
use kawach.Platform.Decimal.{decimal}
use kawach.Platform.Files.{Io, done, failed, Write, durable, write_failed, sync_failed}
use kawach.Platform.Lines.{read_lines}
use kawach.Platform.Utf8.{is_blank}
use kawach.Core.Capability.{AuditSeq, CoreAuditEvent}
use kawach.Core.Error.{KawachError, audit, trusted_static, scrubbed, Result, ok, err, ◌>>=◌}
use kawach.Core.Refs.{RunId}
use kawach.Audit.Hash.{EntryHash, genesis, chain, canonical_entry, to_hex}
use kawach.Audit.Event.{
  Actor, with_run, run_str, AuditEvent, checkpoint, log_opened, payload, from_core, run_of,
}
use kawach.Audit.Entry.{AuditRecord}
use kawach.Audit.Checkpoint.{CheckpointSigner, sign, AnchorRecord}
use kawach.Audit.Verify.{u64, VerificationReport, verify_records, is_intact}
use kawach.Audit.Verify.Summary.{summary}

-- The error of an I/O call or of the codec, by its message.
unfoldable pub io_err : Text → KawachError
io_err message = audit (scrubbed message)

-- The log with what its file holds; the fields of `Inner` are `file`, `seq` and `head`.
pub record AuditLog : Type 0 where
  pub path : Text
  pub instance_id : Text
  pub actor : Actor
  pub file : Text
  pub seq : ℕ  -- u64
  pub head : EntryHash
  pub every_n_entries : ℕ  -- the policy, u64
  pub signer : Option CheckpointSigner

-- What the clock and the file answer to the writing of one entry; the clock can fail to format.
pub record Call : Type 0 where
  pub now : Option Text
  pub outcome : Write

bad_time : KawachError
bad_time = audit (trusted_static (codes "failed to format audit timestamp"))

-- The record that an entry becomes.
unfoldable pub entry_record :
    (sha256 : Text → Text) → AuditLog → Actor → AuditEvent → Text → AuditRecord
unfolding chain canonical_entry run_str payload
entry_record sha256 log actor event at =
    let seq = u64 (log.seq + 1) in
    record {
      seq = seq;
      at = at;
      actor = actor;
      prev = log.head;
      hash =
          chain sha256 log.head
            (canonical_entry seq log.head at actor.principal (run_str actor) (payload event));
      event = event;
    }

-- `write_all`, `sync_data`, and only then the new number and head.
unfoldable pub write_line : AuditLog → AuditRecord → Parsed Text → Write → AuditLog × Result ℕ
unfolding io_err
write_line log r (malformed e) w = (log, err (io_err e))
write_line log r (parsed line) durable =
    (record log { file = log.file ++ (line ++ (b'\n' ∷ [])); seq = r.seq; head = r.hash }, ok r.seq)
write_line log r (parsed line) (write_failed n e) =
    (record log { file = log.file ++ take n (line ++ (b'\n' ∷ [])) }, err (io_err e))
write_line log r (parsed line) (sync_failed e) =
    (record log { file = log.file ++ (line ++ (b'\n' ∷ [])) }, err (io_err e))

module _ (sha256 : Text → Text) (c : Codec AuditRecord) where
  pub write_at : AuditLog → Actor → AuditEvent → Option Text → Write → AuditLog × Result ℕ
  unfolding bad_time
  write_at log actor event none w = (log, err bad_time)
  write_at log actor event (some at) w =
      let r = entry_record sha256 log actor event at in write_line log r (c.encode r) w

  unfoldable pub write_entry : AuditLog → Actor → AuditEvent → Call → AuditLog × Result ℕ
  unfolding write_at
  write_entry log actor event call = write_at log actor event call.now call.outcome

  pub signature_of : Option CheckpointSigner → ℕ → EntryHash → Option Text
  unfolding sign
  signature_of none n h = none
  signature_of (some s) n h = some (sign s n h)

  unfoldable pub checkpoint_event : AuditLog → AuditEvent
  unfolding signature_of to_hex
  checkpoint_event log =
      checkpoint log.seq (to_hex log.head) (signature_of log.signer log.seq log.head)

  -- The function `checkpoint`.
  unfoldable pub checkpoint_now : AuditLog → Call → AuditLog × Result ℕ
  checkpoint_now log call = write_entry log log.actor (checkpoint_event log) call

  abbrev pub replace_value : ℕ → AuditLog × Result ℕ → AuditLog × Result ℕ
  replace_value n (log, ok m) = (log, ok n)
  replace_value n (log, err e) = (log, err e)

  -- The result is that of the call that triggers it, if it succeeds.
  unfoldable pub maybe_checkpoint : AuditLog → ℕ → Call → AuditLog × Result ℕ
  maybe_checkpoint log seq call =
      let n = log.every_n_entries in
      if n == 0
      then (log, ok seq)
      else if seq % n == 0
      then replace_value seq (checkpoint_now log call)
      else (log, ok seq)

  pub then_checkpoint : AuditLog × Result ℕ → Call → AuditLog × Result ℕ
  unfolding maybe_checkpoint
  then_checkpoint (log, err e) call = (log, err e)
  then_checkpoint (log, ok seq) call = maybe_checkpoint log seq call

  -- The second call is that of the checkpoint, if one is due.
  unfoldable pub append_as :
      AuditLog → Actor → AuditEvent → Call → Call → AuditLog × Result AuditSeq
  unfolding then_checkpoint
  append_as log actor event first second =
      then_checkpoint (write_entry log actor event first) second

  unfoldable pub append : AuditLog → AuditEvent → Call → Call → AuditLog × Result AuditSeq
  append log event first second = append_as log log.actor event first second

  pub actor_for : Actor → Option RunId → Actor
  unfolding with_run
  actor_for a none = a
  actor_for a (some r) = with_run a r

  -- `AuditAnchor::record`.
  unfoldable pub record_event : AuditLog → CoreAuditEvent → Call → Call → AuditLog × Result AuditSeq
  unfolding actor_for run_of from_core
  record_event log event first second =
      append_as log (actor_for log.actor (run_of event)) (from_core event) first second
