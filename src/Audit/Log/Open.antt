-- ===== src/Audit/Log/Open.antt =====
-- crates/kawach-audit/src/log.rs and verify.rs: reading a log back, opening it, publishing an anchor.
use kawach.Prelude.{ℕ, ◌+◌, Text, codes, Option, none, some, List, [], ◌∷◌, ◌++◌, if◌then◌else◌}
use kawach.Platform.Codec.{Parsed, parsed, malformed, Codec}
use kawach.Platform.Decimal.{decimal}
use kawach.Platform.Files.{Io, done, failed}
use kawach.Platform.Lines.{read_lines}
use kawach.Platform.Utf8.{is_blank}
use kawach.Core.Error.{KawachError, audit, trusted_static, scrubbed, Result, ok, err, ◌>>=◌}
use kawach.Audit.Hash.{EntryHash, genesis}
use kawach.Audit.Event.{Actor, log_opened}
use kawach.Audit.Entry.{AuditRecord}
use kawach.Audit.Checkpoint.{AnchorRecord}
use kawach.Audit.Verify.{VerificationReport, verify_records, is_intact}
use kawach.Audit.Verify.Summary.{summary}
use kawach.Audit.Log.{AuditLog, io_err, Call, append}

abbrev pub io {ℓ} : {A : Type 0} {B : Type ℓ} → Io A → (A → Result B) → Result B
io (done a) f = f a
io (failed e) f = err (io_err e)

unfoldable pub malformed_record : ℕ → Text → KawachError
malformed_record n e =
    audit (scrubbed (codes "malformed audit record at line " ++ (decimal n ++ (codes ": " ++ e))))

push_record : {A : Type 0} → A → List A → Result (List A)
push_record a rest = ok (a ∷ rest)

on_parsed : Parsed AuditRecord → ℕ → Result (List AuditRecord) → Result (List AuditRecord)
unfolding push_record malformed_record
on_parsed (malformed e) n rest = err (malformed_record n e)
on_parsed (parsed r) n rest = rest >>= push_record r

-- The loop of `read_records` from line `n` on.
unfoldable pub read_lines_from :
    Codec AuditRecord → ℕ → List (Option Text) → Result (List AuditRecord)
unfolding on_parsed io_err
read_lines_from c n [] = ok []
read_lines_from c n (none ∷ ls) = err (io_err (codes "stream did not contain valid UTF-8"))
read_lines_from c n (some l ∷ ls) =
    let rest = read_lines_from c (n + 1) ls in
    if is_blank l then rest else on_parsed (c.decode l) n rest

unfoldable pub read_records : Codec AuditRecord → Io Text → Result (List AuditRecord)
unfolding read_lines_from
read_records c file = io file λ bytes. read_lines_from c 1 (read_lines bytes)

pub does_not_verify : VerificationReport → KawachError
does_not_verify report =
    audit (scrubbed (codes "refusing to append to a log that does not verify: " ++ summary report))

module _ (sha256 : Text → Text) (c : Codec AuditRecord) where
  unfoldable pub verify_file : Io Text → Text → Result VerificationReport
  unfolding read_records
  verify_file file instance_id =
      read_records c file >>= λ rs. ok (verify_records sha256 rs instance_id)

  unfoldable pub unwrap_head : Option EntryHash → Text → EntryHash
  unwrap_head none instance_id = genesis sha256 instance_id
  unwrap_head (some h) instance_id = h

  unfoldable pub resume_from : Text → VerificationReport → Result (ℕ × EntryHash)
  unfolding unwrap_head does_not_verify
  resume_from instance_id report =
      if is_intact report
      then ok (report.entry_count, unwrap_head report.head instance_id)
      else err (does_not_verify report)

  -- The number and head to go on from; `none` is a path that does not exist.
  unfoldable pub resume : Option Text → Text → Result (ℕ × EntryHash)
  unfolding verify_file resume_from
  resume none instance_id = ok (0, genesis sha256 instance_id)
  resume (some bytes) instance_id = verify_file (done bytes) instance_id >>= resume_from instance_id

  abbrev pub bytes_of : Option Text → Text
  bytes_of none = []
  bytes_of (some bytes) = bytes

  first_append : AuditLog × Result ℕ → Text × Result AuditLog
  first_append (log, err e) = (log.file, err e)
  first_append (log, ok n) = (log.file, ok log)

  abbrev pub opened_log : Text → Text → Actor → Option Text → ℕ × EntryHash → AuditLog
  opened_log path instance_id actor existing (seq, head) = record {
    path = path;
    instance_id = instance_id;
    actor = actor;
    file = bytes_of existing;
    seq = seq;
    head = head;
    every_n_entries = 64;
    signer = none;
  }

  open_at :
      Text
      → Text
      → Actor
      → Option Text
      → Call
      → Call
      → Result (ℕ × EntryHash)
      → Io Unit
      → Text × Result AuditLog
  unfolding first_append
  open_at path instance_id actor existing first second (err e) opened = (bytes_of existing, err e)
  open_at path instance_id actor existing first second (ok p) (failed e) =
      (bytes_of existing, err (io_err e))
  open_at path instance_id actor existing first second (ok (seq, head)) (done u) = first_append (
      append sha256 c (opened_log path instance_id actor existing (seq, head))
        (log_opened instance_id seq) first second)

  -- What the file holds afterwards, and the open log. `made` is the end of `create_dir_all`, and
  -- `existing` what is found at the path.
  unfoldable pub open_log :
      Io Unit → Io Unit → Text → Text → Actor → Option Text → Call → Call → Text × Result AuditLog
  unfolding open_at
  open_log (failed e) opened path instance_id actor existing first second =
      (bytes_of existing, err (io_err e))
  open_log (done u) opened path instance_id actor existing first second =
      open_at path instance_id actor existing first second (resume existing instance_id) opened

-- The record that is sent to the anchor, whose answer is an argument.
unfoldable pub publish_anchor :
    AuditLog → Option Text → (AnchorRecord → Result {0} Unit) → Result AnchorRecord
publish_anchor log none publish =
    err (audit (trusted_static (codes "failed to format anchor timestamp")))
publish_anchor log (some at) publish =
    let a : AnchorRecord = record {
      instance_id = log.instance_id;
      entry_count = log.seq;
      head = log.head;
      at = at;
    } in
    publish a >>= λ u. ok a
