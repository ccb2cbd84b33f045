-- ===== src/Rotation/Journal.antt =====
-- crates/kawach-rotation/src/journal.rs: the write-ahead journal of a rotation run. A journal's file is
-- its bytes; what the file system answers to a call is an argument of the operation, and serde_json is
-- the codec that it takes. The clock's type is a parameter, since nothing depends on the times.
pub mod Entries
pub mod Replay
pub mod Drive
pub mod Torn
pub mod Exact
use kawach.Prelude.{
  ℕ, ◌+◌, ◌%◌, ◌^◌, Text, codes, Bool, true, false, Option, none, some, List, [], ◌∷◌, ◌++◌, take,
  ◌==◌, if◌then◌else◌,
}
pub use kawach.Platform.Files.{Io, done, failed, Write, durable, write_failed, sync_failed}
use kawach.Platform.Codec.{Parsed, parsed, malformed, Codec}
use kawach.Platform.Decimal.{decimal}
use kawach.Platform.Lines.{read_lines}
use kawach.Platform.Utf8.{is_blank}
use kawach.Core.Error.{
  SafeDetail, trusted_static, scrubbed, KawachError, journal, Result, ok, err, ◌>>=◌,
}
use kawach.Core.Refs.{CredentialHandle, CredentialKind, RunId, VersionId}
use kawach.Rotation.State.{
  RotationState, start, RotationEvent, name, state_eq, is_in_flight, is_terminal,
}
use kawach.Rotation.State.Hint.{RemediationHint}

pub data Record : Type 0 where
  run_started : (reference : Text) (kind : CredentialKind) (mode : Text) → Record
  transition : (from : RotationState) (event : RotationEvent) (to : RotationState) → Record
  handle_assigned : CredentialHandle → Record
  publication_baseline : (previous : Option VersionId) → Record
  version_assigned : (previous : Option VersionId) (written : VersionId) → Record
  escalation : RemediationHint → Record
  run_finished : (terminal : RotationState) → Record

-- A line of the journal; `entry` is the field `record`.
pub record JournalEntry (Time : Type 0) : Type 0 where
  pub seq : ℕ  -- u64
  pub at : Time
  pub run : RunId
  pub entry : Record

-- An open journal, with what its file holds.
pub record Journal : Type 0 where
  pub path : Text
  pub file : Text
  pub run : RunId
  pub seq : ℕ  -- u64

abbrev pub u64 : ℕ → ℕ
u64 n = n % 2 ^ 64

-- The error of an I/O call or of the codec, by its message.
unfoldable pub io_err : Text → KawachError
io_err message = journal (scrubbed message)

abbrev pub io {ℓ} : {A : Type 0} {B : Type ℓ} → Io A → (A → Result B) → Result B
io (done a) f = f a
io (failed e) f = err (io_err e)

unfoldable pub file_name : RunId → Text
file_name run = run ++ codes ".jsonl"

-- The calls `create_dir_all` and `open` with `create_new`, which fails if the file exists.
unfoldable pub create :
    (join : Text → Text → Text) → Io Unit → Io Unit → Text → RunId → Result Journal
unfolding file_name
create join made opened dir run = io made λ _.
    io opened λ _. ok (record { path = join dir (file_name run); file = []; run = run; seq = 0 })

pub append_line : Journal → Parsed Text → Write → Journal × Result ℕ
unfolding io_err
append_line j (malformed e) w = (j, err (io_err e))
append_line j (parsed line) durable =
    (record j { file = j.file ++ (line ++ (b'\n' ∷ [])) }, ok j.seq)
append_line j (parsed line) (write_failed n e) =
    (record j { file = j.file ++ take n (line ++ (b'\n' ∷ [])) }, err (io_err e))
append_line j (parsed line) (sync_failed e) =
    (record j { file = j.file ++ (line ++ (b'\n' ∷ [])) }, err (io_err e))

-- The number is taken before anything can fail, and is not given back.
unfoldable pub append :
    {Time : Type 0}
    → Codec (JournalEntry Time)
    → Journal
    → Time
    → Record
    → Write
    → Journal × Result ℕ
unfolding append_line
append c j at r w =
    let seq = u64 (j.seq + 1) in
    append_line (record j { seq = seq })
      (c.encode (record { seq = seq; at = at; run = j.run; entry = r })) w

unfoldable pub record_transition :
    {Time : Type 0}
    → Codec (JournalEntry Time)
    → Journal
    → Time
    → RotationState
    → RotationEvent
    → RotationState
    → Write
    → Journal × Result ℕ
unfolding append
record_transition c j at from event to w = append c j at (transition from event to) w

pub record RecoveredRun : Type 0 where
  pub run : RunId
  pub state : RotationState
  pub handle : Option CredentialHandle
  pub written_version : Option VersionId
  pub previous_version : Option VersionId
  pub hint : Option RemediationHint  -- the field `escalation`
  pub last_seq : ℕ
  pub torn_tail : Bool

unfoldable pub needs_reconciliation : RecoveredRun → Bool
unfolding is_in_flight
needs_reconciliation r = is_in_flight r.state

unfoldable pub is_complete : RecoveredRun → Bool
unfolding is_terminal
is_complete r = is_terminal r.state

-- The variables of the loop of `replay`.
pub record Progress : Type 0 where
  pub run : Option RunId
  pub state : RotationState
  pub handle : Option CredentialHandle
  pub written_version : Option VersionId
  pub previous_version : Option VersionId
  pub hint : Option RemediationHint
  pub last_seq : ℕ

abbrev pub fresh : Progress
fresh = record {
  run = none;
  state = start;
  handle = none;
  written_version = none;
  previous_version = none;
  hint = none;
  last_seq = 0;
}

refuse : {A : Type 0} → Text → Result A
refuse message = err (journal (scrubbed message))

-- The `match entry.record` of `replay`.
unfoldable pub apply_record : Progress → ℕ → Record → Result Progress
unfolding refuse name state_eq
apply_record p seq (run_started reference kind mode) = ok p
apply_record p seq (transition from event to) =
    if state_eq from p.state
    then ok (record p { state = to })
    else refuse (
        codes "transition at seq "
        ++ (decimal seq
            ++ (codes " starts from "
                ++ (name from ++ (codes ", but the journal is at " ++ name p.state)))))
apply_record p seq (handle_assigned h) = ok (record p { handle = some h })
apply_record p seq (publication_baseline previous) = ok (record p { previous_version = previous })
apply_record p seq (version_assigned previous written) =
    ok (record p { previous_version = previous; written_version = some written })
apply_record p seq (escalation h) = ok (record p { hint = some h })
apply_record p seq (run_finished terminal) =
    if state_eq terminal p.state
    then ok p
    else refuse (
        codes "run finished as "
        ++ (name terminal ++ (codes " but the journal is at " ++ name p.state)))

unfoldable pub get_or_insert : Option RunId → RunId → Option RunId
get_or_insert none r = some r
get_or_insert (some r') r = some r'

-- One entry of the loop: the check of its number, then the record.
unfoldable pub apply_entry : {Time : Type 0} → Progress → JournalEntry Time → Result Progress
unfolding refuse get_or_insert
apply_entry p e =
    if e.seq == u64 (p.last_seq + 1)
    then apply_record (record p { last_seq = e.seq; run = get_or_insert p.run e.run }) e.seq e.entry
    else refuse (
        codes "sequence gap: expected "
        ++ (decimal (u64 (p.last_seq + 1)) ++ (codes ", found " ++ decimal e.seq)))

pub is_empty : List (Option Text) → Bool
is_empty [] = true
is_empty (l ∷ ls) = false

-- The error of a line that does not parse and is not the last.
unfoldable pub malformed_at : ℕ → Text → KawachError
malformed_at n e =
    journal (scrubbed (codes "malformed entry at line " ++ (decimal n ++ (codes ": " ++ e))))

-- What a line says, if it is the last one or not; `true` beside the result is a torn tail.
pub on_line :
    {Time : Type 0}
    → Parsed (JournalEntry Time)
    → Bool
    → ℕ
    → Progress
    → (Progress → Result (Progress × Bool))
    → Result (Progress × Bool)
unfolding malformed_at
on_line (parsed e) is_last n p more = apply_entry p e >>= more
on_line (malformed e) true n p more = ok (p, true)
on_line (malformed e) false n p more = err (malformed_at n e)

abbrev pub not_utf8 : Text
not_utf8 = codes "stream did not contain valid UTF-8"

-- The loop of `replay` from line `n` on; a line that is not UTF-8 is an I/O error.
unfoldable pub replay_lines :
    {Time : Type 0}
    → Codec (JournalEntry Time)
    → ℕ
    → List (Option Text)
    → Progress
    → Result (Progress × Bool)
unfolding on_line is_empty io_err
replay_lines c n [] p = ok (p, false)
replay_lines c n (none ∷ rest) p = err (io_err not_utf8)
replay_lines c n (some line ∷ rest) p =
    let more = λ (q : Progress). replay_lines c (n + 1) rest q in
    if is_blank line then more p else on_line (c.decode line) (is_empty rest) n p more

abbrev pub recovered : RunId → Progress → Bool → RecoveredRun
recovered run p torn = record {
  run = run;
  state = p.state;
  handle = p.handle;
  written_version = p.written_version;
  previous_version = p.previous_version;
  hint = p.hint;
  last_seq = p.last_seq;
  torn_tail = torn;
}

pub with_run : Option RunId → Progress → Bool → Result RecoveredRun
with_run none p torn = err (journal (trusted_static (codes "journal is empty")))
with_run (some run) p torn = ok (recovered run p torn)

unfoldable pub finish : Progress × Bool → Result RecoveredRun
unfolding with_run
finish (p, torn) = with_run p.run p torn

-- `replay` of a file that could be opened, and read up to what it holds.
unfoldable pub replay : {Time : Type 0} → Codec (JournalEntry Time) → Io Text → Result RecoveredRun
unfolding replay_lines finish
replay c file = io file λ bytes. replay_lines c 1 (read_lines bytes) fresh >>= finish

-- The file is read by one open handle and appended to through another, which leaves it as it is.
unfoldable pub reopen :
    {Time : Type 0}
    → Codec (JournalEntry Time)
    → (join : Text → Text → Text) → Text
    → RunId
    → Text
    → Io Unit
    → Result (Journal × RecoveredRun)
unfolding replay file_name
reopen c join dir run bytes opened = replay c (done bytes) >>= λ r. io opened λ _.
    ok (record { path = join dir (file_name run); file = bytes; run = run; seq = r.last_seq }, r)
