-- ===== src/Engine/Journalled/Reopened.antt =====
-- What reopening the journal of a run says of the run.
use kawach.Prelude.{◌≡◌, refl, subst, Text, false, Option, some, []}
use kawach.Platform.Codec.{IsLawful}
use kawach.Platform.Files.{Io, done}
use kawach.Core.Capability.{ExecutionMode}
use kawach.Core.Error.{Result, ok, err}
use kawach.Core.Refs.{RunId}
use kawach.Core.Traits.{RotationTarget}
use kawach.Audit.Log.{AuditLog}
use kawach.Rotation.Journal.{
  Journal, RecoveredRun, recovered, reopen, create, file_name, fresh, get_or_insert,
}
use kawach.Rotation.Journal.Drive.{reopen-Holds, create-ok}
use kawach.Engine.{RotationEngine, Setting}
use kawach.Engine.Journalled.{Replays, Notes, Keeps}
use kawach.Engine.Outcome.{RotationOutcome}
use kawach.Engine.Run.{started, engine_with, start_run, execute}
use kawach.Engine.Journalled.Run.{Told, Tells, execute-Tells}

-- What an outcome says of a journal that was empty is in its file, if the file can be read back.
Told-reopens :
    {Time W : Type 0} (env : Setting Time W) (run : RunId) (join : Text → Text → Text) (dir : Text)
    (o : Option RotationOutcome) (e : RotationEngine W)
    → IsLawful env.journal_codec
    → Notes env run (Tells o) e
    → (j : Journal) × (r : RecoveredRun) × (reopen env.journal_codec join dir run e.journal.file
          (done tt)
        ≡ ok (j, r))
      × (j.file ≡ e.journal.file)
      × (j.seq ≡ e.journal.seq)
      × (r.run ≡ run)
      × (r.torn_tail ≡ false)
      × Told o r.state r.handle r.written_version
Told-reopens env run join dir o e laws (p, (es, held, followed, n, q, same), named, said) = (
  record { path = join dir (file_name run); file = e.journal.file; run = run; seq = p.last_seq },
  recovered run p false,
  reopen-Holds env.journal_codec laws join dir run es e.journal.file p held followed named,
  refl,
  n,
  refl,
  refl,
  said,
)

started-ok :
    {W : Type 0} (world : W) (log : AuditLog) (run : RunId) (o : Result Journal)
    (e : RotationEngine W)
    → started world log run o ≡ ok e
    → (j : Journal) × (o ≡ ok j) × (e.journal ≡ j)
unfolding started engine_with
started-ok world log run (err x) e h = absurd cc
started-ok world log run (ok j) e h = (j, refl, cc)

start-Replays :
    {Time W : Type 0} (env : Setting Time W) (world : W) (log : AuditLog) (run : RunId)
    (join : Text → Text → Text) (made opened : Io Unit) (dir : Text) (e : RotationEngine W)
    → start_run world log run join made opened dir ≡ ok e
    → Replays env run e.journal fresh
unfolding start_run get_or_insert
start-Replays env world log run join made opened dir e h =
    let (j, created, same) = started-ok world log run (create join made opened dir run) e h in
    rw (same, create-ok join made opened dir run created) ([], refl, refl, refl, refl, refl)

-- If `start` gives an engine, `execute` in whichever mode returns an outcome, and the codec is lawful,
-- then reopening the journal's file succeeds. It gives the number that the engine had reached, the run
-- and no torn tail, in the state that the outcome names: `pending` after a dry run, with no credential
-- recorded; `completed` with the outcome's handle and version; `rolled_back`; or `needs_operator`.
pub execute_replays :
    {Time W : Type 0} (env : Setting Time W) (target : RotationTarget) (mode : ExecutionMode)
    (world : W) (log : AuditLog) (run : RunId) (join : Text → Text → Text) (made opened : Io Unit)
    (dir : Text) (e t : RotationEngine W) (o : RotationOutcome)
    → IsLawful env.journal_codec
    → start_run world log run join made opened dir ≡ ok e
    → execute env target mode e ≡ (t, ok (some o))
    → (j : Journal) × (r : RecoveredRun) × (reopen env.journal_codec join dir run t.journal.file
          (done tt)
        ≡ ok (j, r))
      × (j.file ≡ t.journal.file)
      × (j.seq ≡ t.journal.seq)
      × (r.run ≡ run)
      × (r.torn_tail ≡ false)
      × Told (some o) r.state r.handle r.written_version
execute_replays env target mode world log run join made opened dir e t o laws h ran =
    Told-reopens env run join dir (some o) t laws (
      subst (λ r. Keeps env run (Tells) r) ran
        (execute-Tells env run target mode e
          (start-Replays env world log run join made opened dir e h)))
