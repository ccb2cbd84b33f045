-- ===== src/Engine/Run.antt =====
-- crates/kawach-engine/src/engine.rs: starting, resuming and executing a run.
pub mod Ends
pub mod Authority
use kawach.Prelude.{Text, codes, Option, none, some, if◌then◌else◌}
use kawach.Platform.Codec.{Codec}
use kawach.Platform.Files.{Io}
use kawach.Core.Capability.{CommitToken, commit_token, ExecutionMode, is_apply}
use kawach.Core.Effect.{Act, gets, pure, ◌>>=◌, ◌>>◌}
use kawach.Core.Error.{Result, ok, err}
use kawach.Core.Refs.{RunId, display}
use kawach.Core.Traits.{RotationTarget}
use kawach.Audit.Log.{AuditLog}
use kawach.Rotation.Journal.{run_started, RecoveredRun, Journal, JournalEntry, create, reopen}
use kawach.Rotation.State.{start}
use kawach.Engine.{no_context, context_for, RotationEngine, Setting, set, anchor, journal_append}
use kawach.Engine.Outcome.{RotationOutcome, dry_run}
use kawach.Engine.Plan.{plan}
use kawach.Engine.Drive.{drive_from}

module _ {W : Type 0} (world : W) (log : AuditLog) (run : RunId) where
  unfoldable pub engine_with : Journal → RotationEngine W
  unfolding no_context
  engine_with j = record { world = world; audit = log; journal = j; run = run; ctx = no_context }

  unfoldable pub started : Result Journal → Result (RotationEngine W)
  unfolding engine_with
  started (err e) = err e
  started (ok j) = ok (engine_with j)

  resumed : Result (Journal × RecoveredRun) → Result (RotationEngine W × RecoveredRun)
  unfolding engine_with
  resumed (err e) = err e
  resumed (ok (j, recovered)) = ok (engine_with j, recovered)

  -- The function `start`, by what the file system answers.
  unfoldable pub start_run :
      (join : Text → Text → Text) → Io Unit → Io Unit → Text → Result (RotationEngine W)
  unfolding started create
  start_run join made opened dir = started (create join made opened dir run)

  -- The function `resume`, by the bytes of the journal's file.
  unfoldable pub resume :
      {Time : Type 0}
      → Codec (JournalEntry Time)
      → (join : Text → Text → Text) → Text
      → Text
      → Io Unit
      → Result (RotationEngine W × RecoveredRun)
  unfolding resumed reopen
  resume codec join dir bytes opened = resumed (reopen codec join dir run bytes opened)

module _ {Time W : Type 0} (env : Setting Time W) where
  unfoldable pub planned : RotationTarget → Act (RotationEngine W) (Option RotationOutcome)
  unfolding plan
  planned target = do p ← plan env target; pure (some (dry_run p))

  unfoldable pub execute_with :
      RotationTarget → Option CommitToken → Act (RotationEngine W) (Option RotationOutcome)
  unfolding planned context_for drive_from
  execute_with target none = planned target
  execute_with target (some commit) = do
    set env (λ c. context_for target)
    drive_from env target start commit

  unfoldable pub under_token :
      RotationTarget → ExecutionMode → Act (RotationEngine W) (Option RotationOutcome)
  unfolding commit_token anchor execute_with
  under_token target mode = do
    run ← gets (λ e. e.run)
    commit ← commit_token (anchor env) mode run
    execute_with target commit

  unfoldable pub mode_name : ExecutionMode → Text
  unfolding is_apply
  mode_name mode = if is_apply mode then codes "apply" else codes "dry-run"

  unfoldable pub execute :
      RotationTarget → ExecutionMode → Act (RotationEngine W) (Option RotationOutcome)
  unfolding journal_append display mode_name under_token
  execute target mode = do
    n ←
        journal_append env
          (run_started (display target.reference.inner) target.kind (mode_name mode))
    under_token target mode
