-- ===== src/Engine/Run/Ends.antt =====
-- A run that is executed or recovered ends.
use kawach.Prelude.{◌≢◌, Option, none, some}
use kawach.Core.Capability.{CommitToken, commit_token, ExecutionMode}
use kawach.Core.Effect.{Gives, Gives-then, pure}
use kawach.Core.Error.{ok}
use kawach.Core.Refs.{display}
use kawach.Core.Traits.{RotationTarget}
use kawach.Rotation.Journal.{Record, RecoveredRun, run_started}
use kawach.Rotation.State.{start}
use kawach.Rotation.State.{RotationState}
use kawach.Engine.{RotationEngine, Setting, anchor, journal_append, context_for}
use kawach.Engine.Drive.{drive_from}
use kawach.Engine.Drive.Ends.{IsSome, drive_from-IsSome, never_none}
use kawach.Engine.Outcome.{dry_run}
use kawach.Engine.Plan.{plan}
use kawach.Engine.Recover.{
  resolve, abort_lost, recovered_context, continue_from, recover_with, recover,
}
use kawach.Engine.Run.{planned, execute_with, execute, mode_name, under_token}

module _ {Time W : Type 0} (env : Setting Time W) (target : RotationTarget) where
  planned-IsSome : (e : RotationEngine W) → Gives IsSome (planned env target e)
  unfolding planned
  planned-IsSome e =
      Gives-then IsSome (plan env target e) (λ p. pure (some (dry_run p))) (λ p s. tt)

  execute_with-IsSome :
      (c : Option CommitToken) (e : RotationEngine W) → Gives IsSome (execute_with env target c e)
  unfolding execute_with
  execute_with-IsSome none e = planned-IsSome e
  execute_with-IsSome (some c) e =
      drive_from-IsSome env target start c (record e { ctx = context_for target })

  continue_from-IsSome :
      (c : CommitToken) (s : RotationState) (e : RotationEngine W)
      → Gives IsSome (continue_from env target s c e)
  unfolding continue_from
  continue_from-IsSome c s e =
      Gives-then IsSome (abort_lost env s e) (λ t. drive_from env target t c)
        (λ t. drive_from-IsSome env target t c)

  recover_with-IsSome :
      (r : RecoveredRun) (c : Option CommitToken) (e : RotationEngine W)
      → Gives IsSome (recover_with env target r c e)
  unfolding recover_with
  recover_with-IsSome r none e = planned-IsSome e
  recover_with-IsSome r (some c) e =
      Gives-then IsSome
        (resolve env target r.state (record e { ctx = recovered_context env target r }))
        (λ s. continue_from env target s c) (continue_from-IsSome c)

  under_token-IsSome :
      (mode : ExecutionMode) (e : RotationEngine W) → Gives IsSome (under_token env target mode e)
  unfolding under_token
  under_token-IsSome mode e =
      Gives-then IsSome (commit_token (anchor env) mode e.run e) (execute_with env target)
        execute_with-IsSome

  -- For every provider, backend and file system, whatever they answer, `execute` ends: the fuel that
  -- its loop is given does not run out.
  pub execute_ends :
      (mode : ExecutionMode) (e : RotationEngine W) → (execute env target mode e).1 ≢ ok none
  unfolding execute
  execute_ends mode e = never_none (execute env target mode e) (
      Gives-then IsSome (journal_append env started e) (λ n. under_token env target mode)
        (λ n s. under_token-IsSome mode s))
    where
      started : Record
      started = run_started (display target.reference.inner) target.kind (mode_name env mode)

  -- For every provider, backend and file system, whatever they answer, and whatever run the journal
  -- gives back, `recover` ends: the fuel that its loop is given does not run out.
  pub recover_ends :
      (r : RecoveredRun) (mode : ExecutionMode) (e : RotationEngine W)
      → (recover env target r mode e).1 ≢ ok none
  unfolding recover
  recover_ends r mode e = never_none (recover env target r mode e) (
      Gives-then IsSome (commit_token (anchor env) mode e.run e) (recover_with env target r)
        (recover_with-IsSome r))
