-- ===== src/Engine/Drive.antt =====
-- crates/kawach-engine/src/engine.rs: the loop of a run. It has fuel, and its result is `none` where the
-- fuel runs out, so a result that is not `none` is the result of the loop.
pub mod Ends
use kawach.Prelude.{ℕ, zero, suc, ◌+◌, Text, codes, Option, none, some, if◌then◌else◌}
use kawach.Core.Capability.{CommitToken}
use kawach.Core.Effect.{Act, gets, lift, pure, ◌>>=◌}
use kawach.Core.Error.{journal, trusted_static, illegal_transition, Result, ok, err}
use kawach.Core.Refs.{CredentialHandle, RunId, VersionId}
use kawach.Core.Traits.{RotationTarget}
use kawach.Audit.Event.{rotation_transition}
use kawach.Rotation.Journal.{transition, escalation, run_finished}
use kawach.Rotation.Safety.Liveness.{rank}
use kawach.Rotation.State.{
  RotationState, pending, provisioned, verified, published, drained, name, is_in_flight,
  is_terminal, RotationEvent, event_name, start_provision, start_verify, start_publish, start_drain,
  start_revoke, next,
}
use kawach.Rotation.State.Hint.{RemediationHint, for_escalation}
use kawach.Engine.{RunContext, RotationEngine, Setting, journal_append, audit_append}
use kawach.Engine.Outcome.{RotationOutcome, completed, rolled_back, needs_operator}
use kawach.Engine.Perform.{perform}

unfoldable pub start_event : RotationState → Option RotationEvent
start_event pending = some start_provision
start_event provisioned = some start_verify
start_event verified = some start_publish
start_event published = some start_drain
start_event drained = some start_revoke
start_event _ = none

unfoldable pub or_illegal : RotationState → Option RotationEvent → Result RotationEvent
unfolding name
or_illegal state none = err (illegal_transition (name state) (codes "no start event"))
or_illegal state (some event) = ok event

unfoldable pub or_abandoned : Option Text → Text
or_abandoned none = codes "the rotation was abandoned"
or_abandoned (some reason) = reason

-- `completed` needs the handle of the new credential.
unfoldable pub completed_as :
    RunId → Option CredentialHandle → Option VersionId → Result RotationOutcome
completed_as run none version =
    err (journal (trusted_static (codes "completed without recording the new credential's handle")))
completed_as run (some handle) version = ok (completed run handle version)

unfoldable pub outcome_of :
    RunId
    → RunContext
    → RotationState
    → RotationState
    → Option RemediationHint
    → Result RotationOutcome
unfolding completed_as or_abandoned
outcome_of run ctx RotationState.completed from hint =
    completed_as run ctx.new_handle ctx.written_version
outcome_of run ctx RotationState.rolled_back from hint =
    ok (rolled_back run (or_abandoned ctx.failure_reason))
outcome_of run ctx _ from hint = ok (needs_operator run from hint)

module _ {Time W : Type 0} (env : Setting Time W) where
  -- The transition is made durable before its target is returned, in the journal first.
  unfoldable pub record_step :
      RotationState → RotationEvent → RotationState → Act (RotationEngine W) RotationState
  unfolding journal_append audit_append name event_name
  record_step from event to = do
    n ← journal_append env (transition from event to)
    m ← audit_append env (rotation_transition (name from) (event_name event) (name to))
    pure to

  -- The method `transition`.
  unfoldable pub transit : RotationState → RotationEvent → Act (RotationEngine W) RotationState
  unfolding next record_step
  transit from event = do to ← lift (next from event); record_step from event to

  unfoldable pub event_at :
      RotationTarget → CommitToken → RotationState → Act (RotationEngine W) RotationEvent
  unfolding is_in_flight perform or_illegal start_event
  event_at target commit state =
      if is_in_flight state
      then perform env target commit state
      else lift (or_illegal state (start_event state))

  -- An event that hands over to an operator is recorded with its hint.
  unfoldable pub escalate :
      RotationState
      → Option RemediationHint
      → RotationState
      → Option RemediationHint
      → Act (RotationEngine W) (RotationState × Option RemediationHint)
  unfolding journal_append
  escalate state none from last = pure (from, last)
  escalate state (some hint) from last = do
    n ← journal_append env (escalation hint)
    pure (state, some hint)

  unfoldable pub report :
      RotationState
      → RotationState
      → Option RemediationHint
      → Act (RotationEngine W) (Option RotationOutcome)
  unfolding outcome_of
  report state from last = do
    e ← gets (λ e. e)
    outcome ← lift (outcome_of e.run e.ctx state from last)
    pure (some outcome)

  -- What follows the loop.
  unfoldable pub conclude :
      RotationState
      → RotationState
      → Option RemediationHint
      → Act (RotationEngine W) (Option RotationOutcome)
  unfolding journal_append report
  conclude state from last = do n ← journal_append env (run_finished state); report state from last

  -- `drive`, with the state that was last escalated from and the hint.
  unfoldable pub drive :
      RotationTarget
      → CommitToken
      → ℕ
      → RotationState
      → RotationState
      → Option RemediationHint
      → Act (RotationEngine W) (Option RotationOutcome)
  unfolding is_terminal event_at for_escalation escalate transit conclude
  drive target commit zero state from last = pure none
  drive target commit (suc fuel) state from last =
      if is_terminal state then conclude state from last else (do
        event ← event_at target commit state
        escalated ← escalate state (for_escalation state event) from last
        to ← transit state event
        drive target commit fuel to escalated.0 escalated.1)

  -- The loop with the fuel that its state needs.
  unfoldable pub drive_from :
      RotationTarget → RotationState → CommitToken → Act (RotationEngine W) (Option RotationOutcome)
  unfolding drive
  drive_from target state commit = drive target commit (rank state + 1) state state none
