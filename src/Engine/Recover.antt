-- ===== src/Engine/Recover.antt =====
-- crates/kawach-engine/src/engine.rs: recovering an interrupted run.
use kawach.Prelude.{Text, codes, Bool, false, Option, none, some, text_eq, ◌++◌, if◌then◌else◌}
use kawach.Core.Capability.{CommitToken, commit_token, ExecutionMode}
use kawach.Core.Effect.{raise, Act, gets, pure, ◌>>=◌, ◌>>◌}
use kawach.Core.Error.{Result, ok, err}
use kawach.Core.Model.{WorldState, PublishedState, is_live}
use kawach.Core.Refs.{CredentialHandle, VersionId}
use kawach.Core.Traits.{RotationTarget}
use kawach.Audit.Event.{rotation_transition}
use kawach.Rotation.Journal.{transition, RecoveredRun}
use kawach.Rotation.State.{
  RotationState, provisioned, verified, name, is_in_flight, abort_requested, reconciled, reconcile,
  Observation, PublishedSide, new, unknown,
}
use kawach.Engine.{
  RunContext, context_for, RotationEngine, Setting, call, set, anchor, journal_append, audit_append,
  note_refusal,
}
use kawach.Engine.Outcome.{RotationOutcome}
use kawach.Engine.Drive.{drive_from, transit}
use kawach.Engine.Run.{planned}

unfoldable pub same_version : VersionId → Option VersionId → Bool
same_version current none = false
same_version current (some version) = text_eq current version

-- Which value is published, decided by the identity of versions.
unfoldable pub side : (current written previous : Option VersionId) → PublishedSide
unfolding same_version
side (some current) written previous =
    if same_version current written
    then new
    else if same_version current previous
    then PublishedSide.old
    else unknown
side none written none = PublishedSide.old
side none written (some previous) = unknown

unfoldable pub live_in : WorldState → Option CredentialHandle → Bool
unfolding is_live
live_in world none = false
live_in world (some handle) = is_live world handle

module _ {Time W : Type 0} (env : Setting Time W) where
  unfoldable pub on_shown : WorldState → Result PublishedState → Act (RotationEngine W) Observation
  unfolding live_in side
  on_shown world (err x) = raise x
  on_shown world (ok published) = do
    ctx ← gets (λ e. e.ctx)
    pure (record {
      new_live = live_in world ctx.new_handle;
      old_live = live_in world ctx.old_handle;
      published = side published.current_version ctx.written_version ctx.previous_version;
    })

  unfoldable pub on_observed :
      RotationTarget → Result WorldState → Act (RotationEngine W) Observation
  unfolding call on_shown
  on_observed target (err x) = raise x
  on_observed target (ok world) = do
    shown ← call env (env.backend.observe_published target.reference)
    on_shown world shown

  -- What reality is, for reconciliation.
  unfoldable pub observe : RotationTarget → Act (RotationEngine W) Observation
  unfolding call on_observed
  observe target = do observed ← call env (env.provider.observe target); on_observed target observed

  unfoldable pub reconcile_to : RotationState → Observation → Act (RotationEngine W) RotationState
  unfolding reconcile journal_append audit_append name
  reconcile_to state observed =
      let resolved = reconcile state observed in
      do
        n ← journal_append env (transition state (reconciled observed) resolved)
        m ← audit_append env (rotation_transition (name state) (codes "Reconciled") (name resolved))
        pure resolved

  -- A state with an unknown outcome is resolved by what is observed.
  unfoldable pub resolve : RotationTarget → RotationState → Act (RotationEngine W) RotationState
  unfolding is_in_flight observe reconcile_to
  resolve target state =
      if is_in_flight state
      then (do observed ← observe target; reconcile_to state observed)
      else pure state

  pub value_lost : Text
  value_lost =
      codes "the new credential's value was lost when the process died, because "
      ++ (codes "plaintext is held only in memory; it can never be published, so it is being "
          ++ codes "revoked and the rotation must be re-run")

  unfoldable pub abort : RotationState → Act (RotationEngine W) RotationState
  unfolding note_refusal value_lost transit
  abort state = do
    note_refusal env (codes "value_lost_on_crash") value_lost
    transit env state abort_requested

  -- A credential whose value died with the process can only be revoked.
  unfoldable pub abort_lost : RotationState → Act (RotationEngine W) RotationState
  unfolding abort
  abort_lost provisioned = abort provisioned
  abort_lost verified = abort verified
  abort_lost state = pure state

  unfoldable pub recovered_context : RotationTarget → RecoveredRun → RunContext
  unfolding context_for
  recovered_context target recovered = record (context_for target) {
    new_handle = recovered.handle;
    previous_version = recovered.previous_version;
    written_version = recovered.written_version;
  }

  unfoldable pub continue_from :
      RotationTarget → RotationState → CommitToken → Act (RotationEngine W) (Option RotationOutcome)
  unfolding abort_lost drive_from
  continue_from target resolved commit = do
    state ← abort_lost resolved
    drive_from env target state commit

  unfoldable pub recover_with :
      RotationTarget
      → RecoveredRun
      → Option CommitToken
      → Act (RotationEngine W) (Option RotationOutcome)
  unfolding planned recovered_context resolve continue_from
  recover_with target recovered none = planned env target
  recover_with target recovered (some commit) = do
    set env (λ c. recovered_context target recovered)
    resolved ← resolve target recovered.state
    continue_from target resolved commit

  unfoldable pub recover :
      RotationTarget
      → RecoveredRun
      → ExecutionMode
      → Act (RotationEngine W) (Option RotationOutcome)
  unfolding commit_token anchor recover_with
  recover target recovered mode = do
    run ← gets (λ e. e.run)
    commit ← commit_token (anchor env) mode run
    recover_with target recovered commit
