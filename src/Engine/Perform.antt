-- ===== src/Engine/Perform.antt =====
-- crates/kawach-engine/src/engine.rs: `perform`, one step at a time. A `match` on what a call returned
-- is a function by clauses, named for the branch that it stands for.
pub mod Plain
use kawach.Prelude.{
  ℕ, Text, codes, Bool, true, false, not, Option, none, some, ◌++◌, map, if◌then◌else◌,
}
use kawach.Platform.Decimal.{decimal}
use kawach.Core.Capability.{
  CommitToken, ReadWitness, ReadOutcome, success, failed, intend, issue, complete,
}
use kawach.Core.Display.{join}
use kawach.Core.Effect.{Act, gets, pure, raise, ◌>>=◌, ◌>>◌}
use kawach.Core.Error.{KawachError, illegal_transition, Result, ok, err}
use kawach.Core.Model.{DrainReport, PublishedState, VerificationReport, failures}
use kawach.Core.Refs.{CredentialHandle, VersionId}
use kawach.Core.Traits.{NewCredential, RotationTarget}
use kawach.Rotation.Journal.{handle_assigned, publication_baseline, version_assigned}
use kawach.Rotation.State.{
  RotationState, name, pending_step, Step, provision, verify, publish, drain, revoke_old,
  restore_publication, reverse_drain, revoke_new, RotationEvent, provision_ok, provision_failed,
  verify_ok, verify_failed, publish_ok, publish_failed, drain_complete, drain_timeout, revoke_ok,
  revoke_failed, restore_ok, restore_failed, reverse_drain_complete, reverse_drain_timeout,
  revoke_new_ok, revoke_new_failed,
}
use kawach.Engine.{
  RotationEngine, Setting, call, set, anchor, journal_append, note_failure, note_refusal,
}

unknown_or : Option ℕ → Text
unknown_or none = codes "an unknown number of"
unknown_or (some n) = decimal n

pub read_outcome : Result {0} Unit → ReadOutcome
read_outcome (ok u) = success
read_outcome (err e) = failed

-- What is said of a refusal.
pub no_value : Text
no_value = codes "no credential value is held"

pub checks_failed : VerificationReport → Text
unfolding failures
checks_failed report =
    codes "checks failed: " ++ join (codes ", ") (map (λ c. c.id) (failures report))

pub sessions_left : DrainReport → Text
unfolding unknown_or
sessions_left report =
    unknown_or report.remaining_sessions ++ codes " session(s) still using the old credential"

pub new_in_use : Text
new_in_use = codes "consumers are still using the new credential; it cannot be revoked"

module _ {Time W : Type 0} (env : Setting Time W) (target : RotationTarget) where
  abbrev Effect : Type 0
  Effect = Act (RotationEngine W) RotationEvent

  -- The call failed: the failure is noted and becomes an event.
  unfoldable pub fail_as : RotationEvent → Text → KawachError → Effect
  unfolding note_failure
  fail_as event operation error = do note_failure env operation error; pure event

  -- The engine will not go on: the refusal is noted and becomes an event.
  unfoldable pub refuse_as : RotationEvent → (code detail : Text) → Effect
  unfolding note_refusal
  refuse_as event code detail = do note_refusal env code detail; pure event

  unfoldable pub hold_new : NewCredential → Effect
  hold_new new = do
    set env (λ c. record c { new_handle = some new.handle; new_value = some new.value })
    pure provision_ok

  -- The handle is in the journal before it is held.
  unfoldable pub on_provision : Result NewCredential → Effect
  unfolding journal_append fail_as hold_new
  on_provision (err e) = fail_as provision_failed (codes "provision") e
  on_provision (ok new) = do n ← journal_append env (handle_assigned new.handle); hold_new new

  unfoldable pub on_verify : Result VerificationReport → Effect
  unfolding fail_as refuse_as checks_failed
  on_verify (err e) = fail_as verify_failed (codes "verify") e
  on_verify (ok report) =
      if report.passed
      then pure verify_ok
      else refuse_as verify_failed (codes "verification_failed") (checks_failed report)

  unfoldable pub verify_value : Option Text → Effect
  unfolding call on_verify refuse_as no_value
  verify_value none = refuse_as verify_failed (codes "verify_without_value") no_value
  verify_value (some value) = do
    report ← call env (env.provider.verify target value)
    on_verify report

  unfoldable pub hold_version : VersionId → Effect
  hold_version version = do
    set env (λ c. record c { written_version = some version })
    pure publish_ok

  -- The new version is what consumers read.
  unfoldable pub published_as : VersionId → Effect
  unfolding journal_append hold_version
  published_as version = do
    previous ← gets (λ e. e.ctx.previous_version)
    n ← journal_append env (version_assigned previous version)
    hold_version version

  unfoldable pub on_promote : VersionId → Result {0} Unit → Effect
  unfolding fail_as published_as
  on_promote version (err e) = fail_as publish_failed (codes "promote") e
  on_promote version (ok u) = published_as version

  unfoldable pub on_stage : CommitToken → Result VersionId → Effect
  unfolding call fail_as published_as on_promote
  on_stage commit (err e) = fail_as publish_failed (codes "stage") e
  on_stage commit (ok version) =
      if env.backend.capabilities.atomic_promote
      then (do
        promoted ← call env (env.backend.promote target.reference version commit)
        on_promote version promoted)
      else published_as version

  -- `ctx.new_value.take()`: the value leaves the context.
  unfoldable pub stage_value : CommitToken → Option Text → Effect
  unfolding call on_stage refuse_as no_value
  stage_value commit none = refuse_as publish_failed (codes "publish_without_value") no_value
  stage_value commit (some value) = do
    set env (λ c. record c { new_value = none })
    staged ← call env (env.backend.stage target.reference value commit)
    on_stage commit staged

  unfoldable pub publish_held : CommitToken → Effect
  unfolding stage_value
  publish_held commit = do value ← gets (λ e. e.ctx.new_value); stage_value commit value

  -- The baseline is made durable before the write.
  unfoldable pub on_published : CommitToken → Result PublishedState → Effect
  unfolding journal_append fail_as publish_held
  on_published commit (err e) = fail_as publish_failed (codes "observe_published") e
  on_published commit (ok published) = do
    set env (λ c. record c { previous_version = published.current_version })
    n ← journal_append env (publication_baseline published.current_version)
    publish_held commit

  unfoldable pub on_drain : Result DrainReport → Effect
  unfolding fail_as refuse_as sessions_left
  on_drain (err e) = fail_as drain_timeout (codes "drain") e
  on_drain (ok report) =
      if report.complete
      then pure drain_complete
      else refuse_as drain_timeout (codes "drain_incomplete") (
          unknown_or report.remaining_sessions
          ++ codes " session(s) still using the old credential")

  unfoldable pub drain_old : Option CredentialHandle → Effect
  unfolding call on_drain
  drain_old none = pure drain_complete
  drain_old (some old) = do
    report ← call env (env.provider.drain target old target.drain.deadline)
    on_drain report

  unfoldable pub on_revoke : Result {0} Unit → Effect
  unfolding fail_as
  on_revoke (ok u) = pure revoke_ok
  on_revoke (err e) = fail_as revoke_failed (codes "revoke") e

  unfoldable pub revoke_handle : CommitToken → Option CredentialHandle → Effect
  unfolding call on_revoke
  revoke_handle commit none = pure revoke_ok
  revoke_handle commit (some old) = do
    revoked ← call env (env.provider.revoke target old commit)
    on_revoke revoked

  unfoldable pub on_restore : Result {0} Unit → Effect
  unfolding fail_as
  on_restore (ok u) = pure restore_ok
  on_restore (err e) = fail_as restore_failed (codes "restore") e

  unfoldable pub on_restored : ReadWitness → Result {0} Unit → Effect
  unfolding anchor complete read_outcome on_restore
  on_restored witness restored = do
    complete (anchor env) witness (read_outcome restored)
    on_restore restored

  unfoldable pub restore_under : CommitToken → VersionId → ReadWitness → Effect
  unfolding call on_restored
  restore_under commit previous witness = do
    restored ← call env (env.backend.restore target.reference previous commit witness)
    on_restored witness restored

  -- A restore may read the earlier value, so it is done under a witness.
  unfoldable pub restore_version : CommitToken → Option VersionId → Effect
  unfolding anchor issue intend restore_under
  restore_version commit none = pure restore_ok
  restore_version commit (some previous) = do
    witness ← issue (anchor env) (
        intend target.run target.reference
          (codes "restore the previous value during rotation compensation"))
    restore_under commit previous witness

  unfoldable pub on_reverse_drain : Result DrainReport → Effect
  unfolding fail_as refuse_as new_in_use
  on_reverse_drain (err e) = fail_as reverse_drain_timeout (codes "reverse_drain") e
  on_reverse_drain (ok report) =
      if report.complete
      then pure reverse_drain_complete
      else refuse_as reverse_drain_timeout (codes "reverse_drain_incomplete") new_in_use

  unfoldable pub drain_new : Option CredentialHandle → Effect
  unfolding call on_reverse_drain
  drain_new none = pure reverse_drain_complete
  drain_new (some new) = do
    report ← call env (env.provider.drain target new target.drain.deadline)
    on_reverse_drain report

  unfoldable pub on_revoke_new : Result {0} Unit → Effect
  unfolding fail_as
  on_revoke_new (ok u) = pure revoke_new_ok
  on_revoke_new (err e) = fail_as revoke_new_failed (codes "revoke_new") e

  unfoldable pub revoke_new_handle : CommitToken → Option CredentialHandle → Effect
  unfolding call on_revoke_new
  revoke_new_handle commit none = pure revoke_new_ok
  revoke_new_handle commit (some new) = do
    revoked ← call env (env.provider.revoke target new commit)
    on_revoke_new revoked

  unfoldable pub take_step : CommitToken → Step → Effect
  unfolding call on_provision verify_value on_published drain_old revoke_handle restore_version
      drain_new revoke_new_handle
  take_step commit provision = do
    new ← call env (env.provider.provision target commit)
    on_provision new
  take_step commit verify = do value ← gets (λ e. e.ctx.new_value); verify_value value
  take_step commit publish = do
    published ← call env (env.backend.observe_published target.reference)
    on_published commit published
  take_step commit drain = do old ← gets (λ e. e.ctx.old_handle); drain_old old
  take_step commit revoke_old = do old ← gets (λ e. e.ctx.old_handle); revoke_handle commit old
  take_step commit restore_publication = do
    previous ← gets (λ e. e.ctx.previous_version)
    restore_version commit previous
  take_step commit reverse_drain = do new ← gets (λ e. e.ctx.new_handle); drain_new new
  take_step commit revoke_new = do new ← gets (λ e. e.ctx.new_handle); revoke_new_handle commit new

  -- `state.pending_step()`, taken or refused.
  unfoldable pub perform_step : CommitToken → RotationState → Option Step → Effect
  unfolding take_step name
  perform_step commit state none =
      raise (illegal_transition (name state) (codes "perform on a settled state"))
  perform_step commit state (some step) = take_step commit step

  unfoldable pub perform : CommitToken → RotationState → Effect
  unfolding perform_step pending_step
  perform commit state = perform_step commit state (pending_step state)
