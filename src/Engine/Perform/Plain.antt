-- ===== src/Engine/Perform/Plain.antt =====
-- The events that an effect gives are never reconciliations.
use kawach.Prelude.{Bool-cases, inl, inr, Text, codes, Option, none, some}
use kawach.Core.Capability.{CommitToken, ReadWitness, issue, complete, intend}
use kawach.Core.Effect.{Gives, Gives-then}
use kawach.Core.Error.{KawachError, Result, ok, err}
use kawach.Core.Model.{DrainReport, PublishedState, VerificationReport}
use kawach.Core.Refs.{CredentialHandle, VersionId}
use kawach.Core.Traits.{NewCredential, RotationTarget}
use kawach.Rotation.Safety.Liveness.{IsPlain}
use kawach.Rotation.State.{
  RotationState, RotationEvent, Step, provision, verify, publish, drain, revoke_old,
  restore_publication, reverse_drain, revoke_new, provision_failed, verify_failed, publish_failed,
  drain_timeout, revoke_failed, restore_failed, reverse_drain_timeout, revoke_new_failed,
  pending_step,
}
use kawach.Engine.{
  RotationEngine, Setting, anchor, call, journal_append, note_failure, note_refusal,
}
use kawach.Engine.Perform.{
  on_restored, restore_under, read_outcome, no_value, checks_failed, sessions_left, new_in_use,
  fail_as, refuse_as, on_provision, on_verify, verify_value, published_as, on_promote, on_stage,
  stage_value, on_published, on_drain, drain_old, on_revoke, revoke_handle, on_restore,
  restore_version, on_reverse_drain, drain_new, on_revoke_new, revoke_new_handle, take_step,
  perform_step, perform,
}

module _ {Time W : Type 0} (env : Setting Time W) (target : RotationTarget) where
  abbrev pub Plain : RotationEngine W × Result RotationEvent → Type 0
  Plain = Gives IsPlain

  fail_as-Plain :
      (v : RotationEvent) (o : Text) (x : KawachError) (e : RotationEngine W)
      → IsPlain v
      → Plain (fail_as env target v o x e)
  unfolding fail_as
  fail_as-Plain v o x e p = Gives-then IsPlain (note_failure env o x e) _ (λ a s. p)

  refuse_as-Plain :
      (v : RotationEvent) (c d : Text) (e : RotationEngine W)
      → IsPlain v
      → Plain (refuse_as env target v c d e)
  unfolding refuse_as
  refuse_as-Plain v c d e p = Gives-then IsPlain (note_refusal env c d e) _ (λ a s. p)

  on_provision-Plain :
      (r : Result NewCredential) (e : RotationEngine W) → Plain (on_provision env target r e)
  unfolding on_provision
  on_provision-Plain (err x) e = fail_as-Plain provision_failed (codes "provision") x e tt
  on_provision-Plain (ok new) e = Gives-then IsPlain (journal_append env _ e) _ (λ a s. tt)

  on_verify-Plain :
      (r : Result VerificationReport) (e : RotationEngine W) → Plain (on_verify env target r e)
  unfolding on_verify
  on_verify-Plain (err x) e = fail_as-Plain verify_failed (codes "verify") x e tt
  on_verify-Plain (ok report) e = elim (Bool-cases report.passed) [
    | inl y ↦ rw y tt
    | inr n ↦
        rw n
          (refuse_as-Plain verify_failed (codes "verification_failed") (checks_failed report) e tt)
  ]

  verify_value-Plain :
      (v : Option Text) (e : RotationEngine W) → Plain (verify_value env target v e)
  unfolding verify_value
  verify_value-Plain none e =
      refuse_as-Plain verify_failed (codes "verify_without_value") no_value e tt
  verify_value-Plain (some v) e =
      Gives-then IsPlain (call env (env.provider.verify target v) e) (on_verify env target)
        on_verify-Plain

  published_as-Plain : (v : VersionId) (e : RotationEngine W) → Plain (published_as env target v e)
  unfolding published_as
  published_as-Plain v e = Gives-then IsPlain (journal_append env _ e) _ (λ a s. tt)

  on_promote-Plain :
      (v : VersionId) (r : Result {0} Unit) (e : RotationEngine W)
      → Plain (on_promote env target v r e)
  unfolding on_promote
  on_promote-Plain v (err x) e = fail_as-Plain publish_failed (codes "promote") x e tt
  on_promote-Plain v (ok u) e = published_as-Plain v e

  on_stage-Plain :
      (c : CommitToken) (r : Result VersionId) (e : RotationEngine W)
      → Plain (on_stage env target c r e)
  unfolding on_stage
  on_stage-Plain c (err x) e = fail_as-Plain publish_failed (codes "stage") x e tt
  on_stage-Plain c (ok v) e = elim (Bool-cases env.backend.capabilities.atomic_promote) [
    | inl y ↦ rw y (
        Gives-then IsPlain (call env (env.backend.promote target.reference v c) e)
          (on_promote env target v) (on_promote-Plain v))
    | inr n ↦ rw n (published_as-Plain v e)
  ]

  stage_value-Plain :
      (c : CommitToken) (v : Option Text) (e : RotationEngine W)
      → Plain (stage_value env target c v e)
  unfolding stage_value
  stage_value-Plain c none e =
      refuse_as-Plain publish_failed (codes "publish_without_value") no_value e tt
  stage_value-Plain c (some v) e =
      Gives-then IsPlain (call env (env.backend.stage target.reference v c) _)
        (on_stage env target c) (on_stage-Plain c)

  on_published-Plain :
      (c : CommitToken) (r : Result PublishedState) (e : RotationEngine W)
      → Plain (on_published env target c r e)
  unfolding on_published
  on_published-Plain c (err x) e = fail_as-Plain publish_failed (codes "observe_published") x e tt
  on_published-Plain c (ok p) e =
      Gives-then IsPlain (journal_append env _ _) _ (λ a s. stage_value-Plain c s.ctx.new_value s)

  on_drain-Plain : (r : Result DrainReport) (e : RotationEngine W) → Plain (on_drain env target r e)
  unfolding on_drain
  on_drain-Plain (err x) e = fail_as-Plain drain_timeout (codes "drain") x e tt
  on_drain-Plain (ok report) e = elim (Bool-cases report.complete) [
    | inl y ↦ rw y tt
    | inr n ↦
        rw n (refuse_as-Plain drain_timeout (codes "drain_incomplete") (sessions_left report) e tt)
  ]

  on_revoke-Plain : (r : Result {0} Unit) (e : RotationEngine W) → Plain (on_revoke env target r e)
  unfolding on_revoke
  on_revoke-Plain (ok u) e = tt
  on_revoke-Plain (err x) e = fail_as-Plain revoke_failed (codes "revoke") x e tt

  on_restore-Plain :
      (r : Result {0} Unit) (e : RotationEngine W) → Plain (on_restore env target r e)
  unfolding on_restore
  on_restore-Plain (ok u) e = tt
  on_restore-Plain (err x) e = fail_as-Plain restore_failed (codes "restore") x e tt

  on_restored-Plain :
      (w : ReadWitness) (r : Result {0} Unit) (e : RotationEngine W)
      → Plain (on_restored env target w r e)
  unfolding on_restored
  on_restored-Plain w r e =
      Gives-then IsPlain (complete (anchor env) w (read_outcome r) e) (λ u. on_restore env target r)
        (λ u. on_restore-Plain r)

  restore_under-Plain :
      (c : CommitToken) (v : VersionId) (w : ReadWitness) (e : RotationEngine W)
      → Plain (restore_under env target c v w e)
  unfolding restore_under
  restore_under-Plain c v w e =
      Gives-then IsPlain (call env (env.backend.restore target.reference v c w) e)
        (on_restored env target w) (on_restored-Plain w)

  restore_version-Plain :
      (c : CommitToken) (v : Option VersionId) (e : RotationEngine W)
      → Plain (restore_version env target c v e)
  unfolding restore_version
  restore_version-Plain c none e = tt
  restore_version-Plain c (some v) e =
      Gives-then IsPlain
        (issue (anchor env)
          (intend target.run target.reference
            (codes "restore the previous value during rotation compensation"))
          e)
        (restore_under env target c v) (restore_under-Plain c v)

  on_reverse_drain-Plain :
      (r : Result DrainReport) (e : RotationEngine W) → Plain (on_reverse_drain env target r e)
  unfolding on_reverse_drain
  on_reverse_drain-Plain (err x) e =
      fail_as-Plain reverse_drain_timeout (codes "reverse_drain") x e tt
  on_reverse_drain-Plain (ok report) e = elim (Bool-cases report.complete) [
    | inl y ↦ rw y tt
    | inr n ↦
        rw n
          (refuse_as-Plain reverse_drain_timeout (codes "reverse_drain_incomplete") new_in_use e tt)
  ]

  on_revoke_new-Plain :
      (r : Result {0} Unit) (e : RotationEngine W) → Plain (on_revoke_new env target r e)
  unfolding on_revoke_new
  on_revoke_new-Plain (ok u) e = tt
  on_revoke_new-Plain (err x) e = fail_as-Plain revoke_new_failed (codes "revoke_new") x e tt

  drain_old-Plain :
      (h : Option CredentialHandle) (e : RotationEngine W) → Plain (drain_old env target h e)
  unfolding drain_old
  drain_old-Plain none e = tt
  drain_old-Plain (some h) e =
      Gives-then IsPlain (call env (env.provider.drain target h target.drain.deadline) e)
        (on_drain env target) on_drain-Plain

  drain_new-Plain :
      (h : Option CredentialHandle) (e : RotationEngine W) → Plain (drain_new env target h e)
  unfolding drain_new
  drain_new-Plain none e = tt
  drain_new-Plain (some h) e =
      Gives-then IsPlain (call env (env.provider.drain target h target.drain.deadline) e)
        (on_reverse_drain env target) on_reverse_drain-Plain

  revoke_handle-Plain :
      (c : CommitToken) (h : Option CredentialHandle) (e : RotationEngine W)
      → Plain (revoke_handle env target c h e)
  unfolding revoke_handle
  revoke_handle-Plain c none e = tt
  revoke_handle-Plain c (some h) e =
      Gives-then IsPlain (call env (env.provider.revoke target h c) e) (on_revoke env target)
        on_revoke-Plain

  revoke_new_handle-Plain :
      (c : CommitToken) (h : Option CredentialHandle) (e : RotationEngine W)
      → Plain (revoke_new_handle env target c h e)
  unfolding revoke_new_handle
  revoke_new_handle-Plain c none e = tt
  revoke_new_handle-Plain c (some h) e =
      Gives-then IsPlain (call env (env.provider.revoke target h c) e) (on_revoke_new env target)
        on_revoke_new-Plain

  take_step-Plain :
      (c : CommitToken) (s : Step) (e : RotationEngine W) → Plain (take_step env target c s e)
  unfolding take_step
  take_step-Plain c provision e =
      Gives-then IsPlain (call env (env.provider.provision target c) e) (on_provision env target)
        on_provision-Plain
  take_step-Plain c verify e = verify_value-Plain e.ctx.new_value e
  take_step-Plain c publish e =
      Gives-then IsPlain (call env (env.backend.observe_published target.reference) e)
        (on_published env target c) (on_published-Plain c)
  take_step-Plain c drain e = drain_old-Plain e.ctx.old_handle e
  take_step-Plain c revoke_old e = revoke_handle-Plain c e.ctx.old_handle e
  take_step-Plain c restore_publication e = restore_version-Plain c e.ctx.previous_version e
  take_step-Plain c reverse_drain e = drain_new-Plain e.ctx.new_handle e
  take_step-Plain c revoke_new e = revoke_new_handle-Plain c e.ctx.new_handle e

  -- The events that an effect gives are never reconciliations.
  pub perform-Plain :
      (c : CommitToken) (state : RotationState) (e : RotationEngine W)
      → Plain (perform env target c state e)
  unfolding perform
  perform-Plain c state e = at_step (pending_step state)
    where
      at_step : (o : Option Step) → Plain (perform_step env target c state o e)
      at_step none = tt
      at_step (some s) = take_step-Plain c s e
