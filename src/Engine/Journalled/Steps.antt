-- ===== src/Engine/Journalled/Steps.antt =====
-- What a step of the engine leaves in the journal: the state of the journal stays, and what the context
-- learns of the new credential is in the file.
use kawach.Prelude.{◌≡◌, refl, Bool-cases, inl, inr, Text, codes, Option, none, some, ◌++◌}
use kawach.Core.Capability.{CommitToken, ReadWitness, ReadIntent, ReadOutcome, issue, complete}
use kawach.Core.Display.{error_text}
use kawach.Core.Effect.{continue}
use kawach.Core.Error.{KawachError, Result, ok, err}
use kawach.Core.Model.{DrainReport, PublishedState, VerificationReport}
use kawach.Core.Refs.{CredentialHandle, RunId, VersionId}
use kawach.Core.Traits.{NewCredential, RotationTarget}
use kawach.Rotation.Journal.{handle_assigned, publication_baseline, version_assigned}
use kawach.Rotation.State.{
  RotationState, RotationEvent, Step, provision, verify, publish, drain, revoke_old,
  restore_publication, reverse_drain, revoke_new, provision_failed, verify_failed, publish_failed,
  drain_timeout, revoke_failed, restore_failed, reverse_drain_timeout, revoke_new_failed,
  pending_step,
}
use kawach.Engine.{RotationEngine, Setting, anchor, call, note_failure, note_refusal}
use kawach.Engine.Journalled.{
  View, Notes, Keeps, Keeps-then, audit_append-Keeps, anchor-Keeps, call-Keeps,
  journal_append-Keeps,
}
use kawach.Engine.Perform.{
  on_restored, restore_under, read_outcome, no_value, checks_failed, sessions_left, new_in_use,
  fail_as, refuse_as, on_provision, on_verify, verify_value, published_as, on_promote, on_stage,
  stage_value, on_published, on_drain, drain_old, on_revoke, revoke_handle, on_restore,
  restore_version, on_reverse_drain, drain_new, on_revoke_new, revoke_new_handle, take_step,
  perform_step, perform,
}

-- The journal is in a state, and what it knows of the new credential is what the context knows.
abbrev pub InStep : RotationState → View
InStep s state handle previous written ctx =
    (state ≡ s)
    × (handle ≡ ctx.new_handle)
    × (previous ≡ ctx.previous_version)
    × (written ≡ ctx.written_version)

-- The same with one fact of the context still to come.
abbrev Handed : RotationState → CredentialHandle → View
Handed s h state handle previous written ctx =
    (state ≡ s)
    × (handle ≡ some h)
    × (previous ≡ ctx.previous_version)
    × (written ≡ ctx.written_version)

abbrev Based : RotationState → View
Based s state handle previous written ctx =
    (state ≡ s) × (handle ≡ ctx.new_handle) × (written ≡ ctx.written_version)

abbrev Versioned : RotationState → VersionId → View
Versioned s v state handle previous written ctx =
    (state ≡ s) × (handle ≡ ctx.new_handle) × (previous ≡ ctx.previous_version) × (written ≡ some v)

module _ {Time W : Type 0} (env : Setting Time W) (run : RunId) (target : RotationTarget)
    (s : RotationState) where
  abbrev In : RotationEngine W → Type 0
  In = Notes env run (InStep s)

  abbrev pub Stays : {A : Type 0} → RotationEngine W × Result A → Type 0
  Stays = Keeps env run (λ a. InStep s)

  Stays-then :
      {A B : Type 0} (r : RotationEngine W × Result A)
      (k : A → RotationEngine W → RotationEngine W × Result B)
      → Stays r
      → ((a : A) (t : RotationEngine W) → In t → Stays (k a t))
      → Stays (continue r k)
  Stays-then r k h rest = Keeps-then env run (λ a. InStep s) (λ b. InStep s) r k h rest

  note_failure-Stays :
      (o : Text) (x : KawachError) (e : RotationEngine W) → In e → Stays (note_failure env o x e)
  unfolding note_failure
  note_failure-Stays o x e h =
      Stays-then _ _
        (audit_append-Keeps env run (InStep s) _
          (record e {
            ctx = record e.ctx {
              failure_reason = some (o ++ (codes " failed: " ++ error_text env.scrub x));
            };
          })
          h)
        (λ n t i. i)

  note_refusal-Stays : (c d : Text) (e : RotationEngine W) → In e → Stays (note_refusal env c d e)
  unfolding note_refusal
  note_refusal-Stays c d e h =
      Stays-then _ _
        (audit_append-Keeps env run (InStep s) _
          (record e { ctx = record e.ctx { failure_reason = some d } }) h)
        (λ n t i. i)

  call-Stays :
      {A B : Type 0} (m : W → W × Result A)
      (k : Result A → RotationEngine W → RotationEngine W × Result B) (e : RotationEngine W)
      → In e
      → ((r : Result A) (t : RotationEngine W) → In t → Stays (k r t))
      → Stays (continue (call env m e) k)
  call-Stays m k e h rest = Stays-then (call env m e) k (call-Keeps env run (InStep s) m e h) rest

  issue-Stays : (i : ReadIntent) (e : RotationEngine W) → In e → Stays (issue (anchor env) i e)
  unfolding issue
  issue-Stays i e h = Stays-then _ _ (anchor-Keeps env run (InStep s) _ e h) (λ n t i. i)

  complete-Stays :
      (w : ReadWitness) (o : ReadOutcome) (e : RotationEngine W)
      → In e
      → Stays (complete (anchor env) w o e)
  unfolding complete
  complete-Stays w o e h = Stays-then _ _ (anchor-Keeps env run (InStep s) _ e h) (λ n t i. i)

  fail_as-Stays :
      (v : RotationEvent) (o : Text) (x : KawachError) (e : RotationEngine W)
      → In e
      → Stays (fail_as env target v o x e)
  unfolding fail_as
  fail_as-Stays v o x e h = Stays-then _ _ (note_failure-Stays o x e h) (λ a t i. i)

  refuse_as-Stays :
      (v : RotationEvent) (c d : Text) (e : RotationEngine W)
      → In e
      → Stays (refuse_as env target v c d e)
  unfolding refuse_as
  refuse_as-Stays v c d e h = Stays-then _ _ (note_refusal-Stays c d e h) (λ a t i. i)

  on_provision-Stays :
      (r : Result NewCredential) (e : RotationEngine W) → In e → Stays (on_provision env target r e)
  unfolding on_provision
  on_provision-Stays (err x) e i = fail_as-Stays provision_failed (codes "provision") x e i
  on_provision-Stays (ok new) e i =
      Keeps-then env run (λ n. Handed s new.handle) (λ v. InStep s) _ _
        (journal_append-Keeps env run (InStep s) (Handed s new.handle) (handle_assigned new.handle)
          e (λ p said. (tt, (said.0, refl, said.2, said.3))) i)
        (λ n t k. k)

  on_verify-Stays :
      (r : Result VerificationReport) (e : RotationEngine W)
      → In e
      → Stays (on_verify env target r e)
  unfolding on_verify
  on_verify-Stays (err x) e i = fail_as-Stays verify_failed (codes "verify") x e i
  on_verify-Stays (ok report) e i = elim (Bool-cases report.passed) [
    | inl y ↦ rw y i
    | inr n ↦
        rw n
          (refuse_as-Stays verify_failed (codes "verification_failed") (checks_failed report) e i)
  ]

  verify_value-Stays :
      (v : Option Text) (e : RotationEngine W) → In e → Stays (verify_value env target v e)
  unfolding verify_value
  verify_value-Stays none e i =
      refuse_as-Stays verify_failed (codes "verify_without_value") no_value e i
  verify_value-Stays (some v) e i =
      call-Stays (env.provider.verify target v) (on_verify env target) e i on_verify-Stays

  published_as-Stays :
      (v : VersionId) (e : RotationEngine W) → In e → Stays (published_as env target v e)
  unfolding published_as
  published_as-Stays v e i =
      Keeps-then env run (λ n. Versioned s v) (λ x. InStep s) _ _
        (journal_append-Keeps env run (InStep s) (Versioned s v)
          (version_assigned e.ctx.previous_version v) e
          (λ p said. (tt, (said.0, said.1, refl, refl))) i)
        (λ n t k. k)

  on_promote-Stays :
      (v : VersionId) (r : Result {0} Unit) (e : RotationEngine W)
      → In e
      → Stays (on_promote env target v r e)
  unfolding on_promote
  on_promote-Stays v (err x) e i = fail_as-Stays publish_failed (codes "promote") x e i
  on_promote-Stays v (ok u) e i = published_as-Stays v e i

  on_stage-Stays :
      (c : CommitToken) (r : Result VersionId) (e : RotationEngine W)
      → In e
      → Stays (on_stage env target c r e)
  unfolding on_stage
  on_stage-Stays c (err x) e i = fail_as-Stays publish_failed (codes "stage") x e i
  on_stage-Stays c (ok v) e i = elim (Bool-cases env.backend.capabilities.atomic_promote) [
    | inl y ↦ rw y (
        call-Stays (env.backend.promote target.reference v c) (on_promote env target v) e i
          (on_promote-Stays v))
    | inr n ↦ rw n (published_as-Stays v e i)
  ]

  stage_value-Stays :
      (c : CommitToken) (v : Option Text) (e : RotationEngine W)
      → In e
      → Stays (stage_value env target c v e)
  unfolding stage_value
  stage_value-Stays c none e i =
      refuse_as-Stays publish_failed (codes "publish_without_value") no_value e i
  stage_value-Stays c (some v) e i =
      call-Stays (env.backend.stage target.reference v c) (on_stage env target c) _ i
        (on_stage-Stays c)

  on_published-Stays :
      (c : CommitToken) (r : Result PublishedState) (e : RotationEngine W)
      → In e
      → Stays (on_published env target c r e)
  unfolding on_published
  on_published-Stays c (err x) e i = fail_as-Stays publish_failed (codes "observe_published") x e i
  on_published-Stays c (ok p) e i =
      Keeps-then env run (λ n. InStep s) (λ x. InStep s) _ _
        (journal_append-Keeps env run (Based s) (InStep s) (publication_baseline p.current_version)
          (record e { ctx = record e.ctx { previous_version = p.current_version } })
          (λ q said. (tt, (said.0, said.1, refl, said.2))) (i.0, i.1, i.2, (i.3.0, i.3.1, i.3.3)))
        (λ n t k. stage_value-Stays c t.ctx.new_value t k)

  on_drain-Stays :
      (r : Result DrainReport) (e : RotationEngine W) → In e → Stays (on_drain env target r e)
  unfolding on_drain
  on_drain-Stays (err x) e i = fail_as-Stays drain_timeout (codes "drain") x e i
  on_drain-Stays (ok report) e i = elim (Bool-cases report.complete) [
    | inl y ↦ rw y i
    | inr n ↦
        rw n (refuse_as-Stays drain_timeout (codes "drain_incomplete") (sessions_left report) e i)
  ]

  on_revoke-Stays :
      (r : Result {0} Unit) (e : RotationEngine W) → In e → Stays (on_revoke env target r e)
  unfolding on_revoke
  on_revoke-Stays (ok u) e i = i
  on_revoke-Stays (err x) e i = fail_as-Stays revoke_failed (codes "revoke") x e i

  on_restore-Stays :
      (r : Result {0} Unit) (e : RotationEngine W) → In e → Stays (on_restore env target r e)
  unfolding on_restore
  on_restore-Stays (ok u) e i = i
  on_restore-Stays (err x) e i = fail_as-Stays restore_failed (codes "restore") x e i

  on_restored-Stays :
      (w : ReadWitness) (r : Result {0} Unit) (e : RotationEngine W)
      → In e
      → Stays (on_restored env target w r e)
  unfolding on_restored
  on_restored-Stays w r e i =
      Stays-then _ _ (complete-Stays w (read_outcome r) e i) (λ u. on_restore-Stays r)

  restore_under-Stays :
      (c : CommitToken) (v : VersionId) (w : ReadWitness) (e : RotationEngine W)
      → In e
      → Stays (restore_under env target c v w e)
  unfolding restore_under
  restore_under-Stays c v w e i =
      call-Stays (env.backend.restore target.reference v c w) (on_restored env target w) e i
        (on_restored-Stays w)

  restore_version-Stays :
      (c : CommitToken) (v : Option VersionId) (e : RotationEngine W)
      → In e
      → Stays (restore_version env target c v e)
  unfolding restore_version
  restore_version-Stays c none e i = i
  restore_version-Stays c (some v) e i =
      Stays-then _ _ (issue-Stays _ e i) (restore_under-Stays c v)

  on_reverse_drain-Stays :
      (r : Result DrainReport) (e : RotationEngine W)
      → In e
      → Stays (on_reverse_drain env target r e)
  unfolding on_reverse_drain
  on_reverse_drain-Stays (err x) e i =
      fail_as-Stays reverse_drain_timeout (codes "reverse_drain") x e i
  on_reverse_drain-Stays (ok report) e i = elim (Bool-cases report.complete) [
    | inl y ↦ rw y i
    | inr n ↦
        rw n
          (refuse_as-Stays reverse_drain_timeout (codes "reverse_drain_incomplete") new_in_use e i)
  ]

  on_revoke_new-Stays :
      (r : Result {0} Unit) (e : RotationEngine W) → In e → Stays (on_revoke_new env target r e)
  unfolding on_revoke_new
  on_revoke_new-Stays (ok u) e i = i
  on_revoke_new-Stays (err x) e i = fail_as-Stays revoke_new_failed (codes "revoke_new") x e i

  drain_old-Stays :
      (h : Option CredentialHandle) (e : RotationEngine W) → In e → Stays (drain_old env target h e)
  unfolding drain_old
  drain_old-Stays none e i = i
  drain_old-Stays (some h) e i =
      call-Stays (env.provider.drain target h target.drain.deadline) (on_drain env target) e i
        on_drain-Stays

  drain_new-Stays :
      (h : Option CredentialHandle) (e : RotationEngine W) → In e → Stays (drain_new env target h e)
  unfolding drain_new
  drain_new-Stays none e i = i
  drain_new-Stays (some h) e i =
      call-Stays (env.provider.drain target h target.drain.deadline) (on_reverse_drain env target) e
        i on_reverse_drain-Stays

  revoke_handle-Stays :
      (c : CommitToken) (h : Option CredentialHandle) (e : RotationEngine W)
      → In e
      → Stays (revoke_handle env target c h e)
  unfolding revoke_handle
  revoke_handle-Stays c none e i = i
  revoke_handle-Stays c (some h) e i =
      call-Stays (env.provider.revoke target h c) (on_revoke env target) e i on_revoke-Stays

  revoke_new_handle-Stays :
      (c : CommitToken) (h : Option CredentialHandle) (e : RotationEngine W)
      → In e
      → Stays (revoke_new_handle env target c h e)
  unfolding revoke_new_handle
  revoke_new_handle-Stays c none e i = i
  revoke_new_handle-Stays c (some h) e i =
      call-Stays (env.provider.revoke target h c) (on_revoke_new env target) e i on_revoke_new-Stays

  take_step-Stays :
      (c : CommitToken) (step : Step) (e : RotationEngine W)
      → In e
      → Stays (take_step env target c step e)
  unfolding take_step
  take_step-Stays c provision e i =
      call-Stays (env.provider.provision target c) (on_provision env target) e i on_provision-Stays
  take_step-Stays c verify e i = verify_value-Stays e.ctx.new_value e i
  take_step-Stays c publish e i =
      call-Stays (env.backend.observe_published target.reference) (on_published env target c) e i
        (on_published-Stays c)
  take_step-Stays c drain e i = drain_old-Stays e.ctx.old_handle e i
  take_step-Stays c revoke_old e i = revoke_handle-Stays c e.ctx.old_handle e i
  take_step-Stays c restore_publication e i = restore_version-Stays c e.ctx.previous_version e i
  take_step-Stays c reverse_drain e i = drain_new-Stays e.ctx.new_handle e i
  take_step-Stays c revoke_new e i = revoke_new_handle-Stays c e.ctx.new_handle e i

  -- Whatever an effect comes to, the journal is where it was.
  pub perform-Stays :
      (c : CommitToken) (state : RotationState) (e : RotationEngine W)
      → In e
      → Stays (perform env target c state e)
  unfolding perform
  perform-Stays c state e i = at_step (pending_step state)
    where
      at_step : (o : Option Step) → Stays (perform_step env target c state o e)
      at_step none = tt
      at_step (some step) = take_step-Stays c step e i
