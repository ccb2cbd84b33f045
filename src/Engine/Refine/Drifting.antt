-- ===== src/Engine/Refine/Drifting.antt =====
-- The run after a provisioning that failed and of which there is no handle: nothing is revoked, and the
-- run rolls back as if it had been.
use kawach.Prelude.{ℕ, zero, suc, sym, subst, Text, ◌<◌, ◌≡◌, refl, inr, Option, none, some, arith}
use kawach.Core.Capability.{CommitToken}
use kawach.Core.Effect.{Act, Meets, Meets-continue, continue, pure, ◌>>=◌}
use kawach.Core.Error.{Result, ok}
use kawach.Core.Refs.{CredentialHandle}
use kawach.Core.Traits.{RotationTarget}
use kawach.Audit.Event.{AuditEvent, rotation_transition}
use kawach.Rotation.Journal.{transition, run_finished}
use kawach.Rotation.Safety.{Ghost}
use kawach.Rotation.Safety.Liveness.{rank}
use kawach.Rotation.Safety.Reach.{Reach, take_event, then}
use kawach.Rotation.State.{
  RotationState, provisioning, revoking_new, rolled_back, RotationEvent, name, event_name, next,
  pending_step, is_in_flight, is_terminal, provision_failed, revoke_new_ok,
}
use kawach.Rotation.State.Hint.{RemediationHint, for_escalation}
use kawach.Engine.{RotationEngine, Setting, journal_append, audit_append}
use kawach.Engine.Assertions.{Strayed, Loose, Blamed, Blames}
use kawach.Engine.Drive.{
  or_abandoned, outcome_of, record_step, transit, event_at, escalate, report, conclude, drive,
}
use kawach.Engine.Honest.{Honest, Reading}
use kawach.Engine.Perform.{perform, perform_step, take_step, revoke_new_handle}
use kawach.Engine.Refine.{Still, Seen, journal_append-keeps, audit_append-keeps}
use kawach.Engine.Refine.Ending.{Stopped, Reports, Stopped-after}

module _ {Time W : Type 0} {env : Setting Time W} {target : RotationTarget} {reading : Reading W}
    {old_handle : CredentialHandle} (laws : Honest env target reading old_handle)
    (c : CommitToken) where
  -- The world after a provisioning that failed, of which the context has no handle.
  abbrev pub Adrift : RotationEngine W → Type 0
  Adrift e = (h : Ghost) × Reach revoking_new h × Still laws h Loose tt e

  Adrift-after :
      {A B : Type 0} (Q : B → RotationEngine W → Type 0) (h : Ghost)
      (r : RotationEngine W × Result A) (k : A → Act (RotationEngine W) B)
      → Reach revoking_new h
      → Meets (Still laws h Loose) (Seen laws h) r
      → ((a : A) (t : RotationEngine W) → Adrift t → Meets Q (Stopped reading) (k a t))
      → Meets Q (Stopped reading) (continue r k)
  Adrift-after Q h r k j m rest =
      Stopped-after laws Q revoking_new h Loose r k j m (λ a t l. rest a t (h, j, l))

  record_step-Adrift :
      {B : Type 0} (Q : B → RotationEngine W → Type 0) (s : RotationState) (v : RotationEvent)
      (to : RotationState) (k : RotationState → Act (RotationEngine W) B) (e : RotationEngine W)
      → Adrift e
      → ((t : RotationEngine W) → Adrift t → Meets Q (Stopped reading) (k to t))
      → Meets Q (Stopped reading) (continue (record_step env s v to e) k)
  unfolding record_step
  record_step-Adrift Q s v to k e a rest =
      Meets-continue (λ x t. (x ≡ to) × Adrift t) Q (Stopped reading) (record_step env s v to e) k
        (written a)
        (λ x t (p, l). subst (λ y. Meets Q (Stopped reading) (k y t)) (sym p) (rest t l))
    where
      event : AuditEvent
      event = rotation_transition (name s) (event_name v) (name to)

      written :
          Adrift e → Meets (λ x t. (x ≡ to) × Adrift t) (Stopped reading) (record_step env s v to e)
      written (h, j, (w, l)) =
          Adrift-after (λ x t. (x ≡ to) × Adrift t) h (journal_append env (transition s v to) e)
            (λ m. audit_append env event >>= λ m'. pure to) j
            (journal_append-keeps laws (transition s v to) e h Loose w l)
            (λ m t (h', j', (w', l')).
              Adrift-after (λ x t. (x ≡ to) × Adrift t) h' (audit_append env event t)
                (λ m'. pure to) j' (audit_append-keeps laws event t h' Loose w' l')
                (λ m' u b. (refl, b)))

  blamed : (o : Option Text) → Blames o → Blamed (or_abandoned o)
  unfolding or_abandoned
  blamed none b = absurd b
  blamed (some d) b = b

  conclude-Adrift :
      (from : RotationState) (last : Option RemediationHint) (e : RotationEngine W)
      → Adrift e
      → Meets (Reports reading) (Stopped reading) (conclude env rolled_back from last e)
  unfolding conclude report outcome_of
  conclude-Adrift from last e (h, j, (w, l)) =
      Adrift-after (Reports reading) h (journal_append env (run_finished rolled_back) e)
        (λ n. report env rolled_back from last) j
        (journal_append-keeps laws (run_finished rolled_back) e h Loose w l)
        (λ n t (h', j', (w', l')). inr (blamed t.ctx.failure_reason l'.1, (h', j', w')))

  rolled_back-Adrift :
      (fuel : ℕ) (from : RotationState) (last : Option RemediationHint) (e : RotationEngine W)
      → rank rolled_back < fuel
      → Adrift e
      → Meets (Reports reading) (Stopped reading) (drive env target c fuel rolled_back from last e)
  unfolding drive is_terminal
  rolled_back-Adrift zero from last e f a = omega (arith, f)
  rolled_back-Adrift (suc fuel) from last e f a = conclude-Adrift from last e a

  no_handle :
      (o : Option CredentialHandle) (e : RotationEngine W)
      → o ≡ none
      → revoke_new_handle env target c o e ≡ (e, ok revoke_new_ok)
  unfolding revoke_new_handle
  no_handle none e n = refl
  no_handle (some k) e n = absurd cc

  -- Without a handle nothing is revoked, and the run goes on as if it had been.
  revoking_new-Adrift :
      (fuel : ℕ) (from : RotationState) (last : Option RemediationHint) (e : RotationEngine W)
      → rank revoking_new < fuel
      → Adrift e
      → Meets (Reports reading) (Stopped reading) (drive env target c fuel revoking_new from last e)
  unfolding drive is_terminal event_at is_in_flight perform perform_step pending_step take_step
      for_escalation escalate transit next
  revoking_new-Adrift zero from last e f a = omega (arith, f)
  revoking_new-Adrift (suc fuel) from last e f (h, j, (w, (n, b))) =
      rw (no_handle e.ctx.new_handle e n) (
        record_step-Adrift (Reports reading) revoking_new revoke_new_ok rolled_back
          (λ to. drive env target c fuel to from last) e (h, j, (w, (n, b)))
          (λ t a. rolled_back-Adrift fuel from last t (omega (arith, f)) a))

  pub provisioning-Adrift :
      (fuel : ℕ) (from : RotationState) (last : Option RemediationHint) (e : RotationEngine W)
      → rank revoking_new < fuel
      → Adrift e
      → Meets (Reports reading) (Stopped reading) (
          continue
            (escalate env provisioning (for_escalation provisioning provision_failed) from last e)
            (λ x. transit env provisioning provision_failed >>= λ to.
              drive env target c fuel to x.0 x.1))
  unfolding for_escalation escalate transit next
  provisioning-Adrift fuel from last e f a =
      record_step-Adrift (Reports reading) provisioning provision_failed revoking_new
        (λ to. drive env target c fuel to from last) e a
        (λ t b. revoking_new-Adrift fuel from last t f b)

  pub Strayed-Adrift :
      (g : Ghost) (s : RotationState) (v : RotationEvent) (e : RotationEngine W)
      → Reach s g
      → Strayed reading old_handle s g v e
      → Adrift e
  unfolding next
  Strayed-Adrift g s v e r (p, q, h, i, w, l) =
      (h, then (subst (λ x. Reach x g) p r) (take_event provision_failed tt refl i), (w, l))
