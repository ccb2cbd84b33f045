-- ===== src/Engine/Refine/Provisioning.antt =====
-- The effects of provisioning and verifying lead to worlds that the ghost model allows for their events.
use kawach.Prelude.{
  refl, inl, inr, Bool, true, false, Option, none, some, Text, if◌then◌else◌, codes,
}
use kawach.Core.Capability.{CommitToken}
use kawach.Core.Effect.{pure}
use kawach.Core.Error.{Result, ok}
use kawach.Core.Model.{VerificationReport}
use kawach.Core.Refs.{CredentialHandle}
use kawach.Core.Traits.{RotationTarget}
use kawach.Rotation.Journal.{handle_assigned}
use kawach.Rotation.Safety.{Ghost, successors}
use kawach.Rotation.State.{
  RotationState, provisioning, verifying, RotationEvent, provision_ok, provision_failed, verify_ok,
  verify_failed, next, pending_step, provision, verify,
}
use kawach.Engine.{RotationEngine, Setting, journal_append}
use kawach.Engine.Honest.{Honest, Reading, Shown, Judged, Unchanged, Provisioned, Verified}
use kawach.Engine.Perform.{
  hold_new, no_value, checks_failed, refuse_as, on_provision, on_verify, verify_value, take_step,
}
use kawach.Engine.Assertions.{ValueOf, Carries, Landed, Crashed, Ended}
use kawach.Engine.Refine.{
  pure-Lands, Meets-call, Kept, Lands, Lands-after, journal_append-keeps, fail_as-Lands,
  refuse_as-Lands, Ends, Lands-Ends, provision_failed-Ends,
}

module _ {Time W : Type 0} {env : Setting Time W} {target : RotationTarget} {reading : Reading W}
    {old_handle : CredentialHandle} (laws : Honest env target reading old_handle)
    (c : CommitToken) where
  abbrev Effects : RotationState → Ghost → RotationEngine W × Result RotationEvent → Type 0
  Effects = Lands laws

  abbrev pub Holds : RotationEngine W → Ghost → Type 0
  Holds e g = reading.Shows e.world g × Carries reading old_handle e.ctx g

  pub provision-Lands :
      (e : RotationEngine W) (g : Ghost)
      → Holds e g
      → Ends laws provisioning g (take_step env target c provision e)
  unfolding take_step on_provision hold_new next successors pending_step
  provision-Lands e g (w, k) =
      Meets-call env (env.provider.provision target c) e (Provisioned reading g)
        (Shown reading provision_failed g) (Ended reading old_handle provisioning g)
        (Crashed reading old_handle provisioning g) (on_provision env target)
        (laws.provision_lands c e.world g w)
        (λ n u (a, b, (h, i, s)).
          Lands-Ends laws provisioning g (on_provision env target (ok n) (record e { world = u })) (
            Lands-after laws provisioning g h (Kept laws g)
              (journal_append env (handle_assigned n.handle) (record e { world = u }))
              (λ m. hold_new env target n) (inr i)
              (journal_append-keeps laws (handle_assigned n.handle) (record e { world = u }) h
                (Kept laws g) s k)
              (λ m t s' (o, n', v', p).
                pure-Lands laws provisioning g provision_ok (hold_new env target n t).0 h
                  (tt, (_, refl)) i s' tt (o, a, b, p))))
        (λ x u s. provision_failed-Ends laws g x (record e { world = u }) s k)

  on_verify-Lands :
      (r : VerificationReport) (e : RotationEngine W) (g : Ghost)
      → Judged reading r.passed g e.world
      → Kept laws g e.ctx
      → Effects verifying g (on_verify env target (ok r) e)
  unfolding on_verify next successors pending_step
  on_verify-Lands r e g j k = judged r.passed j
    where
      judged :
          (b : Bool)
          → Judged reading b g e.world
          → Effects verifying g (
              (if b
                  then pure verify_ok
                  else refuse_as env target verify_failed
                      (codes "verification_failed")
                      (checks_failed r))
                e)
      judged true (h, i, s) = pure-Lands laws verifying g verify_ok e h (tt, (_, refl)) i s tt k
      judged false s =
          refuse_as-Lands laws verifying g verify_failed (codes "verification_failed")
            (checks_failed r) e g (tt, (_, refl)) (inl refl) (inl refl) s k

  verify_value-Lands :
      (v : Option Text) (e : RotationEngine W) (g : Ghost)
      → ValueOf reading old_handle v
      → Holds e g
      → Effects verifying g (verify_value env target v e)
  unfolding verify_value on_verify next successors pending_step
  verify_value-Lands none e g a (w, k) =
      refuse_as-Lands laws verifying g verify_failed (codes "verify_without_value") no_value e g
        (tt, (_, refl)) (inl refl) (inl refl) w k
  verify_value-Lands (some v) e g a (w, k) =
      Meets-call env (env.provider.verify target v) e (Verified reading g) (Unchanged reading g tt)
        (Landed reading old_handle verifying g) (Crashed reading old_handle verifying g)
        (on_verify env target) (laws.verify_judges v e.world g a w)
        (λ r u j. on_verify-Lands r (record e { world = u }) g j k)
        (λ x u s.
          fail_as-Lands laws verifying g verify_failed (codes "verify") x (record e { world = u }) g
            (tt, (_, refl)) (inl refl) (inl refl) s k)

  pub verify-Lands :
      (e : RotationEngine W) (g : Ghost)
      → Holds e g
      → Effects verifying g (take_step env target c verify e)
  unfolding take_step
  verify-Lands e g (w, k) = verify_value-Lands e.ctx.new_value e g k.2 (w, k)
