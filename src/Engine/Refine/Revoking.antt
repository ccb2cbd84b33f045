-- ===== src/Engine/Refine/Revoking.antt =====
-- The effects of draining, revoking and restoring lead to worlds that the ghost model allows for their
-- events.
use kawach.Prelude.{refl, sym, subst, inl, inr, Bool-cases, Option, none, some, codes}
use kawach.Core.Capability.{CommitToken}
use kawach.Core.Error.{Result, ok}
use kawach.Core.Model.{DrainReport}
use kawach.Core.Refs.{CredentialHandle}
use kawach.Core.Traits.{RotationTarget}
use kawach.Rotation.Safety.{Ghost, successors}
use kawach.Rotation.State.{
  RotationState, draining, revoking, reverse_draining, revoking_new, RotationEvent, drain_complete,
  drain_timeout, revoke_ok, revoke_failed, reverse_drain_complete, reverse_drain_timeout,
  revoke_new_ok, revoke_new_failed, next, pending_step, drain, revoke_old, reverse_drain,
  revoke_new,
}
use kawach.Engine.{RotationEngine, Setting}
use kawach.Engine.Honest.{Honest, Reading, Shown, Unchanged}
use kawach.Engine.Perform.{
  sessions_left, new_in_use, on_drain, drain_old, on_revoke, revoke_handle, on_reverse_drain,
  drain_new, on_revoke_new, revoke_new_handle, take_step,
}
use kawach.Engine.Assertions.{NewOf, Carries, Landed, Crashed}
use kawach.Engine.Refine.{
  failure-Lands, pure-Lands, Meets-call, Lands, fail_as-Lands, refuse_as-Lands,
}

module _ {Time W : Type 0} {env : Setting Time W} {target : RotationTarget} {reading : Reading W}
    {old_handle : CredentialHandle} (laws : Honest env target reading old_handle)
    (c : CommitToken) where
  abbrev Effects : RotationState → Ghost → RotationEngine W × Result RotationEvent → Type 0
  Effects = Lands laws

  abbrev pub Holds : RotationEngine W → Ghost → Type 0
  Holds e g = reading.Shows e.world g × Carries reading old_handle e.ctx g

  on_drain-Lands :
      (r : DrainReport) (e : RotationEngine W) (g : Ghost)
      → Holds e g
      → Effects draining g (on_drain env target (ok r) e)
  unfolding on_drain next successors pending_step
  on_drain-Lands r e g (w, k) = elim (Bool-cases r.complete) [
    | inl y ↦ rw y (pure-Lands laws draining g drain_complete e g (tt, (_, refl)) (inl refl) w tt k)
    | inr n ↦ rw n (
        refuse_as-Lands laws draining g drain_timeout (codes "drain_incomplete") (sessions_left r) e
          g (tt, (_, refl)) (inl refl) (inl refl) w k)
  ]

  drain_old-Lands :
      (o : Option CredentialHandle) (e : RotationEngine W) (g : Ghost)
      → Holds e g
      → Effects draining g (drain_old env target o e)
  unfolding drain_old on_drain next successors pending_step
  drain_old-Lands none e g (w, k) =
      pure-Lands laws draining g drain_complete e g (tt, (_, refl)) (inl refl) w tt k
  drain_old-Lands (some o) e g (w, k) =
      Meets-call env (env.provider.drain target o target.drain.deadline) e (Unchanged reading g)
        (Unchanged reading g tt) (Landed reading old_handle draining g)
        (Crashed reading old_handle draining g) (on_drain env target)
        (laws.drain_keeps o e.world g w)
        (λ r u s. on_drain-Lands r (record e { world = u }) g (s, k))
        (λ x u s.
          fail_as-Lands laws draining g drain_timeout (codes "drain") x (record e { world = u }) g
            (tt, (_, refl)) (inl refl) (inl refl) s k)

  on_reverse_drain-Lands :
      (r : DrainReport) (e : RotationEngine W) (g : Ghost)
      → Holds e g
      → Effects reverse_draining g (on_reverse_drain env target (ok r) e)
  unfolding on_reverse_drain next successors pending_step
  on_reverse_drain-Lands r e g (w, k) = elim (Bool-cases r.complete) [
    | inl y ↦ rw y (
        pure-Lands laws reverse_draining g reverse_drain_complete e g (tt, (_, refl)) (inl refl) w
          tt k)
    | inr n ↦ rw n (
        refuse_as-Lands laws reverse_draining g reverse_drain_timeout
          (codes "reverse_drain_incomplete") new_in_use e g (tt, (_, refl)) (inl refl) (inl refl) w
          k)
  ]

  drain_new-Lands :
      (o : Option CredentialHandle) (e : RotationEngine W) (g : Ghost)
      → Holds e g
      → Effects reverse_draining g (drain_new env target o e)
  unfolding drain_new on_reverse_drain next successors pending_step
  drain_new-Lands none e g (w, k) =
      pure-Lands laws reverse_draining g reverse_drain_complete e g (tt, (_, refl)) (inl refl) w tt
        k
  drain_new-Lands (some o) e g (w, k) =
      Meets-call env (env.provider.drain target o target.drain.deadline) e (Unchanged reading g)
        (Unchanged reading g tt) (Landed reading old_handle reverse_draining g)
        (Crashed reading old_handle reverse_draining g) (on_reverse_drain env target)
        (laws.drain_keeps o e.world g w)
        (λ r u s. on_reverse_drain-Lands r (record e { world = u }) g (s, k))
        (λ x u s.
          fail_as-Lands laws reverse_draining g reverse_drain_timeout (codes "reverse_drain") x
            (record e { world = u }) g (tt, (_, refl)) (inl refl) (inl refl) s k)

  revoke_handle-Lands :
      (e : RotationEngine W) (g : Ghost)
      → Holds e g
      → Effects revoking g (revoke_handle env target c (some old_handle) e)
  unfolding revoke_handle on_revoke next successors pending_step
  revoke_handle-Lands e g (w, k) =
      Meets-call env (env.provider.revoke target old_handle c) e (λ u. Shown reading revoke_ok g)
        (Shown reading revoke_failed g) (Landed reading old_handle revoking g)
        (Crashed reading old_handle revoking g) (on_revoke env target)
        (laws.revoke_old_lands c e.world g w)
        (λ r u (h, i, s).
          pure-Lands laws revoking g revoke_ok (record e { world = u }) h (tt, (_, refl)) i s tt k)
        (λ x u s.
          failure-Lands laws revoking g revoke_failed (codes "revoke") x (record e { world = u })
            (tt, (_, refl)) (λ h i. i) s tt k)

  revoke_new_handle-Lands :
      (o : Option CredentialHandle) (e : RotationEngine W) (g : Ghost)
      → NewOf reading old_handle o g.new_live g.new_exists
      → Holds e g
      → Effects revoking_new g (revoke_new_handle env target c o e)
  unfolding revoke_new_handle on_revoke_new next successors pending_step
  revoke_new_handle-Lands none e g (p, q) (w, k) =
      pure-Lands laws revoking_new g revoke_new_ok e g (tt, (_, refl))
        (inl (λ i. record g { new_live = p i; new_exists = q i })) w tt k
  revoke_new_handle-Lands (some o) e g a (w, k) =
      Meets-call env (env.provider.revoke target o c) e (λ u. Shown reading revoke_new_ok g)
        (Shown reading revoke_new_failed g) (Landed reading old_handle revoking_new g)
        (Crashed reading old_handle revoking_new g) (on_revoke_new env target)
        (laws.revoke_new_lands o c e.world g a w)
        (λ r u (h, i, s).
          pure-Lands laws revoking_new g revoke_new_ok (record e { world = u }) h (tt, (_, refl)) i
            s tt k)
        (λ x u s.
          failure-Lands laws revoking_new g revoke_new_failed (codes "revoke_new") x
            (record e { world = u }) (tt, (_, refl)) (λ h i. i) s tt k)

  pub drain-Lands :
      (e : RotationEngine W) (g : Ghost)
      → Holds e g
      → Effects draining g (take_step env target c drain e)
  unfolding take_step
  drain-Lands e g a = drain_old-Lands e.ctx.old_handle e g a

  pub revoke_old-Lands :
      (e : RotationEngine W) (g : Ghost)
      → Holds e g
      → Effects revoking g (take_step env target c revoke_old e)
  unfolding take_step
  revoke_old-Lands e g (w, k) =
      subst (λ o. Effects revoking g (revoke_handle env target c o e)) (sym k.0)
        (revoke_handle-Lands e g (w, k))

  pub reverse_drain-Lands :
      (e : RotationEngine W) (g : Ghost)
      → Holds e g
      → Effects reverse_draining g (take_step env target c reverse_drain e)
  unfolding take_step
  reverse_drain-Lands e g a = drain_new-Lands e.ctx.new_handle e g a

  pub revoke_new-Lands :
      (e : RotationEngine W) (g : Ghost)
      → Holds e g
      → Effects revoking_new g (take_step env target c revoke_new e)
  unfolding take_step
  revoke_new-Lands e g (w, k) = revoke_new_handle-Lands e.ctx.new_handle e g k.1 (w, k)
