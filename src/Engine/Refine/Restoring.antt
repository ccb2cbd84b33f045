-- ===== src/Engine/Refine/Restoring.antt =====
-- The effect of restoring leads to worlds that the ghost model allows for its events.
use kawach.Prelude.{refl, inl, inr, false, Option, none, some, codes}
use kawach.Core.Capability.{
  AuditSeq, CoreAuditEvent, access_intent, access_outcome, CommitToken, ReadIntent, ReadWitness,
  issue, complete, intend,
}
use kawach.Core.Effect.{Meets, Meets-continue, continue, pure}
use kawach.Core.Error.{KawachError, Result, ok, err}
use kawach.Core.Refs.{CredentialHandle, VersionId}
use kawach.Core.Traits.{RotationTarget}
use kawach.Rotation.Safety.{Ghost, successors}
use kawach.Rotation.State.{
  RotationState, restoring_publication, RotationEvent, restore_ok, restore_failed, next,
  pending_step, restore_publication,
}
use kawach.Engine.{RunContext, RotationEngine, Setting, anchor}
use kawach.Engine.Honest.{Honest, Reading, Shown}
use kawach.Engine.Perform.{
  on_restore, on_restored, restore_under, restore_version, read_outcome, take_step,
}
use kawach.Engine.Assertions.{PreviousOf, Carries, Landed, Crashed}
use kawach.Engine.Refine.{
  failure-Lands, pure-Lands, Meets-call, Still, Kept, Seen, Lands, Lands-after, anchor-keeps,
}

module _ {Time W : Type 0} {env : Setting Time W} {target : RotationTarget} {reading : Reading W}
    {old_handle : CredentialHandle} (laws : Honest env target reading old_handle)
    (c : CommitToken) where
  abbrev Effects : RotationState → Ghost → RotationEngine W × Result RotationEvent → Type 0
  Effects = Lands laws

  abbrev pub Holds : RotationEngine W → Ghost → Type 0
  Holds e g = reading.Shows e.world g × Carries reading old_handle e.ctx g

  anchored :
      {A : Type 0} (v : CoreAuditEvent) (k : AuditSeq → A) (e : RotationEngine W) (h : Ghost)
      (C : RunContext → Type 0)
      → reading.Shows e.world h
      → C e.ctx
      → Meets (Still laws h C) (Seen laws h) (continue (anchor env v e) (λ n. pure (k n)))
  anchored v k e h C s a =
      Meets-continue (Still laws h C) (Still laws h C) (Seen laws h) (anchor env v e)
        (λ n. pure (k n)) (anchor-keeps laws v e h C s a) (λ n t p. p)

  on_restored-ok-Lands :
      (t : ReadWitness) (u : Unit) (e : RotationEngine W) (g : Ghost)
      → Shown reading restore_ok g e.world
      → Kept laws g e.ctx
      → Effects restoring_publication g (on_restored env target t (ok u) e)
  unfolding on_restored on_restore complete next successors pending_step
  on_restored-ok-Lands t u e g (h, i, w) k =
      Lands-after laws restoring_publication g h (Kept laws g)
        (complete (anchor env) t (read_outcome (ok u)) e) (λ v. on_restore env target (ok u))
        (inr i)
        (anchored (access_outcome t.intent_seq (read_outcome (ok u))) (λ n. tt) e h (Kept laws g) w
          k)
        (λ v s w' k'.
          pure-Lands laws restoring_publication g restore_ok s h (tt, (_, refl)) i w' tt k')

  on_restored-err-Lands :
      (t : ReadWitness) (x : KawachError) (e : RotationEngine W) (g : Ghost)
      → Shown reading restore_failed g e.world
      → Kept laws g e.ctx
      → Effects restoring_publication g (on_restored env target t (err x) e)
  unfolding on_restored on_restore complete next successors pending_step
  on_restored-err-Lands t x e g (h, i, w) k =
      Lands-after laws restoring_publication g h (Kept laws g)
        (complete (anchor env) t (read_outcome (err x)) e) (λ v. on_restore env target (err x)) i
        (anchored (access_outcome t.intent_seq (read_outcome (err x))) (λ n. tt) e h (Kept laws g) w
          k)
        (λ v s w' k'.
          failure-Lands laws restoring_publication g restore_failed (codes "restore") x s
            (tt, (_, refl)) (λ h i. i) (h, i, w') tt k')

  restore_under-Lands :
      (v : VersionId) (t : ReadWitness) (e : RotationEngine W) (g : Ghost)
      → reading.IsOldVersion v
      → Holds e g
      → Effects restoring_publication g (restore_under env target c v t e)
  unfolding restore_under
  restore_under-Lands v t e g a (w, k) =
      Meets-call env (env.backend.restore target.reference v c t) e
        (λ u. Shown reading restore_ok g) (Shown reading restore_failed g)
        (Landed reading old_handle restoring_publication g)
        (Crashed reading old_handle restoring_publication g) (on_restored env target t)
        (laws.restore_lands v c t e.world g a w)
        (λ u x s. on_restored-ok-Lands t u (record e { world = x }) g s k)
        (λ x u s. on_restored-err-Lands t x (record e { world = u }) g s k)

  restore_version-Lands :
      (o : Option VersionId) (e : RotationEngine W) (g : Ghost)
      → PreviousOf reading old_handle o g.published
      → Holds e g
      → Effects restoring_publication g (restore_version env target c o e)
  unfolding restore_version issue next successors pending_step
  restore_version-Lands none e g p (w, k) =
      pure-Lands laws restoring_publication g restore_ok e g (tt, (_, refl))
        (inl (λ i. record g { published = p i })) w tt k
  restore_version-Lands (some v) e g a (w, k) =
      Lands-after laws restoring_publication g g (Kept laws g) (issue (anchor env) intent e)
        (restore_under env target c v) (inl refl)
        (anchored (access_intent intent.run intent.reference intent.purpose)
          (λ n. record { intent_seq = n; intent = intent; completed = false }) e g (Kept laws g) w
          k)
        (λ t s w' k'. restore_under-Lands v t s g a (w', k'))
    where
      intent : ReadIntent
      intent =
          intend target.run target.reference
            (codes "restore the previous value during rotation compensation")

  pub restore-Lands :
      (e : RotationEngine W) (g : Ghost)
      → Holds e g
      → Effects restoring_publication g (take_step env target c restore_publication e)
  unfolding take_step
  restore-Lands e g (w, k) = restore_version-Lands e.ctx.previous_version e g k.3 (w, k)
