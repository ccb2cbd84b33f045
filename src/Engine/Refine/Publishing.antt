-- ===== src/Engine/Refine/Publishing.antt =====
-- The effects of publishing lead to worlds that the ghost model allows for their events.
use kawach.Prelude.{
  ◌≡◌, refl, inl, inr, Bool, true, false, Option, none, some, Text, if◌then◌else◌, codes,
}
use kawach.Core.Capability.{CommitToken}
use kawach.Core.Effect.{◌>>=◌}
use kawach.Core.Error.{Result, ok}
use kawach.Core.Model.{PublishedState}
use kawach.Core.Refs.{CredentialHandle, VersionId}
use kawach.Core.Traits.{RotationTarget}
use kawach.Rotation.Journal.{publication_baseline, version_assigned}
use kawach.Rotation.Safety.{Ghost, successors}
use kawach.Rotation.State.{
  RotationState, publishing, RotationEvent, publish_ok, publish_failed, next, pending_step, publish,
  PublishedSide, old,
}
use kawach.Engine.{RotationEngine, Setting, call, journal_append}
use kawach.Engine.Honest.{
  Honest, Reading, Shown, Staged, HasOldVersion, Unchanged, Observed, Written,
}
use kawach.Engine.Perform.{
  hold_version, publish_held, no_value, published_as, on_promote, on_stage, stage_value,
  on_published, take_step,
}
use kawach.Engine.Assertions.{IsSome, ValueOf, PreviousOf, Carries, Landed, Crashed}
use kawach.Engine.Refine.{
  failure-Lands, pure-Lands, Meets-call, Kept, Lands, Lands-after, journal_append-keeps,
  fail_as-Lands, refuse_as-Lands,
}

module _ {Time W : Type 0} {env : Setting Time W} {target : RotationTarget} {reading : Reading W}
    {old_handle : CredentialHandle} (laws : Honest env target reading old_handle)
    (c : CommitToken) where
  abbrev Effects : RotationState → Ghost → RotationEngine W × Result RotationEvent → Type 0
  Effects = Lands laws

  abbrev pub Holds : RotationEngine W → Ghost → Type 0
  Holds e g = reading.Shows e.world g × Carries reading old_handle e.ctx g

  hold_version-Lands :
      (v : VersionId) (e : RotationEngine W) (g : Ghost)
      → Shown reading publish_ok g e.world
      → IsSome reading old_handle e.ctx.previous_version
      → Kept laws g e.ctx
      → Effects publishing g (published_as env target v e)
  unfolding published_as hold_version next successors pending_step
  hold_version-Lands v e g (h, i, w) r k =
      Lands-after laws publishing g h
        (λ x. Kept laws g x × IsSome reading old_handle x.previous_version)
        (journal_append env (version_assigned e.ctx.previous_version v) e)
        (λ m. hold_version env target v) (inr i)
        (journal_append-keeps laws (version_assigned e.ctx.previous_version v) e h
          (λ x. Kept laws g x × IsSome reading old_handle x.previous_version) w (k, r))
        (λ m t w' (k', r').
          pure-Lands laws publishing g publish_ok (hold_version env target v t).0 h (tt, (_, refl))
            i w' r' k')

  on_stage-Lands :
      (v : VersionId) (e : RotationEngine W) (g : Ghost) (b : Bool)
      → reading.IsNewVersion v
      → Staged reading b g e.world
      → IsSome reading old_handle e.ctx.previous_version
      → Kept laws g e.ctx
      → Effects publishing g (
          (if b
              then (call env (env.backend.promote target.reference v c) >>= on_promote env target v)
              else published_as env target v)
            e)
  unfolding on_promote next successors pending_step
  on_stage-Lands v e g false n s r k = hold_version-Lands v e g s r k
  on_stage-Lands v e g true n s r k =
      Meets-call env (env.backend.promote target.reference v c) e (λ a. Shown reading publish_ok g)
        (Shown reading publish_failed g) (Landed reading old_handle publishing g)
        (Crashed reading old_handle publishing g) (on_promote env target v)
        (laws.promote_lands v c e.world g n s)
        (λ u w s'. hold_version-Lands v (record e { world = w }) g s' r k)
        (λ x w s'.
          failure-Lands laws publishing g publish_failed (codes "promote") x
            (record e { world = w }) (tt, (_, refl)) (λ h i. i) s' r k)

  stage_value-Lands :
      (v : Option Text) (e : RotationEngine W) (g : Ghost)
      → ValueOf reading old_handle v
      → IsSome reading old_handle e.ctx.previous_version
      → Holds e g
      → Effects publishing g (stage_value env target c v e)
  unfolding stage_value on_stage next successors pending_step
  stage_value-Lands none e g a r (w, k) =
      refuse_as-Lands laws publishing g publish_failed (codes "publish_without_value") no_value e g
        (tt, (_, refl)) (inl refl) (inl refl) w k
  stage_value-Lands (some v) e g a r (w, (o, n, v', p)) =
      Meets-call env (env.backend.stage target.reference v c)
        (record e { ctx = record e.ctx { new_value = none } })
        (Written reading env.backend.capabilities.atomic_promote g) (Shown reading publish_failed g)
        (Landed reading old_handle publishing g) (Crashed reading old_handle publishing g)
        (on_stage env target c) (laws.stage_lands v c e.world g a w)
        (λ u x (m, s).
          on_stage-Lands u (record e { ctx = record e.ctx { new_value = none }; world = x }) g
            env.backend.capabilities.atomic_promote m s r (o, n, tt, p))
        (λ x u s.
          failure-Lands laws publishing g publish_failed (codes "stage") x
            (record e { ctx = record e.ctx { new_value = none }; world = u }) (tt, (_, refl))
            (λ h i. i) s r (o, n, tt, p))

  baseline :
      (p : Option VersionId) (side : PublishedSide)
      → HasOldVersion reading p
      → IsSome reading old_handle p × PreviousOf reading old_handle p side
  baseline none side h = elim h [ ]
  baseline (some v) side h = (tt, h)

  on_published-Lands :
      (p : PublishedState) (e : RotationEngine W) (g : Ghost)
      → HasOldVersion reading p.current_version
      → Holds e g
      → Effects publishing g (on_published env target c (ok p) e)
  unfolding on_published publish_held next successors pending_step
  on_published-Lands p e g a (w, (o, n, v, b)) =
      let (r, b') = baseline p.current_version g.published a in
      Lands-after laws publishing g g
        (λ x. Kept laws g x × IsSome reading old_handle x.previous_version)
        (journal_append env (publication_baseline p.current_version)
          (record e { ctx = record e.ctx { previous_version = p.current_version } }))
        (λ m. publish_held env target c) (inl refl)
        (journal_append-keeps laws (publication_baseline p.current_version)
          (record e { ctx = record e.ctx { previous_version = p.current_version } }) g
          (λ x. Kept laws g x × IsSome reading old_handle x.previous_version) w ((o, n, v, b'), r))
        (λ m t w' (k', r'). stage_value-Lands t.ctx.new_value t g k'.2 r' (w', k'))

  pub publish-Lands :
      (e : RotationEngine W) (g : Ghost)
      → g.published ≡ old
      → Holds e g
      → Effects publishing g (take_step env target c publish e)
  unfolding take_step on_published next successors pending_step
  publish-Lands e g before (w, k) =
      Meets-call env (env.backend.observe_published target.reference) e
        (Observed reading env.backend.capabilities.versioned g) (Unchanged reading g tt)
        (Landed reading old_handle publishing g) (Crashed reading old_handle publishing g)
        (on_published env target c) (laws.observe_published_keeps e.world g before w)
        (λ p u (a, s). on_published-Lands p (record e { world = u }) g (a laws.is_versioned) (s, k))
        (λ x u s.
          fail_as-Lands laws publishing g publish_failed (codes "observe_published") x
            (record e { world = u }) g (tt, (_, refl)) (inl refl) (inl refl) s k)
