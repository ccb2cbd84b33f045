-- ===== src/Engine/Refine/Observing.antt =====
-- What recovery observes and how it reconciles, against the ghost model.
use kawach.Prelude.{
  ◌≡◌, ◌≢◌, ◌⊎◌, ap, ◌∙◌, codes, arith, inl, inr, refl, sym, subst, Bool-cases, true, false, Option,
  none, some,
}
use kawach.Core.Capability.{CommitToken}
use kawach.Core.Effect.{Meets, Meets-continue, Meets-weaken, pure, ◌>>=◌}
use kawach.Core.Error.{ok}
use kawach.Core.Model.{WorldState, PublishedState, is_live}
use kawach.Core.Refs.{CredentialHandle}
use kawach.Core.Traits.{RotationTarget}
use kawach.Audit.Event.{AuditEvent, rotation_transition}
use kawach.Rotation.Journal.{Record, transition}
use kawach.Rotation.Safety.{Ghost, successors, observation}
use kawach.Rotation.Safety.Reach.{Reach, take_event, then}
use kawach.Rotation.State.{
  RotationState, provisioning, publishing, restoring_publication, reverse_draining, needs_operator,
  old, unknown, PublishedSide, Observation, reconciled, reconcile, next, is_in_flight, name,
}
use kawach.Engine.{RunContext, RotationEngine, Setting, journal_append, audit_append}
use kawach.Engine.Assertions.{NewOf}
use kawach.Engine.Honest.{Honest, Reading}
use kawach.Engine.Recover.{side, live_in, on_shown, on_observed, observe, reconcile_to, resolve}
use kawach.Engine.Refine.{Meets-call, Kept, journal_append-keeps, audit_append-keeps}
use kawach.Engine.Refine.Ending.{Stopped, Stopped-after}

-- What a reconciliation may be told of the publication: the truth, or nothing.
abbrev pub Told : PublishedSide → Ghost → Type 0
Told side g = (side ≡ g.published) ⊎ (side ≡ unknown)

-- The observation of a ghost, with what is told of the publication.
abbrev pub told : PublishedSide → Ghost → Observation
told side g = record { new_live = g.new_live; old_live = g.old_live; published = side }

-- No reconciliation leads into the middle of a publication, and no settled state is one.
reconciles_elsewhere :
    (s : RotationState) (o : Observation) → is_in_flight s ≡ true → reconcile s o ≢ publishing
unfolding reconcile is_in_flight
reconciles_elsewhere provisioning o y b = ground arith
reconciles_elsewhere _ o y b = ground arith

settled_elsewhere : (s : RotationState) → is_in_flight s ≡ false → s ≢ publishing
unfolding is_in_flight
settled_elsewhere s n b = ground arith

-- A reconciliation that is told nothing hands over, or does not ask what is published.
unknown_or_same :
    (s : RotationState) (g : Ghost)
    → (reconcile s (told unknown g) ≡ needs_operator)
      ⊎ (reconcile s (told unknown g) ≡ reconcile s (observation g))
unfolding reconcile observation
unknown_or_same publishing g = inl refl
unknown_or_same restoring_publication g = inl refl
unknown_or_same reverse_draining g = inl refl
unknown_or_same _ g = inr refl

module _ {W : Type 0} (reading : Reading W) where
  abbrev pub Sees : CredentialHandle → Ghost → WorldState → W → Type 0
  Sees old_handle g world w =
      reading.Shows w g
      × (is_live world old_handle ≡ g.old_live)
      × ((k : CredentialHandle) → reading.IsNewHandle k → is_live world k ≡ g.new_live)

  abbrev pub Tells : RunContext → Ghost → PublishedState → W → Type 0
  Tells ctx g p w =
      reading.Shows w g × Told (side p.current_version ctx.written_version ctx.previous_version) g

-- What recovery relies on of the calls that observe: the provider sees which credentials are live, and
-- the version that the backend reports, against those of a context, tells the truth or nothing.
pub record Observing {Time W : Type 0} (env : Setting Time W) (target : RotationTarget)
    (reading : Reading W) (old_handle : CredentialHandle) (ctx : RunContext) : Type 0 where
  pub observe_sees :
      (w : W) (g : Ghost)
      → reading.Shows w g
      → Meets (Sees reading old_handle g) (λ u. reading.Shows u g) (env.provider.observe target w)
  pub observe_published_tells :
      (w : W) (g : Ghost)
      → reading.Shows w g
      → Meets
          (Tells reading ctx g)
          (λ u. reading.Shows u g)
          (env.backend.observe_published target.reference w)

module _ {Time W : Type 0} {env : Setting Time W} {target : RotationTarget} {reading : Reading W}
    {old_handle : CredentialHandle} (laws : Honest env target reading old_handle)
    (c : CommitToken) where
  -- An observation of a ghost, in a world that shows it, with the context kept.
  abbrev Observes : Ghost → Observation → RotationEngine W → Type 0
  Observes g o e =
      (o.new_live ≡ g.new_live)
      × (o.old_live ≡ g.old_live)
      × Told o.published g
      × reading.Shows e.world g
      × Kept laws g e.ctx

  live_in-NewOf :
      (world : WorldState) (o : Option CredentialHandle) (g : Ghost)
      → NewOf reading old_handle o g.new_live g.new_exists
      → ((k : CredentialHandle) → reading.IsNewHandle k → is_live world k ≡ g.new_live)
      → live_in world o ≡ g.new_live
  unfolding live_in
  live_in-NewOf world none g (p, q) f = sym p
  live_in-NewOf world (some k) g n f = f k n

  live_in-old :
      (world : WorldState) (o : Option CredentialHandle) (g : Ghost)
      → o ≡ some old_handle
      → is_live world old_handle ≡ g.old_live
      → live_in world o ≡ g.old_live
  unfolding live_in
  live_in-old world o g p q = rw p q

  on_observed-Observes :
      (world : WorldState) (e : RotationEngine W) (g : Ghost)
      → Observing env target reading old_handle e.ctx
      → Sees reading old_handle g world e.world
      → Kept laws g e.ctx
      → Meets (Observes g) (λ t. reading.Shows t.world g) (on_observed env target (ok world) e)
  unfolding on_observed on_shown
  on_observed-Observes world e g l (w, o, n) k =
      Meets-call env (env.backend.observe_published target.reference) e (Tells reading e.ctx g)
        (λ u. reading.Shows u g) (Observes g) (λ t. reading.Shows t.world g) (on_shown env world)
        (l.observe_published_tells e.world g w)
        (λ p u (w', t). (
          live_in-NewOf world e.ctx.new_handle g k.1 n,
          live_in-old world e.ctx.old_handle g k.0 o,
          t,
          w',
          k,
        ))
        (λ x u w'. w')

  observe-Observes :
      (e : RotationEngine W) (g : Ghost)
      → Observing env target reading old_handle e.ctx
      → reading.Shows e.world g
      → Kept laws g e.ctx
      → Meets (Observes g) (λ t. reading.Shows t.world g) (observe env target e)
  unfolding observe on_observed
  observe-Observes e g l w k =
      Meets-call env (env.provider.observe target) e (Sees reading old_handle g)
        (λ u. reading.Shows u g) (Observes g) (λ t. reading.Shows t.world g)
        (on_observed env target) (l.observe_sees e.world g w)
        (λ world u a. on_observed-Observes world (record e { world = u }) g l a k) (λ x u w'. w')

  -- A state that is reached, or one that hands over from a state that is reached.
  abbrev pub Reaches : RotationState → Ghost → Type 0
  Reaches s g = Reach s g ⊎ ((s ≡ needs_operator) × (t : RotationState) × Reach t g)

  abbrev pub Resolved : RotationState → RotationEngine W → Type 0
  Resolved s e =
      (g : Ghost) × Reaches s g
      × reading.Shows e.world g
      × Kept laws g e.ctx
      × (s ≡ publishing → g.published ≡ old)

  reconcile-Reaches :
      (s : RotationState) (g : Ghost) (o : Observation)
      → Reach s g
      → o.new_live ≡ g.new_live
      → o.old_live ≡ g.old_live
      → Told o.published g
      → Reaches (reconcile s o) g
  unfolding next successors observation
  reconcile-Reaches s g o r p q (inl t) = inl (
      then r (
        take_event (reconciled o) (λ i. record { new_live = p i; old_live = q i; published = t i })
          refl (inl refl)))
  reconcile-Reaches s g o r p q (inr t) =
      let same : o ≡ told unknown g =
        (λ i. record { new_live = p i; old_live = q i; published = t i }) in
      elim (unknown_or_same s g) [
        | inl n ↦ inr (ap (λ x. reconcile s x) same ∙ n, s, r)
        | inr n ↦ inl (
            subst (λ x. Reach x g) (sym (ap (λ x. reconcile s x) same ∙ n))
              (then r (take_event (reconciled (observation g)) refl refl (inl refl))))
      ]

  reconcile_to-Resolved :
      (s : RotationState) (g : Ghost) (o : Observation) (e : RotationEngine W)
      → is_in_flight s ≡ true
      → Reach s g
      → Observes g o e
      → Meets Resolved (Stopped reading) (reconcile_to env s o e)
  unfolding reconcile_to
  reconcile_to-Resolved s g o e y r (p, q, t, w, k) =
      Stopped-after laws Resolved s g (Kept laws g) (journal_append env entry e)
        (λ n. audit_append env event >>= λ m. pure (reconcile s o)) r
        (journal_append-keeps laws entry e g (Kept laws g) w k)
        (λ n u (w', k').
          Stopped-after laws Resolved s g (Kept laws g) (audit_append env event u)
            (λ m. pure (reconcile s o)) r (audit_append-keeps laws event u g (Kept laws g) w' k')
            (λ m v (w'', k''). (
              g,
              reconcile-Reaches s g o r p q t,
              w'',
              k'',
              λ b. absurd (reconciles_elsewhere s o y b),
            )))
    where
      entry : Record
      entry = transition s (reconciled o) (reconcile s o)

      event : AuditEvent
      event = rotation_transition (name s) (codes "Reconciled") (name (reconcile s o))

  pub resolve-Resolved :
      (s : RotationState) (g : Ghost) (e : RotationEngine W)
      → Observing env target reading old_handle e.ctx
      → Reach s g
      → reading.Shows e.world g
      → Kept laws g e.ctx
      → Meets Resolved (Stopped reading) (resolve env target s e)
  unfolding resolve
  resolve-Resolved s g e l r w k = elim (Bool-cases (is_in_flight s)) [
    | inl y ↦ rw y (
        Meets-continue (Observes g) Resolved (Stopped reading) (observe env target e)
          (reconcile_to env s)
          (Meets-weaken (Observes g) (Observes g) (λ t. reading.Shows t.world g) (Stopped reading)
            (observe env target e) (observe-Observes e g l w k) (λ o t x. x)
            (λ t x. (s, (g, r, x))))
          (λ o t x. reconcile_to-Resolved s g o t y r x))
    | inr n ↦ rw n (g, inl r, w, k, λ b. absurd (settled_elsewhere s n b))
  ]
