-- ===== src/Engine/Refine.antt =====
-- The engine refines the ghost model: what journalling, auditing and noting keep of the assertions.
pub mod Provisioning
pub mod Publishing
pub mod Revoking
pub mod Restoring
pub mod Ending
pub mod Drifting
pub mod Driving
pub mod Executing
pub mod Observing
pub mod Recovering
use kawach.Prelude.{
  ◌≡◌, refl, sym, subst, inl, inr, Bool, true, false, List, [], ◌∷◌, Option, none, some, In, Text,
  ◌++◌, codes,
}
use kawach.Core.Capability.{CommitToken, CoreAuditEvent}
use kawach.Core.Display.{error_text}
use kawach.Core.Effect.{Act, Meets, Meets-continue, Meets-weaken, continue, pure}
use kawach.Core.Error.{KawachError, Result, ok, err}
use kawach.Core.Refs.{CredentialHandle, VersionId}
use kawach.Core.Traits.{RotationTarget}
use kawach.Audit.Event.{AuditEvent, policy_refusal}
use kawach.Rotation.Journal.{Record}
use kawach.Rotation.Safety.{Ghost, successors}
use kawach.Rotation.Safety.Liveness.{IsPlain}
use kawach.Rotation.Safety.Reach.{Reach, after_crash}
use kawach.Rotation.State.{
  RotationState, provisioning, RotationEvent, provision_ok, provision_failed, publish_ok,
  publish_failed, revoke_failed, restore_ok, restore_failed, revoke_new_ok, revoke_new_failed,
  PublishedSide, old, new, next, pending_step,
}
use kawach.Engine.{
  RunContext, RotationEngine, Setting, call, anchor, audit_append, journal_append, note_failure,
  note_refusal,
}
use kawach.Engine.Honest.{Honest, Reading, Shown}
use kawach.Engine.Perform.{fail_as, refuse_as}
use kawach.Engine.Assertions.{
  Prepared, Carries, Carries-successors, Landed, Crashed, Ended, Loose, IsSome,
}

-- Whatever the result is, what holds of the state it comes with.
Meets-state :
    {S A : Type 0} (P : A → S → Type 0) (E : S → Type 0) (r : S × Result A)
    → ((a : A) → P a r.0)
    → E r.0
    → Meets P E r
Meets-state P E (s, ok a) p d = p a
Meets-state P E (s, err x) p d = d

module _ {Time W : Type 0} (env : Setting Time W) where
  Meets-world :
      {A B : Type 0} (e : RotationEngine W) (P : A → W → Type 0) (E : W → Type 0)
      (Q : B → RotationEngine W → Type 0) (D : RotationEngine W → Type 0)
      (k : Result A → Act (RotationEngine W) B) (r : W × Result A)
      → Meets P E r
      → ((a : A) (w : W) → P a w → Meets Q D (k (ok a) (record e { world = w })))
      → ((x : KawachError) (w : W) → E w → Meets Q D (k (err x) (record e { world = w })))
      → Meets Q D (k r.1 (record e { world = r.0 }))
  Meets-world e P E Q D k (w, ok a) h f g = f a w h
  Meets-world e P E Q D k (w, err x) h f g = g x w h

  -- A call of the provider or the backend, and what is done with its result.
  pub Meets-call :
      {A B : Type 0} (m : Act W A) (e : RotationEngine W) (P : A → W → Type 0) (E : W → Type 0)
      (Q : B → RotationEngine W → Type 0) (D : RotationEngine W → Type 0)
      (k : Result A → Act (RotationEngine W) B)
      → Meets P E (m e.world)
      → ((a : A) (w : W) → P a w → Meets Q D (k (ok a) (record e { world = w })))
      → ((x : KawachError) (w : W) → E w → Meets Q D (k (err x) (record e { world = w })))
      → Meets Q D (continue (call env m e) k)
  unfolding call
  Meets-call m e P E Q D k h f g = Meets-world e P E Q D k (m e.world) h f g

module _ {Time W : Type 0} {env : Setting Time W} {target : RotationTarget} {reading : Reading W}
    {old_handle : CredentialHandle} (laws : Honest env target reading old_handle) where
  -- The world shows a ghost, and the context is what it was.
  abbrev pub Still : {A : Type 0} → Ghost → (RunContext → Type 0) → A → RotationEngine W → Type 0
  Still h C a e = reading.Shows e.world h × C e.ctx

  abbrev pub Seen : Ghost → RotationEngine W → Type 0
  Seen h e = reading.Shows e.world h

  pub journal_append-keeps :
      (r : Record) (e : RotationEngine W) (h : Ghost) (C : RunContext → Type 0)
      → reading.Shows e.world h
      → C e.ctx
      → Meets (Still h C) (Seen h) (journal_append env r e)
  unfolding journal_append
  journal_append-keeps r e h C s c =
      Meets-state (Still h C) (Seen h) (journal_append env r e)
        (λ n. (laws.journal_keeps e.world h s, c)) (laws.journal_keeps e.world h s)

  pub audit_append-keeps :
      (v : AuditEvent) (e : RotationEngine W) (h : Ghost) (C : RunContext → Type 0)
      → reading.Shows e.world h
      → C e.ctx
      → Meets (Still h C) (Seen h) (audit_append env v e)
  unfolding audit_append
  audit_append-keeps v e h C s c =
      Meets-state (Still h C) (Seen h) (audit_append env v e)
        (λ n. (laws.audit_keeps e.world h s, c)) (laws.audit_keeps e.world h s)

  pub anchor-keeps :
      (v : CoreAuditEvent) (e : RotationEngine W) (h : Ghost) (C : RunContext → Type 0)
      → reading.Shows e.world h
      → C e.ctx
      → Meets (Still h C) (Seen h) (anchor env v e)
  unfolding anchor
  anchor-keeps v e h C s c =
      Meets-state (Still h C) (Seen h) (anchor env v e) (λ n. (laws.audit_keeps e.world h s, c))
        (laws.audit_keeps e.world h s)

  abbrev pub Kept : Ghost → RunContext → Type 0
  Kept h c = Carries reading old_handle c h

  pub noted_with :
      (C : RunContext → Type 0) (v : AuditEvent) (e : RotationEngine W) (h : Ghost)
      → reading.Shows e.world h
      → C e.ctx
      → Meets (Still h C) (Seen h) (continue (audit_append env v e) (λ n. pure tt))
  noted_with C v e h s c =
      Meets-continue (Still h C) (Still h C) (Seen h) (audit_append env v e) (λ n. pure tt)
        (audit_append-keeps v e h C s c) (λ n t p. p)

  pub noted :
      (v : AuditEvent) (e : RotationEngine W) (h : Ghost)
      → reading.Shows e.world h
      → Kept h e.ctx
      → Meets (Still h (Kept h)) (Seen h) (continue (audit_append env v e) (λ n. pure tt))
  noted v e h s c = noted_with (Kept h) v e h s c

  -- What the effect of a state must meet.
  abbrev pub Lands : RotationState → Ghost → RotationEngine W × Result RotationEvent → Type 0
  Lands s g r = Meets (Landed reading old_handle s g) (Crashed reading old_handle s g) r

  abbrev pub Ends : RotationState → Ghost → RotationEngine W × Result RotationEvent → Type 0
  Ends s g r = Meets (Ended reading old_handle s g) (Crashed reading old_handle s g) r

  pub Lands-Ends :
      (s : RotationState) (g : Ghost) (r : RotationEngine W × Result RotationEvent)
      → Lands s g r
      → Ends s g r
  Lands-Ends s g r h =
      Meets-weaken (Landed reading old_handle s g) (Ended reading old_handle s g)
        (Crashed reading old_handle s g) (Crashed reading old_handle s g) r h (λ v t l. inl l)
        (λ t x. x)

  -- A record is written in the middle of the effect of a state.
  pub Lands-after :
      {A : Type 0} (s : RotationState) (g h : Ghost) (C : RunContext → Type 0)
      (r : RotationEngine W × Result A) (k : A → Act (RotationEngine W) RotationEvent)
      → In h (after_crash (pending_step s) g)
      → Meets (Still h C) (Seen h) r
      → ((a : A) (t : RotationEngine W) → reading.Shows t.world h → C t.ctx → Lands s g (k a t))
      → Lands s g (continue r k)
  Lands-after s g h C (t, ok a) k j m rest = rest a t m.0 m.1
  Lands-after s g h C (t, err x) k j m rest = (h, j, m)

  Ends-after :
      {A : Type 0} (s : RotationState) (g h : Ghost) (C : RunContext → Type 0)
      (r : RotationEngine W × Result A) (k : A → Act (RotationEngine W) RotationEvent)
      → In h (after_crash (pending_step s) g)
      → Meets (Still h C) (Seen h) r
      → ((a : A) (t : RotationEngine W) → reading.Shows t.world h → C t.ctx → Ends s g (k a t))
      → Ends s g (continue r k)
  Ends-after s g h C (t, ok a) k j m rest = rest a t m.0 m.1
  Ends-after s g h C (t, err x) k j m rest = (h, j, m)

  -- A failure, and a refusal, that the machine accepts in a world that it allows.
  pub fail_as-Lands :
      (s : RotationState) (g : Ghost) (v : RotationEvent) (o : Text) (x : KawachError)
      (e : RotationEngine W) (h : Ghost)
      → IsPlain v × ((t : RotationState) × (next s v ≡ ok t))
      → In h (successors g v)
      → In h (after_crash (pending_step s) g)
      → reading.Shows e.world h
      → Kept h e.ctx
      → Lands s g (fail_as env target v o x e)
  unfolding fail_as note_failure
  fail_as-Lands s g v o x e h (p, a) i j w c =
      Lands-after s g h (Kept h) (note_failure env o x e) (λ u. pure v) j
        (noted (policy_refusal (o ++ codes "_failed") detail)
          (record e { ctx = record e.ctx { failure_reason = some detail } }) h w c)
        (λ u t w' c'. (p, a, h, i, w', c'))
    where
      detail : Text
      detail = o ++ (codes " failed: " ++ error_text env.scrub x)

  pub refuse_as-Lands :
      (s : RotationState) (g : Ghost) (v : RotationEvent) (code detail : Text)
      (e : RotationEngine W) (h : Ghost)
      → IsPlain v × ((t : RotationState) × (next s v ≡ ok t))
      → In h (successors g v)
      → In h (after_crash (pending_step s) g)
      → reading.Shows e.world h
      → Kept h e.ctx
      → Lands s g (refuse_as env target v code detail e)
  unfolding refuse_as note_refusal
  refuse_as-Lands s g v code detail e h (p, a) i j w c =
      Lands-after s g h (Kept h) (note_refusal env code detail e) (λ u. pure v) j
        (noted (policy_refusal code detail)
          (record e { ctx = record e.ctx { failure_reason = some detail } }) h w c)
        (λ u t w' c'. (p, a, h, i, w', c'))

  -- The effect has landed with an event that the machine accepts and the context is prepared for.
  pub pure-Lands :
      (s : RotationState) (g : Ghost) (v : RotationEvent) (e : RotationEngine W) (h : Ghost)
      → IsPlain v × ((t : RotationState) × (next s v ≡ ok t))
      → In h (successors g v)
      → reading.Shows e.world h
      → Prepared reading old_handle v e.ctx
      → Kept g e.ctx
      → Lands s g (e, ok v)
  pure-Lands s g v e h (p, a) i w r c =
      (p, a, h, i, w, Carries-successors reading old_handle v e.ctx g h i r c)

  -- A call has failed, in one of the worlds that its failure leads to.
  pub failure-Lands :
      (s : RotationState) (g : Ghost) (v : RotationEvent) (o : Text) (x : KawachError)
      (e : RotationEngine W)
      → IsPlain v × ((t : RotationState) × (next s v ≡ ok t))
      → ((h : Ghost) → In h (successors g v) → In h (after_crash (pending_step s) g))
      → Shown reading v g e.world
      → Prepared reading old_handle v e.ctx
      → Kept g e.ctx
      → Lands s g (fail_as env target v o x e)
  failure-Lands s g v o x e a j (h, i, w) r c =
      fail_as-Lands s g v o x e h a i (j h i) w
        (Carries-successors reading old_handle v e.ctx g h i r c)

  -- A provisioning that failed, without a handle of what there may be.
  fail_as-Strayed :
      (g h : Ghost) (x : KawachError) (e : RotationEngine W)
      → In h (successors g provision_failed)
      → reading.Shows e.world h
      → e.ctx.new_handle ≡ none
      → Ends provisioning g (fail_as env target provision_failed (codes "provision") x e)
  unfolding fail_as note_failure successors pending_step
  fail_as-Strayed g h x e i w n =
      Ends-after provisioning g h Loose (note_failure env (codes "provision") x e)
        (λ u. pure provision_failed) i
        (noted_with Loose (policy_refusal (codes "provision_failed") detail)
          (record e { ctx = record e.ctx { failure_reason = some detail } }) h w
          (n, (error_text env.scrub x, refl)))
        (λ u t w' l. inr (refl, refl, h, i, w', l))
    where
      detail : Text
      detail = codes "provision" ++ (codes " failed: " ++ error_text env.scrub x)

  -- A provisioning that fails has ended, in whichever world it leaves.
  pub provision_failed-Ends :
      (g : Ghost) (x : KawachError) (e : RotationEngine W)
      → Shown reading provision_failed g e.world
      → Kept g e.ctx
      → Ends provisioning g (fail_as env target provision_failed (codes "provision") x e)
  unfolding next successors pending_step
  provision_failed-Ends g x e (h, i, w) k = by_handle e.ctx.new_handle refl
    where
      by_handle :
          (o : Option CredentialHandle)
          → e.ctx.new_handle ≡ o
          → Ends provisioning g (fail_as env target provision_failed (codes "provision") x e)
      by_handle none p = fail_as-Strayed g h x e i w p
      by_handle (some a) p =
          Lands-Ends provisioning g (fail_as env target provision_failed (codes "provision") x e) (
            failure-Lands provisioning g provision_failed (codes "provision") x e (tt, (_, refl))
              (λ h i. i) (h, i, w) (subst (IsSome reading old_handle) (sym p) tt) k)
