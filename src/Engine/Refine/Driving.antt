-- ===== src/Engine/Refine/Driving.antt =====
-- The loop of the engine keeps to the nodes that the ghost model can reach.
use kawach.Prelude.{
  ℕ, zero, suc, sym, subst, ◌+◌, ◌<◌, ◌≡◌, refl, ap, ◌∙◌, inl, inr, Bool-cases, true, false, Option,
  none, some, In, arith,
}
use kawach.Core.Capability.{CommitToken}
use kawach.Core.Effect.{Act, Meets, Meets-continue, Meets-weaken, continue, pure, ◌>>=◌}
use kawach.Core.Error.{ok}
use kawach.Core.Refs.{CredentialHandle, VersionId}
use kawach.Core.Traits.{RotationTarget}
use kawach.Audit.Event.{AuditEvent, rotation_transition}
use kawach.Rotation.Journal.{transition, escalation, run_finished}
use kawach.Rotation.Safety.{Ghost, successors}
use kawach.Rotation.Safety.Invariant.{Fits, Reach-Fits}
use kawach.Rotation.Safety.Liveness.{IsPlain, rank, rank-next}
use kawach.Rotation.Safety.Reach.{Reach, Truthful, take_event, crash, then}
use kawach.Rotation.State.{
  RotationState, pending, provisioning, provisioned, verifying, verified, publishing, published,
  draining, drained, revoking, restoring_publication, reverse_draining, revoking_new, completed,
  rolled_back, needs_operator, RotationEvent, start_provision, start_verify, start_publish,
  start_drain, start_revoke, name, event_name, next, pending_step, is_in_flight, is_terminal, old,
  verify, publish, drain, revoke_old, restore_publication, reverse_drain, revoke_new,
}
use kawach.Rotation.State.Hint.{RemediationHint, for_escalation}
use kawach.Engine.{RotationEngine, Setting, journal_append, audit_append}
use kawach.Engine.Assertions.{NewOf, Landed, Crashed, Ended, Strayed}
use kawach.Engine.Drive.{
  start_event, or_illegal, completed_as, outcome_of, record_step, transit, event_at, escalate,
  report, conclude, drive, drive_from,
}
use kawach.Engine.Honest.{Honest, Reading}
use kawach.Engine.Outcome.{RotationOutcome}
use kawach.Engine.Perform.{perform, perform_step, take_step}
use kawach.Engine.Refine.{
  Kept, Ends, Lands-Ends, pure-Lands, journal_append-keeps, audit_append-keeps,
}
use kawach.Engine.Refine.Provisioning.{Holds, provision-Lands, verify-Lands}
use kawach.Engine.Refine.Publishing.{publish-Lands}
use kawach.Engine.Refine.Restoring.{restore-Lands}
use kawach.Engine.Refine.Revoking.{
  drain-Lands, revoke_old-Lands, reverse_drain-Lands, revoke_new-Lands,
}
use kawach.Engine.Refine.Ending.{Stopped, Reports, Stopped-after}
use kawach.Engine.Refine.Drifting.{provisioning-Adrift, Strayed-Adrift}

before_publishing :
    (s : RotationState) (v : RotationEvent) (g h : Ghost)
    → IsPlain v
    → Fits s g
    → next s v ≡ ok publishing
    → In h (successors g v)
    → h.published ≡ old
unfolding next successors
before_publishing pending start_provision g h p f n i = ground arith
before_publishing _ _ g h p f n i = ground arith

truthful : (v : RotationEvent) (g : Ghost) → IsPlain v → Truthful g v
truthful start_provision g p = tt
truthful _ g p = ground arith

module _ {Time W : Type 0} {env : Setting Time W} {target : RotationTarget} {reading : Reading W}
    {old_handle : CredentialHandle} (laws : Honest env target reading old_handle)
    (c : CommitToken) where
  -- What holds at the head of the loop.
  abbrev pub Invariant : RotationState → RotationEngine W → Type 0
  Invariant s e = (g : Ghost) × Reach s g × Holds laws c e g × (s ≡ publishing → g.published ≡ old)

  event_at-Ends :
      (s : RotationState) (e : RotationEngine W) (g : Ghost)
      → is_terminal s ≡ false
      → (s ≡ publishing → g.published ≡ old)
      → Holds laws c e g
      → Ends laws s g (event_at env target c s e)
  unfolding event_at is_in_flight pending_step perform perform_step start_event or_illegal
      is_terminal next successors
  event_at-Ends pending e g n b (w, k) =
      Lands-Ends laws pending g (e, ok start_provision)
        (pure-Lands laws pending g start_provision e g (tt, (_, refl)) (inl refl) w tt k)
  event_at-Ends provisioned e g n b (w, k) =
      Lands-Ends laws provisioned g (e, ok start_verify)
        (pure-Lands laws provisioned g start_verify e g (tt, (_, refl)) (inl refl) w tt k)
  event_at-Ends verified e g n b (w, k) =
      Lands-Ends laws verified g (e, ok start_publish)
        (pure-Lands laws verified g start_publish e g (tt, (_, refl)) (inl refl) w tt k)
  event_at-Ends published e g n b (w, k) =
      Lands-Ends laws published g (e, ok start_drain)
        (pure-Lands laws published g start_drain e g (tt, (_, refl)) (inl refl) w tt k)
  event_at-Ends drained e g n b (w, k) =
      Lands-Ends laws drained g (e, ok start_revoke)
        (pure-Lands laws drained g start_revoke e g (tt, (_, refl)) (inl refl) w tt k)
  event_at-Ends provisioning e g n b a = provision-Lands laws c e g a
  event_at-Ends verifying e g n b a =
      Lands-Ends laws verifying g (take_step env target c verify e) (verify-Lands laws c e g a)
  event_at-Ends publishing e g n b a =
      Lands-Ends laws publishing g (take_step env target c publish e)
        (publish-Lands laws c e g (b refl) a)
  event_at-Ends draining e g n b a =
      Lands-Ends laws draining g (take_step env target c drain e) (drain-Lands laws c e g a)
  event_at-Ends revoking e g n b a =
      Lands-Ends laws revoking g (take_step env target c revoke_old e)
        (revoke_old-Lands laws c e g a)
  event_at-Ends restoring_publication e g n b a =
      Lands-Ends laws restoring_publication g (take_step env target c restore_publication e)
        (restore-Lands laws c e g a)
  event_at-Ends reverse_draining e g n b a =
      Lands-Ends laws reverse_draining g (take_step env target c reverse_drain e)
        (reverse_drain-Lands laws c e g a)
  event_at-Ends revoking_new e g n b a =
      Lands-Ends laws revoking_new g (take_step env target c revoke_new e)
        (revoke_new-Lands laws c e g a)
  event_at-Ends completed e g n b a = absurd cc
  event_at-Ends rolled_back e g n b a = absurd cc
  event_at-Ends needs_operator e g n b a = absurd cc

  escalate-Landed :
      (s : RotationState) (g : Ghost) (v : RotationEvent) (o : Option RemediationHint)
      (from : RotationState) (last : Option RemediationHint) (e : RotationEngine W)
      → Reach s g
      → Landed reading old_handle s g v e
      → Meets
          (λ x. Landed reading old_handle s g v)
          (Stopped reading)
          (escalate env s o from last e)
  unfolding escalate
  escalate-Landed s g v none from last e r a = a
  escalate-Landed s g v (some hint) from last e r (p, (t, n), h, i, w, k) =
      Stopped-after laws (λ x. Landed reading old_handle s g v) t h (Kept laws h)
        (journal_append env (escalation hint) e) (λ m. pure (s, some hint))
        (then r (take_event v (truthful v g p) n i))
        (journal_append-keeps laws (escalation hint) e h (Kept laws h) w k)
        (λ m u (w', k'). (p, (t, n), h, i, w', k'))

  abbrev pub Transited : RotationState → RotationEvent → RotationState → RotationEngine W → Type 0
  Transited s v to e = (next s v ≡ ok to) × Invariant to e

  record_step-Transited :
      (s : RotationState) (v : RotationEvent) (to : RotationState) (h : Ghost)
      (e : RotationEngine W)
      → next s v ≡ ok to
      → Reach to h
      → (to ≡ publishing → h.published ≡ old)
      → Holds laws c e h
      → Meets (Transited s v) (Stopped reading) (record_step env s v to e)
  unfolding record_step
  record_step-Transited s v to h e n r b (w, k) =
      Stopped-after laws (Transited s v) to h (Kept laws h)
        (journal_append env (transition s v to) e) (λ m. audit_append env event >>= λ m'. pure to) r
        (journal_append-keeps laws (transition s v to) e h (Kept laws h) w k)
        (λ m t (w', k').
          Stopped-after laws (Transited s v) to h (Kept laws h) (audit_append env event t)
            (λ m'. pure to) r (audit_append-keeps laws event t h (Kept laws h) w' k')
            (λ m' u a. (n, (h, r, a, b))))
    where
      event : AuditEvent
      event = rotation_transition (name s) (event_name v) (name to)

  pub transit-Transited :
      (s : RotationState) (g : Ghost) (v : RotationEvent) (e : RotationEngine W)
      → Reach s g
      → Landed reading old_handle s g v e
      → Meets (Transited s v) (Stopped reading) (transit env s v e)
  unfolding transit
  transit-Transited s g v e r (p, (t, n), h, i, w, k) = rw n (
      record_step-Transited s v t h e n (then r (take_event v (truthful v g p) n i))
        (λ q. before_publishing s v g h p (Reach-Fits r) (n ∙ ap ok q) i) (w, k))

  completed_as-Reports :
      (o : Option CredentialHandle) (v : Option VersionId) (e : RotationEngine W) (g : Ghost)
      → NewOf reading old_handle o g.new_live g.new_exists
      → Reach completed g
      → reading.Shows e.world g
      → Meets
          (Reports reading)
          (Stopped reading)
          (continue (e, completed_as e.run o v) (λ x. pure (some x)))
  unfolding completed_as
  completed_as-Reports none v e g a r w = (completed, (g, r, w))
  completed_as-Reports (some h) v e g a r w = ((g, r, w), a)

  report-Reports :
      (s from : RotationState) (last : Option RemediationHint) (e : RotationEngine W) (g : Ghost)
      → is_terminal s ≡ true
      → Reach s g
      → Holds laws c e g
      → Meets (Reports reading) (Stopped reading) (report env s from last e)
  unfolding report outcome_of is_terminal
  report-Reports completed from last e g y r (w, k) =
      completed_as-Reports e.ctx.new_handle e.ctx.written_version e g k.1 r w
  report-Reports rolled_back from last e g y r (w, k) = inl (g, r, w)
  report-Reports needs_operator from last e g y r (w, k) = (g, r, w)
  report-Reports _ from last e g y r a = absurd cc

  conclude-Reports :
      (s from : RotationState) (last : Option RemediationHint) (e : RotationEngine W)
      → is_terminal s ≡ true
      → Invariant s e
      → Meets (Reports reading) (Stopped reading) (conclude env s from last e)
  unfolding conclude
  conclude-Reports s from last e y (g, r, (w, k), b) =
      Stopped-after laws (Reports reading) s g (Kept laws g) (journal_append env (run_finished s) e)
        (λ n. report env s from last) r
        (journal_append-keeps laws (run_finished s) e g (Kept laws g) w k)
        (λ n t a. report-Reports s from last t g y r a)

  Stopped-Crashed :
      (s : RotationState) (g : Ghost) (e : RotationEngine W)
      → Reach s g
      → Crashed reading old_handle s g e
      → Stopped reading e
  Stopped-Crashed s g e r (h, i, w) = (s, (h, then r (crash refl i), w))

  drive-Reports :
      (fuel : ℕ) (s from : RotationState) (last : Option RemediationHint) (e : RotationEngine W)
      → rank s < fuel
      → Invariant s e
      → Meets (Reports reading) (Stopped reading) (drive env target c fuel s from last e)
  unfolding drive
  drive-Reports zero s from last e f a = omega (arith, f)
  drive-Reports (suc fuel) s from last e f (g, r, a, b) = elim (Bool-cases (is_terminal s)) [
    | inl y ↦ rw y (conclude-Reports s from last e y (g, r, a, b))
    | inr n ↦ rw n (
        Meets-continue (Ended reading old_handle s g) (Reports reading) (Stopped reading)
          (event_at env target c s e) event_step
          (Meets-weaken (Ended reading old_handle s g) (Ended reading old_handle s g)
            (Crashed reading old_handle s g) (Stopped reading) (event_at env target c s e)
            (event_at-Ends s e g n b a) (λ v t l. l) (λ t x. Stopped-Crashed s g t r x))
          λ v t l. elim l [
            | inl m ↦
                Meets-continue (λ x. Landed reading old_handle s g v) (Reports reading)
                  (Stopped reading) (escalate env s (for_escalation s v) from last t) (step v)
                  (escalate-Landed s g v (for_escalation s v) from last t r m)
                  λ x u k.
                    Meets-continue (Transited s v) (Reports reading) (Stopped reading)
                      (transit env s v u) (λ to. drive env target c fuel to x.0 x.1)
                      (transit-Transited s g v u r k)
                      λ to w q.
                        drive-Reports fuel to x.0 x.1 w (omega (arith, rank-next s v m.0 q.0, f))
                          q.1
            | inr m ↦ strayed v t m
          ])
  ]
    where
      step :
          RotationEvent
          → RotationState × Option RemediationHint
          → Act (RotationEngine W) (Option RotationOutcome)
      step v x = transit env s v >>= λ to. drive env target c fuel to x.0 x.1

      event_step : RotationEvent → Act (RotationEngine W) (Option RotationOutcome)
      event_step v = escalate env s (for_escalation s v) from last >>= step v

      strayed :
          (v : RotationEvent) (t : RotationEngine W)
          → Strayed reading old_handle s g v t
          → Meets (Reports reading) (Stopped reading) (event_step v t)
      strayed v t l =
          subst {A = RotationState × RotationEvent}
            (λ y. Meets (Reports reading) (Stopped reading) (
              continue (escalate env y.0 (for_escalation y.0 y.1) from last t)
                (λ x. transit env y.0 y.1 >>= λ to. drive env target c fuel to x.0 x.1)))
            (λ i. (sym l.0 i, sym l.1 i))
            (provisioning-Adrift laws c fuel from last t
              (omega (arith, subst (λ y. rank y < suc fuel) l.0 f))
              (Strayed-Adrift laws c g s v t r l))

  -- The loop, from a node that a rotation can reach.
  pub drive_from-Reports :
      (s : RotationState) (e : RotationEngine W)
      → Invariant s e
      → Meets (Reports reading) (Stopped reading) (drive_from env target s c e)
  unfolding drive_from
  drive_from-Reports s e a = drive-Reports (rank s + 1) s s none e (omega arith) a
