-- ===== src/Engine/Drive/Ends.antt =====
-- The loop of a run ends: the fuel that `drive` is given never runs out.
use kawach.Prelude.{
  ℕ, ◌+◌, ◌<◌, ◌≡◌, ◌≢◌, suc, zero, Bool-cases, inl, inr, Option, none, some, arith,
}
use kawach.Core.Capability.{CommitToken}
use kawach.Core.Effect.{Gives, Act, Gives-continue, Gives-then, Gives-lift, pure, ◌>>=◌}
use kawach.Core.Error.{Result, ok, err}
use kawach.Core.Traits.{RotationTarget}
use kawach.Rotation.Safety.Liveness.{IsPlain, rank, rank-next}
use kawach.Rotation.State.{
  RotationState, RotationEvent, next, is_terminal, is_in_flight, name, event_name,
}
use kawach.Rotation.State.Hint.{RemediationHint, for_escalation}
use kawach.Engine.{RotationEngine, Setting, audit_append, journal_append}
use kawach.Engine.Outcome.{RotationOutcome}
use kawach.Rotation.Journal.{transition, run_finished}
use kawach.Audit.Event.{AuditEvent, rotation_transition}
use kawach.Engine.Drive.{
  outcome_of, report, record_step, start_event, or_illegal, transit, event_at, escalate, conclude,
  drive, drive_from,
}
use kawach.Engine.Perform.Plain.{Plain, perform-Plain}

abbrev pub IsSome : {A : Type 0} → Option A → Type 0
IsSome none = ⊥
IsSome (some a) = Unit

start_event-IsPlain :
    {W : Type 0} (s : RotationState) (e : RotationEngine W)
    → Gives IsPlain (e, or_illegal s (start_event s))
unfolding or_illegal start_event
start_event-IsPlain RotationState.pending e = tt
start_event-IsPlain _ e = ground arith

module _ {Time W : Type 0} (env : Setting Time W) (target : RotationTarget) where
  event_at-Plain :
      (c : CommitToken) (state : RotationState) (e : RotationEngine W)
      → Plain env target (event_at env target c state e)
  unfolding event_at
  event_at-Plain c state e = elim (Bool-cases (is_in_flight state)) [
    | inl y ↦ rw y (perform-Plain env target c state e)
    | inr n ↦ rw n (start_event-IsPlain state e)
  ]

  record_step-accepted :
      (state : RotationState) (v : RotationEvent) (to : RotationState) (e : RotationEngine W)
      → next state v ≡ ok to
      → Gives (λ t. next state v ≡ ok t) (record_step env state v to e)
  unfolding record_step
  record_step-accepted state v to e n =
      Gives-then (λ t. next state v ≡ ok t) (journal_append env (transition state v to) e)
        (λ k. audit_append env event >>= λ m. pure to)
        λ k s.
          Gives-then (λ t. next state v ≡ ok t) (audit_append env event s) (λ m. pure to) (λ m u. n)
    where
      event : AuditEvent
      event = rotation_transition (name state) (event_name v) (name to)

  transit-accepted :
      (state : RotationState) (v : RotationEvent) (e : RotationEngine W)
      → Gives (λ to. next state v ≡ ok to) (transit env state v e)
  unfolding transit
  transit-accepted state v e =
      Gives-continue (λ to. next state v ≡ ok to) (λ to. next state v ≡ ok to) (e, next state v)
        (record_step env state v) (Gives-lift e (next state v)) (record_step-accepted state v)

  report-IsSome :
      (state from : RotationState) (last : Option RemediationHint) (e : RotationEngine W)
      → Gives IsSome (report env state from last e)
  unfolding report
  report-IsSome state from last e =
      Gives-then IsSome (e, outcome_of e.run e.ctx state from last) (λ o. pure (some o)) (λ o s. tt)

  conclude-IsSome :
      (state from : RotationState) (last : Option RemediationHint) (e : RotationEngine W)
      → Gives IsSome (conclude env state from last e)
  unfolding conclude
  conclude-IsSome state from last e =
      Gives-then IsSome (journal_append env (run_finished state) e)
        (λ n. report env state from last) (λ n. report-IsSome state from last)

  drive-IsSome :
      (c : CommitToken) (fuel : ℕ) (state from : RotationState) (last : Option RemediationHint)
      (e : RotationEngine W)
      → rank state < fuel
      → Gives IsSome (drive env target c fuel state from last e)
  unfolding drive
  drive-IsSome c zero state from last e h = omega (arith, h)
  drive-IsSome c (suc fuel) state from last e h = elim (Bool-cases (is_terminal state)) [
    | inl y ↦ rw y (conclude-IsSome state from last e)
    | inr n ↦ rw n (
        Gives-continue IsPlain IsSome (event_at env target c state e) event_step
          (event_at-Plain c state e)
          λ v s p.
            Gives-then IsSome (escalate env state (for_escalation state v) from last s) (step v)
              λ x t.
                Gives-continue (λ to. next state v ≡ ok to) IsSome (transit env state v t)
                  (λ to. drive env target c fuel to x.0 x.1) (transit-accepted state v t)
                  λ to u a.
                    drive-IsSome c fuel to x.0 x.1 u (omega (arith, rank-next state v p a, h)))
  ]
    where
      step :
          RotationEvent
          → RotationState × Option RemediationHint
          → Act (RotationEngine W) (Option RotationOutcome)
      step v x = transit env state v >>= λ to. drive env target c fuel to x.0 x.1

      event_step : RotationEvent → Act (RotationEngine W) (Option RotationOutcome)
      event_step v = escalate env state (for_escalation state v) from last >>= step v

  pub drive_from-IsSome :
      (state : RotationState) (c : CommitToken) (e : RotationEngine W)
      → Gives IsSome (drive_from env target state c e)
  unfolding drive_from
  drive_from-IsSome state c e = drive-IsSome c (rank state + 1) state state none e (omega arith)

-- A run that gives a result has not run out of fuel.
pub never_none :
    {W A : Type 0} (r : RotationEngine W × Result (Option A)) → Gives IsSome r → r.1 ≢ ok none
never_none (e, ok none) g = elim g [ ]
never_none (e, ok (some a)) g = cc
never_none (e, err x) g = cc
