-- ===== src/Engine/Journalled/Run.antt =====
-- What a run of the engine leaves in its journal: the loop, the plan of a dry run and the whole of
-- `execute`.
use kawach.Prelude.{
  ℕ, zero, suc, ◌+◌, ◌≡◌, refl, sym, Bool-cases, true, inl, inr, Option, none, some,
}
use kawach.Core.Capability.{
  CommitToken, ExecutionMode, dry_run, apply, commit_token, commit_token_minted,
}
use kawach.Core.Effect.{continue, pure}
use kawach.Core.Error.{ok}
use kawach.Core.Refs.{CredentialHandle, RunId, VersionId}
use kawach.Core.Traits.{RotationTarget}
use kawach.Rotation.Journal.{transition, escalation, run_finished, fresh}
use kawach.Rotation.Safety.Liveness.{rank}
use kawach.Rotation.State.{
  RotationState, start, pending, rolled_back, needs_operator, RotationEvent, next, is_terminal,
  is_in_flight,
}
use kawach.Rotation.State
use kawach.Rotation.State.Hint.{RemediationHint, for_escalation}
use kawach.Engine.{context_for, RotationEngine, Setting, anchor, call}
use kawach.Engine.Drive.{
  start_event, or_illegal, completed_as, outcome_of, record_step, transit, event_at, escalate,
  report, conclude, drive, drive_from,
}
use kawach.Engine.Journalled.{
  View, Replays, Notes, Keeps, Keeps-then, Keeps-lift, audit_append-Keeps, anchor-Keeps,
  journal_append-opens, journal_append-Keeps,
}
use kawach.Engine.Journalled.Steps.{InStep, perform-Stays}
use kawach.Engine.Outcome.{RotationOutcome}
use kawach.Engine.Outcome
use kawach.Engine.Plan.{plan}
use kawach.Engine.Run.{planned, execute_with, under_token, execute}

-- What a journal says of a run that gave an outcome: the state that the outcome names, and of a
-- completed run the new credential and the version that consumers read.
abbrev pub Told :
    Option RotationOutcome → RotationState → Option CredentialHandle → Option VersionId → Type 0
Told none state handle written = Unit
Told (some (Outcome.dry_run p)) state handle written =
    (state ≡ pending) × (handle ≡ none) × (written ≡ none)
Told (some (Outcome.completed r h v)) state handle written =
    (state ≡ State.completed) × (handle ≡ some h) × (written ≡ v)
Told (some (Outcome.rolled_back r reason)) state handle written = state ≡ rolled_back
Told (some (Outcome.needs_operator r s h)) state handle written = state ≡ needs_operator

abbrev pub Tells : Option RotationOutcome → View
Tells o state handle previous written ctx = Told o state handle written

-- The journal of a run that has only been announced.
abbrev Announced : View
Announced state handle previous written ctx =
    (state ≡ pending) × (handle ≡ none) × (previous ≡ none) × (written ≡ none)

module _ {Time W : Type 0} (env : Setting Time W) (run : RunId) (target : RotationTarget) where
  record_step-Keeps :
      (s : RotationState) (v : RotationEvent) (to : RotationState) (e : RotationEngine W)
      → Notes env run (InStep s) e
      → Keeps env run InStep (record_step env s v to e)
  unfolding record_step
  record_step-Keeps s v to e i =
      Keeps-then env run (λ n. InStep to) InStep _ _
        (journal_append-Keeps env run (InStep s) (InStep to) (transition s v to) e
          (λ p said. (sym said.0, (refl, said.1, said.2, said.3))) i)
        (λ n t k.
          Keeps-then env run (λ m. InStep to) InStep _ _
            (audit_append-Keeps env run (InStep to) _ t k) (λ m u l. l))

  transit-Keeps :
      (s : RotationState) (v : RotationEvent) (e : RotationEngine W)
      → Notes env run (InStep s) e
      → Keeps env run InStep (transit env s v e)
  unfolding transit
  transit-Keeps s v e i =
      Keeps-then env run (λ to. InStep s) InStep (e, next s v) (record_step env s v)
        (Keeps-lift env run (InStep s) e (next s v) i) (λ to t k. record_step-Keeps s v to t k)

  event_at-Keeps :
      (c : CommitToken) (s : RotationState) (e : RotationEngine W)
      → Notes env run (InStep s) e
      → Keeps env run (λ v. InStep s) (event_at env target c s e)
  unfolding event_at
  event_at-Keeps c s e i = elim (Bool-cases (is_in_flight s)) [
    | inl y ↦ rw y (perform-Stays env run target s c s e i)
    | inr n ↦ rw n (Keeps-lift env run (InStep s) e (or_illegal s (start_event s)) i)
  ]

  escalate-Keeps :
      (s : RotationState) (o : Option RemediationHint) (from : RotationState)
      (last : Option RemediationHint) (e : RotationEngine W)
      → Notes env run (InStep s) e
      → Keeps env run (λ x. InStep s) (escalate env s o from last e)
  unfolding escalate
  escalate-Keeps s none from last e i = i
  escalate-Keeps s (some hint) from last e i =
      Keeps-then env run (λ n. InStep s) (λ x. InStep s) _ _
        (journal_append-Keeps env run (InStep s) (InStep s) (escalation hint) e
          (λ p said. (tt, said)) i)
        (λ n t k. k)

  completed_as-Tells :
      (o : Option CredentialHandle) (v : Option VersionId) (e : RotationEngine W)
      → Notes env run
          (λ state handle previous written ctx.
            (state ≡ State.completed) × (handle ≡ o) × (written ≡ v))
          e
      → Keeps env run Tells (continue (e, completed_as e.run o v) (λ x t. (t, ok (some x))))
  unfolding completed_as
  completed_as-Tells none v e i = tt
  completed_as-Tells (some h) v e i = i

  report-Tells :
      (s from : RotationState) (last : Option RemediationHint) (e : RotationEngine W)
      → is_terminal s ≡ true
      → Notes env run (InStep s) e
      → Keeps env run Tells (report env s from last e)
  unfolding report outcome_of is_terminal
  report-Tells State.completed from last e y (p, a, b, said) =
      completed_as-Tells e.ctx.new_handle e.ctx.written_version e
        (p, a, b, (said.0, said.1, said.3))
  report-Tells rolled_back from last e y (p, a, b, said) = (p, a, b, said.0)
  report-Tells needs_operator from last e y (p, a, b, said) = (p, a, b, said.0)
  report-Tells _ from last e y i = absurd cc

  conclude-Tells :
      (s from : RotationState) (last : Option RemediationHint) (e : RotationEngine W)
      → is_terminal s ≡ true
      → Notes env run (InStep s) e
      → Keeps env run Tells (conclude env s from last e)
  unfolding conclude
  conclude-Tells s from last e y i =
      Keeps-then env run (λ n. InStep s) Tells _ _
        (journal_append-Keeps env run (InStep s) (InStep s) (run_finished s) e
          (λ p said. (sym said.0, said)) i)
        (λ n t k. report-Tells s from last t y k)

  drive-Tells :
      (c : CommitToken) (fuel : ℕ) (s from : RotationState) (last : Option RemediationHint)
      (e : RotationEngine W)
      → Notes env run (InStep s) e
      → Keeps env run Tells (drive env target c fuel s from last e)
  unfolding drive
  drive-Tells c zero s from last e (p, a, b, said) = (p, a, b, tt)
  drive-Tells c (suc fuel) s from last e i = elim (Bool-cases (is_terminal s)) [
    | inl y ↦ rw y (conclude-Tells s from last e y i)
    | inr n ↦ rw n (
        Keeps-then env run (λ v. InStep s) Tells _ _ (event_at-Keeps c s e i)
          λ v t k.
            Keeps-then env run (λ x. InStep s) Tells _ _
              (escalate-Keeps s (for_escalation s v) from last t k)
              λ x u l.
                Keeps-then env run InStep Tells _ _ (transit-Keeps s v u l)
                  λ to w m. drive-Tells c fuel to x.0 x.1 w m)
  ]

  drive_from-Tells :
      (s : RotationState) (c : CommitToken) (e : RotationEngine W)
      → Notes env run (InStep s) e
      → Keeps env run Tells (drive_from env target s c e)
  unfolding drive_from
  drive_from-Tells s c e i = drive-Tells c (rank s + 1) s s none e i

  plan-Keeps :
      (e : RotationEngine W)
      → Notes env run Announced e
      → Keeps env run (λ p. Announced) (plan env target e)
  unfolding plan call
  plan-Keeps e i = i

  planned-Tells :
      (e : RotationEngine W)
      → Notes env run Announced e
      → Keeps env run Tells (planned env target e)
  unfolding planned
  planned-Tells e i =
      Keeps-then env run (λ p. Announced) Tells (plan env target e)
        (λ p. pure (some (Outcome.dry_run p))) (plan-Keeps e i)
        (λ p t (q, a, b, said). (q, a, b, (said.0, said.1, said.3)))

  execute_with-Tells :
      (o : Option CommitToken) (e : RotationEngine W)
      → Notes env run Announced e
      → Keeps env run Tells (execute_with env target o e)
  unfolding execute_with
  execute_with-Tells none e i = planned-Tells e i
  execute_with-Tells (some c) e i =
      drive_from-Tells start c (record e { ctx = context_for target }) i

  commit_token-Keeps :
      (mode : ExecutionMode) (r : RunId) (e : RotationEngine W)
      → Notes env run Announced e
      → Keeps env run (λ o. Announced) (commit_token (anchor env) mode r e)
  unfolding commit_token
  commit_token-Keeps dry_run r e i = i
  commit_token-Keeps (apply k) r e i =
      Keeps-then env run (λ n. Announced) (λ o. Announced) (anchor env (commit_token_minted r k) e)
        (λ n. pure (some (record { run = r; minted_at = n })))
        (anchor-Keeps env run Announced (commit_token_minted r k) e i) (λ n t l. l)

  under_token-Tells :
      (mode : ExecutionMode) (e : RotationEngine W)
      → Notes env run Announced e
      → Keeps env run Tells (under_token env target mode e)
  unfolding under_token
  under_token-Tells mode e i =
      Keeps-then env run (λ o. Announced) Tells (commit_token (anchor env) mode e.run e)
        (execute_with env target) (commit_token-Keeps mode e.run e i) execute_with-Tells

  pub execute-Tells :
      (mode : ExecutionMode) (e : RotationEngine W)
      → Replays env run e.journal fresh
      → Keeps env run Tells (execute env target mode e)
  unfolding execute
  execute-Tells mode e replays =
      Keeps-then env run (λ n. Announced) Tells _ _
        (journal_append-opens env run Announced _ e fresh (tt, (refl, refl, refl, refl)) replays)
        (λ n t k. under_token-Tells mode t k)
