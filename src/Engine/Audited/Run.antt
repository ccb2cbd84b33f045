-- ===== src/Engine/Audited/Run.antt =====
-- A run that acts has left the record of its token in the audit log.
use kawach.Prelude.{
  ℕ, zero, suc, ◌+◌, ◌≡◌, refl, sym, subst, ◌⊎◌, inl, inr, Bool-cases, Option, none, some,
}
use kawach.Core.Capability.{CommitToken, Confirmation, apply, commit_token, commit_token_minted}
use kawach.Core.Effect.{Act, continue, pure}
use kawach.Core.Error.{Result, ok, err}
use kawach.Core.Refs.{RunId, display}
use kawach.Core.Traits.{RotationTarget, RotationProvider, SecretBackend}
use kawach.Audit.Event.{rotation_transition, run_of, from_core}
use kawach.Audit.Event
use kawach.Audit.Log.{AuditLog, actor_for, record_event}
use kawach.Audit.Log.Grows.{Grows-refl, Records, Records-Grows, append_as-Records}
use kawach.Rotation.Journal.{transition, escalation, run_finished, run_started}
use kawach.Rotation.Safety.Liveness.{rank}
use kawach.Rotation.State.{
  RotationState, start, RotationEvent, name, event_name, next, is_terminal, is_in_flight,
}
use kawach.Rotation.State.Hint.{RemediationHint, for_escalation}
use kawach.Engine.{context_for, RotationEngine, Setting, anchor, journal_append}
use kawach.Engine.Audited.{
  Holds, Keeps, Keeps-then, Keeps-state, audit_append-Keeps, journal_append-Keeps,
}
use kawach.Engine.Audited.Steps.{perform-Stays}
use kawach.Engine.Drive.{
  start_event, or_illegal, outcome_of, record_step, transit, event_at, escalate, report, conclude,
  drive, drive_from,
}
use kawach.Engine.Run.{execute_with, under_token, mode_name, execute}

module _ {Time W : Type 0} (env : Setting Time W) (base : AuditLog) (target : RotationTarget) where
  record_step-Keeps :
      (s : RotationState) (v : RotationEvent) (to : RotationState) (e : RotationEngine W)
      → Holds env base e
      → Keeps env base (record_step env s v to e)
  unfolding record_step
  record_step-Keeps s v to e i =
      Keeps-then env base _ _ (journal_append-Keeps env base (transition s v to) e i) (λ n t k.
        Keeps-then env base _ _
          (audit_append-Keeps env base (rotation_transition (name s) (event_name v) (name to)) t k)
          (λ m u l. l))

  transit-Keeps :
      (s : RotationState) (v : RotationEvent) (e : RotationEngine W)
      → Holds env base e
      → Keeps env base (transit env s v e)
  unfolding transit
  transit-Keeps s v e i =
      Keeps-then env base (e, next s v) (record_step env s v) (Keeps-state env base (e, next s v) i)
        (λ to t k. record_step-Keeps s v to t k)

  event_at-Keeps :
      (c : CommitToken) (s : RotationState) (e : RotationEngine W)
      → Holds env base e
      → Keeps env base (event_at env target c s e)
  unfolding event_at
  event_at-Keeps c s e i = elim (Bool-cases (is_in_flight s)) [
    | inl y ↦ rw y (perform-Stays env base target c s e i)
    | inr n ↦ rw n (Keeps-state env base (e, or_illegal s (start_event s)) i)
  ]

  escalate-Keeps :
      (s : RotationState) (o : Option RemediationHint) (from : RotationState)
      (last : Option RemediationHint) (e : RotationEngine W)
      → Holds env base e
      → Keeps env base (escalate env s o from last e)
  unfolding escalate
  escalate-Keeps s none from last e i = i
  escalate-Keeps s (some hint) from last e i =
      Keeps-then env base _ _ (journal_append-Keeps env base (escalation hint) e i) (λ n t k. k)

  conclude-Keeps :
      (s from : RotationState) (last : Option RemediationHint) (e : RotationEngine W)
      → Holds env base e
      → Keeps env base (conclude env s from last e)
  unfolding conclude report
  conclude-Keeps s from last e i =
      Keeps-then env base _ _ (journal_append-Keeps env base (run_finished s) e i) (λ n t k.
        Keeps-then env base (t, outcome_of t.run t.ctx s from last) (λ o. pure (some o))
          (Keeps-state env base (t, outcome_of t.run t.ctx s from last) k) (λ o u l. l))

  drive-Keeps :
      (c : CommitToken) (fuel : ℕ) (s from : RotationState) (last : Option RemediationHint)
      (e : RotationEngine W)
      → Holds env base e
      → Keeps env base (drive env target c fuel s from last e)
  unfolding drive
  drive-Keeps c zero s from last e i = i
  drive-Keeps c (suc fuel) s from last e i = elim (Bool-cases (is_terminal s)) [
    | inl y ↦ rw y (conclude-Keeps s from last e i)
    | inr n ↦ rw n (
        Keeps-then env base _ _ (event_at-Keeps c s e i) λ v t k.
          Keeps-then env base _ _ (escalate-Keeps s (for_escalation s v) from last t k) λ x u l.
            Keeps-then env base _ _ (transit-Keeps s v u l)
              λ to w m. drive-Keeps c fuel to x.0 x.1 w m)
  ]

  drive_from-Keeps :
      (s : RotationState) (c : CommitToken) (e : RotationEngine W)
      → Holds env base e
      → Keeps env base (drive_from env target s c e)
  unfolding drive_from
  drive_from-Keeps s c e i = drive-Keeps c (rank s + 1) s s none e i

  execute_with-Keeps :
      (c : CommitToken) (e : RotationEngine W)
      → Holds env base e
      → Keeps env base (execute_with env target (some c) e)
  unfolding execute_with
  execute_with-Keeps c e i = drive_from-Keeps start c (record e { ctx = context_for target }) i

  kept : {A : Type 0} (r : RotationEngine W × Result A) → Keeps env base r → Holds env base r.0
  kept (e, ok a) h = h
  kept (e, err x) h = h

module _ {Time W : Type 0} (env : Setting Time W) (target : RotationTarget) where
  -- The log of an engine with the record that its token was minted behind what was there.
  abbrev pub Traced : Confirmation → RotationEngine W → AuditLog → Type 0
  Traced confirmation e log =
      Records env.sha256 env.audit_codec e.audit
        (actor_for env.sha256 env.audit_codec e.audit.actor (some e.run))
        (Event.commit_token_minted confirmation) log

  abbrev pub rewired : RotationProvider W → SecretBackend W → Setting Time W
  rewired provider backend = record env { provider = provider; backend = backend }

  -- The record is there, or the run is the same whatever the provider and the backend are.
  abbrev Accounted :
      {A : Type 0}
      → Confirmation
      → RotationEngine W
      → RotationEngine W × Result A
      → (RotationProvider W → SecretBackend W → RotationEngine W × Result A)
      → Type 0
  Accounted confirmation e r other =
      Traced confirmation e r.0.audit
      ⊎ ((p : RotationProvider W) (b : SecretBackend W) → other p b ≡ r)

  Accounted-after :
      {A B : Type 0} (k : Confirmation) (e : RotationEngine W) (x : RotationEngine W × Result A)
      (f : A → Act (RotationEngine W) B)
      (g : RotationProvider W → SecretBackend W → A → Act (RotationEngine W) B)
      → ((a : A) → x.1 ≡ ok a → Accounted k e (f a x.0) (λ p b. g p b a x.0))
      → Accounted k e (continue x f) (λ p b. continue x (g p b))
  Accounted-after k e (t, ok a) f g h = h a refl
  Accounted-after k e (t, err x) f g h = inr (λ p b. refl)

  anchor-Traced :
      (k : Confirmation) (e : RotationEngine W) (n : ℕ)
      → (anchor env (commit_token_minted e.run k) e).1 ≡ ok n
      → Traced k e (anchor env (commit_token_minted e.run k) e).0.audit
  unfolding anchor record_event run_of from_core
  anchor-Traced k e n h =
      let (world, (first, second)) = env.audit_call e.world in
      append_as-Records env.sha256 env.audit_codec e.audit
        (actor_for env.sha256 env.audit_codec e.audit.actor (some e.run))
        (Event.commit_token_minted k) first second n h

  minted :
      (run : RunId) (x : RotationEngine W × Result ℕ) (o : Option CommitToken)
      → (continue {B = Option CommitToken} x
          (λ n. pure (some (record { run = run; minted_at = n })))).1
        ≡ ok o
      → (n : ℕ) × (x.1 ≡ ok n) × (o ≡ some (record { run = run; minted_at = n }))
  minted run (t, ok n) o h = (n, refl, cc)
  minted run (t, err x) o h = absurd cc

  unmoved :
      (run : RunId) (x : RotationEngine W × Result ℕ)
      → (continue {B = Option CommitToken} x
          (λ n. pure (some (record { run = run; minted_at = n })))).0
        ≡ x.0
  unmoved run (t, ok n) = refl
  unmoved run (t, err x) = refl

  driven-Traced :
      (k : Confirmation) (e t : RotationEngine W) (c : CommitToken)
      → Traced k e t.audit
      → Traced k e (execute_with env target (some c) t).0.audit
  driven-Traced k e t c h =
      Records-Grows env.sha256 env.audit_codec e.audit
        (actor_for env.sha256 env.audit_codec e.audit.actor (some e.run))
        (Event.commit_token_minted k) t.audit (execute_with env target (some c) t).0.audit h
        (kept env t.audit target (execute_with env target (some c) t)
          (execute_with-Keeps env t.audit target c t (Grows-refl t.audit)))

  under_token-Accounted :
      (k : Confirmation) (e : RotationEngine W)
      → Accounted k e
          (under_token env target (apply k) e)
          (λ p b. under_token (rewired p b) target (apply k) e)
  unfolding under_token commit_token anchor
  under_token-Accounted k e =
      Accounted-after k e (commit_token (anchor env) (apply k) e.run e) (execute_with env target)
        (λ p b. execute_with (rewired p b) target) acts
    where
      acts :
          (o : Option CommitToken)
          → (commit_token (anchor env) (apply k) e.run e).1 ≡ ok o
          → Accounted k e
              (execute_with env target o (commit_token (anchor env) (apply k) e.run e).0)
              (λ p b.
                execute_with (rewired p b) target o (commit_token (anchor env) (apply k) e.run e).0)
      acts o h =
          let x = anchor env (commit_token_minted e.run k) e in
          let (n, written, given) = minted e.run x o h in
          rw given (
            inl (
              driven-Traced k e (commit_token (anchor env) (apply k) e.run e).0
                (record { run = e.run; minted_at = n })
                (subst (λ t. Traced k e t.audit) (sym (unmoved e.run x))
                  (anchor-Traced k e n written))))

  -- Either the audit log that an execution in apply mode leaves, with an outcome or with an error, has
  -- what was in its file before at the front, and the record behind it that a token was minted for this
  -- run and confirmation; or the execution is the same, to its result and the world that it leaves,
  -- whatever provider and backend it is given.
  pub authority_leaves_record :
      (confirmation : Confirmation) (e : RotationEngine W)
      → Traced confirmation e (execute env target (apply confirmation) e).0.audit
        ⊎ ((p : RotationProvider W) (b : SecretBackend W)
            → execute (rewired p b) target (apply confirmation) e
              ≡ execute env target (apply confirmation) e)
  unfolding execute journal_append mode_name
  authority_leaves_record confirmation e =
      let r =
        run_started (display target.reference.inner) target.kind
          (mode_name env (apply confirmation)) in
      Accounted-after confirmation e (journal_append env r e)
        (λ n. under_token env target (apply confirmation))
        (λ p b n. under_token (rewired p b) target (apply confirmation))
        (λ n h. under_token-Accounted confirmation (journal_append env r e).0)
