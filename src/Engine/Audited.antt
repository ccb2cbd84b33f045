-- ===== src/Engine/Audited.antt =====
-- What the audit log of a running engine keeps: every call leaves what was in its file at the front.
pub mod Steps
pub mod Run
use kawach.Core.Capability.{CoreAuditEvent}
use kawach.Core.Effect.{Act, Meets, Meets-continue, continue}
use kawach.Core.Error.{Result, ok, err}
use kawach.Audit.Event.{AuditEvent, run_of, from_core}
use kawach.Audit.Log.{AuditLog, append, record_event, actor_for}
use kawach.Audit.Log
use kawach.Audit.Log.Grows.{Grows, Grows-trans, append_as-Grows}
use kawach.Rotation.Journal.{Record}
use kawach.Engine.{RotationEngine, Setting, audit_append, anchor, call, journal_append}

module _ {Time W : Type 0} (env : Setting Time W) (base : AuditLog) where
  abbrev pub Holds : RotationEngine W → Type 0
  Holds e = Grows base e.audit

  -- However code ends, the log has only grown.
  abbrev pub Keeps : {A : Type 0} → RotationEngine W × Result A → Type 0
  Keeps r = Meets (λ a. Holds) Holds r

  pub Keeps-then :
      {A B : Type 0} (r : RotationEngine W × Result A) (k : A → Act (RotationEngine W) B)
      → Keeps r
      → ((a : A) (t : RotationEngine W) → Holds t → Keeps (k a t))
      → Keeps (continue r k)
  Keeps-then r k h rest = Meets-continue (λ a. Holds) (λ b. Holds) Holds r k h rest

  pub Keeps-state : {A : Type 0} (r : RotationEngine W × Result A) → Holds r.0 → Keeps r
  Keeps-state (e, ok a) h = h
  Keeps-state (e, err x) h = h

  pub audit_append-Keeps :
      (v : AuditEvent) (e : RotationEngine W) → Holds e → Keeps (audit_append env v e)
  unfolding audit_append Log.append
  audit_append-Keeps v e h =
      let (world, (first, second)) = env.audit_call e.world in
      Keeps-state (audit_append env v e) (
        Grows-trans base e.audit (audit_append env v e).0.audit h
          (append_as-Grows env.sha256 env.audit_codec e.audit e.audit.actor v first second))

  pub anchor-Keeps : (v : CoreAuditEvent) (e : RotationEngine W) → Holds e → Keeps (anchor env v e)
  unfolding anchor record_event
  anchor-Keeps v e h =
      let (world, (first, second)) = env.audit_call e.world in
      Keeps-state (anchor env v e) (
        Grows-trans base e.audit (anchor env v e).0.audit h (
          append_as-Grows env.sha256 env.audit_codec e.audit
            (actor_for env.sha256 env.audit_codec e.audit.actor (run_of v)) (from_core v) first
            second))

  pub journal_append-Keeps :
      (r : Record) (e : RotationEngine W) → Holds e → Keeps (journal_append env r e)
  unfolding journal_append
  journal_append-Keeps r e h = Keeps-state (journal_append env r e) h

  pub call-Keeps :
      {A : Type 0} (m : Act W A) (e : RotationEngine W) → Holds e → Keeps (call env m e)
  unfolding call
  call-Keeps m e h = h
