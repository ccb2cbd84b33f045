-- ===== src/Engine/Plan.antt =====
-- crates/kawach-engine/src/engine.rs: the dry run, a traversal that only reads.
use kawach.Prelude.{◌/◌, Text, codes, true, false, Option, none, some, List, [], ◌∷◌, ◌++◌}
use kawach.Platform.Decimal.{decimal}
use kawach.Core.Display.{concat, error_text}
use kawach.Core.Effect.{Act, gets, pure, ◌>>=◌}
use kawach.Core.Error.{Result, ok, err}
use kawach.Core.Model.{
  Preflight, PreflightFinding, is_blocked, WorldState, ObservedCredential, DrainStrategy,
  observe_sessions, elapsed, unsupported, find, nanos_per_sec,
}
use kawach.Core.Refs.{CredentialHandle, display}
use kawach.Core.Traits.{RotationTarget}
use kawach.Rotation.State.{provision, verify, publish, drain, revoke_old}
use kawach.Engine.{RotationEngine, Setting, call}
use kawach.Engine.Outcome.{PlannedStep, RotationPlan}

-- `Debug` of a `DrainStrategy`.
unfoldable strategy_debug : DrainStrategy → Text
strategy_debug observe_sessions = codes "ObserveSessions"
strategy_debug elapsed = codes "Elapsed"
strategy_debug unsupported = codes "Unsupported"

-- The five steps that an apply would take.
unfoldable pub planned_steps : RotationTarget → List PlannedStep
unfolding strategy_debug display
planned_steps target =
    record {
      step = provision;
      description =
          concat
            (codes "provision a new " ∷ target.kind ∷ codes " credential (the inactive side)" ∷ []);
      mutating = true;
    }
    ∷ record {
      step = verify;
      description =
          codes "prove the new credential can do the application's work, on a fresh connection";
      mutating = false;
    }
    ∷ record {
      step = publish;
      description = codes "publish the new value to " ++ display target.reference.inner;
      mutating = true;
    }
    ∷ record {
      step = drain;
      description = concat (
          codes "wait for consumers to stop using the old credential ("
          ∷ strategy_debug target.drain.strategy
          ∷ codes ", deadline "
          ∷ decimal (target.drain.deadline / nanos_per_sec)
          ∷ codes "s)"
          ∷ []);
      mutating = false;
    }
    ∷ record { step = revoke_old; description = codes "revoke the old credential"; mutating = true }
    ∷ []

no_active_credential : PreflightFinding
no_active_credential = record {
  id = codes "no_active_credential";
  blocking = true;
  detail =
      codes "no active credential could be identified; KAWACH rotates existing "
      ++ (codes "credentials and will not bootstrap a first one, because there would "
          ++ codes "be no working credential to fall back to if the new one failed");
}

unavailable : Text → Preflight
unavailable message = record {
  findings =
      record {
        id = codes "preflight_unavailable";
        blocking = true;
        detail = codes "provider preflight could not run: " ++ message;
      }
      ∷ [];
}

-- `unwrap_or_else` of the preflight, whose error is one more finding.
preflight_or : (scrub : Text → Text) → Result Preflight → Preflight
unfolding unavailable error_text
preflight_or scrub (ok p) = p
preflight_or scrub (err e) = unavailable (error_text scrub e)

handle_of : Option ObservedCredential → Option CredentialHandle
handle_of none = none
handle_of (some c) = some c.handle

first_live : Result WorldState → Option CredentialHandle
unfolding handle_of find
first_live (ok w) = handle_of (find (λ c. c.live) w.credentials)
first_live (err e) = none

-- `target.active`, or else the first credential that is observed to be live.
unfoldable pub active_credential : RotationTarget → Result WorldState → Option CredentialHandle
unfolding first_live
active_credential target observed = or_first target.active observed
  where
    or_first : Option CredentialHandle → Result WorldState → Option CredentialHandle
    or_first (some h) observed = some h
    or_first none observed = first_live observed

with_findings : Preflight → Option CredentialHandle → Preflight
unfolding no_active_credential
with_findings p none = record p { findings = p.findings ++ (no_active_credential ∷ []) }
with_findings p (some h) = p

module _ {Time W : Type 0} (env : Setting Time W) where
  unfoldable pub plan : RotationTarget → Act (RotationEngine W) RotationPlan
  unfolding call preflight_or with_findings active_credential planned_steps is_blocked display
  plan target = do
    checked ← call env (env.provider.preflight target)
    observed ← call env (env.provider.observe target)
    run ← gets (λ e. e.run)
    let active = active_credential target observed
    let preflight = with_findings (preflight_or env.scrub checked) active
    pure (record {
      run = run;
      reference = display target.reference.inner;
      kind = target.kind;
      active = active;
      preflight = preflight;
      steps = planned_steps target;
      blocked = is_blocked preflight;
    })
