-- ===== src/Engine/Run/Authority.antt =====
-- What a run may do to the world without authority.
use kawach.Prelude.{◌≡◌, refl}
use kawach.Core.Capability.{commit_token, dry_run}
use kawach.Core.Traits.{RotationTarget, RotationProvider, SecretBackend}
use kawach.Rotation.Journal.{RecoveredRun}
use kawach.Engine.{RotationEngine, Setting, call, journal_append}
use kawach.Engine.Plan.{plan}
use kawach.Engine.Recover.{recover_with, recover}
use kawach.Engine.Run.{planned, execute_with, under_token, mode_name, execute}

module _ {Time W : Type 0} (env : Setting Time W) where
  -- The same setting with another backend, and with other functions where the provider acts.
  abbrev rewired : RotationProvider W → SecretBackend W → Setting Time W
  rewired other backend = record env {
    provider = record other { preflight = env.provider.preflight; observe = env.provider.observe };
    backend = backend;
  }

  -- A dry run gives the same result, and leaves the same world, journal and audit log, whatever the
  -- backend and the functions of the provider other than `preflight` and `observe` are.
  pub dry_run_only_observes :
      (target : RotationTarget) (other : RotationProvider W) (backend : SecretBackend W)
      (e : RotationEngine W)
      → execute (rewired other backend) target dry_run e ≡ execute env target dry_run e
  unfolding execute journal_append under_token commit_token execute_with planned plan call mode_name
  dry_run_only_observes target other backend e = refl

  -- The same of a recovery without authority.
  recover_dry_only_observes :
      (target : RotationTarget) (other : RotationProvider W) (backend : SecretBackend W)
      (r : RecoveredRun) (e : RotationEngine W)
      → recover (rewired other backend) target r dry_run e ≡ recover env target r dry_run e
  unfolding recover recover_with commit_token planned plan call
  recover_dry_only_observes target other backend r e = refl
