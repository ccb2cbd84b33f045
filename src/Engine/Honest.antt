-- ===== src/Engine/Honest.antt =====
-- What the engine relies on of the code outside it: the documented behaviour of a provider and a
-- backend, stated against the ghost model of crates/kawach-rotation/src/safety.rs.
use kawach.Prelude.{◌≡◌, Bool, true, false, Option, none, some, In, Text}
use kawach.Core.Capability.{CommitToken, ReadWitness}
use kawach.Core.Effect.{Meets}
use kawach.Core.Error.{Result}
use kawach.Core.Model.{PublishedState, VerificationReport}
use kawach.Core.Refs.{CredentialHandle, VersionId}
use kawach.Core.Traits.{NewCredential, RotationTarget}
use kawach.Rotation.Safety.{Ghost, successors}
use kawach.Rotation.State.{
  RotationEvent, provision_ok, provision_failed, verify_ok, publish_ok, publish_failed, revoke_ok,
  revoke_failed, restore_ok, restore_failed, revoke_new_ok, revoke_new_failed, old,
}
use kawach.Engine.{Setting}

-- How a world is read: which ghost it shows, and which handles, values and versions are those of the
-- old and of the new credential.
pub record Reading (W : Type 0) : Type 1 where
  pub Shows : W → Ghost → Type 0
  pub IsNewHandle : CredentialHandle → Type 0
  pub IsNewValue : Text → Type 0
  pub IsNewVersion : VersionId → Type 0
  pub IsOldVersion : VersionId → Type 0

module _ {W : Type 0} (reading : Reading W) where
  -- The world shows one of the ghosts that an event can lead to.
  abbrev pub Shown : RotationEvent → Ghost → W → Type 0
  Shown event g w = (h : Ghost) × In h (successors g event) × reading.Shows w h

  -- A write is current at once, or only once it is promoted.
  abbrev pub Staged : (atomic_promote : Bool) → Ghost → W → Type 0
  Staged true g w = reading.Shows w g
  Staged false g w = Shown publish_ok g w

  -- A verification that passes makes the new credential a verified one.
  abbrev pub Judged : (passed : Bool) → Ghost → W → Type 0
  Judged true g w = Shown verify_ok g w
  Judged false g w = reading.Shows w g

  abbrev pub HasOldVersion : Option VersionId → Type 0
  HasOldVersion none = ⊥
  HasOldVersion (some v) = reading.IsOldVersion v

  -- What the calls that succeed leave behind.
  abbrev pub Unchanged : {A : Type 0} → Ghost → A → W → Type 0
  Unchanged g a w = reading.Shows w g

  abbrev pub Provisioned : Ghost → NewCredential → W → Type 0
  Provisioned g n w =
      reading.IsNewHandle n.handle × reading.IsNewValue n.value × Shown provision_ok g w

  abbrev pub Verified : Ghost → VerificationReport → W → Type 0
  Verified g r w = Judged r.passed g w

  -- Earlier versions are addressable in a versioned backend, so what is published has one.
  abbrev pub Observed : (versioned : Bool) → Ghost → PublishedState → W → Type 0
  Observed versioned g p w =
      (versioned ≡ true → HasOldVersion p.current_version) × reading.Shows w g

  abbrev pub Written : (atomic_promote : Bool) → Ghost → VersionId → W → Type 0
  Written atomic_promote g v w = reading.IsNewVersion v × Staged atomic_promote g w

  -- A call that ends with an event if it succeeds, and with another one if it fails.
  abbrev pub Does : {A : Type 0} → (success failure : RotationEvent) → Ghost → W × Result A → Type 0
  Does success failure g r = Meets (λ a. Shown success g) (Shown failure g) r

-- A call that succeeds has landed, and one that fails may have landed or not, as `Ghost::successors`
-- has it: after a `provision` that fails there may be a new credential (traits/provider.rs). `verify`
-- and `drain` take no token, since they do not mutate. The backend is one whose earlier versions are
-- addressable (`versioned` in model.rs), and it reports the version that consumers read, which is `None`
-- only where nothing is published (`PublishedState`); the old value is published when it is asked.
pub record Honest {Time W : Type 0} (env : Setting Time W) (target : RotationTarget)
    (reading : Reading W) (old_handle : CredentialHandle) : Type 0 where
  pub journal_keeps :
      (w : W) (g : Ghost) → reading.Shows w g → reading.Shows (env.journal_call w).0 g
  pub audit_keeps : (w : W) (g : Ghost) → reading.Shows w g → reading.Shows (env.audit_call w).0 g
  pub provision_lands :
      (c : CommitToken) (w : W) (g : Ghost)
      → reading.Shows w g
      → Meets
          (Provisioned reading g)
          (Shown reading provision_failed g)
          (env.provider.provision target c w)
  pub verify_judges :
      (v : Text) (w : W) (g : Ghost)
      → reading.IsNewValue v
      → reading.Shows w g
      → Meets (Verified reading g) (Unchanged reading g tt) (env.provider.verify target v w)
  pub is_versioned : env.backend.capabilities.versioned ≡ true
  pub observe_published_keeps :
      (w : W) (g : Ghost)
      → g.published ≡ old
      → reading.Shows w g
      → Meets
          (Observed reading env.backend.capabilities.versioned g)
          (Unchanged reading g tt)
          (env.backend.observe_published target.reference w)
  pub stage_lands :
      (v : Text) (c : CommitToken) (w : W) (g : Ghost)
      → reading.IsNewValue v
      → reading.Shows w g
      → Meets
          (Written reading env.backend.capabilities.atomic_promote g)
          (Shown reading publish_failed g)
          (env.backend.stage target.reference v c w)
  pub promote_lands :
      (v : VersionId) (c : CommitToken) (w : W) (g : Ghost)
      → reading.IsNewVersion v
      → reading.Shows w g
      → Does reading publish_ok publish_failed g (env.backend.promote target.reference v c w)
  pub drain_keeps :
      (k : CredentialHandle) (w : W) (g : Ghost)
      → reading.Shows w g
      → Meets
          (Unchanged reading g)
          (Unchanged reading g tt)
          (env.provider.drain target k target.drain.deadline w)
  pub revoke_old_lands :
      (c : CommitToken) (w : W) (g : Ghost)
      → reading.Shows w g
      → Does reading revoke_ok revoke_failed g (env.provider.revoke target old_handle c w)
  pub revoke_new_lands :
      (k : CredentialHandle) (c : CommitToken) (w : W) (g : Ghost)
      → reading.IsNewHandle k
      → reading.Shows w g
      → Does reading revoke_new_ok revoke_new_failed g (env.provider.revoke target k c w)
  pub restore_lands :
      (v : VersionId) (c : CommitToken) (t : ReadWitness) (w : W) (g : Ghost)
      → reading.IsOldVersion v
      → reading.Shows w g
      → Does reading restore_ok restore_failed g (env.backend.restore target.reference v c t w)
