-- ===== src/Core/Traits.antt =====
-- crates/kawach-core/src/traits: what the engine asks of a provider and of a backend, as the functions
-- of a trait object over the state of the world that they act on. A secret is its text.
use kawach.Prelude.{ℕ, Text, codes, List, Option, none, some, text_eq, if◌then◌else◌, [], ◌∷◌}
use kawach.Core.Capability.{CommitToken, ReadWitness}
use kawach.Core.Effect.{Act}
use kawach.Core.Error.{Result, ok, err, config, trusted_static}
use kawach.Core.Model.{
  BackendCapabilities, PublishedState, WorldState, VerificationReport, DrainPolicy, DrainReport,
  Preflight,
}
use kawach.Core.Refs.{CredentialHandle, CredentialKind, RunId, VersionId}
use kawach.Core.Scope.{ScopedRef}
use kawach.Core.Secret.{PasswordPolicy}

-- The entries of a `BTreeMap`, in the order of its keys.
abbrev pub ProviderSettings : Type 0
ProviderSettings = List (Text × Text)

unfoldable pub setting_of : ProviderSettings → Text → Option Text
unfolding text_eq
setting_of [] key = none
setting_of ((k, v) ∷ rest) key =
    let found = setting_of rest key in if text_eq k key then some v else found

or_missing : Text → Option Text → Result Text
or_missing key none =
    err (config key (trusted_static (codes "required provider setting is missing")))
or_missing key (some v) = ok v

unfoldable pub require : ProviderSettings → Text → Result Text
unfolding setting_of or_missing
require settings key = or_missing key (setting_of settings key)

pub record RotationTarget : Type 0 where
  pub run : RunId
  pub reference : ScopedRef
  pub kind : CredentialKind
  pub settings : ProviderSettings
  pub policy : PasswordPolicy
  pub drain : DrainPolicy
  pub active : Option CredentialHandle

pub record NewCredential : Type 0 where
  pub handle : CredentialHandle
  pub value : Text

-- The methods of `RotationProvider` that the engine calls; a deadline is the time that it allows.
pub record RotationProvider (W : Type 0) : Type 0 where
  pub preflight : RotationTarget → Act W Preflight
  pub observe : RotationTarget → Act W WorldState
  pub provision : RotationTarget → CommitToken → Act W NewCredential
  pub verify : RotationTarget → (candidate : Text) → Act W VerificationReport
  pub drain : RotationTarget → CredentialHandle → (deadline : ℕ) → Act W DrainReport
  pub revoke : RotationTarget → CredentialHandle → CommitToken → Act W Unit

-- The methods of `SecretBackend` that the engine calls.
pub record SecretBackend (W : Type 0) : Type 0 where
  pub capabilities : BackendCapabilities
  pub stage : ScopedRef → (value : Text) → CommitToken → Act W VersionId
  pub promote : ScopedRef → VersionId → CommitToken → Act W Unit
  pub restore : ScopedRef → VersionId → CommitToken → ReadWitness → Act W Unit
  pub observe_published : ScopedRef → Act W PublishedState
