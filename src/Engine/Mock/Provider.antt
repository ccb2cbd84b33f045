-- ===== src/Engine/Mock/Provider.antt =====
-- crates/kawach-engine/src/mock.rs: the provider of the mock world, with the faults that it is told to
-- inject. The password that the generator gives for a policy is a parameter.
use kawach.Prelude.{
  ◌+◌, Text, codes, Bool, true, false, ◌&&◌, ◌||◌, not, none, some, List, [], ◌∷◌, ◌++◌, map, any,
  text_eq, if◌then◌else◌,
}
use kawach.Platform.Decimal.{decimal}
use kawach.Core.Effect.{Act}
use kawach.Core.Error.{KawachError, provider, trusted_static, Result, ok, err}
use kawach.Core.Model.{
  WorldState, ObservedCredential, VerificationReport, VerificationCheck, from_checks, DrainReport,
  observe_sessions, Preflight, ready,
}
use kawach.Core.Refs.{CredentialHandle, CredentialKind, RunId}
use kawach.Core.Scope.{ScopedRef}
use kawach.Core.Secret.{PasswordPolicy, default_policy}
use kawach.Core.Traits.{RotationProvider, RotationTarget, NewCredential}
use kawach.Engine.Mock.{WorldInner, insert, record_mutation}
use kawach.Rotation.Journal.{u64}

pub record ProviderFaults : Type 0 where
  pub fail_provision : Bool
  pub verification_fails : Bool
  pub fail_verify : Bool
  pub drain_never_completes : Bool
  pub reverse_drain_never_completes : Bool
  pub fail_revoke_old : Bool
  pub fail_revoke_new : Bool
  pub preflight_blocks : Bool

-- `Default` of `ProviderFaults`.
unfoldable pub no_faults : ProviderFaults
no_faults = record {
  fail_provision = false;
  verification_fails = false;
  fail_verify = false;
  drain_never_completes = false;
  reverse_drain_never_completes = false;
  fail_revoke_old = false;
  fail_revoke_new = false;
  preflight_blocks = false;
}

-- The fields of a `MockProvider` but the world that it shares.
pub record MockProvider : Type 0 where
  pub kind : CredentialKind
  pub faults : ProviderFaults
  pub active_id : Text

-- `MockProvider::new`.
unfoldable pub provider_for : Text → MockProvider
unfolding no_faults
provider_for active_id = record {
  kind = codes "mock_ab";
  faults = no_faults;
  active_id = active_id;
}

unfoldable handle : MockProvider → Text → CredentialHandle
handle p id = record { kind = p.kind; id = id; labels = [] }

unfoldable pub target : MockProvider → ScopedRef → RunId → RotationTarget
unfolding handle default_policy
target p reference run = record {
  run = run;
  reference = reference;
  kind = p.kind;
  settings = [];
  policy = default_policy;
  drain = record { strategy = observe_sessions; deadline = 10000000; poll_interval = 1000000 };
  active = some (handle p p.active_id);
}

unfoldable pub fail : MockProvider → Text → KawachError
fail p operation = provider p.kind operation (trusted_static (codes "injected fault"))

unfoldable pub preflight : MockProvider → Act WorldInner Preflight
unfolding ready
preflight p w =
    if p.faults.preflight_blocks
    then (
      w,
      ok (record {
        findings =
            record {
              id = codes "injected_blocker";
              blocking = true;
              detail = codes "injected preflight blocker";
            }
            ∷ [];
      }),
    )
    else (w, ok ready)

unfoldable observed : MockProvider → Text × Bool → ObservedCredential
unfolding handle
observed p (id, live) = record {
  handle = handle p id;
  live = live;
  active_sessions = some 0;
  last_used_at = none;
}

unfoldable pub observe : MockProvider → Act WorldInner WorldState
unfolding observed
observe p w = (w, ok (record { credentials = map (observed p) w.live }))

-- What follows the generation of the value.
unfoldable pub provision_value :
    MockProvider → (fingerprint : Text → Text) → Result Text → Act WorldInner NewCredential
unfolding handle record_mutation insert
provision_value p fingerprint (err e) w = (w, err e)
provision_value p fingerprint (ok value) w =
    let t = record_mutation (codes "provider.provision") w in
    let n = u64 (t.next_credential + 1) in
    let id = codes "cred-" ++ decimal n in
    (
      record t {
        next_credential = n;
        live = insert t.live id true;
        provisioned = insert t.provisioned id (fingerprint value);
      },
      ok (record { handle = handle p id; value = value }),
    )

unfoldable pub provision :
    MockProvider
    → (fingerprint : Text → Text) → (generate : PasswordPolicy → Result Text) → RotationTarget
    → Act WorldInner NewCredential
unfolding fail provision_value
provision p fingerprint generate t w =
    if p.faults.fail_provision
    then (w, err (fail p (codes "provision")))
    else provision_value p fingerprint (generate t.policy) w

unfoldable checks : Bool → Bool → List VerificationCheck
checks known fails =
    record {
      id = codes "connect";
      passed = known && not fails;
      detail = if known then codes "authenticated" else codes "unknown credential";
    }
    ∷ record {
      id = codes "privilege_probe";
      passed = not fails;
      detail = codes "read the application's table";
    }
    ∷ []

unfoldable pub verify :
    MockProvider → (fingerprint : Text → Text) → Text → Act WorldInner VerificationReport
unfolding fail checks text_eq from_checks
verify p fingerprint candidate w =
    let known = any (λ e. text_eq e.1 (fingerprint candidate)) w.provisioned in
    if p.faults.fail_verify
    then (w, err (fail p (codes "verify")))
    else (w, ok (from_checks (checks known p.faults.verification_fails)))

unfoldable pub drain : MockProvider → CredentialHandle → Act WorldInner DrainReport
unfolding text_eq
drain p h w =
    let stalls =
      if text_eq h.id p.active_id
      then p.faults.drain_never_completes
      else p.faults.reverse_drain_never_completes in
    (
      w,
      ok (record {
        complete = not stalls;
        remaining_sessions = some (if stalls then 1 else 0);
        elapsed = 1000000;
        strategy = observe_sessions;
      }),
    )

unfoldable pub revoke : MockProvider → CredentialHandle → Act WorldInner Unit
unfolding text_eq fail record_mutation insert
revoke p h w =
    let is_old = text_eq h.id p.active_id in
    let t = record_mutation (codes "provider.revoke:" ++ h.id) w in
    if (is_old && p.faults.fail_revoke_old) || (not is_old && p.faults.fail_revoke_new)
    then (w, err (fail p (codes "revoke")))
    else (record t { live = insert t.live h.id false }, ok tt)

-- What the engine calls of the provider.
unfoldable pub mock_provider :
    MockProvider
    → (fingerprint : Text → Text) → (generate : PasswordPolicy → Result Text)
    → RotationProvider WorldInner
unfolding preflight observe provision verify drain revoke
mock_provider p fingerprint generate = record {
  preflight = λ t. preflight p;
  observe = λ t. observe p;
  provision = λ t c. provision p fingerprint generate t;
  verify = λ t. verify p fingerprint;
  drain = λ t h d. drain p h;
  revoke = λ t h c. revoke p h;
}
