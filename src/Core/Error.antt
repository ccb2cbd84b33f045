-- ===== src/Core/Error.antt =====
-- crates/kawach-core/src/error.rs: the errors. A `SafeDetail` is kept as the call that built it:
-- `trusted_static` of a fixed text, or `scrubbed` of the message that the scrubber was given. The
-- scrubber measures entropy in floating point and is left out, so a message stands as it was before.
use kawach.Prelude.{Text, ℕ, ◌≡◌, refl}
use kawach.Core.Refs.{BackendId, SourceId, SecretRef}

pub data SafeDetail : Type 0 where
  trusted_static : Text → SafeDetail
  scrubbed : Text → SafeDetail

-- crates/kawach-core/src/scope.rs: why a reference was refused.
pub data ScopeDenial : Type 0 where
  unknown_backend : BackendId → ScopeDenial
  denied_by_rule : Text → ScopeDenial
  not_allowed : ScopeDenial

pub data KawachError : Type 0 where
  out_of_scope : SecretRef → ScopeDenial → KawachError
  dry_run_refusal : Text → KawachError
  weak_password_policy : ℕ → ℕ → KawachError
  invalid_secret_encoding : KawachError
  malformed_fingerprint_key : KawachError
  backend : BackendId → Text → SafeDetail → KawachError
  provider : Text → Text → SafeDetail → KawachError
  discovery : SourceId → SafeDetail → KawachError
  audit : SafeDetail → KawachError
  journal : SafeDetail → KawachError
  illegal_transition : Text → Text → KawachError
  config : Text → SafeDetail → KawachError
  excessive_privilege : SafeDetail → KawachError

-- The alias `Result<T>`, and `?` on it: the first error ends the chain.
pub data Result {ℓ} (A : Type ℓ) : Type ℓ where
  err : KawachError → Result A
  ok : A → Result A

module _ {ℓ κ} {A : Type ℓ} {B : Type κ} where
  infixl 5 ◌>>=◌
  abbrev pub ◌>>=◌ : Result A → (A → Result B) → Result B
  err x >>= rest = err x
  ok a >>= rest = rest a

  -- A chain that succeeds, taken apart at its first step.
  pub >>=-eq-ok :
      (r : Result A) (rest : A → Result B) {b : B}
      → (r >>= rest) ≡ ok b
      → (a : A) × (r ≡ ok a) × (rest a ≡ ok b)
  >>=-eq-ok (err x) rest h = cc
  >>=-eq-ok (ok a) rest h = (a, refl, h)

module _ {ℓ κ μ} {A : Type ℓ} {B : Type κ} {C : Type μ} where
  -- Two chains that go on alike after a common first step.
  pub >>=-regroup :
      (r : Result A) (f : A → Result C) (g : A → Result B) (k : B → Result C)
      → ((a : A) → f a ≡ (g a >>= k))
      → (r >>= f) ≡ ((r >>= g) >>= k)
  >>=-regroup (err x) f g k h = refl
  >>=-regroup (ok a) f g k h = h a
