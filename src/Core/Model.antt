-- ===== src/Core/Model.antt =====
-- crates/kawach-core/src/model.rs: what backends and providers report. Durations are counts of
-- nanoseconds; the fingerprint of a published value is its text, and times are texts.
use kawach.Prelude.{
  ℕ, ◌*◌, Text, Bool, true, false, ◌&&◌, not, Option, none, some, List, [], ◌∷◌, all, any, text_eq,
  if◌then◌else◌,
}
use kawach.Core.Refs.{CredentialHandle, VersionId}

pub record BackendCapabilities : Type 0 where
  pub atomic_promote : Bool
  pub versioned : Bool
  pub readback : Bool
  pub listing : Bool

unfoldable pub minimal : BackendCapabilities
minimal = record { atomic_promote = false; versioned = false; readback = false; listing = false }

pub record PublishedState : Type 0 where
  pub current_version : Option VersionId
  pub current_fingerprint : Option Text
  pub staged_version : Option VersionId

pub record ObservedCredential : Type 0 where
  pub handle : CredentialHandle
  pub live : Bool
  pub active_sessions : Option ℕ  -- u64
  pub last_used_at : Option Text

pub record WorldState : Type 0 where
  pub credentials : List ObservedCredential

-- The labels of a handle, compared as the entries of a `BTreeMap`.
unfoldable pub labels_eq : List (Text × Text) → List (Text × Text) → Bool
unfolding text_eq
labels_eq [] [] = true
labels_eq ((k, v) ∷ xs) ((l, w) ∷ ys) = text_eq k l && (text_eq v w && labels_eq xs ys)
labels_eq _ _ = false

-- The derived `==` of `CredentialHandle`.
unfoldable pub handle_eq : CredentialHandle → CredentialHandle → Bool
unfolding labels_eq text_eq
handle_eq h k = text_eq h.kind k.kind && (text_eq h.id k.id && labels_eq h.labels k.labels)

-- `iter().find()`.
unfoldable pub find : {A : Type 0} → (A → Bool) → List A → Option A
find p [] = none
find p (x ∷ xs) = let rest = find p xs in if p x then some x else rest

unfoldable pub get : WorldState → CredentialHandle → Option ObservedCredential
unfolding find handle_eq
get w h = find (λ c. handle_eq c.handle h) w.credentials

live_of : Option ObservedCredential → Bool
live_of none = false
live_of (some c) = c.live

unfoldable pub is_live : WorldState → CredentialHandle → Bool
unfolding live_of get
is_live w h = live_of (get w h)

pub record VerificationCheck : Type 0 where
  pub id : Text
  pub passed : Bool
  pub detail : Text

pub record VerificationReport : Type 0 where
  pub passed : Bool
  pub checks : List VerificationCheck

is_empty : List VerificationCheck → Bool
is_empty [] = true
is_empty (c ∷ cs) = false

unfoldable pub from_checks : List VerificationCheck → VerificationReport
unfolding is_empty
from_checks checks = record {
  passed = not (is_empty checks) && all (λ c. c.passed) checks;
  checks = checks;
}

-- `iter().filter()`.
unfoldable pub filter : {A : Type 0} → (A → Bool) → List A → List A
filter p [] = []
filter p (x ∷ xs) = let rest = filter p xs in if p x then x ∷ rest else rest

unfoldable pub failures : VerificationReport → List VerificationCheck
unfolding filter
failures r = filter (λ c. not c.passed) r.checks

pub data DrainStrategy : Type 0 where
  observe_sessions elapsed unsupported : DrainStrategy

pub record DrainPolicy : Type 0 where
  pub strategy : DrainStrategy
  pub deadline : ℕ
  pub poll_interval : ℕ

abbrev pub nanos_per_sec : ℕ
nanos_per_sec = 1000000000

-- `Default` of `DrainPolicy`.
unfoldable pub default_drain : DrainPolicy
default_drain = record {
  strategy = observe_sessions;
  deadline = 900 * nanos_per_sec;
  poll_interval = 5 * nanos_per_sec;
}

pub record DrainReport : Type 0 where
  pub complete : Bool
  pub remaining_sessions : Option ℕ  -- u64
  pub elapsed : ℕ
  pub strategy : DrainStrategy

pub record PreflightFinding : Type 0 where
  pub id : Text
  pub blocking : Bool
  pub detail : Text

pub record Preflight : Type 0 where
  pub findings : List PreflightFinding

unfoldable pub ready : Preflight
ready = record { findings = [] }

unfoldable pub is_blocked : Preflight → Bool
is_blocked p = any (λ f. f.blocking) p.findings
