-- ===== src/Rotation/State.antt =====
-- crates/kawach-rotation/src/state.rs: states, events, the transition function `next`, the
-- reconciliation of an unknown outcome, and the guidance attached to an escalation. A name that the
-- source formats is the text of its bytes; `&'static str` arguments of an error are such texts too.
pub mod Hint
pub mod Laws
use kawach.Prelude.{
  ◌≡◌, ◌↔◌, refl, Text, codes, Bool, true, false, not, Option, none, some, List, [], ◌∷◌,
  if◌then◌else◌,
}
use kawach.Core.Error.{Result, ok, err, illegal_transition}

pub data RotationState : Type 0 where
  pending provisioning provisioned verifying verified publishing published draining drained
        revoking :
      RotationState
  restoring_publication reverse_draining revoking_new : RotationState
  completed rolled_back needs_operator : RotationState

-- An effectful step: a call into a provider or a backend.
pub data Step : Type 0 where
  provision verify publish drain revoke_old restore_publication reverse_drain revoke_new : Step

-- Which credential consumers currently read.
pub data PublishedSide : Type 0 where
  old new unknown : PublishedSide

pub record Observation : Type 0 where
  pub new_live : Bool
  pub old_live : Bool
  pub published : PublishedSide

pub data RotationEvent : Type 0 where
  start_provision provision_ok provision_failed start_verify verify_ok verify_failed start_publish
        publish_ok publish_failed :
      RotationEvent
  start_drain drain_complete drain_timeout abort_requested start_revoke revoke_ok revoke_failed :
      RotationEvent
  restore_ok restore_failed reverse_drain_complete reverse_drain_timeout revoke_new_ok
        revoke_new_failed :
      RotationEvent
  reconciled : Observation → RotationEvent

abbrev pub start : RotationState
start = pending

unfoldable pub is_terminal : RotationState → Bool
is_terminal completed = true
is_terminal rolled_back = true
is_terminal needs_operator = true
is_terminal _ = false

-- The effectful step that a state is in the middle of.
unfoldable pub pending_step : RotationState → Option Step
pending_step provisioning = some provision
pending_step verifying = some verify
pending_step publishing = some publish
pending_step draining = some drain
pending_step revoking = some revoke_old
pending_step restoring_publication = some restore_publication
pending_step reverse_draining = some reverse_drain
pending_step revoking_new = some revoke_new
pending_step _ = none

abbrev is_some : Option Step → Bool
is_some none = false
is_some (some s) = true

unfoldable pub is_in_flight : RotationState → Bool
unfolding pending_step
is_in_flight s = is_some (pending_step s)

unfoldable pub is_compensating : RotationState → Bool
is_compensating restoring_publication = true
is_compensating reverse_draining = true
is_compensating revoking_new = true
is_compensating _ = false

unfoldable pub name : RotationState → Text
name pending = codes "Pending"
name provisioning = codes "Provisioning"
name provisioned = codes "Provisioned"
name verifying = codes "Verifying"
name verified = codes "Verified"
name publishing = codes "Publishing"
name published = codes "Published"
name draining = codes "Draining"
name drained = codes "Drained"
name revoking = codes "Revoking"
name restoring_publication = codes "RestoringPublication"
name reverse_draining = codes "ReverseDraining"
name revoking_new = codes "RevokingNew"
name completed = codes "Completed"
name rolled_back = codes "RolledBack"
name needs_operator = codes "NeedsOperator"

abbrev pub all_states : List RotationState
all_states =
    pending ∷ provisioning ∷ provisioned ∷ verifying ∷ verified ∷ publishing ∷ published ∷ draining
    ∷ drained ∷ revoking ∷ restoring_publication ∷ reverse_draining ∷ revoking_new ∷ completed
    ∷ rolled_back ∷ needs_operator ∷ []

-- The derived `==`.
pub RotationState-discrete : Discrete RotationState
RotationState-discrete = hlevel

to_bool : {A : Type 0} → Dec A → Bool
to_bool (yes a) = true
to_bool (no n) = false

unfoldable pub state_eq : RotationState → RotationState → Bool
unfolding RotationState-discrete to_bool
state_eq s t = to_bool (RotationState-discrete s t)

to_bool_iff : {A : Type 0} (d : Dec A) → (to_bool d ≡ true) ↔ A
unfolding to_bool
to_bool_iff (yes a) = (λ h. a, λ h. refl)
to_bool_iff (no n) = (λ h. cc, λ a. absurd (n a))

pub state_eq_iff : (s t : RotationState) → (state_eq s t ≡ true) ↔ (s ≡ t)
unfolding state_eq
state_eq_iff s t = to_bool_iff (RotationState-discrete s t)

-- Whether a step changes the world.
unfoldable pub is_mutating : Step → Bool
is_mutating verify = false
is_mutating drain = false
is_mutating reverse_drain = false
is_mutating _ = true

unfoldable pub event_name : RotationEvent → Text
event_name start_provision = codes "StartProvision"
event_name provision_ok = codes "ProvisionOk"
event_name provision_failed = codes "ProvisionFailed"
event_name start_verify = codes "StartVerify"
event_name verify_ok = codes "VerifyOk"
event_name verify_failed = codes "VerifyFailed"
event_name start_publish = codes "StartPublish"
event_name publish_ok = codes "PublishOk"
event_name publish_failed = codes "PublishFailed"
event_name start_drain = codes "StartDrain"
event_name drain_complete = codes "DrainComplete"
event_name drain_timeout = codes "DrainTimeout"
event_name abort_requested = codes "AbortRequested"
event_name start_revoke = codes "StartRevoke"
event_name revoke_ok = codes "RevokeOk"
event_name revoke_failed = codes "RevokeFailed"
event_name restore_ok = codes "RestoreOk"
event_name restore_failed = codes "RestoreFailed"
event_name reverse_drain_complete = codes "ReverseDrainComplete"
event_name reverse_drain_timeout = codes "ReverseDrainTimeout"
event_name revoke_new_ok = codes "RevokeNewOk"
event_name revoke_new_failed = codes "RevokeNewFailed"
event_name (reconciled o) = codes "Reconciled"

abbrev pub all_plain : List RotationEvent
all_plain =
    start_provision ∷ provision_ok ∷ provision_failed ∷ start_verify ∷ verify_ok ∷ verify_failed
    ∷ start_publish ∷ publish_ok ∷ publish_failed ∷ start_drain ∷ drain_complete ∷ drain_timeout
    ∷ abort_requested ∷ start_revoke ∷ revoke_ok ∷ revoke_failed ∷ restore_ok ∷ restore_failed
    ∷ reverse_drain_complete ∷ reverse_drain_timeout ∷ revoke_new_ok ∷ revoke_new_failed ∷ []

reconcile_publishing : PublishedSide → RotationState
reconcile_publishing new = published
reconcile_publishing old = verified
reconcile_publishing unknown = needs_operator

reconcile_restoring : PublishedSide → RotationState
reconcile_restoring old = reverse_draining
reconcile_restoring new = restoring_publication
reconcile_restoring unknown = needs_operator

reconcile_reverse_draining : PublishedSide → RotationState
reconcile_reverse_draining old = reverse_draining
reconcile_reverse_draining _ = needs_operator

-- Resolves an unknown-outcome state against observed reality.
unfoldable pub reconcile : RotationState → Observation → RotationState
unfolding reconcile_publishing reconcile_restoring reconcile_reverse_draining
reconcile provisioning o = if o.new_live then provisioned else pending
reconcile verifying o = provisioned
reconcile draining o = published
reconcile publishing o = reconcile_publishing o.published
reconcile revoking o = if o.old_live then drained else completed
reconcile restoring_publication o = reconcile_restoring o.published
reconcile reverse_draining o = reconcile_reverse_draining o.published
reconcile revoking_new o = if o.new_live then revoking_new else rolled_back
reconcile settled o = settled

-- The transition function; the last clause is the refusal of everything else.
unfoldable pub next : RotationState → RotationEvent → Result RotationState
unfolding name event_name
next state (reconciled o) = ok (reconcile state o)
next pending start_provision = ok provisioning
next provisioning provision_ok = ok provisioned
next provisioned start_verify = ok verifying
next verifying verify_ok = ok verified
next verified start_publish = ok publishing
next publishing publish_ok = ok published
next published start_drain = ok draining
next draining drain_complete = ok drained
next drained start_revoke = ok revoking
next revoking revoke_ok = ok completed
next provisioning provision_failed = ok revoking_new
next verifying verify_failed = ok revoking_new
next publishing publish_failed = ok restoring_publication
next published abort_requested = ok restoring_publication
next draining abort_requested = ok restoring_publication
next drained abort_requested = ok restoring_publication
next provisioned abort_requested = ok revoking_new
next verified abort_requested = ok revoking_new
next pending abort_requested = ok rolled_back
next draining drain_timeout = ok needs_operator
next revoking revoke_failed = ok needs_operator
next restoring_publication restore_failed = ok needs_operator
next reverse_draining reverse_drain_timeout = ok needs_operator
next revoking_new revoke_new_failed = ok needs_operator
next restoring_publication restore_ok = ok reverse_draining
next reverse_draining reverse_drain_complete = ok revoking_new
next revoking_new revoke_new_ok = ok rolled_back
next state event = err (illegal_transition (name state) (event_name event))
