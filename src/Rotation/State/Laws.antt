-- ===== src/Rotation/State/Laws.antt =====
-- What holds of the transition function, of reconciliation and of escalations on their own.
use kawach.Prelude.{
  ◌≡◌, ◌≢◌, ◌↔◌, refl, ap, Text, text_eq, true, false, Option, none, some, List, [], ◌∷◌,
  if◌then◌else◌, arith,
}
use kawach.Core.Error.{KawachError, ok, err, illegal_transition}
use kawach.Rotation.State.{
  RotationState, pending, draining, revoking, restoring_publication, reverse_draining, revoking_new,
  completed, rolled_back, needs_operator, Observation, RotationEvent, start_provision,
  drain_timeout, revoke_failed, restore_failed, reverse_drain_timeout, revoke_new_failed,
  reconciled, is_terminal, is_in_flight, name, event_name, all_states, all_plain, reconcile, next,
}
use kawach.Rotation.State.Hint.{for_escalation}
use kawach.Rotation.Safety.Liveness.{IsPlain}

-- A refused event is reported with the names of the state and the event.
refusal :
    (s : RotationState) (e : RotationEvent) {x : KawachError}
    → next s e ≡ err x
    → x ≡ illegal_transition (name s) (event_name e)
unfolding next
refusal pending start_provision h = ground arith
refusal _ _ h = ground arith

-- A terminal state refuses every event but a reconciliation, with an error that names the state and
-- the event, and a reconciliation leaves it where it is.
pub terminal_absorbs :
    (s : RotationState) (e : RotationEvent)
    → is_terminal s ≡ true
    → (IsPlain e → next s e ≡ err (illegal_transition (name s) (event_name e)))
      × ((o : Observation) → next s (reconciled o) ≡ ok s)
unfolding next reconcile is_terminal
terminal_absorbs completed start_provision h = ((λ p. refl), (λ o. refl))
terminal_absorbs completed (reconciled o) h = ((λ p. absurd p), (λ o. refl))
terminal_absorbs completed _ h = ((λ p. refl), (λ o. refl))
terminal_absorbs rolled_back (reconciled o) h = ((λ p. absurd p), (λ o. refl))
terminal_absorbs rolled_back _ h = ((λ p. refl), (λ o. refl))
terminal_absorbs needs_operator (reconciled o) h = ((λ p. absurd p), (λ o. refl))
terminal_absorbs needs_operator _ h = ((λ p. refl), (λ o. refl))
terminal_absorbs _ _ h = cc

-- Reconciling twice against the same observation is reconciling once, and a state with no effect in
-- flight is left alone.
pub reconcile_stable :
    (s : RotationState) (o : Observation)
    → (reconcile (reconcile s o) o ≡ reconcile s o) × (is_in_flight s ≡ false → reconcile s o ≡ s)
unfolding reconcile is_in_flight
reconcile_stable pending o = ground arith
reconcile_stable _ o = ground arith

-- An event that is no reconciliation has a hint exactly when the state accepts it and the run stops
-- for a human.
pub escalation_exact :
    (s : RotationState) (e : RotationEvent)
    → IsPlain e
    → (for_escalation s e ≢ none) ↔ (next s e ≡ ok needs_operator)
unfolding for_escalation next
escalation_exact pending start_provision p = (λ h. absurd (h refl), λ h. cc)
escalation_exact _ (reconciled o) p = absurd p
escalation_exact draining drain_timeout p = (λ h. refl, λ h q. cc)
escalation_exact revoking revoke_failed p = (λ h. refl, λ h q. cc)
escalation_exact restoring_publication restore_failed p = (λ h. refl, λ h q. cc)
escalation_exact reverse_draining reverse_drain_timeout p = (λ h. refl, λ h q. cc)
escalation_exact revoking_new revoke_new_failed p = (λ h. refl, λ h q. cc)
escalation_exact _ _ p = (λ h. absurd (h refl), λ h. cc)

-- A reader's inverse of the names: the first of a list that has the given name.
state_named : List RotationState → Text → Option RotationState
state_named [] t = none
state_named (s ∷ ss) t = if text_eq (name s) t then some s else state_named ss t

event_named : List RotationEvent → Text → Option RotationEvent
event_named [] t = none
event_named (e ∷ es) t = if text_eq (event_name e) t then some e else event_named es t

state_named-name : (s : RotationState) → state_named all_states (name s) ≡ some s
unfolding state_named name text_eq
state_named-name pending = refl
state_named-name _ = refl

event_named-event_name :
    (e : RotationEvent) → IsPlain e → event_named all_plain (event_name e) ≡ some e
unfolding event_named event_name text_eq
event_named-event_name start_provision p = refl
event_named-event_name (reconciled o) p = absurd p
event_named-event_name _ p = refl

-- The names by which a journal, an audit record or an error speaks of states, and of events that are
-- no reconciliation, tell them apart.
pub names_distinct :
    ((s t : RotationState) → name s ≡ name t → s ≡ t)
    × ((e f : RotationEvent) → IsPlain e → IsPlain f → event_name e ≡ event_name f → e ≡ f)
names_distinct = (
  λ s t h. cc (state_named-name s, state_named-name t, ap (state_named all_states) h),
  λ e f p q h.
      cc (event_named-event_name e p, event_named-event_name f q, ap (event_named all_plain) h),
)
