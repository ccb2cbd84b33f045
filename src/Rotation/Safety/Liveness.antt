-- ===== src/Rotation/Safety/Liveness.antt =====
-- S4 of crates/kawach-rotation/tests/model_check.rs: every state can be reached, no reachable node is
-- stuck, and a protocol run without reconciliation is short.
use kawach.Prelude.{◌≡◌, refl, ℕ, ◌+◌, ◌≤◌, ◌<◌, List, [], ◌∷◌, All, length, inl, false, In, arith}
use kawach.Core.Error.{Result, ok, ◌>>=◌, >>=-eq-ok}
use kawach.Rotation.State.{
  RotationState, pending, provisioning, provisioned, verifying, verified, publishing, published,
  draining, drained, revoking, restoring_publication, reverse_draining, revoking_new, completed,
  rolled_back, needs_operator, RotationEvent, start_provision, provision_ok, start_verify,
  verify_ok, start_publish, publish_ok, start_drain, drain_complete, drain_timeout, start_revoke,
  revoke_ok, abort_requested, restore_ok, reverse_drain_complete, revoke_new_ok, reconciled, next,
  is_terminal,
}
use kawach.Rotation.Safety.{Ghost, successors}
use kawach.Rotation.Safety.Reach.{take_event, here, then, Reach}

-- The events that report an effect that succeeded, and those that start one.
abbrev pub IsSuccess : RotationEvent → Type 0
IsSuccess start_provision = Unit
IsSuccess provision_ok = Unit
IsSuccess start_verify = Unit
IsSuccess verify_ok = Unit
IsSuccess start_publish = Unit
IsSuccess publish_ok = Unit
IsSuccess start_drain = Unit
IsSuccess drain_complete = Unit
IsSuccess start_revoke = Unit
IsSuccess revoke_ok = Unit
IsSuccess restore_ok = Unit
IsSuccess reverse_drain_complete = Unit
IsSuccess revoke_new_ok = Unit
IsSuccess _ = ⊥

-- A path of such events only, without a crash, with the ghosts that they lead to.
pub data Succeeds : RotationState → Ghost → RotationState → Ghost → Type 0 where
  ended : {s : RotationState} {g : Ghost} → Succeeds s g s g
  by :
      {s t u : RotationState} {g h k : Ghost} (v : RotationEvent)
      → IsSuccess v
      → next s v ≡ ok t
      → In h (successors g v)
      → Succeeds t h u k
      → Succeeds s g u k

-- Where the events of success lead: forward to completion, and from compensation to a rollback.
abbrev pub goal : RotationState → RotationState
goal restoring_publication = rolled_back
goal reverse_draining = rolled_back
goal revoking_new = rolled_back
goal _ = completed

abbrev Ends : RotationState → RotationState → Ghost → Type 0
Ends t s g = (h : Ghost) × Succeeds s g t h

via :
    {s t u : RotationState} {g h : Ghost} (v : RotationEvent)
    → IsSuccess v
    → next s v ≡ ok t
    → In h (successors g v)
    → Ends u t h
    → Ends u s g
via v p n i (k, r) = (k, by v p n i r)

from_revoking_new : (g : Ghost) → Ends rolled_back revoking_new g
unfolding next successors
from_revoking_new g = via revoke_new_ok tt refl (inl refl) (_, ended)

from_reverse_draining : (g : Ghost) → Ends rolled_back reverse_draining g
unfolding next successors
from_reverse_draining g = via reverse_drain_complete tt refl (inl refl) (from_revoking_new _)

from_restoring_publication : (g : Ghost) → Ends rolled_back restoring_publication g
unfolding next successors
from_restoring_publication g = via restore_ok tt refl (inl refl) (from_reverse_draining _)

from_revoking : (g : Ghost) → Ends completed revoking g
unfolding next successors
from_revoking g = via revoke_ok tt refl (inl refl) (_, ended)

from_drained : (g : Ghost) → Ends completed drained g
unfolding next successors
from_drained g = via start_revoke tt refl (inl refl) (from_revoking _)

from_draining : (g : Ghost) → Ends completed draining g
unfolding next successors
from_draining g = via drain_complete tt refl (inl refl) (from_drained _)

from_published : (g : Ghost) → Ends completed published g
unfolding next successors
from_published g = via start_drain tt refl (inl refl) (from_draining _)

from_publishing : (g : Ghost) → Ends completed publishing g
unfolding next successors
from_publishing g = via publish_ok tt refl (inl refl) (from_published _)

from_verified : (g : Ghost) → Ends completed verified g
unfolding next successors
from_verified g = via start_publish tt refl (inl refl) (from_publishing _)

from_verifying : (g : Ghost) → Ends completed verifying g
unfolding next successors
from_verifying g = via verify_ok tt refl (inl refl) (from_verified _)

from_provisioned : (g : Ghost) → Ends completed provisioned g
unfolding next successors
from_provisioned g = via start_verify tt refl (inl refl) (from_verifying _)

from_provisioning : (g : Ghost) → Ends completed provisioning g
unfolding next successors
from_provisioning g = via provision_ok tt refl (inl refl) (from_provisioned _)

from_pending : (g : Ghost) → Ends completed pending g
unfolding next successors
from_pending g = via start_provision tt refl (inl refl) (from_provisioning _)

-- From every state that is not terminal, in every world, a path of events of success and no others,
-- with no crash on it, leads on: from a state of compensation to `rolled_back`, from any other state to
-- `completed`.
pub can_finish :
    (s : RotationState) (g : Ghost) → is_terminal s ≡ false → (h : Ghost) × Succeeds s g (goal s) h
unfolding is_terminal
can_finish revoking_new g n = from_revoking_new g
can_finish reverse_draining g n = from_reverse_draining g
can_finish restoring_publication g n = from_restoring_publication g
can_finish revoking g n = from_revoking g
can_finish drained g n = from_drained g
can_finish draining g n = from_draining g
can_finish published g n = from_published g
can_finish publishing g n = from_publishing g
can_finish verified g n = from_verified g
can_finish verifying g n = from_verifying g
can_finish provisioned g n = from_provisioned g
can_finish provisioning g n = from_provisioning g
can_finish pending g n = from_pending g
can_finish completed g n = absurd cc
can_finish rolled_back g n = absurd cc
can_finish needs_operator g n = absurd cc

abbrev Reached : RotationState → Type 0
Reached s = (g : Ghost) × Reach s g

to_pending : Reached pending
to_pending = (_, here)

to_provisioning : Reached provisioning
unfolding next successors
to_provisioning = (_, then to_pending.1 (take_event start_provision tt refl (inl refl)))

to_provisioned : Reached provisioned
unfolding next successors
to_provisioned = (_, then to_provisioning.1 (take_event provision_ok tt refl (inl refl)))

to_verifying : Reached verifying
unfolding next successors
to_verifying = (_, then to_provisioned.1 (take_event start_verify tt refl (inl refl)))

to_verified : Reached verified
unfolding next successors
to_verified = (_, then to_verifying.1 (take_event verify_ok tt refl (inl refl)))

to_publishing : Reached publishing
unfolding next successors
to_publishing = (_, then to_verified.1 (take_event start_publish tt refl (inl refl)))

to_published : Reached published
unfolding next successors
to_published = (_, then to_publishing.1 (take_event publish_ok tt refl (inl refl)))

to_draining : Reached draining
unfolding next successors
to_draining = (_, then to_published.1 (take_event start_drain tt refl (inl refl)))

to_drained : Reached drained
unfolding next successors
to_drained = (_, then to_draining.1 (take_event drain_complete tt refl (inl refl)))

to_revoking : Reached revoking
unfolding next successors
to_revoking = (_, then to_drained.1 (take_event start_revoke tt refl (inl refl)))

to_completed : Reached completed
unfolding next successors
to_completed = (_, then to_revoking.1 (take_event revoke_ok tt refl (inl refl)))

to_restoring_publication : Reached restoring_publication
unfolding next successors
to_restoring_publication = (_, then to_published.1 (take_event abort_requested tt refl (inl refl)))

to_reverse_draining : Reached reverse_draining
unfolding next successors
to_reverse_draining =
    (_, then to_restoring_publication.1 (take_event restore_ok tt refl (inl refl)))

to_revoking_new : Reached revoking_new
unfolding next successors
to_revoking_new =
    (_, then to_reverse_draining.1 (take_event reverse_drain_complete tt refl (inl refl)))

to_rolled_back : Reached rolled_back
unfolding next successors
to_rolled_back = (_, then to_revoking_new.1 (take_event revoke_new_ok tt refl (inl refl)))

to_needs_operator : Reached needs_operator
unfolding next successors
to_needs_operator = (_, then to_draining.1 (take_event drain_timeout tt refl (inl refl)))

-- Every state of the machine can be reached, in some world.
pub every_state_reachable : (s : RotationState) → (g : Ghost) × Reach s g
every_state_reachable pending = to_pending
every_state_reachable provisioning = to_provisioning
every_state_reachable provisioned = to_provisioned
every_state_reachable verifying = to_verifying
every_state_reachable verified = to_verified
every_state_reachable publishing = to_publishing
every_state_reachable published = to_published
every_state_reachable draining = to_draining
every_state_reachable drained = to_drained
every_state_reachable revoking = to_revoking
every_state_reachable completed = to_completed
every_state_reachable restoring_publication = to_restoring_publication
every_state_reachable reverse_draining = to_reverse_draining
every_state_reachable revoking_new = to_revoking_new
every_state_reachable rolled_back = to_rolled_back
every_state_reachable needs_operator = to_needs_operator

-- How many events but reconciliations a state can still take.
abbrev pub rank : RotationState → ℕ
rank pending = 12
rank provisioning = 11
rank provisioned = 10
rank verifying = 9
rank verified = 8
rank publishing = 7
rank published = 6
rank draining = 5
rank drained = 4
rank restoring_publication = 3
rank reverse_draining = 2
rank revoking_new = 1
rank revoking = 1
rank _ = 0

abbrev pub IsPlain : RotationEvent → Type 0
IsPlain (reconciled o) = ⊥
IsPlain _ = Unit

-- The machine driven by a list of events; it stops at the first that a state refuses.
abbrev pub follow : RotationState → List RotationEvent → Result RotationState
follow s [] = ok s
follow s (e ∷ es) = next s e >>= λ t. follow t es

pub rank-next :
    (s : RotationState) (e : RotationEvent) {t : RotationState}
    → IsPlain e
    → next s e ≡ ok t
    → rank t < rank s
unfolding next
rank-next pending start_provision p n = ground arith
rank-next _ _ p n = ground arith

-- If the machine accepts a list of events without a reconciliation, the length of the list and the rank
-- of the state that it ends in make up at most the rank of the state it starts from, which is twelve
-- for `pending`.
pub plain_run_is_short :
    (es : List RotationEvent) (s : RotationState) {t : RotationState}
    → All IsPlain es
    → follow s es ≡ ok t
    → length es + rank t ≤ rank s
plain_run_is_short [] s p n = ground arith
plain_run_is_short (e ∷ es) s p n =
    let (u, accepted, rest) = >>=-eq-ok (next s e) (λ v. follow v es) n in
    omega (arith, rank-next s e p.0 accepted, plain_run_is_short es u p.1 rest)
