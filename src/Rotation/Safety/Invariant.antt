-- ===== src/Rotation/Safety/Invariant.antt =====
-- What is true of the world in each state of the machine, and that every step keeps it.
use kawach.Prelude.{◌≡◌, ◌≢◌, refl, true, false, In, arith}
use kawach.Core.Error.{ok}
use kawach.Rotation.State.{
  RotationState, pending, provisioning, provisioned, verifying, verified, publishing, published,
  draining, drained, revoking, restoring_publication, reverse_draining, revoking_new, completed,
  rolled_back, needs_operator, PublishedSide, old, new, unknown, RotationEvent, start_provision,
  next, reconcile, pending_step,
}
use kawach.Rotation.Safety.{Ghost, initial, observation, successors}
use kawach.Rotation.Safety.Reach.{
  Truthful, after_crash, Edge, take_event, crash, From, here, then, Reach,
}

-- Where a run has stopped for a human, consumers read a credential that works; if it is the new one,
-- it was verified.
abbrev pub Settled : Ghost → PublishedSide → Type 0
Settled g old = g.old_live ≡ true
Settled g new = (g.new_live ≡ true) × (g.verified ≡ true)
Settled g unknown = ⊥

abbrev pub Fits : RotationState → Ghost → Type 0
Fits pending g = (g.published ≡ old) × (g.old_live ≡ true) × (g.new_live ≡ false)
Fits provisioning g = (g.published ≡ old) × (g.old_live ≡ true)
Fits provisioned g = (g.published ≡ old) × (g.old_live ≡ true) × (g.new_live ≡ true)
Fits verifying g = (g.published ≡ old) × (g.old_live ≡ true) × (g.new_live ≡ true)
Fits verified g =
    (g.published ≡ old) × (g.old_live ≡ true) × (g.new_live ≡ true) × (g.verified ≡ true)
Fits publishing g =
    (g.published ≢ unknown) × (g.old_live ≡ true) × (g.new_live ≡ true) × (g.verified ≡ true)
Fits published g =
    (g.published ≡ new) × (g.new_live ≡ true) × (g.verified ≡ true) × (g.old_live ≡ true)
Fits draining g =
    (g.published ≡ new) × (g.new_live ≡ true) × (g.verified ≡ true) × (g.old_live ≡ true)
Fits drained g =
    (g.published ≡ new) × (g.new_live ≡ true) × (g.verified ≡ true) × (g.old_live ≡ true)
Fits revoking g = (g.published ≡ new) × (g.new_live ≡ true) × (g.verified ≡ true)
Fits restoring_publication g =
    (g.published ≢ unknown) × (g.old_live ≡ true) × (g.new_live ≡ true) × (g.verified ≡ true)
Fits reverse_draining g =
    (g.published ≡ old) × (g.old_live ≡ true) × (g.new_live ≡ true) × (g.verified ≡ true)
Fits revoking_new g = (g.published ≡ old) × (g.old_live ≡ true)
Fits completed g =
    (g.published ≡ new) × (g.new_live ≡ true) × (g.verified ≡ true) × (g.old_live ≡ false)
Fits rolled_back g = (g.published ≡ old) × (g.old_live ≡ true) × (g.new_live ≡ false)
Fits needs_operator g = Settled g g.published

Fits-next :
    (s : RotationState) (e : RotationEvent) (g h : Ghost) {t : RotationState}
    → Fits s g
    → Truthful g e
    → next s e ≡ ok t
    → In h (successors g e)
    → Fits t h
unfolding next reconcile successors observation
Fits-next pending start_provision g h f tr n i = ground arith
Fits-next _ _ g h f tr n i = ground arith

Fits-crash :
    (s : RotationState) (g h : Ghost) → Fits s g → In h (after_crash (pending_step s) g) → Fits s h
unfolding pending_step successors
Fits-crash pending g h f i = ground arith
Fits-crash _ g h f i = ground arith

pub Edge-Fits : {s t : RotationState} {g h : Ghost} → Edge s g t h → Fits s g → Fits t h
Edge-Fits {s} {g = g} {h = h} (take_event e tr n i) f = Fits-next s e g h f tr n i
Edge-Fits {s} {g = g} {h = h} (crash e i) f = rw e (Fits-crash s g h f i)

pub From-Fits :
    {s : RotationState} {g : Ghost} {t : RotationState} {h : Ghost}
    → From s g t h
    → Fits s g
    → Fits t h
From-Fits here f = f
From-Fits (then r e) f = Edge-Fits e (From-Fits r f)

pub Reach-Fits : {s : RotationState} {g : Ghost} → Reach s g → Fits s g
unfolding initial
Reach-Fits r = From-Fits r (refl, refl, refl)
