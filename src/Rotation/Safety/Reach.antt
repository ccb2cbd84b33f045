-- ===== src/Rotation/Safety/Reach.antt =====
-- The reachable (state, world) pairs: the exploration of crates/kawach-rotation/tests/model_check.rs
-- as an inductive relation, with one kind of step more, a crash in the middle of an effect.
use kawach.Prelude.{◌≡◌, Option, some, List, [], ◌∷◌, In}
use kawach.Core.Error.{ok}
use kawach.Rotation.State.{
  RotationState, start, Step, provision, publish, revoke_old, restore_publication, revoke_new,
  RotationEvent, provision_ok, publish_ok, revoke_ok, restore_ok, revoke_new_ok, reconciled,
  pending_step, next,
}
use kawach.Rotation.Safety.{Ghost, initial, observation, successors}

-- Recovery is driven by a truthful observation; every other event may come at any time.
abbrev pub Truthful : Ghost → RotationEvent → Type 0
Truthful g (reconciled o) = o ≡ observation g
Truthful g _ = Unit

-- The worlds in which the effect of a step may leave a process that dies before it learns the
-- outcome: the effect has not landed, or it has.
abbrev pub after_crash : Option Step → Ghost → List Ghost
after_crash (some provision) g = g ∷ successors g provision_ok
after_crash (some publish) g = g ∷ successors g publish_ok
after_crash (some revoke_old) g = g ∷ successors g revoke_ok
after_crash (some restore_publication) g = g ∷ successors g restore_ok
after_crash (some revoke_new) g = g ∷ successors g revoke_new_ok
after_crash _ g = g ∷ []

-- Steps from one node to another.
pub data Edge (s : RotationState) (g : Ghost) (t : RotationState) (h : Ghost) : Type 0 where
  take_event :
      (e : RotationEvent) → Truthful g e → next s e ≡ ok t → In h (successors g e) → Edge s g t h
  crash : t ≡ s → In h (after_crash (pending_step s) g) → Edge s g t h

-- The nodes that can be reached from a node.
pub data From (s : RotationState) (g : Ghost) : RotationState → Ghost → Type 0 where
  here : From s g s g
  then : {t u : RotationState} {h k : Ghost} → From s g t h → Edge t h u k → From s g u k

-- The nodes that a rotation can reach.
abbrev pub Reach : RotationState → Ghost → Type 0
Reach = From start initial
