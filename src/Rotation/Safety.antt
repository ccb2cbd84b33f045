-- ===== src/Rotation/Safety.antt =====
-- crates/kawach-rotation/src/safety.rs: the ghost model, which tracks what is true of the world while
-- the state machine runs. The children hold the relation of reachable nodes and what is proved of it.
pub mod Reach
pub mod Invariant
pub mod Worlds
pub mod Liveness
use kawach.Prelude.{Bool, true, false, List, [], ◌∷◌}
use kawach.Rotation.State.{
  PublishedSide, old, new, unknown, Observation, RotationEvent, provision_ok, provision_failed,
  verify_ok, publish_ok, publish_failed, revoke_ok, revoke_failed, restore_ok, restore_failed,
  revoke_new_ok, revoke_new_failed,
}

pub record Ghost : Type 0 where
  pub new_exists : Bool
  pub new_live : Bool
  pub old_live : Bool
  pub published : PublishedSide
  pub verified : Bool

unfoldable pub initial : Ghost
initial = record {
  new_exists = false;
  new_live = false;
  old_live = true;
  published = old;
  verified = false;
}

side_works : PublishedSide → Ghost → Bool
side_works old g = g.old_live
side_works new g = g.new_live
side_works unknown g = false

unfoldable pub consumers_have_a_working_credential : Ghost → Bool
unfolding side_works
consumers_have_a_working_credential g = side_works g.published g

-- What an `observe()` call would return in this world.
unfoldable pub observation : Ghost → Observation
observation g = record { new_live = g.new_live; old_live = g.old_live; published = g.published }

-- Every world that could result from an event: a failure may or may not have landed first.
unfoldable pub successors : Ghost → RotationEvent → List Ghost
successors g provision_ok = record g { new_exists = true; new_live = true } ∷ []
successors g provision_failed = g ∷ record g { new_exists = true; new_live = true } ∷ []
successors g verify_ok = record g { verified = true } ∷ []
successors g publish_ok = record g { published = new } ∷ []
successors g publish_failed = g ∷ record g { published = new } ∷ []
successors g revoke_ok = record g { old_live = false } ∷ []
successors g revoke_failed = g ∷ record g { old_live = false } ∷ []
successors g restore_ok = record g { published = old } ∷ []
successors g restore_failed = g ∷ record g { published = old } ∷ []
successors g revoke_new_ok = record g { new_live = false; new_exists = false } ∷ []
successors g revoke_new_failed = g ∷ record g { new_live = false; new_exists = false } ∷ []
successors g event = g ∷ []
