-- ===== src/Rotation/Safety/Worlds.antt =====
-- The safety properties S1, S2, S3 and S5 of crates/kawach-rotation/tests/model_check.rs, at every
-- node that a rotation can reach, crashes in the middle of an effect included.
use kawach.Prelude.{◌≡◌, true, false, arith}
use kawach.Rotation.State.{RotationState, pending, revoking_new, completed, rolled_back, old, new}
use kawach.Rotation.Safety.{Ghost, consumers_have_a_working_credential}
use kawach.Rotation.Safety.Invariant.{Fits, Reach-Fits}
use kawach.Rotation.Safety.Reach.{Reach}

works : (s : RotationState) (g : Ghost) → Fits s g → consumers_have_a_working_credential g ≡ true
unfolding consumers_have_a_working_credential
works pending g f = ground arith
works _ g f = ground arith

-- S2: at every node that a rotation can reach, the credential that consumers read is live.
pub consumers_always_served :
    (s : RotationState) (g : Ghost) → Reach s g → consumers_have_a_working_credential g ≡ true
consumers_always_served s g r = works s g (Reach-Fits r)

-- S1 and S3a: in every world in which a rotation completes, the new credential is published, live
-- and was verified, and the old one is revoked.
pub completed_world :
    (g : Ghost)
    → Reach completed g
    → (g.verified ≡ true) × (g.published ≡ new) × (g.new_live ≡ true) × (g.old_live ≡ false)
completed_world g r = ground (arith, Reach-Fits r)

-- S3b: in every world in which a rotation is rolled back, the old credential is live and published
-- again, and the new one is not live.
pub rolled_back_world :
    (g : Ghost)
    → Reach rolled_back g
    → (g.published ≡ old) × (g.old_live ≡ true) × (g.new_live ≡ false)
rolled_back_world g r = ground (arith, Reach-Fits r)

verified_before : (s : RotationState) (g : Ghost) → Fits s g → g.published ≡ new → g.verified ≡ true
verified_before pending g f p = ground arith
verified_before _ g f p = ground arith

-- S5: at every node that a rotation can reach, if consumers read the new credential, it was verified.
pub published_is_verified :
    (s : RotationState) (g : Ghost) → Reach s g → g.published ≡ new → g.verified ≡ true
published_is_verified s g r p = verified_before s g (Reach-Fits r) p

replaced :
    (s : RotationState) (g : Ghost)
    → Fits s g
    → g.old_live ≡ false
    → (g.published ≡ new) × (g.new_live ≡ true) × (g.verified ≡ true)
replaced pending g f p = ground arith
replaced _ g f p = ground arith

-- At every node that a rotation can reach at which the old credential is no longer live, the new one
-- is what consumers read, is live, and was verified.
pub old_revoked_after_publication :
    (s : RotationState) (g : Ghost)
    → Reach s g
    → g.old_live ≡ false
    → (g.published ≡ new) × (g.new_live ≡ true) × (g.verified ≡ true)
old_revoked_after_publication s g r p = replaced s g (Reach-Fits r) p

-- At every node at which the new credential is being revoked, consumers read the old one, and it is
-- live.
pub revoking_new_world :
    (g : Ghost) → Reach revoking_new g → (g.published ≡ old) × (g.old_live ≡ true)
revoking_new_world g r = Reach-Fits r
