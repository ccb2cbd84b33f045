-- ===== src/Examples/Rotation.antt =====
-- The state machine and its ghost model at work.
use kawach.Prelude.{
  ◌≡◌, ◌≢◌, ◌↔◌, refl, ◌+◌, ◌≤◌, true, false, none, List, [], ◌∷◌, inl, inr, length,
}
use kawach.Core.Error.{ok}
use kawach.Rotation.State.{
  is_terminal, pending, publishing, published, draining, revoking, revoking_new, completed,
  rolled_back, needs_operator, old, new, RotationEvent, start_provision, provision_ok, start_verify,
  verify_ok, start_publish, publish_ok, start_drain, drain_complete, drain_timeout, start_revoke,
  revoke_ok, provision_failed, revoke_new_ok, reconciled, pending_step, next, reconcile,
}
use kawach.Rotation.State.Hint.{for_escalation}
use kawach.Rotation.State.Laws.{escalation_exact}
use kawach.Rotation.Safety.{
  Ghost, initial, consumers_have_a_working_credential, observation, successors,
}
use kawach.Rotation.Safety.Reach.{take_event, crash, here, then, Reach}
use kawach.Rotation.Safety.Worlds.{
  consumers_always_served, completed_world, rolled_back_world, published_is_verified,
  old_revoked_after_publication,
}
use kawach.Rotation.Safety.Liveness.{Succeeds, goal, can_finish, rank, plain_run_is_short}

-- A world after publication whose acknowledgement was lost.
abbrev pub published_world : Ghost
published_world = record {
  new_exists = true;
  new_live = true;
  old_live = true;
  published = new;
  verified = true;
}

-- Up to the crash in the middle of the publication.
pub to_publishing : Reach publishing published_world
unfolding initial next successors pending_step
to_publishing =
    then
      (then
        (then
          (then
            (then (then here (take_event start_provision tt refl (inl refl)))
              (take_event provision_ok tt refl (inl refl)))
            (take_event start_verify tt refl (inl refl)))
          (take_event verify_ok tt refl (inl refl)))
        (take_event start_publish tt refl (inl refl)))
      (crash refl (inr (inl refl)))

to_published : Reach published published_world
unfolding next reconcile observation successors
to_published =
    then to_publishing (take_event (reconciled (observation published_world)) refl refl (inl refl))

abbrev completed_ghost : Ghost
completed_ghost = record published_world { old_live = false }

to_revoking : Reach revoking published_world
unfolding next successors
to_revoking =
    then
      (then (then to_published (take_event start_drain tt refl (inl refl)))
        (take_event drain_complete tt refl (inl refl)))
      (take_event start_revoke tt refl (inl refl))

to_completed : Reach completed completed_ghost
unfolding next successors
to_completed = then to_revoking (take_event revoke_ok tt refl (inl refl))

-- A provision that landed and was reported as failed.
abbrev orphaned : Ghost
orphaned = record {
  new_exists = true;
  new_live = true;
  old_live = true;
  published = old;
  verified = false;
}

to_revoking_new : Reach revoking_new orphaned
unfolding initial next successors
to_revoking_new =
    then (then here (take_event start_provision tt refl (inl refl)))
      (take_event provision_failed tt refl (inr (inl refl)))

to_rolled_back : Reach rolled_back (record orphaned { new_live = false; new_exists = false })
unfolding next successors
to_rolled_back = then to_revoking_new (take_event revoke_new_ok tt refl (inl refl))

consumers_always_served_example : consumers_have_a_working_credential published_world ≡ true
consumers_always_served_example = consumers_always_served publishing published_world to_publishing

completed_world_example :
    (completed_ghost.verified ≡ true)
    × (completed_ghost.published ≡ new)
    × (completed_ghost.new_live ≡ true)
    × (completed_ghost.old_live ≡ false)
completed_world_example = completed_world completed_ghost to_completed

rolled_back_world_example : (old ≡ old) × (true ≡ true) × (false ≡ false)
rolled_back_world_example =
    rolled_back_world (record orphaned { new_live = false; new_exists = false }) to_rolled_back

published_is_verified_example : published_world.verified ≡ true
published_is_verified_example = published_is_verified published published_world to_published refl

old_revoked_after_publication_example :
    (completed_ghost.published ≡ new)
    × (completed_ghost.new_live ≡ true)
    × (completed_ghost.verified ≡ true)
old_revoked_after_publication_example =
    old_revoked_after_publication completed completed_ghost to_completed refl

can_finish_example : (h : Ghost) × Succeeds publishing published_world (goal publishing) h
can_finish_example = can_finish publishing published_world (unfold is_terminal in refl)

abbrev stalled : List RotationEvent
stalled =
    start_provision ∷ provision_ok ∷ start_verify ∷ verify_ok ∷ start_publish ∷ publish_ok
    ∷ start_drain ∷ drain_timeout ∷ []

plain_run_is_short_example : length stalled + rank needs_operator ≤ rank pending
plain_run_is_short_example =
    plain_run_is_short stalled pending {t = needs_operator}
      (tt, (tt, (tt, (tt, (tt, (tt, (tt, (tt, tt)))))))) (unfold next in refl)

escalation_exact_example :
    (for_escalation draining drain_timeout ≢ none)
    ↔ (next draining drain_timeout ≡ ok needs_operator)
escalation_exact_example = escalation_exact draining drain_timeout tt
