-- ===== src/Engine/Refine/Executing.antt =====
-- Executing a rotation refines the ghost model, and what that says of its end.
use kawach.Prelude.{◌≡◌, ◌⊎◌, inl, inr, refl, subst, Text, true, false, Option, none, some}
use kawach.Core.Capability.{commit_token_minted, CommitToken, commit_token, Confirmation, apply}
use kawach.Core.Effect.{Meets, Meets-continue, pure}
use kawach.Core.Error.{Result, ok, err}
use kawach.Core.Refs.{CredentialHandle, VersionId, RunId, display}
use kawach.Core.Traits.{RotationTarget}
use kawach.Rotation.Journal.{Record, run_started}
use kawach.Rotation.Safety.{Ghost, initial, consumers_have_a_working_credential}
use kawach.Rotation.Safety.Reach.{Reach, here}
use kawach.Rotation.Safety.Worlds.{
  consumers_always_served, completed_world, rolled_back_world, revoking_new_world,
}
use kawach.Rotation.State.{
  RotationState, start, revoking_new, completed, rolled_back, needs_operator, old, new,
}
use kawach.Engine.{RunContext, RotationEngine, Setting, context_for, anchor, journal_append}
use kawach.Engine.Assertions.{Blamed}
use kawach.Engine.Honest.{Honest, Reading}
use kawach.Engine.Outcome.{RotationOutcome}
use kawach.Engine.Outcome
use kawach.Engine.Refine.{journal_append-keeps, anchor-keeps}
use kawach.Engine.Refine.Ending.{Stopped, Reports, Stopped-after}
use kawach.Engine.Refine.Driving.{drive_from-Reports}
use kawach.Engine.Run.{execute_with, under_token, mode_name, execute}

module _ {Time W : Type 0} {env : Setting Time W} {target : RotationTarget} {reading : Reading W}
    {old_handle : CredentialHandle} (laws : Honest env target reading old_handle) where
  abbrev pub Anything : RunContext → Type 0
  Anything x = Unit

  abbrev pub Granted : Ghost → Option CommitToken → RotationEngine W → Type 0
  Granted g none e = ⊥
  Granted g (some c) e = reading.Shows e.world g

  pub commit_token-Granted :
      (s : RotationState) (g : Ghost) (confirmation : Confirmation) (run : RunId)
      (e : RotationEngine W)
      → Reach s g
      → reading.Shows e.world g
      → Meets (Granted g) (Stopped reading) (commit_token (anchor env) (apply confirmation) run e)
  unfolding commit_token
  commit_token-Granted s g confirmation run e r w =
      Stopped-after laws (Granted g) s g Anything
        (anchor env (commit_token_minted run confirmation) e)
        (λ n. pure (some (record { run = run; minted_at = n }))) r
        (anchor-keeps laws (commit_token_minted run confirmation) e g Anything w tt) (λ n t a. a.0)

module _ {Time W : Type 0} {env : Setting Time W} {target : RotationTarget} {reading : Reading W}
    {old_handle : CredentialHandle} (laws : Honest env target reading old_handle)
    (known : target.active ≡ some old_handle) where
  execute_with-Reports :
      (c : CommitToken) (e : RotationEngine W)
      → reading.Shows e.world initial
      → Meets (Reports reading) (Stopped reading) (execute_with env target (some c) e)
  unfolding execute_with context_for initial
  execute_with-Reports c e w =
      drive_from-Reports laws c start (record e { ctx = context_for target })
        (initial, here, (w, (known, (refl, refl), tt, refl)), λ p. refl)

  under_token-Reports :
      (confirmation : Confirmation) (e : RotationEngine W)
      → reading.Shows e.world initial
      → Meets (Reports reading) (Stopped reading) (under_token env target (apply confirmation) e)
  unfolding under_token
  under_token-Reports confirmation e w =
      Meets-continue (Granted laws initial) (Reports reading) (Stopped reading)
        (commit_token (anchor env) (apply confirmation) e.run e) (execute_with env target)
        (commit_token-Granted laws start initial confirmation e.run e here w) granted
    where
      granted :
          (o : Option CommitToken) (t : RotationEngine W)
          → Granted laws initial o t
          → Meets (Reports reading) (Stopped reading) (execute_with env target o t)
      granted none t a = elim a [ ]
      granted (some c) t a = execute_with-Reports c t a

  -- Let the provider, the backend and the rest of the world outside obey `Honest` against a reading:
  -- calls that succeed have landed and calls that fail may have, the backend is versioned and reports
  -- the version of what is published, and other calls change nothing. If the target's active credential
  -- is known and the world shows the ghost model's initial ghost, then an execution in apply mode ends
  -- at a node that the ghost model can reach: with an outcome, at one of the terminal state that the
  -- outcome names, and if it is `completed`, with the handle of a credential that this run provisioned;
  -- with an error, at some node. The one exception is a `rolled_back` whose reason is that provisioning
  -- failed: that may also end at a node of `revoking_new`, where the new credential may be live.
  pub execute_refines :
      (confirmation : Confirmation) (e : RotationEngine W)
      → reading.Shows e.world initial
      → Meets (Reports reading) (Stopped reading) (execute env target (apply confirmation) e)
  unfolding execute
  execute_refines confirmation e w =
      Stopped-after laws (Reports reading) start initial (Anything laws)
        (journal_append env started e) (λ n. under_token env target (apply confirmation)) here
        (journal_append-keeps laws started e initial (Anything laws) w tt)
        (λ n t a. under_token-Reports confirmation t a.0)
    where
      started : Record
      started =
          run_started (display target.reference.inner) target.kind
            (mode_name env (apply confirmation))

  ends :
      (r : RotationEngine W × Result (Option RotationOutcome))
      → Meets (Reports reading) (Stopped reading) r
      → Stopped reading r.0
  ends (e, ok none) m = elim m [ ]
  ends (e, ok (some (Outcome.dry_run p))) m = elim m [ ]
  ends (e, ok (some (Outcome.completed r h v))) m = (completed, m.0)
  ends (e, ok (some (Outcome.rolled_back r reason))) (inl m) = (rolled_back, m)
  ends (e, ok (some (Outcome.rolled_back r reason))) (inr m) = (revoking_new, m.1)
  ends (e, ok (some (Outcome.needs_operator r s h))) m = (needs_operator, m)
  ends (e, err x) m = m

  -- Under the conditions of `execute_refines`, however an execution in apply mode ends, with an outcome or with an
  -- error, the world that it leaves shows a ghost in which the credential that consumers read works.
  pub execute_serves :
      (confirmation : Confirmation) (e : RotationEngine W)
      → reading.Shows e.world initial
      → (g : Ghost) × reading.Shows (execute env target (apply confirmation) e).0.world g
        × (consumers_have_a_working_credential g ≡ true)
  execute_serves confirmation e w =
      let (s, (g, r, w')) =
        ends (execute env target (apply confirmation) e) (execute_refines confirmation e w) in
      (g, w', consumers_always_served s g r)

  outcome-Reports :
      {o : Option RotationOutcome} (r : RotationEngine W × Result (Option RotationOutcome))
      → r.1 ≡ ok o
      → Meets (Reports reading) (Stopped reading) r
      → Reports reading o r.0
  outcome-Reports (e, x) h m = subst (λ y. Meets (Reports reading) (Stopped reading) (e, y)) h m

  -- Under the conditions of `execute_refines`, if an execution in apply mode reports `completed`, then the handle that
  -- it reports is one that this run provisioned, and the world that it leaves shows a ghost in which
  -- the new credential was verified, is live and is published, and the old one is revoked.
  pub completed_is_true :
      (confirmation : Confirmation) (e : RotationEngine W) (run : RunId) (k : CredentialHandle)
      (version : Option VersionId)
      → reading.Shows e.world initial
      → (execute env target (apply confirmation) e).1 ≡ ok (some (Outcome.completed run k version))
      → reading.IsNewHandle k
        × (g : Ghost) × reading.Shows (execute env target (apply confirmation) e).0.world g
        × (g.verified ≡ true)
        × (g.published ≡ new)
        × (g.new_live ≡ true)
        × (g.old_live ≡ false)
  completed_is_true confirmation e run k version w h =
      let ((g, r, w'), a) =
        outcome-Reports (execute env target (apply confirmation) e) h
          (execute_refines confirmation e w) in
      let (v, p, l, o) = completed_world g r in (a, g, w', v, p, l, o)

  -- Under the conditions of `execute_refines`, if an execution in apply mode reports `rolled_back`, then the world that
  -- it leaves shows a ghost in which the old credential is live and published, and the new one is not
  -- live or the reason that the outcome gives is that provisioning failed.
  pub rolled_back_is_true :
      (confirmation : Confirmation) (e : RotationEngine W) (run : RunId) (reason : Text)
      → reading.Shows e.world initial
      → (execute env target (apply confirmation) e).1 ≡ ok (some (Outcome.rolled_back run reason))
      → (g : Ghost) × reading.Shows (execute env target (apply confirmation) e).0.world g
        × (g.published ≡ old)
        × (g.old_live ≡ true)
        × ((g.new_live ≡ false) ⊎ Blamed reason)
  rolled_back_is_true confirmation e run reason w h =
      elim (outcome-Reports (execute env target (apply confirmation) e) h
        (execute_refines confirmation e w)) [
          | inl (g, r, w') ↦ let (p, o, n) = rolled_back_world g r in (g, w', p, o, inl n)
          | inr (b, (g, r, w')) ↦ let (p, o) = revoking_new_world g r in (g, w', p, o, inr b)
        ]
