-- ===== src/Engine/Refine/Ending.antt =====
-- Where a run of the engine ends, against the ghost model.
use kawach.Prelude.{◌⊎◌, Option, none, some}
use kawach.Core.Effect.{Act, Meets, continue}
use kawach.Core.Error.{Result, ok, err}
use kawach.Core.Refs.{CredentialHandle}
use kawach.Core.Traits.{RotationTarget}
use kawach.Rotation.Safety.{Ghost}
use kawach.Rotation.Safety.Reach.{Reach}
use kawach.Rotation.State.{RotationState, revoking_new, completed, rolled_back, needs_operator}
use kawach.Engine.{RunContext, RotationEngine, Setting}
use kawach.Engine.Assertions.{Blamed}
use kawach.Engine.Honest.{Honest, Reading}
use kawach.Engine.Outcome.{RotationOutcome}
use kawach.Engine.Outcome
use kawach.Engine.Refine.{Still, Seen}

-- A world that is shown at a node of the ghost model that a rotation can reach.
abbrev pub Found : {W : Type 0} → Reading W → RotationState → RotationEngine W → Type 0
Found reading s e = (g : Ghost) × Reach s g × reading.Shows e.world g

-- A run that stops with an error is at some node.
abbrev pub Stopped : {W : Type 0} → Reading W → RotationEngine W → Type 0
Stopped reading e = (s : RotationState) × Found reading s e

-- A run that gives an outcome is at a node of the state that the outcome names, but where provisioning
-- has failed: there the new credential may still be there to revoke.
abbrev pub Reports : {W : Type 0} → Reading W → Option RotationOutcome → RotationEngine W → Type 0
Reports reading none e = ⊥
Reports reading (some (Outcome.dry_run p)) e = ⊥
Reports reading (some (Outcome.completed r h v)) e =
    Found reading completed e × reading.IsNewHandle h
Reports reading (some (Outcome.rolled_back r reason)) e =
    Found reading rolled_back e ⊎ (Blamed reason × Found reading revoking_new e)
Reports reading (some (Outcome.needs_operator r s h)) e = Found reading needs_operator e

module _ {Time W : Type 0} {env : Setting Time W} {target : RotationTarget} {reading : Reading W}
    {old_handle : CredentialHandle} (laws : Honest env target reading old_handle) where
  -- A record is written at a node, or the run stops there.
  pub Stopped-after :
      {A B : Type 0} (Q : B → RotationEngine W → Type 0) (s : RotationState) (h : Ghost)
      (C : RunContext → Type 0) (r : RotationEngine W × Result A) (k : A → Act (RotationEngine W) B)
      → Reach s h
      → Meets (Still laws h C) (Seen laws h) r
      → ((a : A) (t : RotationEngine W) → Still laws h C a t → Meets Q (Stopped reading) (k a t))
      → Meets Q (Stopped reading) (continue r k)
  Stopped-after Q s h C (t, ok a) k j m rest = rest a t m
  Stopped-after Q s h C (t, err x) k j m rest = (s, (h, j, m))
