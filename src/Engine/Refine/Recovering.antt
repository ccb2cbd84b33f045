-- ===== src/Engine/Refine/Recovering.antt =====
-- Recovering a run refines the ghost model, and what that says of its end.
use kawach.Prelude.{◌⊎◌, Option, none, some}
use kawach.Rotation.Safety.Reach.{Reach}
use kawach.Rotation.State.{revoking_new, completed, rolled_back, needs_operator}
use kawach.Engine.{RotationEngine}
use kawach.Engine.Assertions.{Blamed}
use kawach.Engine.Honest.{Honest, Reading}
use kawach.Engine.Outcome.{RotationOutcome}
use kawach.Engine.Outcome
use kawach.Engine.Refine.Ending.{Stopped, Found}
use kawach.Engine.Refine.Observing.{Observing}

-- A recovery that gives an outcome is at a node of the state that the outcome names, but where it
-- hands over to an operator, which it may do at any node, and where provisioning has failed once more.
abbrev pub Recovers : {W : Type 0} → Reading W → Option RotationOutcome → RotationEngine W → Type 0
Recovers reading none e = ⊥
Recovers reading (some (Outcome.dry_run p)) e = ⊥
Recovers reading (some (Outcome.completed r h v)) e =
    Found reading completed e × reading.IsNewHandle h
Recovers reading (some (Outcome.rolled_back r reason)) e =
    Found reading rolled_back e ⊎ (Blamed reason × Found reading revoking_new e)
Recovers reading (some (Outcome.needs_operator r s h)) e = Stopped reading e
