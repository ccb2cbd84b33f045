-- ===== src/Engine/Outcome.antt =====
-- crates/kawach-engine/src/outcome.rs: what a rotation run produces.
use kawach.Prelude.{
  ℕ, Text, codes, Bool, true, false, Option, none, some, List, [], ◌∷◌, if◌then◌else◌, length,
}
use kawach.Platform.Decimal.{decimal}
use kawach.Core.Display.{concat, handle_text}
use kawach.Core.Model.{Preflight, PreflightFinding, filter}
use kawach.Core.Refs.{CredentialHandle, CredentialKind, RunId, VersionId}
use kawach.Rotation.State.{RotationState, Step, name}
use kawach.Rotation.State.Hint.{RemediationHint}

pub record PlannedStep : Type 0 where
  pub step : Step
  pub description : Text
  pub mutating : Bool

pub record RotationPlan : Type 0 where
  pub run : RunId
  pub reference : Text
  pub kind : CredentialKind
  pub active : Option CredentialHandle
  pub preflight : Preflight
  pub steps : List PlannedStep
  pub blocked : Bool

unfoldable pub blockers : RotationPlan → List PreflightFinding
unfolding filter
blockers plan = filter (λ f. f.blocking) plan.preflight.findings

pub data RotationOutcome : Type 0 where
  dry_run : RotationPlan → RotationOutcome
  completed :
      (run : RunId) (new_handle : CredentialHandle) (version : Option VersionId) → RotationOutcome
  rolled_back : (run : RunId) (reason : Text) → RotationOutcome
  needs_operator :
      (run : RunId) (stopped_at : RotationState) (hint : Option RemediationHint) → RotationOutcome

unfoldable pub is_completed : RotationOutcome → Bool
is_completed (completed r h v) = true
is_completed _ = false

-- The method `needs_operator`.
unfoldable pub waits_for_operator : RotationOutcome → Bool
waits_for_operator (needs_operator r s h) = true
waits_for_operator _ = false

unfoldable pub exit_code : RotationOutcome → ℕ
exit_code (dry_run plan) = 0
exit_code (completed r h v) = 0
exit_code (rolled_back r reason) = 1
exit_code (needs_operator r s h) = 2

unfoldable pub summary : RotationOutcome → Text
unfolding handle_text name
summary (dry_run plan) = concat (
    codes "dry run: "
    ∷ decimal (length plan.steps)
    ∷ codes " step(s) planned for "
    ∷ plan.reference
    ∷ (if plan.blocked then codes " (BLOCKED)" else [])
    ∷ [])
summary (completed r h v) = concat (
    codes "rotation complete; "
    ∷ handle_text h
    ∷ codes " is live, previous credential revoked"
    ∷ [])
summary (rolled_back r reason) = concat (codes "rolled back safely: " ∷ reason ∷ [])
summary (needs_operator r s (some h)) =
    concat (codes "NEEDS OPERATOR at " ∷ name s ∷ codes ": " ∷ h.world_state ∷ [])
summary (needs_operator r s none) = concat (codes "NEEDS OPERATOR at " ∷ name s ∷ [])
