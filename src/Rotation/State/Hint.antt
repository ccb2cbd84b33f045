-- ===== src/Rotation/State/Hint.antt =====
-- crates/kawach-rotation/src/state.rs: the structured guidance attached to an escalation. The texts
-- stay shut, so that a proof sees which hint is given and not its letters.
use kawach.Prelude.{Text, codes, ◌++◌, Option, none, some}
use kawach.Rotation.State.{
  RotationState, draining, revoking, restoring_publication, reverse_draining, revoking_new,
  RotationEvent, drain_timeout, revoke_failed, restore_failed, reverse_drain_timeout,
  revoke_new_failed, reconciled,
}

pub record RemediationHint : Type 0 where
  pub code : Text
  pub world_state : Text
  pub refused : Text
  pub operator_action : Text

pub drain_timeout_hint : RemediationHint
drain_timeout_hint = record {
  code = codes "drain_timeout";
  world_state =
      codes "Both credentials are valid. The new value is published; some "
      ++ (codes "consumers are still authenticating with the old credential.");
  refused =
      codes "Refused to revoke the old credential. Consumers are still using it, "
      ++ (codes "so revoking would drop their connections.");
  operator_action =
      codes "Find the consumers still on the old credential (the journal records "
      ++ (codes "the last observed session count) and restart or reload them. Then "
          ++ (codes "re-run `kawach rotate resume <run-id>`. There is no outage in the "
              ++ (codes "meantime.")));
}

pub revoke_failed_hint : RemediationHint
revoke_failed_hint = record {
  code = codes "revoke_failed";
  world_state =
      codes "The new credential is live and published. The old credential could "
      ++ (codes "not be revoked and may still be usable.");
  refused =
      codes "Refused to retry indefinitely, which would leave a credential that "
      ++ (codes "should be dead quietly alive.");
  operator_action =
      codes "Revoke the old credential manually in its home system, then mark the "
      ++ (codes "run complete with `kawach rotate resolve <run-id> --revoked`. Until "
          ++ (codes "then, treat the old credential as live."));
}

pub restore_failed_hint : RemediationHint
restore_failed_hint = record {
  code = codes "restore_failed";
  world_state =
      codes "Both credentials are live. The backend still publishes the new value; "
      ++ (codes "the attempt to republish the old one failed.");
  refused = codes "Refused to revoke the new credential, which consumers may be using.";
  operator_action =
      codes "Restore the previous version in the backend manually, or abandon the "
      ++ (codes "rollback and complete the rotation forward with `kawach rotate resume "
          ++ (codes "<run-id> --forward`."));
}

pub reverse_drain_timeout_hint : RemediationHint
reverse_drain_timeout_hint = record {
  code = codes "reverse_drain_timeout";
  world_state =
      codes "The old value is published again and both credentials are live. Some "
      ++ (codes "consumers are still using the new credential.");
  refused = codes "Refused to revoke the new credential while consumers hold it.";
  operator_action =
      codes "Restart the consumers still on the new credential, then resume. "
      ++ (codes "Completing the rotation forward is also safe from here.");
}

pub revoke_new_failed_hint : RemediationHint
revoke_new_failed_hint = record {
  code = codes "revoke_new_failed";
  world_state =
      codes "The old value is published and live. The new credential could not be "
      ++ (codes "revoked and remains usable.");
  refused = codes "Refused to leave an unreferenced live credential unreported.";
  operator_action =
      codes "Revoke the new credential manually. It is unreferenced, so this "
      ++ (codes "cannot affect consumers.");
}

pub reconciliation_inconclusive_hint : RemediationHint
reconciliation_inconclusive_hint = record {
  code = codes "reconciliation_inconclusive";
  world_state = codes "Recovery could not determine which value is published.";
  refused = codes "Refused to act on an unknown publication state.";
  operator_action =
      codes "Inspect the backend and confirm which value is current, then use "
      ++ (codes "`kawach rotate resolve <run-id>`.");
}

unfoldable pub for_escalation : RotationState → RotationEvent → Option RemediationHint
for_escalation draining drain_timeout = some drain_timeout_hint
for_escalation revoking revoke_failed = some revoke_failed_hint
for_escalation restoring_publication restore_failed = some restore_failed_hint
for_escalation reverse_draining reverse_drain_timeout = some reverse_drain_timeout_hint
for_escalation revoking_new revoke_new_failed = some revoke_new_failed_hint
for_escalation from (reconciled o) = some reconciliation_inconclusive_hint
for_escalation from event = none
