-- ===== src/Core/Capability.antt =====
-- crates/kawach-core/src/capability.rs: the authority to change the world and to read a plaintext. An
-- audit anchor is a state that records events; an operation that records returns its new state.
use kawach.Prelude.{ℕ, Text, Bool, true, false, Option, none, some, if◌then◌else◌}
use kawach.Core.Effect.{Act, pure, attempt, ◌>>=◌}
use kawach.Core.Refs.{RunId, display}
use kawach.Core.Scope.{ScopedRef}

abbrev pub AuditSeq : Type 0
AuditSeq = ℕ

pub data ReadOutcome : Type 0 where
  success failed abandoned : ReadOutcome

pub record Confirmation : Type 0 where
  pub operator : Text
  pub reason : Text
  pub ticket : Option Text

pub data CoreAuditEvent : Type 0 where
  commit_token_minted : RunId → Confirmation → CoreAuditEvent
  access_intent : (run : RunId) (reference purpose : Text) → CoreAuditEvent
  access_outcome : (intent_seq : AuditSeq) → ReadOutcome → CoreAuditEvent

unfoldable pub confirm : (operator reason : Text) → Confirmation
confirm operator reason = record { operator = operator; reason = reason; ticket = none }

unfoldable pub with_ticket : Confirmation → Text → Confirmation
with_ticket c ticket = record c { ticket = some ticket }

pub data ExecutionMode : Type 0 where
  dry_run : ExecutionMode
  apply : Confirmation → ExecutionMode

unfoldable pub is_apply : ExecutionMode → Bool
is_apply dry_run = false
is_apply (apply c) = true

pub record CommitToken : Type 0 where
  pub run : RunId
  pub minted_at : AuditSeq

pub record ReadIntent : Type 0 where
  pub run : RunId
  pub reference : Text
  pub purpose : Text

-- `ReadIntent::new`.
unfoldable pub intend : RunId → ScopedRef → Text → ReadIntent
unfolding display
intend run reference purpose = record {
  run = run;
  reference = display reference.inner;
  purpose = purpose;
}

pub record ReadWitness : Type 0 where
  pub intent_seq : AuditSeq
  pub intent : ReadIntent
  pub completed : Bool

-- What is granted and recorded over an anchor: `record` of the trait `AuditAnchor`.
module _ {S : Type 0} (anchor : CoreAuditEvent → Act S AuditSeq) where
  unfoldable pub commit_token : ExecutionMode → RunId → Act S (Option CommitToken)
  commit_token dry_run run = pure none
  commit_token (apply confirmation) run = do
    seq ← anchor (commit_token_minted run confirmation)
    pure (some (record { run = run; minted_at = seq }))

  unfoldable pub issue : ReadIntent → Act S ReadWitness
  issue intent = do
    seq ← anchor (access_intent intent.run intent.reference intent.purpose)
    pure (record { intent_seq = seq; intent = intent; completed = false })

  -- `complete` sets the flag before it records, so a failure is not recorded once more.
  unfoldable pub complete : ReadWitness → ReadOutcome → Act S Unit
  complete w outcome = do seq ← anchor (access_outcome w.intent_seq outcome); pure tt

  -- `Drop`: what it returns is ignored.
  unfoldable pub drop : ReadWitness → Act S Unit
  drop w =
      if w.completed
      then pure tt
      else (do recorded ← attempt (anchor (access_outcome w.intent_seq abandoned)); pure tt)
