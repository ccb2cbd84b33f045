-- ===== src/Engine.antt =====
-- crates/kawach-engine/src/engine.rs: what one run carries, and the calls that it makes on the journal,
-- the audit log and the world. The world is a parameter: clocks, files, target system and backend are
-- what the functions of `Setting` do to it. The plaintext of a credential is its text.
pub mod Outcome
pub mod Plan
pub mod Perform
pub mod Drive
pub mod Run
pub mod Recover
pub mod Honest
pub mod Journalled
pub mod Audited
pub mod Assertions
pub mod Refine
pub mod Mock
use kawach.Prelude.{ℕ, Text, codes, Option, none, some, ◌++◌}
use kawach.Platform.Codec.{Codec}
use kawach.Platform.Files.{Write}
use kawach.Core.Capability.{AuditSeq, CoreAuditEvent}
use kawach.Core.Display.{error_text}
use kawach.Core.Effect.{Act, pure, modify, ◌>>=◌, ◌>>◌}
use kawach.Core.Error.{KawachError, Result, ok}
use kawach.Core.Refs.{CredentialHandle, RunId, VersionId}
use kawach.Core.Traits.{RotationProvider, RotationTarget, SecretBackend}
use kawach.Rotation.Journal.{Record, Journal, JournalEntry}
use kawach.Rotation.Journal
use kawach.Audit.Entry.{AuditRecord}
use kawach.Audit.Event.{AuditEvent, policy_refusal}
use kawach.Audit.Log.{AuditLog, Call, record_event}
use kawach.Audit.Log

pub record RunContext : Type 0 where
  pub old_handle : Option CredentialHandle
  pub new_handle : Option CredentialHandle
  pub new_value : Option Text
  pub previous_version : Option VersionId
  pub written_version : Option VersionId
  pub failure_reason : Option Text

-- `RunContext::new`.
unfoldable pub context_for : RotationTarget → RunContext
context_for target = record {
  old_handle = target.active;
  new_handle = none;
  new_value = none;
  previous_version = none;
  written_version = none;
  failure_reason = none;
}

-- What the variable holds before `execute` or `recover` sets it.
unfoldable pub no_context : RunContext
no_context = record {
  old_handle = none;
  new_handle = none;
  new_value = none;
  previous_version = none;
  written_version = none;
  failure_reason = none;
}

-- The engine with the world that it acts on; `ctx` is the variable that its methods pass along.
pub record RotationEngine (W : Type 0) : Type 0 where
  pub world : W
  pub audit : AuditLog
  pub journal : Journal
  pub run : RunId
  pub ctx : RunContext

-- What the engine is run with: the provider and the backend, the codecs of serde_json, the hash, the
-- scrubber, and what the clock and the file system answer to the writing of a journal entry and of an
-- audit record, with that of the checkpoint that may follow it.
pub record Setting (Time W : Type 0) : Type 0 where
  pub provider : RotationProvider W
  pub backend : SecretBackend W
  pub sha256 : Text → Text
  pub scrub : Text → Text
  pub journal_codec : Codec (JournalEntry Time)
  pub audit_codec : Codec AuditRecord
  pub journal_call : W → W × (Time × Write)
  pub audit_call : W → W × (Call × Call)

module _ {Time W : Type 0} (env : Setting Time W) where
  -- `self.journal.append`.
  unfoldable pub journal_append : Record → Act (RotationEngine W) ℕ
  unfolding Journal.append
  journal_append r e =
      let (world, (at, write)) = env.journal_call e.world in
      let (j, n) = Journal.append env.journal_codec e.journal at r write in
      (record e { world = world; journal = j }, n)

  -- `self.audit.append`.
  unfoldable pub audit_append : AuditEvent → Act (RotationEngine W) AuditSeq
  unfolding Log.append
  audit_append event e =
      let (world, (first, second)) = env.audit_call e.world in
      let (log, n) = Log.append env.sha256 env.audit_codec e.audit event first second in
      (record e { world = world; audit = log }, n)

  -- `self.audit` as the anchor of a capability.
  unfoldable pub anchor : CoreAuditEvent → Act (RotationEngine W) AuditSeq
  unfolding record_event
  anchor event e =
      let (world, (first, second)) = env.audit_call e.world in
      let (log, n) = record_event env.sha256 env.audit_codec e.audit event first second in
      (record e { world = world; audit = log }, n)

  -- A call of the provider or of the backend, with its result for a `match`.
  unfoldable pub call : {A : Type 0} → Act W A → Act (RotationEngine W) (Result A)
  call m e = let (world, r) = m e.world in (record e { world = world }, ok r)

  abbrev pub set : (RunContext → RunContext) → Act (RotationEngine W) Unit
  set f = modify (λ e. record e { ctx = f e.ctx })

  unfoldable pub note_failure : Text → KawachError → Act (RotationEngine W) Unit
  unfolding audit_append error_text
  note_failure operation error =
      let detail = operation ++ (codes " failed: " ++ error_text env.scrub error) in
      do
        set (λ c. record c { failure_reason = some detail })
        n ← audit_append (policy_refusal (operation ++ codes "_failed") detail)
        pure tt

  unfoldable pub note_refusal : Text → Text → Act (RotationEngine W) Unit
  unfolding audit_append
  note_refusal code detail = do
    set (λ c. record c { failure_reason = some detail })
    n ← audit_append (policy_refusal code detail)
    pure tt
