-- ===== src/Lib.antt =====
-- KAWACH: a development that models the core of the credential rotation tool and proves what makes it
-- correct.
--
-- The program is a workspace of Rust crates. kawach-core has the identifiers, errors, the scope rules
-- that say which secrets may be touched, and the events of its capability tokens. kawach-rotation is the
-- protocol of a rotation: the state machine, the ghost model of the world that it is checked against,
-- and the write-ahead journal from which a crashed run is recovered. kawach-audit is the log that
-- records every access and transition: its canonical encoding, its hash chain, its verification, and
-- the anchors that it publishes. kawach-engine drives a rotation: it takes the effects through a
-- provider and a backend, and writes the journal and the log around each of them.
--
--   Rotation/State       crates/kawach-rotation/src/state.rs: `next`, `reconcile`, `for_escalation`
--   Rotation/Safety      crates/kawach-rotation/src/safety.rs: `Ghost`; Reach is the exploration of
--                        crates/kawach-rotation/tests/model_check.rs as a relation, with a crash in
--                        the middle of an effect added, which that exploration does not take
--   Rotation/Journal     crates/kawach-rotation/src/journal.rs: append, replay, reopen over bytes
--   Audit/Hash           crates/kawach-audit/src/hash.rs: `canonical_entry`, `chain`, `genesis`
--   Audit/Event          crates/kawach-audit/src/event.rs: `AuditEvent`, its kind and fields
--   Audit/Entry, Audit/Log   crates/kawach-audit/src/log.rs: a record, append, checkpoint; in
--                        Audit/Log/Open reading back, open, publish_anchor
--   Audit/Verify         crates/kawach-audit/src/verify.rs: `verify_records`, `verify_against_anchor`
--   Audit/Checkpoint     crates/kawach-audit/src/checkpoint.rs: the signed message, `AnchorRecord`;
--                        in Audit/FileAnchor what `FileAnchor` publishes and gives back
--   Engine, Engine/Plan, Engine/Perform, Engine/Drive, Engine/Run, Engine/Recover
--                        crates/kawach-engine/src/engine.rs: the engine as functions from its state
--                        to its state and a result; a helper for each branch of `perform`
--   Engine/Outcome       crates/kawach-engine/src/outcome.rs
--   Engine/Honest        what the engine relies on of a provider and a versioned backend, as named laws
--                        against the ghost of crates/kawach-rotation/src/safety.rs, by which a call that
--                        fails may have landed
--   Engine/Assertions, Engine/Refine   the engine against the ghost model, effect by effect; in
--                        Engine/Refine/Drifting a run that has lost what it provisioned
--   Engine/Journalled    the engine against its journal, record by record
--   Engine/Audited       the engine against its audit log, whose file only grows
--   Engine/Mock          crates/kawach-engine/src/mock.rs: the world, the backend, the provider
--   Core/Hex, Core/Capability   crates/kawach-core/src/hex.rs, capability.rs
--   Core/Model, Core/Traits, Core/Secret   crates/kawach-core/src/model.rs, traits, secret.rs: what
--                        the engine takes from them
--   Core/Effect          code that changes a state and can fail, and what holds where it ends
--   Core/Display         the texts that errors and handles are shown as
--   Core/Scope, Core/Glob    crates/kawach-core/src/scope.rs: `Scope::decide`, `authorize`; the glob
--                        matcher, by segments and within one
--   Core/Refs, Core/Error    crates/kawach-core/src/refs.rs, error.rs
--   Platform             what is used of the standard library and of serde_json: UTF-8, lines, decimal
--                        numbers, and the codec, a parameter with the documented laws in `IsLawful`
--   Examples             runs at concrete inputs
--
-- Text is the list of its UTF-8 bytes. A u64 counter wraps at 2 ^ 64, where a debug build would panic.
-- What the file system answers to a call is an argument of the operation that makes it. A `SafeDetail`
-- stands as the call that builds it, and the scrubber, which measures entropy in floating point, is an
-- argument of the text of an error. The provider, the backend, the clock and the file system act on a
-- world of any type. Three functions run on fuel: the printing of a decimal number, whose fuel exceeds
-- the number of its digits, the matcher of a path segment, and the loop of the engine, whose fuel is
-- the rank of its state and one more; the fuel of the last two is proved to be enough. The variable
-- `ctx` of the engine is a field of its state. A deadline is the time that it allows.
--
-- SHA-256 and Ed25519 are parameters. No theorem assumes that SHA-256 has no collisions: where one would
-- be needed, the statement offers two different texts with the same hash as the other outcome. The
-- mutex of the log is left out, since an operation takes it once for each entry. Not modelled: the
-- verification of signed checkpoints, the Vault backend, secrets in memory and their fingerprints, and
-- discovery.
pub mod Prelude
pub mod Platform
pub mod Core
pub mod Rotation
pub mod Audit
pub mod Engine
mod Examples
