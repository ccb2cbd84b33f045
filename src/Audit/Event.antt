-- ===== src/Audit/Event.antt =====
-- crates/kawach-audit/src/event.rs: what the log records, and what of it enters the hash.
pub mod Content
use kawach.Prelude.{ℕ, Text, codes, Bool, true, false, Option, none, some, List, [], ◌∷◌}
use kawach.Platform.Decimal.{decimal}
use kawach.Core.Refs.{RunId}
use kawach.Core.Capability.{
  AuditSeq, ReadOutcome, success, failed, abandoned, Confirmation, CoreAuditEvent,
}
use kawach.Audit.Hash.{Payload}

pub record Actor : Type 0 where
  pub principal : Text
  pub run : Option RunId

unfoldable pub with_run : Actor → RunId → Actor
with_run a run = record a { run = some run }

-- `unwrap_or_default` of a text.
unfoldable pub or_default : Option Text → Text
or_default none = []
or_default (some t) = t

unfoldable pub run_str : Actor → Text
unfolding or_default
run_str a = or_default a.run

pub data AuditEvent : Type 0 where
  access_intent : (reference purpose : Text) → AuditEvent
  access_outcome : (intent_seq : AuditSeq) → ReadOutcome → AuditEvent
  commit_token_minted : Confirmation → AuditEvent
  rotation_transition : (from event to : Text) → AuditEvent
  policy_refusal : (code detail : Text) → AuditEvent
  checkpoint : (entry_count : ℕ) (head : Text) (signature : Option Text) → AuditEvent
  log_opened : (instance_id : Text) (resumed_at : AuditSeq) → AuditEvent

unfoldable pub is_access_intent : AuditEvent → Bool
is_access_intent (access_intent r p) = true
is_access_intent _ = false

unfoldable pub kind : AuditEvent → Text
kind (access_intent r p) = codes "access_intent"
kind (access_outcome s o) = codes "access_outcome"
kind (commit_token_minted c) = codes "commit_token_minted"
kind (rotation_transition f e t) = codes "rotation_transition"
kind (policy_refusal c d) = codes "policy_refusal"
kind (checkpoint n h s) = codes "checkpoint"
kind (log_opened i s) = codes "log_opened"

-- `Debug` of a `ReadOutcome`.
unfoldable pub outcome_debug : ReadOutcome → Text
outcome_debug success = codes "Success"
outcome_debug failed = codes "Failed"
outcome_debug abandoned = codes "Abandoned"

unfoldable pub fields : AuditEvent → List (Text × Text)
unfolding or_default outcome_debug
fields (access_intent r p) = (codes "reference", r) ∷ ((codes "purpose", p) ∷ [])
fields (access_outcome s o) =
    (codes "intent_seq", decimal s) ∷ ((codes "outcome", outcome_debug o) ∷ [])
fields (commit_token_minted c) =
    (codes "operator", c.operator)
    ∷ ((codes "reason", c.reason) ∷ ((codes "ticket", or_default c.ticket) ∷ []))
fields (rotation_transition f e t) =
    (codes "from", f) ∷ ((codes "event", e) ∷ ((codes "to", t) ∷ []))
fields (policy_refusal c d) = (codes "code", c) ∷ ((codes "detail", d) ∷ [])
fields (checkpoint n h s) = (codes "entry_count", decimal n) ∷ ((codes "head", h) ∷ [])
fields (log_opened i s) = (codes "instance", i) ∷ ((codes "resumed_at", decimal s) ∷ [])

unfoldable pub payload : AuditEvent → Payload
unfolding kind fields
payload e = record { kind = kind e; fields = fields e }

unfoldable pub from_core : CoreAuditEvent → AuditEvent
from_core (CoreAuditEvent.access_intent run r p) = access_intent r p
from_core (CoreAuditEvent.access_outcome s o) = access_outcome s o
from_core (CoreAuditEvent.commit_token_minted run c) = commit_token_minted c

unfoldable pub run_of : CoreAuditEvent → Option RunId
run_of (CoreAuditEvent.access_intent run r p) = some run
run_of (CoreAuditEvent.access_outcome s o) = none
run_of (CoreAuditEvent.commit_token_minted run c) = some run
