-- ===== src/Audit/Event/Content.antt =====
-- What the hash covers of an event: all of it but the signature of a checkpoint and the difference
-- between an empty ticket and none.
use kawach.Prelude.{◌≡◌, refl, sym, ◌∙◌, ap, ◌↔◌, none, some, arith}
use kawach.Platform.Decimal.{decimal-injective}
use kawach.Core.Capability.{ReadOutcome, success, failed, abandoned}
use kawach.Audit.Event.{
  AuditEvent, access_intent, access_outcome, commit_token_minted, rotation_transition,
  policy_refusal, checkpoint, log_opened, kind, fields, or_default, outcome_debug,
}

-- An event without what the hash does not cover.
unfoldable pub covered : AuditEvent → AuditEvent
unfolding or_default
covered (commit_token_minted c) =
    commit_token_minted (record c { ticket = some (or_default c.ticket) })
covered (checkpoint n h s) = checkpoint n h none
covered e = e

outcome_debug-injective : (a b : ReadOutcome) → outcome_debug a ≡ outcome_debug b → a ≡ b
unfolding outcome_debug
outcome_debug-injective success b h = ground arith
outcome_debug-injective failed b h = ground arith
outcome_debug-injective abandoned b h = ground arith

kind-covered : (e : AuditEvent) → kind (covered e) ≡ kind e
unfolding covered kind
kind-covered (commit_token_minted c) = refl
kind-covered (checkpoint n h s) = refl
kind-covered e = ground arith

fields-covered : (e : AuditEvent) → fields (covered e) ≡ fields e
unfolding covered fields or_default
fields-covered (commit_token_minted c) = refl
fields-covered (checkpoint n h s) = refl
fields-covered e = ground arith

covered_unique : (d e : AuditEvent) → kind d ≡ kind e → fields d ≡ fields e → covered d ≡ covered e
unfolding kind fields covered
covered_unique (access_intent r p) e h k = ground arith
covered_unique (access_outcome s o) (access_outcome s' o') h k =
    cc (decimal-injective s s' (cc), outcome_debug-injective o o' (cc))
covered_unique (access_outcome s o) e h k = ground arith
covered_unique (commit_token_minted c) e h k = ground arith
covered_unique (rotation_transition f v t) e h k = ground arith
covered_unique (policy_refusal c x) e h k = ground arith
covered_unique (checkpoint n h s) (checkpoint n' h' s') e k = cc (decimal-injective n n' (cc))
covered_unique (checkpoint n h s) e h' k = ground arith
covered_unique (log_opened i s) (log_opened i' s') h k = cc (decimal-injective s s' (cc))
covered_unique (log_opened i s) e h k = ground arith

-- Two events contribute the same kind and fields to the hash exactly if they are alike but for the
-- signature of a checkpoint and for a ticket that is empty in one and missing in the other.
pub payload-exact :
    (d e : AuditEvent) → ((kind d ≡ kind e) × (fields d ≡ fields e)) ↔ (covered d ≡ covered e)
unfolding kind fields covered
payload-exact d e = (
  λ h. covered_unique d e h.0 h.1,
  λ h. (
    sym (kind-covered d) ∙ (ap kind h ∙ kind-covered e),
    sym (fields-covered d) ∙ (ap fields h ∙ fields-covered e),
  ),
)
