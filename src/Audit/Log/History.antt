-- ===== src/Audit/Log/History.antt =====
-- An anchor that a log has published fixes the history of that log.
use kawach.Prelude.{◌-◌, ◌^◌, ◌<◌, ◌≡◌, ◌∙◌, ◌⊎◌, Text, Option, none, some, List, ◌++◌, length, All}
use kawach.Platform.Codec.{Codec}
use kawach.Core.Error.{Result, ok, >>=-eq-ok}
use kawach.Audit.Entry.{AuditRecord}
use kawach.Audit.Checkpoint.{AnchorRecord}
use kawach.Audit.Verify.{VerificationReport, verify_records, verify_against_anchor, intact}
use kawach.Audit.Verify.Agree.{IsSized, AllAlike, Collision}
use kawach.Audit.Verify.Anchored.{anchor_binds_history}
use kawach.Audit.Log.{AuditLog}
use kawach.Audit.Log.Consistent.{Stands}
use kawach.Audit.Log.Open.{publish_anchor}

published :
    (log : AuditLog) (now : Option Text) (publish : AnchorRecord → Result {0} Unit)
    (a : AnchorRecord)
    → publish_anchor log now publish ≡ ok a
    → (a.entry_count ≡ log.seq) × (a.head ≡ log.head)
unfolding publish_anchor
published log none publish a h = cc
published log (some at) publish a h =
    let (u, e, f) = >>=-eq-ok (publish _) (λ v. ok _) h in (cc, cc)

module _ (sha256 : Text → Text) (c : Codec AuditRecord) where
  -- If a log that stands at the end of a non-empty chain of sized records in its file publishes an
  -- anchor, and fewer than 2 ^ 64 - 1 sized records later verify for its instance and agree with that
  -- anchor, then they begin with the records that the log had, but for what the hash does not
  -- cover, or there are two different texts with the same SHA-256.
  pub published_history_fixed :
      (log : AuditLog) (ys rs : List AuditRecord) (now : Option Text)
      (publish : AnchorRecord → Result {0} Unit) (a : AnchorRecord) (after : VerificationReport)
      → Stands sha256 c log ys
      → 0 < length ys
      → All IsSized ys
      → publish_anchor log now publish ≡ ok a
      → length rs < 2 ^ 64 - 1
      → All IsSized rs
      → (verify_records sha256 rs log.instance_id).status ≡ intact
      → verify_against_anchor rs (ok (some a)) (verify_records sha256 rs log.instance_id) ≡ ok after
      → after.status ≡ intact
      → Collision sha256
        ⊎ ((zs : List AuditRecord) × (rest : List AuditRecord) × (rs ≡ zs ++ rest) × AllAlike zs ys)
  published_history_fixed log ys rs now publish a after (held, chain, count, head) p sy h b sr s e
        t =
      let (n, k) = published log now publish a h in
      anchor_binds_history sha256 rs ys log.instance_id a after b sr sy chain p (n ∙ count)
        (k ∙ head) s e t
