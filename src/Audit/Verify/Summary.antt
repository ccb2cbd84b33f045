-- ===== src/Audit/Verify/Summary.antt =====
-- crates/kawach-audit/src/verify.rs: the one-line summary of a report.
use kawach.Prelude.{ℕ, Text, codes, Option, none, some, ◌∷◌, ◌++◌}
use kawach.Platform.Decimal.{decimal}
use kawach.Audit.Hash.{EntryHash, short}
use kawach.Audit.Verify.{
  VerificationReport, ChainStatus, intact, entry_edited, chain_broken, sequence_gap, wrong_genesis,
  bad_signature, truncated, anchor_mismatch,
}

-- `Display` of an `AuditSeq`.
display_seq : ℕ → Text
display_seq n = b'#' ∷ decimal n

short_or_dash : Option EntryHash → Text
short_or_dash none = codes "-"
short_or_dash (some h) = short h

summary_of : ChainStatus → ℕ → Option EntryHash → Text
unfolding display_seq short_or_dash
summary_of intact n h =
    codes "intact, " ++ (decimal n ++ (codes " entries, head " ++ short_or_dash h))
summary_of (entry_edited at) n h =
    codes "entry " ++ (display_seq at ++ codes " was edited in place")
summary_of (chain_broken at e f) n h =
    codes "chain broken at "
    ++ (display_seq at ++ codes ": an entry was inserted, deleted, or reordered")
summary_of (sequence_gap e f) n h =
    codes "sequence gap: expected " ++ (display_seq e ++ (codes ", found " ++ display_seq f))
summary_of (wrong_genesis e f) n h = codes "first entry does not chain from this instance's genesis"
summary_of (bad_signature at) n h =
    codes "checkpoint at " ++ (display_seq at ++ codes " has an invalid signature")
summary_of (truncated a k) n h =
    codes "TRUNCATED: anchor attests to "
    ++ (decimal a ++ (codes " entries, only " ++ (decimal k ++ codes " present")))
summary_of (anchor_mismatch a e f) n h =
    codes "history was rewritten at or below anchored entry " ++ decimal a

unfoldable pub summary : VerificationReport → Text
unfolding summary_of
summary r = summary_of r.status r.entry_count r.head
