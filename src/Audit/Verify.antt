-- ===== src/Audit/Verify.antt =====
-- crates/kawach-audit/src/verify.rs: the verification of a chain of records, and its comparison with an
-- external anchor. An anchor is what its `latest` answers.
pub mod Chain
pub mod Summary
pub mod Located
pub mod Agree
pub mod Anchored
pub mod Dangling
use kawach.Prelude.{
  ℕ, ◌+◌, ◌-◌, ◌%◌, ◌^◌, Text, Bool, true, false, not, Option, none, some, List, [], ◌∷◌, ◌++◌,
  text_eq, ◌==◌, ltb, if◌then◌else◌,
}
use kawach.Core.Capability.{AuditSeq}
use kawach.Core.Error.{Result, ok, err}
use kawach.Audit.Hash.{EntryHash, genesis}
use kawach.Audit.Event.{AuditEvent, access_intent, access_outcome, checkpoint}
use kawach.Audit.Entry.{AuditRecord, recompute_hash}
use kawach.Audit.Checkpoint.{AnchorRecord}

pub data ChainStatus : Type 0 where
  intact : ChainStatus
  entry_edited : (at : AuditSeq) → ChainStatus
  chain_broken : (at : AuditSeq) (expected found : EntryHash) → ChainStatus
  sequence_gap : (expected found : AuditSeq) → ChainStatus
  wrong_genesis : (expected found : EntryHash) → ChainStatus
  bad_signature : (at : AuditSeq) → ChainStatus
  truncated : (anchored_count actual_count : ℕ) → ChainStatus
  anchor_mismatch : (anchored_count : ℕ) (anchored_head actual_head : EntryHash) → ChainStatus

pub record VerificationReport : Type 0 where
  pub status : ChainStatus
  pub entry_count : ℕ  -- u64
  pub head : Option EntryHash
  pub checkpoints : ℕ
  pub signatures_verified : ℕ
  pub dangling_intents : List AuditSeq

abbrev pub u64 : ℕ → ℕ
u64 n = n % 2 ^ 64

-- The variables of the loop of `verify_records` but `status`, which ends it.
pub record Loop : Type 0 where
  pub expected_prev : EntryHash
  pub expected_seq : ℕ
  pub checkpoints : ℕ
  pub open_intents : List AuditSeq
  pub head : Option EntryHash

-- `Vec::retain` of what differs from a number.
unfoldable pub retain_other : ℕ → List ℕ → List ℕ
retain_other n [] = []
retain_other n (s ∷ ss) = let rest = retain_other n ss in if s == n then rest else s ∷ rest

-- The `match &record.event` of the loop.
unfoldable pub count_event : Loop → ℕ → AuditEvent → Loop
unfolding retain_other
count_event l seq (checkpoint n h s) = record l { checkpoints = l.checkpoints + 1 }
count_event l seq (access_intent r p) = record l { open_intents = l.open_intents ++ (seq ∷ []) }
count_event l seq (access_outcome i o) = record l { open_intents = retain_other i l.open_intents }
count_event l seq _ = l

unfoldable pub advance : Loop → AuditRecord → Loop
unfolding count_event
advance l r = record (count_event l r.seq r.event) {
  expected_prev = r.hash;
  head = some r.hash;
  expected_seq = u64 (l.expected_seq + 1);
}

-- A status other than `intact` is assigned and ends the loop.
pub break_unless : ChainStatus → Loop → ChainStatus × Loop → ChainStatus × Loop
break_unless intact l rest = rest
break_unless s l rest = (s, l)

module _ (sha256 : Text → Text) where
  -- The three tests of the loop; `intact` lets it go on.
  unfoldable pub check_record : EntryHash → Loop → AuditRecord → ChainStatus
  check_record first l r =
      if not (r.seq == l.expected_seq)
      then sequence_gap l.expected_seq r.seq
      else if not (text_eq r.prev l.expected_prev)
      then (if l.expected_seq == 1
          then wrong_genesis first r.prev
          else chain_broken r.seq l.expected_prev r.prev)
      else if not (text_eq (recompute_hash sha256 r) r.hash)
      then entry_edited r.seq
      else intact

  unfoldable pub verify_loop : EntryHash → Loop → List AuditRecord → ChainStatus × Loop
  unfolding break_unless
  verify_loop first l [] = (intact, l)
  verify_loop first l (r ∷ rs) =
      let rest = verify_loop first (advance l r) rs in break_unless (check_record first l r) l rest

  abbrev pub loop_start : Text → Loop
  loop_start instance_id = record {
    expected_prev = genesis sha256 instance_id;
    expected_seq = 1;
    checkpoints = 0;
    open_intents = [];
    head = none;
  }

  unfoldable pub report_of : ChainStatus × Loop → VerificationReport
  report_of (s, l) = record {
    status = s;
    entry_count = u64 (l.expected_seq + (2 ^ 64 - 1));
    head = l.head;
    checkpoints = l.checkpoints;
    signatures_verified = 0;
    dangling_intents = l.open_intents;
  }

  -- It never returns an error.
  unfoldable pub verify_records : List AuditRecord → Text → VerificationReport
  unfolding verify_loop report_of
  verify_records records instance_id =
      report_of (verify_loop (genesis sha256 instance_id) (loop_start instance_id) records)

unfoldable pub status_intact : ChainStatus → Bool
status_intact intact = true
status_intact _ = false

unfoldable pub is_intact : VerificationReport → Bool
unfolding status_intact
is_intact r = status_intact r.status

-- `iter().find(|r| r.seq == n).map(|r| r.hash)`.
unfoldable pub hash_at : ℕ → List AuditRecord → Option EntryHash
hash_at n [] = none
hash_at n (r ∷ rs) = let rest = hash_at n rs in if r.seq == n then some r.hash else rest

unfoldable pub compare_head :
    AnchorRecord → Option EntryHash → VerificationReport → VerificationReport
compare_head a none report = report
compare_head a (some actual) report =
    if text_eq actual a.head
    then report
    else record report { status = anchor_mismatch a.entry_count a.head actual }

unfoldable pub verify_against_anchor :
    List AuditRecord → Result (Option AnchorRecord) → VerificationReport → Result VerificationReport
unfolding hash_at compare_head
verify_against_anchor records (err e) report = err e
verify_against_anchor records (ok none) report = ok report
verify_against_anchor records (ok (some a)) report = ok (
    if ltb report.entry_count a.entry_count
    then record report { status = truncated a.entry_count report.entry_count }
    else compare_head a (hash_at a.entry_count records) report)
