-- ===== src/Examples/Audit.antt =====
-- A log of a few entries under a toy hash, truncated, unsynced and reopened.
use native.Mathlib.Decide.{ℕ_discrete}
use kawach.Prelude.{
  ℕ, In, zero, suc, ◌+◌, ◌%◌, ◌≡◌, ◌↔◌, ◌⊎◌, refl, Text, codes, none, some, List, [], ◌∷◌, ◌++◌,
  length, text_eq, arith,
}
use kawach.Platform.Codec.{Codec, IsLawful}
use kawach.Platform.Decimal.{decimal}
use kawach.Platform.Utf8.{is_utf8}
use kawach.Core.Error.{KawachError, ok, err}
use kawach.Core.Hex.{encode}
use kawach.Audit.Hash.{EntryHash, genesis}
use kawach.Audit.Hash.Injective.{canonical_entry-injective}
use kawach.Audit.Event.{
  Actor, access_intent, AuditEvent, policy_refusal, checkpoint, kind, fields, payload, run_str,
}
use kawach.Audit.Event.Content.{covered, payload-exact}
use kawach.Audit.Entry.{AuditRecord, recompute_hash}
use kawach.Audit.Checkpoint.{AnchorRecord}
use kawach.Audit.Verify.{
  intact, truncated, verify_records, verify_against_anchor, check_record, advance,
}
use kawach.Audit.Verify.Chain.{Chained}
use kawach.Audit.Verify.Located.{Describes, report_located, intact_iff-Chained}
use kawach.Audit.Verify.Agree.{IsSized, AllAlike, Collision, head_binds_history}
use kawach.Audit.Verify.Dangling.{IsDangling, open_intents-IsDangling}
use kawach.Audit.Verify.Anchored.{truncation_needs_anchor}
use kawach.Audit.Log.{
  AuditLog, entry_record, append_as, write_entry, write_line, maybe_checkpoint, checkpoint_event,
  checkpoint_now,
}
use kawach.Audit.Log.Consistent.{Stands, Grown, durably, append_as-Stands}
use kawach.Audit.Log.Open.{resume, publish_anchor}
use kawach.Audit.Log.Reopen.{resume-Stands}
use kawach.Audit.Log.Unsynced.{unsynced, failed_sync_poisons}
use kawach.Audit.Log.History.{published_history_fixed}
use kawach.Examples.TableCodec.{table, encode_in, is_sound, table-IsLawful}

abbrev sum : Text → ℕ
sum [] = 0
sum (b ∷ t) = b + sum t

abbrev zeros : ℕ → Text
zeros zero = []
zeros (suc n) = 0 ∷ zeros n

-- A hash of 32 bytes.
abbrev toy : Text → Text
toy t = (sum t % 256) ∷ (length t % 256) ∷ zeros 30

AuditRecord-discrete : Discrete AuditRecord
unfolding ℕ_discrete
AuditRecord-discrete = hlevel ℕ_discrete

abbrev alice : Actor
alice = record { principal = codes "al"; run = none }

abbrev refusal : AuditEvent
refusal = policy_refusal (codes "out_of_scope") (codes "v:p")

abbrev other_refusal : AuditEvent
other_refusal = policy_refusal (codes "drain_timeout") (codes "v:p")

abbrev fresh_log : AuditLog
fresh_log = record {
  path = codes "a";
  instance_id = codes "k";
  actor = alice;
  file = [];
  seq = 0;
  head = genesis toy (codes "k");
  every_n_entries = 0;
  signer = none;
}

abbrev first_entry : AuditRecord
first_entry = entry_record toy fresh_log alice refusal (codes "t")

abbrev log_of_one : AuditLog
log_of_one = record fresh_log {
  file = codes "{1}" ++ (b'\n' ∷ []);
  seq = 1;
  head = first_entry.hash;
}

abbrev second_entry : AuditRecord
second_entry = entry_record toy log_of_one alice other_refusal (codes "t")

abbrev same_number : AuditRecord
same_number = entry_record toy fresh_log alice other_refusal (codes "t")

abbrev signed_off : AuditRecord
signed_off =
    entry_record toy log_of_one alice (checkpoint 1 (encode first_entry.hash) none) (codes "t")

abbrev rows : List (AuditRecord × Text)
rows =
    (first_entry, codes "{1}")
    ∷ (second_entry, codes "{2}")
    ∷ (same_number, codes "{3}")
    ∷ (signed_off, codes "{4}")
    ∷ []

abbrev json : Codec AuditRecord
json = table AuditRecord-discrete rows

json-IsLawful : IsLawful json
unfolding decimal is_sound text_eq is_utf8 AuditRecord-discrete entry_record genesis encode
json-IsLawful = table-IsLawful AuditRecord-discrete rows refl

log_of_one-Stands : Stands toy json log_of_one (first_entry ∷ [])
unfolding AuditRecord-discrete encode_in entry_record genesis recompute_hash
log_of_one-Stands = ((codes "{1}", [], refl, refl, refl), ((refl, refl, refl), tt), refl, refl)

first_entry-IsSized : IsSized first_entry
unfolding entry_record genesis payload kind fields run_str
first_entry-IsSized = (
  refl,
  (
    omega arith,
    omega arith,
    omega arith,
    omega arith,
    omega arith,
    omega arith,
    omega arith,
    ((omega arith, omega arith), ((omega arith, omega arith), tt)),
  ),
)

second_entry-IsSized : IsSized second_entry
unfolding entry_record genesis payload kind fields run_str
second_entry-IsSized = (
  refl,
  (
    omega arith,
    omega arith,
    omega arith,
    omega arith,
    omega arith,
    omega arith,
    omega arith,
    ((omega arith, omega arith), ((omega arith, omega arith), tt)),
  ),
)

two_verified : (verify_records toy (first_entry ∷ (second_entry ∷ [])) (codes "k")).status ≡ intact
unfolding verify_records check_record recompute_hash entry_record genesis text_eq advance
two_verified = refl

abbrev anchored : ℕ → EntryHash → AnchorRecord
anchored n h = record { instance_id = codes "k"; entry_count = n; head = h; at = codes "t" }

anchor_published :
    publish_anchor log_of_one (some (codes "t")) (λ a. ok tt) ≡ ok (anchored 1 first_entry.hash)
unfolding publish_anchor
anchor_published = refl

anchor_agrees :
    verify_against_anchor
      (first_entry ∷ second_entry ∷ [])
      (ok (some (anchored 1 first_entry.hash)))
      (verify_records toy (first_entry ∷ second_entry ∷ []) (codes "k"))
    ≡ ok (verify_records toy (first_entry ∷ second_entry ∷ []) (codes "k"))
unfolding verify_records check_record recompute_hash entry_record genesis text_eq advance
    verify_against_anchor
anchor_agrees = refl

published_history_fixed_example :
    Collision toy
    ⊎ ((zs : List AuditRecord) × (rest : List AuditRecord) × (first_entry ∷ second_entry ∷ []
          ≡ zs ++ rest)
        × AllAlike zs (first_entry ∷ []))
published_history_fixed_example =
    published_history_fixed toy json log_of_one (first_entry ∷ []) (first_entry ∷ second_entry ∷ [])
      (some (codes "t")) (λ a. ok tt) (anchored 1 first_entry.hash)
      (verify_records toy (first_entry ∷ second_entry ∷ []) (codes "k")) log_of_one-Stands
      (omega arith) (first_entry-IsSized, tt) anchor_published (omega arith)
      (first_entry-IsSized, (second_entry-IsSized, tt)) two_verified anchor_agrees two_verified

report_located_example :
    Describes toy
      (genesis toy (codes "k"))
      (first_entry ∷ same_number ∷ [])
      (verify_records toy (first_entry ∷ same_number ∷ []) (codes "k"))
report_located_example =
    report_located toy (first_entry ∷ same_number ∷ []) (codes "k") (omega arith)

truncation_needs_anchor_example :
    ((verify_records toy (first_entry ∷ []) (codes "k")).status ≡ intact)
    × (verify_against_anchor
          (first_entry ∷ [])
          (ok (some (anchored 2 second_entry.hash)))
          (verify_records toy (first_entry ∷ []) (codes "k"))
        ≡ ok
            (record (verify_records toy (first_entry ∷ []) (codes "k")) { status = truncated 2 1 }))
truncation_needs_anchor_example =
    truncation_needs_anchor toy (first_entry ∷ []) (second_entry ∷ []) (codes "k")
      (anchored 2 second_entry.hash) (omega arith) (omega arith) two_verified refl

intact_iff-Chained_example :
    ((verify_records toy (first_entry ∷ second_entry ∷ []) (codes "k")).status ≡ intact)
    ↔ Chained toy (genesis toy (codes "k")) 1 (first_entry ∷ second_entry ∷ [])
intact_iff-Chained_example =
    intact_iff-Chained toy (first_entry ∷ second_entry ∷ []) (codes "k") (omega arith)

abbrev every_entry : AuditLog
every_entry = record fresh_log { every_n_entries = 1 }

append_as-Stands_example :
    (◌≡◌ {A = ℕ} 1 (0 + 1))
    × Grown toy json every_entry []
        (entry_record toy every_entry alice refusal (codes "t"))
        (append_as toy json every_entry alice refusal
          (durably toy json (codes "t"))
          (durably toy json (codes "t"))).0
unfolding append_as AuditRecord-discrete encode_in entry_record genesis encode decimal
    checkpoint_event checkpoint_now maybe_checkpoint write_entry write_line
append_as-Stands_example =
    append_as-Stands toy json every_entry [] alice refusal (codes "t") (codes "t") _ 1
      (refl, tt, refl, refl) (omega arith) refl

resume-Stands_example :
    resume toy json (some log_of_one.file) (codes "k") ≡ ok (1, first_entry.hash)
resume-Stands_example =
    resume-Stands toy json json-IsLawful log_of_one (first_entry ∷ []) log_of_one-Stands
      (omega arith)

head_binds_history_example :
    Collision toy
    ⊎ ((genesis toy (codes "k") ≡ genesis toy (codes "k"))
        × AllAlike (first_entry ∷ []) (first_entry ∷ []))
head_binds_history_example =
    head_binds_history toy (genesis toy (codes "k")) (genesis toy (codes "k")) 1 (first_entry ∷ [])
      (first_entry ∷ []) (first_entry-IsSized, tt) (first_entry-IsSized, tt) log_of_one-Stands.1
      log_of_one-Stands.1 refl refl

canonical_entry-injective_example :
    (◌≡◌ {A = ℕ} 1 1)
    × (first_entry.prev ≡ first_entry.prev)
    × (codes "t" ≡ codes "t")
    × (codes "al" ≡ codes "al")
    × (run_str alice ≡ run_str alice)
    × (kind refusal ≡ kind refusal)
    × (fields refusal ≡ fields refusal)
unfolding entry_record payload
canonical_entry-injective_example =
    canonical_entry-injective 1 1 first_entry.prev first_entry.prev (codes "t") (codes "t")
      (codes "al") (codes "al") (run_str alice) (run_str alice) (payload refusal) (payload refusal)
      first_entry-IsSized.1 first_entry-IsSized.1 refl

abbrev unsigned_checkpoint : AuditEvent
unsigned_checkpoint = checkpoint 4 (codes "ab") none

abbrev signed_checkpoint : AuditEvent
signed_checkpoint = checkpoint 4 (codes "ab") (some (codes "cd"))

payload-exact_example :
    ((kind unsigned_checkpoint ≡ kind signed_checkpoint)
      × (fields unsigned_checkpoint ≡ fields signed_checkpoint))
    ↔ (covered unsigned_checkpoint ≡ covered signed_checkpoint)
payload-exact_example = payload-exact unsigned_checkpoint signed_checkpoint

failed_sync_poisons_example :
    let log₁ =
      (append_as toy json fresh_log alice refusal
        (unsynced toy json (codes "t") (codes "io"))
        (durably toy json (codes "t"))).0 in
    (1 ≡ first_entry.seq)
    × ((e : KawachError) × (resume toy json
            (some
              (append_as toy json log₁ alice other_refusal
                (durably toy json (codes "t"))
                (durably toy json (codes "t"))).0.file)
            (codes "k")
          ≡ err e))
unfolding append_as AuditRecord-discrete encode_in entry_record genesis encode decimal
    maybe_checkpoint write_entry write_line
failed_sync_poisons_example =
    failed_sync_poisons toy json json-IsLawful fresh_log _ _ [] alice alice refusal other_refusal
      (codes "t") (codes "t") (codes "io") (codes "{1}") (durably toy json (codes "t"))
      (durably toy json (codes "t")) _ 1 (refl, tt, refl, refl) (omega arith) refl refl refl refl

abbrev intent_entry : AuditRecord
intent_entry =
    entry_record toy fresh_log alice (access_intent (codes "v:p") (codes "use")) (codes "t")

intent_verified : (verify_records toy (intent_entry ∷ []) (codes "k")).status ≡ intact
unfolding verify_records check_record recompute_hash entry_record genesis text_eq advance
intent_verified = refl

open_intents-IsDangling_example :
    In 1 (verify_records toy (intent_entry ∷ []) (codes "k")).dangling_intents
    ↔ IsDangling 1 (intent_entry ∷ [])
open_intents-IsDangling_example =
    open_intents-IsDangling toy (intent_entry ∷ []) (codes "k") 1 (omega arith) intent_verified
