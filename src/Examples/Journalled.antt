-- ===== src/Examples/Journalled.antt =====
-- A rotation that goes well, with a codec that can write the entries of its journal.
use native.Mathlib.Decide.{ℕ_discrete}
use kawach.Prelude.{ℕ, ◌≡◌, refl, Text, codes, true, false, some, List, [], ◌∷◌, text_eq}
use kawach.Platform.Codec.{Codec, IsLawful}
use kawach.Platform.Files.{done}
use kawach.Platform.Utf8.{is_utf8}
use kawach.Core.Capability.{apply}
use kawach.Core.Error.{ok}
use kawach.Core.Model.{minimal}
use kawach.Audit.Log.{append_as, write_entry, write_line}
use kawach.Rotation.Journal.{
  Record, run_started, transition, handle_assigned, publication_baseline, version_assigned,
  run_finished, JournalEntry, Journal, RecoveredRun, create, reopen,
}
use kawach.Rotation.Safety.{Ghost, initial}
use kawach.Rotation.State.{
  pending, provisioning, provisioned, verifying, verified, publishing, published, draining, drained,
  revoking, completed, start_provision, provision_ok, start_verify, verify_ok, start_publish,
  publish_ok, start_drain, drain_complete, start_revoke, revoke_ok,
}
use kawach.Engine.{RotationEngine, Setting}
use kawach.Engine.Journalled.Reopened.{execute_replays}
use kawach.Engine.Journalled.Run.{Told}
use kawach.Engine.Outcome
use kawach.Engine.Run.{execute, start_run}
use kawach.Examples.Engine.{ghost_setting, target, engine, approval, new_handle}
use kawach.Examples.Journal.{join}
use kawach.Examples.TableCodec.{table, encode_in, is_sound, table-IsLawful}

Unit-discrete : Discrete {0} Unit
Unit-discrete a b = yes refl

JournalEntry-discrete : Discrete (JournalEntry Unit)
unfolding ℕ_discrete Unit-discrete
JournalEntry-discrete = hlevel (ℕ_discrete, Unit-discrete)

abbrev stamped : ℕ → Record → JournalEntry Unit
stamped n r = record { seq = n; at = tt; run = codes "r"; entry = r }

abbrev rows : List (JournalEntry Unit × Text)
rows =
    (stamped 1 (run_started (codes "v:p") (codes "k") (codes "apply")), codes "{1}")
    ∷ (stamped 2 (transition pending start_provision provisioning), codes "{2}")
    ∷ (stamped 3 (handle_assigned new_handle), codes "{3}")
    ∷ (stamped 4 (transition provisioning provision_ok provisioned), codes "{4}")
    ∷ (stamped 5 (transition provisioned start_verify verifying), codes "{5}")
    ∷ (stamped 6 (transition verifying verify_ok verified), codes "{6}")
    ∷ (stamped 7 (transition verified start_publish publishing), codes "{7}")
    ∷ (stamped 8 (publication_baseline (some (codes "v1"))), codes "{8}")
    ∷ (stamped 9 (version_assigned (some (codes "v1")) (codes "v2")), codes "{9}")
    ∷ (stamped 10 (transition publishing publish_ok published), codes "{10}")
    ∷ (stamped 11 (transition published start_drain draining), codes "{11}")
    ∷ (stamped 12 (transition draining drain_complete drained), codes "{12}")
    ∷ (stamped 13 (transition drained start_revoke revoking), codes "{13}")
    ∷ (stamped 14 (transition revoking revoke_ok completed), codes "{14}")
    ∷ (stamped 15 (run_finished completed), codes "{15}")
    ∷ []

abbrev json : Codec (JournalEntry Unit)
json = table JournalEntry-discrete rows

json-IsLawful : IsLawful json
json-IsLawful =
    table-IsLawful JournalEntry-discrete rows
      (unfold is_sound text_eq is_utf8 JournalEntry-discrete in refl)

abbrev setting : Setting Unit Ghost
setting = record (ghost_setting true) { journal_codec = json }

abbrev new_engine : RotationEngine Ghost
new_engine = record engine {
  journal = record { path = codes "s/r.jsonl"; file = []; run = codes "r"; seq = 0 };
}

run_completes :
    (execute setting target (apply approval) new_engine).1
    ≡ ok (some (Outcome.completed (codes "r") new_handle (some (codes "v2"))))
unfolding execute append_as write_entry write_line minimal initial encode_in JournalEntry-discrete
run_completes = refl

abbrev ended : RotationEngine Ghost
ended = (execute setting target (apply approval) new_engine).0

execute_replays_example :
    (j : Journal) × (r : RecoveredRun) × (reopen json join
        (codes "s")
        (codes "r")
        ended.journal.file
        (done tt)
      ≡ ok (j, r))
    × (j.file ≡ ended.journal.file)
    × (j.seq ≡ ended.journal.seq)
    × (r.run ≡ codes "r")
    × (r.torn_tail ≡ false)
    × Told
        (some (Outcome.completed (codes "r") new_handle (some (codes "v2"))))
        r.state
        r.handle
        r.written_version
unfolding start_run create
execute_replays_example =
    execute_replays setting target (apply approval) initial engine.audit (codes "r") join (done tt)
      (done tt) (codes "s") new_engine ended
      (Outcome.completed (codes "r") new_handle (some (codes "v2"))) json-IsLawful refl
      (λ i. (ended, run_completes i))
