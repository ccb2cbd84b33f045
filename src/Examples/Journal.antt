-- ===== src/Examples/Journal.antt =====
-- A journal of a short run, torn and reopened.
use native.Mathlib.Decide.{ℕ_discrete}
use kawach.Prelude.{ℕ, ◌≡◌, refl, Text, codes, true, false, some, List, [], ◌∷◌, ◌++◌, text_eq}
use kawach.Platform.Codec.{Codec, IsLawful, Holds}
use kawach.Platform.Utf8.{is_utf8}
use kawach.Core.Error.{ok, err}
use kawach.Core.Refs.{RunId}
use kawach.Rotation.State.{
  start, pending, provisioning, provisioned, RotationEvent, start_provision, provision_ok, state_eq,
  next,
}
use kawach.Rotation.Journal.{
  Record, run_started, transition, JournalEntry, Journal, done, io_err, file_name, create, append,
  durable, write_failed, Progress, fresh, recovered, RecoveredRun, apply_entry, apply_record,
  malformed_at, replay, reopen,
}
use kawach.Rotation.Journal.Drive.{append_all, transitions, reopen-append_all}
use kawach.Rotation.Journal.Entries.{follow_entries, WellFormed, end_state, end_seq}
use kawach.Rotation.Journal.Exact.{replay_exact}
use kawach.Rotation.Journal.Torn.{broken_append_discarded, reopen_after_tear_loses}
use kawach.Examples.TableCodec.{table, encode_in, decode_in, is_sound, table-IsLawful}

JournalEntry-discrete : Discrete (JournalEntry ℕ)
unfolding ℕ_discrete
JournalEntry-discrete = hlevel ℕ_discrete

abbrev run : RunId
run = codes "r1"

abbrev stamped : ℕ → Record → JournalEntry ℕ
stamped n r = record { seq = n; at = 0; run = run; entry = r }

abbrev opening : Record
opening = run_started (codes "v:p") (codes "pg") (codes "apply")

abbrev intent : Record
intent = transition pending start_provision provisioning

abbrev outcome : Record
outcome = transition provisioning provision_ok provisioned

abbrev rows : List (JournalEntry ℕ × Text)
rows =
    (stamped 1 opening, codes "{1}")
    ∷ (stamped 2 intent, codes "{2}")
    ∷ (stamped 3 outcome, codes "{3}")
    ∷ (stamped 4 opening, codes "{4}")
    ∷ []

abbrev json : Codec (JournalEntry ℕ)
json = table JournalEntry-discrete rows

json-IsLawful : IsLawful json
json-IsLawful =
    table-IsLawful JournalEntry-discrete rows
      (unfold is_sound text_eq is_utf8 JournalEntry-discrete in refl)

abbrev pub join : Text → Text → Text
join dir name = dir ++ (b'/' ∷ name)

abbrev happened : List (ℕ × RotationEvent)
happened = (0, start_provision) ∷ (0, provision_ok) ∷ []

abbrev new_journal : Journal
new_journal = record { path = codes "s/r1.jsonl"; file = []; run = run; seq = 0 }

reopen-append_all_example :
    let rs = (0, opening) ∷ transitions start happened in
    (r : RecoveredRun) × (reopen json join
        (codes "s")
        run
        (append_all json new_journal rs).file
        (done tt)
      ≡ ok (append_all json new_journal rs, r))
    × (r.state ≡ provisioned)
    × (r.run ≡ run)
    × (r.torn_tail ≡ false)
unfolding next create JournalEntry-discrete encode_in
reopen-append_all_example =
    reopen-append_all json json-IsLawful join (done tt) (done tt) (codes "s") run new_journal 0
      (codes "v:p") (codes "pg") (codes "apply") happened provisioned refl refl
      ((codes "{1}", refl), ((codes "{2}", refl), ((codes "{3}", refl), tt)))

abbrev two_lines : Text
two_lines = codes "{1}" ++ (b'\n' ∷ (codes "{2}" ++ (b'\n' ∷ [])))

two_lines-Holds : Holds json (stamped 1 opening ∷ stamped 2 intent ∷ []) two_lines
unfolding JournalEntry-discrete encode_in
two_lines-Holds =
    (codes "{1}", codes "{2}" ++ (b'\n' ∷ []), refl, refl, (codes "{2}", [], refl, refl, refl))

abbrev after_two : Progress
after_two = record fresh { run = some run; state = provisioning; last_seq = 2 }

after_two_followed : follow_entries fresh (stamped 1 opening ∷ stamped 2 intent ∷ []) ≡ ok after_two
unfolding apply_entry apply_record state_eq
after_two_followed = refl

abbrev two_written : Journal
two_written = record new_journal { file = two_lines; seq = 2 }

broken_append_discarded_example :
    let (j', reported) = append json two_written 0 outcome (write_failed 1 (codes "disk full")) in
    (reported ≡ err (io_err (codes "disk full")))
    × (replay json (done j'.file) ≡ ok (recovered run after_two true))
unfolding JournalEntry-discrete encode_in
broken_append_discarded_example =
    broken_append_discarded json json-IsLawful (stamped 1 opening ∷ stamped 2 intent ∷ [])
      two_written after_two run 0 outcome b'{' [] (codes "disk full") two_lines-Holds
      after_two_followed refl (b'3', codes "}", refl, unfold is_utf8 in refl)

reopen_after_tear_loses_example :
    let j : Journal = record {
      path = join (codes "s") (file_name run);
      file = two_lines ++ codes "{";
      run = run;
      seq = 2;
    } in
    let (j', reported) = append json j 0 outcome durable in
    (reopen json join (codes "s") run (two_lines ++ codes "{") (done tt)
      ≡ ok (j, recovered run after_two true))
    × (reported ≡ ok 3)
    × (replay json (done j'.file) ≡ ok (recovered run after_two true))
    × (replay json (done (append json j' 0 opening durable).0.file) ≡ err (malformed_at 3 []))
unfolding JournalEntry-discrete encode_in decode_in text_eq
reopen_after_tear_loses_example =
    reopen_after_tear_loses json json-IsLawful join (codes "s")
      (stamped 1 opening ∷ stamped 2 intent ∷ []) two_lines after_two run (stamped 3 outcome) b'{'
      [] 0 0 outcome opening (codes "{3}") (codes "{4}") [] two_lines-Holds after_two_followed refl
      (b'3', codes "}", refl, unfold is_utf8 in refl) refl refl (unfold is_utf8 in refl) refl

replay_exact_example :
    (WellFormed start 0 (stamped 1 opening ∷ stamped 2 intent ∷ [])
      → (r : RecoveredRun) × (replay json (done two_lines) ≡ ok r))
    × ((r : RecoveredRun)
        → replay json (done two_lines) ≡ ok r
        → WellFormed start 0 (stamped 1 opening ∷ stamped 2 intent ∷ [])
          × (r.state ≡ end_state start (stamped 1 opening ∷ stamped 2 intent ∷ []))
          × (r.last_seq ≡ end_seq 0 (stamped 1 opening ∷ stamped 2 intent ∷ []))
          × (r.run ≡ run)
          × (r.torn_tail ≡ false))
replay_exact_example =
    replay_exact json json-IsLawful (stamped 1 opening) (stamped 2 intent ∷ []) two_lines
      two_lines-Holds
