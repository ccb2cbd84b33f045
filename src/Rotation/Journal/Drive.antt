-- ===== src/Rotation/Journal/Drive.antt =====
-- A journal that is written while the machine runs: what replay and reopening make of its file.
use kawach.Prelude.{
  ℕ, ◌+◌, ◌≡◌, refl, sym, ap, ◌∙◌, subst, Text, Bool, false, some, List, [], ◌∷◌, ◌++◌,
  append_assoc, append-nil, All, inl, inr, ◌⊎◌,
}
use kawach.Platform.Codec.{Parsed, parsed, malformed, Codec, IsLawful, Holds, Holds-append}
use kawach.Core.Error.{KawachError, ok, err, >>=-eq-ok}
use kawach.Core.Refs.{CredentialKind, RunId}
use kawach.Rotation.State.{RotationState, start, RotationEvent, next}
use kawach.Rotation.Safety.Liveness.{follow}
use kawach.Rotation.Journal.{
  Record, run_started, transition, JournalEntry, Journal, u64, Io, done, create, append,
  append_line, durable, Write, write_failed, sync_failed, RecoveredRun, Progress, fresh, finish,
  recovered, failed, reopen, file_name, get_or_insert,
}
use kawach.Rotation.Journal.Entries.{
  follow_entries, WellFormed, end_state, end_seq, end_run, follow_entries-ok,
  follow_entries-WellFormed,
}
use kawach.Rotation.Journal.Replay.{replay-Holds}

-- The entries that are made of some records, in a run, behind the number `n`.
abbrev pub stamp : {Time : Type 0} → RunId → ℕ → List (Time × Record) → List (JournalEntry Time)
stamp run n [] = []
stamp run n ((at, r) ∷ rs) =
    record { seq = u64 (n + 1); at = at; run = run; entry = r } ∷ stamp run (u64 (n + 1)) rs

-- One `append` after another, each of them durable.
pub append_all :
    {Time : Type 0} → Codec (JournalEntry Time) → Journal → List (Time × Record) → Journal
append_all c j [] = j
append_all c j ((at, r) ∷ rs) = append_all c (append c j at r durable).0 rs

-- The records that the engine writes for some events, up to the first that a state refuses.
abbrev pub transitions :
    {Time : Type 0} → RotationState → List (Time × RotationEvent) → List (Time × Record)
transitions s [] = []
transitions s ((at, e) ∷ es) = elim (next s e) [
  | ok t ↦ (at, transition s e t) ∷ transitions t es
  | err x ↦ []
]

abbrev pub events : {Time : Type 0} → List (Time × RotationEvent) → List RotationEvent
events [] = []
events ((at, e) ∷ es) = e ∷ events es

-- The codec can write each of the entries.
abbrev pub Encodable :
    {Time : Type 0} → Codec (JournalEntry Time) → List (JournalEntry Time) → Type 0
Encodable c = All (λ e. (l : Text) × (c.encode e ≡ parsed l))

module _ {Time : Type 0} (c : Codec (JournalEntry Time)) where
  pub append-durable :
      (j : Journal) (at : Time) (r : Record) (l : Text)
      → c.encode (record { seq = u64 (j.seq + 1); at = at; run = j.run; entry = r }) ≡ parsed l
      → append c j at r durable ≡ (
        record j { seq = u64 (j.seq + 1); file = j.file ++ (l ++ (b'\n' ∷ [])) },
        ok (u64 (j.seq + 1)),
      )
  unfolding append
  append-durable j at r l h = rw h refl

  -- A record is written whole, or the call fails.
  pub append-cases :
      (j : Journal) (at : Time) (r : Record) (w : Write)
      → ((l : Text) × (c.encode (record { seq = u64 (j.seq + 1); at = at; run = j.run; entry = r })
            ≡ parsed l)
          × (append c j at r w ≡ (
            record j { seq = u64 (j.seq + 1); file = j.file ++ (l ++ (b'\n' ∷ [])) },
            ok (u64 (j.seq + 1)),
          )))
        ⊎ ((j' : Journal) × (x : KawachError) × (append c j at r w ≡ (j', err x)))
  unfolding append append_line
  append-cases j at r w =
      by_line (c.encode (record { seq = u64 (j.seq + 1); at = at; run = j.run; entry = r })) w
    where
      by_line :
          (o : Parsed Text) (w : Write)
          → ((l : Text) × (o ≡ parsed l)
              × (append_line (record j { seq = u64 (j.seq + 1) }) o w ≡ (
                record j { seq = u64 (j.seq + 1); file = j.file ++ (l ++ (b'\n' ∷ [])) },
                ok (u64 (j.seq + 1)),
              )))
            ⊎ ((j' : Journal) × (x : KawachError) × (append_line
                    (record j { seq = u64 (j.seq + 1) })
                    o
                    w
                  ≡ (j', err x)))
      by_line (malformed e) w = inr (_, _, refl)
      by_line (parsed l) durable = inl (l, refl, refl)
      by_line (parsed l) (write_failed n e) = inr (_, _, refl)
      by_line (parsed l) (sync_failed e) = inr (_, _, refl)

  append_all-cons :
      (j : Journal) (at : Time) (r : Record) (rs : List (Time × Record)) (l : Text)
      → c.encode (record { seq = u64 (j.seq + 1); at = at; run = j.run; entry = r }) ≡ parsed l
      → append_all c j ((at, r) ∷ rs)
        ≡ append_all c (record j { seq = u64 (j.seq + 1); file = j.file ++ (l ++ (b'\n' ∷ [])) }) rs
  unfolding append_all
  append_all-cons j at r rs l h = ap (λ x. append_all c x.0 rs) (append-durable j at r l h)

  pub append_all-Holds :
      (rs : List (Time × Record)) (j : Journal) (es : List (JournalEntry Time))
      → Holds c es j.file
      → Encodable c (stamp j.run j.seq rs)
      → Holds c (es ++ stamp j.run j.seq rs) (append_all c j rs).file
  unfolding append_all
  append_all-Holds [] j es h k = rw (append-nil es) h
  append_all-Holds ((at, r) ∷ rs) j es h k =
      let (l, encoded) = k.0 in
      let e : JournalEntry Time = record {
        seq = u64 (j.seq + 1);
        at = at;
        run = j.run;
        entry = r;
      } in
      let j' : Journal = record j { seq = u64 (j.seq + 1); file = j.file ++ (l ++ (b'\n' ∷ [])) } in
      let whole : Holds c ((es ++ (e ∷ [])) ++ stamp j.run (u64 (j.seq + 1)) rs)
          (append_all c j' rs).file =
        append_all-Holds rs j' (es ++ (e ∷ [])) (Holds-append c es e j.file l h encoded) k.1 in
      rw (append_all-cons j at r rs l encoded) (
        subst (λ xs. Holds c xs (append_all c j' rs).file)
          (append_assoc es (e ∷ []) (stamp j.run (u64 (j.seq + 1)) rs)) whole)

  -- Appending leaves the path and the run alone, and its number is that of the last entry.
  pub append_all_keeps :
      (rs : List (Time × Record)) (j : Journal)
      → Encodable c (stamp j.run j.seq rs)
      → ((append_all c j rs).path ≡ j.path)
        × ((append_all c j rs).run ≡ j.run)
        × ((append_all c j rs).seq ≡ end_seq j.seq (stamp j.run j.seq rs))
  unfolding append_all
  append_all_keeps [] j k = (refl, refl, refl)
  append_all_keeps ((at, r) ∷ rs) j k =
      let (l, encoded) = k.0 in
      rw (append_all-cons j at r rs l encoded) (
        append_all_keeps rs
          (record j { seq = u64 (j.seq + 1); file = j.file ++ (l ++ (b'\n' ∷ [])) }) k.1)

transitions-cons :
    {Time : Type 0} {s u : RotationState} (at : Time) (e : RotationEvent)
    (es : List (Time × RotationEvent))
    → next s e ≡ ok u
    → transitions s ((at, e) ∷ es) ≡ (at, transition s e u) ∷ transitions u es
transitions-cons at e es h = rw (h, transitions) refl

-- The entries for the events of a run make a chain to the state in which the run ends.
pub transitions-WellFormed :
    {Time : Type 0} (es : List (Time × RotationEvent)) (run : RunId) (n : ℕ) (s t : RotationState)
    → follow s (events es) ≡ ok t
    → WellFormed s n (stamp run n (transitions s es))
      × (end_state s (stamp run n (transitions s es)) ≡ t)
transitions-WellFormed [] run n s t h = (tt, cc)
transitions-WellFormed ((at, e) ∷ es) run n s t h =
    let (u, step, rest) = >>=-eq-ok (next s e) (λ v. follow v (events es)) h in
    let (w, d) = transitions-WellFormed es run (u64 (n + 1)) u t rest in
    rw (transitions-cons at e es step) ((refl, refl, w), d)

end_run-stamp :
    {Time : Type 0} (rs : List (Time × Record)) (run : RunId) (n : ℕ)
    → end_run (some run) (stamp run n rs) ≡ some run
unfolding get_or_insert
end_run-stamp [] run n = refl
end_run-stamp ((at, r) ∷ rs) run n = end_run-stamp rs run (u64 (n + 1))

pub finish-ok :
    (q : Progress) (run : RunId) (torn : Bool)
    → q.run ≡ some run
    → finish (q, torn) ≡ ok (recovered run q torn)
unfolding finish
finish-ok q run torn h = rw h refl

pub create-ok :
    (join : Text → Text → Text) (made opened : Io Unit) (dir : Text) (run : RunId) {j : Journal}
    → create join made opened dir run ≡ ok j
    → j ≡ record { path = join dir (file_name run); file = []; run = run; seq = 0 }
unfolding create
create-ok join (done a) (done b) dir run h = cc
create-ok join (done a) (failed e) dir run h = cc
create-ok join (failed e) opened dir run h = cc

module _ {Time : Type 0} (c : Codec (JournalEntry Time)) (laws : IsLawful c) where
  -- Reopening a file of whole lines gives the journal that would go on writing it.
  pub reopen-Holds :
      (join : Text → Text → Text) (dir : Text) (run : RunId) (es : List (JournalEntry Time))
      (f : Text) (q : Progress)
      → Holds c es f
      → follow_entries fresh es ≡ ok q
      → q.run ≡ some run
      → reopen c join dir run f (done tt)
        ≡ ok (
          record { path = join dir (file_name run); file = f; run = run; seq = q.last_seq },
          recovered run q false,
        )
  unfolding reopen
  reopen-Holds join dir run es f q h followed r =
      rw (replay-Holds c laws es f h, followed, finish-ok q run false r) refl

  -- If a journal is created, the start of a run and the transitions of events that the machine accepts
  -- are appended, each durably, and the codec can write them, then reopening its file succeeds: it
  -- gives back the very journal that was being written, and a run in the state that the events lead
  -- to, under the journal's run and with no torn tail.
  pub reopen-append_all :
      (join : Text → Text → Text) (made opened : Io Unit) (dir : Text) (run : RunId) (j : Journal)
      (at : Time) (reference : Text) (kind : CredentialKind) (mode : Text)
      (es : List (Time × RotationEvent)) (t : RotationState)
      → create join made opened dir run ≡ ok j
      → follow start (events es) ≡ ok t
      → Encodable c (stamp run 0 ((at, run_started reference kind mode) ∷ transitions start es))
      → let rs = (at, run_started reference kind mode) ∷ transitions start es in
        (r : RecoveredRun) × (reopen c join dir run (append_all c j rs).file (done tt)
          ≡ ok (append_all c j rs, r))
        × (r.state ≡ t)
        × (r.run ≡ run)
        × (r.torn_tail ≡ false)
  unfolding get_or_insert
  reopen-append_all join made opened dir run j at reference kind mode es t created ends k =
      let rs : List (Time × Record) =
        (at, run_started reference kind mode) ∷ transitions start es in
      let j0 : Journal = record {
        path = join dir (file_name run);
        file = [];
        run = run;
        seq = 0;
      } in
      let xs : List (JournalEntry Time) = stamp run 0 rs in
      let (w, d) = transitions-WellFormed es run (u64 1) start t ends in
      let (q, followed) = follow_entries-WellFormed xs fresh (refl, tt, w) in
      let (w', s, l, r) = follow_entries-ok xs fresh q followed in
      let named : q.run ≡ some run = r ∙ end_run-stamp (transitions start es) run (u64 1) in
      let (p, n, m) = append_all_keeps c rs j0 k in
      let same : record {
        path = join dir (file_name run);
        file = (append_all c j0 rs).file;
        run = run;
        seq = q.last_seq;
      }
          ≡ append_all c j0 rs =
        (λ i. record {
          path = sym p i;
          file = (append_all c j0 rs).file;
          run = sym n i;
          seq = (l ∙ sym m) i;
        }) in
      rw (create-ok join made opened dir run created) (
        recovered run q false,
        reopen-Holds join dir run xs (append_all c j0 rs).file q
              (append_all-Holds c rs j0 [] refl k) followed named
            ∙ ap (λ x. ok (x, recovered run q false)) same,
        s ∙ d,
        refl,
        refl,
      )
