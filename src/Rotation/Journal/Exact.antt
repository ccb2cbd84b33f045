-- ===== src/Rotation/Journal/Exact.antt =====
-- Which files of whole lines replay, and that a line damaged in the middle stops the replay.
use kawach.Prelude.{
  ◌+◌, ◌≡◌, refl, sym, ap, ◌∙◌, Text, Bool, true, false, Option, none, some, List, [], ◌∷◌, ◌++◌,
  length,
}
use kawach.Platform.Codec.{parsed, malformed, Codec, IsLawful, Holds}
use kawach.Platform.Lines.{IsLine, read_lines-line}
use kawach.Platform.Utf8.{is_utf8, is_blank}
use kawach.Core.Error.{ok, err, >>=-eq-ok}
use kawach.Core.Refs.{RunId}
use kawach.Rotation.State.{start}
use kawach.Rotation.Journal.{
  JournalEntry, Io, done, on_line, is_empty, malformed_at, Progress, fresh, recovered, finish,
  replay, RecoveredRun, get_or_insert,
}
use kawach.Rotation.Journal.Entries.{
  follow_entries, WellFormed, end_state, end_seq, end_run, follow_entries-ok,
  follow_entries-WellFormed,
}
use kawach.Rotation.Journal.Replay.{replay-Holds, replay-malformed}
use kawach.Rotation.Journal.Drive.{finish-ok}

finish-effect :
    (q : Progress) (torn : Bool) (r : RecoveredRun)
    → finish (q, torn) ≡ ok r
    → (run : RunId) × (q.run ≡ some run) × (r ≡ recovered run q torn)
unfolding finish
finish-effect q torn r h = named q.run refl h
  where
    named :
        (o : Option RunId)
        → q.run ≡ o
        → kawach.Rotation.Journal.with_run o q torn ≡ ok r
        → (run : RunId) × (q.run ≡ some run) × (r ≡ recovered run q torn)
    named none e k = cc
    named (some run) e k = (run, e, cc)

end_run-some :
    {Time : Type 0} (es : List (JournalEntry Time)) (run : RunId) → end_run (some run) es ≡ some run
unfolding get_or_insert
end_run-some [] run = refl
end_run-some (e ∷ es) run = end_run-some es run

module _ {Time : Type 0} (c : Codec (JournalEntry Time)) (laws : IsLawful c) where
  -- A file of one or more whole entries replays exactly if their numbers go up by one from 1 and their
  -- transitions, and the closing entries among them, make a chain from the initial state; what it
  -- replays to is then in the state in which the chain ends, has the last number and the first
  -- entry's run, and has no torn tail.
  pub replay_exact :
      (e : JournalEntry Time) (es : List (JournalEntry Time)) (f : Text)
      → Holds c (e ∷ es) f
      → (WellFormed start 0 (e ∷ es) → (r : RecoveredRun) × (replay c (done f) ≡ ok r))
        × ((r : RecoveredRun)
            → replay c (done f) ≡ ok r
            → WellFormed start 0 (e ∷ es)
              × (r.state ≡ end_state start (e ∷ es))
              × (r.last_seq ≡ end_seq 0 (e ∷ es))
              × (r.run ≡ e.run)
              × (r.torn_tail ≡ false))
  unfolding get_or_insert
  replay_exact e es f h = (accepts, λ r. sound r)
    where
      accepts : WellFormed start 0 (e ∷ es) → (r : RecoveredRun) × (replay c (done f) ≡ ok r)
      accepts w =
          let (q, followed) = follow_entries-WellFormed (e ∷ es) fresh w in
          let (w', s, l, r) = follow_entries-ok (e ∷ es) fresh q followed in
          (
            recovered e.run q false,
            replay-Holds c laws (e ∷ es) f h
                ∙ rw followed (finish-ok q e.run false (r ∙ end_run-some es e.run)),
          )

      sound :
          (r : RecoveredRun)
          → replay c (done f) ≡ ok r
          → WellFormed start 0 (e ∷ es)
            × (r.state ≡ end_state start (e ∷ es))
            × (r.last_seq ≡ end_seq 0 (e ∷ es))
            × (r.run ≡ e.run)
            × (r.torn_tail ≡ false)
      sound r k =
          let (q, followed, finished) =
            >>=-eq-ok (follow_entries fresh (e ∷ es)) (λ v. finish (v, false))
              (sym (replay-Holds c laws (e ∷ es) f h) ∙ k) in
          let (w, s, l, n) = follow_entries-ok (e ∷ es) fresh q followed in
          let (run, named, shape) = finish-effect q false r finished in
          (
            w,
            ap (λ x. x.state) shape ∙ s,
            ap (λ x. x.last_seq) shape ∙ l,
            cc (ap (λ x. x.run) shape, named, n, end_run-some es e.run),
            ap (λ x. x.torn_tail) shape,
          )

  -- If a file of whole entries replays to some progress, and behind them come a line of UTF-8 that is
  -- not blank and does not parse, a whole entry, and anything at all, then replay is refused with the
  -- number of the damaged line.
  pub damaged_line_refused :
      (es : List (JournalEntry Time)) (f : Text) (q : Progress) (l m : Text) (e : JournalEntry Time)
      (l' t : Text)
      → Holds c es f
      → follow_entries fresh es ≡ ok q
      → IsLine l
      → is_utf8 l ≡ true
      → is_blank l ≡ false
      → c.decode l ≡ malformed m
      → c.encode e ≡ parsed l'
      → replay c (done (f ++ (l ++ (b'\n' ∷ (l' ++ (b'\n' ∷ t))))))
        ≡ err (malformed_at (1 + length es) m)
  damaged_line_refused es f q l m e l' t h followed line u w d enc =
      replay-malformed c laws es f l (l' ++ (b'\n' ∷ t)) {m = m} h line u w d
      ∙ rw (followed, read_lines-line l' t (laws.one_line e l' enc) (laws.utf8 e l' enc))
          (unfold on_line is_empty in refl)
