-- ===== src/Rotation/Journal/Torn.antt =====
-- What an append that breaks off leaves behind, and what becomes of a journal that goes on after it.
use kawach.Prelude.{
  ℕ, ◌+◌, ◌≡◌, refl, sym, ap, ◌∙◌, Text, true, false, some, List, [], ◌∷◌, ◌++◌, ◌≤◌, append_assoc,
  All-append, All-append_left, take, take-length, length,
}
use kawach.Platform.Codec.{parsed, malformed, Codec, IsLawful, Holds}
use kawach.Platform.Lines.{IsLine, read_lines, read_lines-line, read_lines-nil}
use kawach.Platform.Utf8.{is_utf8, is_blank, brace_not_blank}
use kawach.Core.Error.{ok, err, ◌>>=◌}
use kawach.Core.Refs.{RunId}
use kawach.Rotation.Journal.{
  Record, JournalEntry, Journal, u64, Io, done, io_err, append, durable, write_failed, Progress,
  fresh, recovered, replay, reopen, file_name, on_line, is_empty, malformed_at, finish,
  RecoveredRun,
}
use kawach.Rotation.Journal.Entries.{follow_entries}
use kawach.Rotation.Journal.Replay.{replay-torn, replay-malformed}
use kawach.Rotation.Journal.Drive.{append-durable, finish-ok}

module _ {Time : Type 0} (c : Codec (JournalEntry Time)) (laws : IsLawful c) where
  -- The first bytes of an entry: not all of them, and not in the middle of a character.
  abbrev pub Torn : JournalEntry Time → Text → Type 0
  Torn e p = (b : ℕ) × (q : Text) × (c.encode e ≡ parsed (p ++ (b ∷ q))) × (is_utf8 p ≡ true)

  Torn-IsLine : (e : JournalEntry Time) (p : Text) → Torn e p → IsLine p
  Torn-IsLine e p (b, q, h, u) =
      All-append_left (λ x. 32 ≤ x) p (b ∷ q) (laws.one_line e (p ++ (b ∷ q)) h)

  Torn-brace : (e : JournalEntry Time) (b : ℕ) (p : Text) → Torn e (b ∷ p) → b ≡ b'{'
  Torn-brace e b p (d, q, h, u) = let (r, opens) = laws.opens e ((b ∷ p) ++ (d ∷ q)) h in cc

  Torn-is_blank :
      (e : JournalEntry Time) (b : ℕ) (p t : Text) → Torn e (b ∷ p) → is_blank (b ∷ t) ≡ false
  Torn-is_blank e b p t torn = rw (Torn-brace e b p torn) (brace_not_blank t)

  append-write_failed :
      (j : Journal) (at : Time) (r : Record) (l : Text) (n : ℕ) (m : Text)
      → c.encode (record { seq = u64 (j.seq + 1); at = at; run = j.run; entry = r }) ≡ parsed l
      → append c j at r (write_failed n m) ≡ (
        record j { seq = u64 (j.seq + 1); file = j.file ++ take n (l ++ (b'\n' ∷ [])) },
        err (io_err m),
      )
  unfolding append
  append-write_failed j at r l n m h = rw h refl

  take-torn : (p q t : Text) → take (length p) ((p ++ q) ++ t) ≡ p
  take-torn p q t = rw (append_assoc p q t) (take-length p (q ++ t))

  -- A file of whole entries with a torn one behind them.
  replay-Torn :
      (es : List (JournalEntry Time)) (f : Text) (q : Progress) (run : RunId)
      (e : JournalEntry Time) (b : ℕ) (p : Text)
      → Holds c es f
      → follow_entries fresh es ≡ ok q
      → q.run ≡ some run
      → Torn e (b ∷ p)
      → replay c (done (f ++ (b ∷ p))) ≡ ok (recovered run q true)
  replay-Torn es f q run e b p h followed named torn =
      let (x, bad) = laws.cut_off e (b ∷ p) torn.0 torn.1 torn.2 in
      replay-torn c laws es f b p {m = x} h (Torn-IsLine e (b ∷ p) torn) torn.3
        (Torn-is_blank e b p p torn) bad
      ∙ rw followed (finish-ok q run true named)

  -- If a file of whole entries replays to some progress `q` of a run, and the append of an entry stops
  -- after some of its bytes but the last, at least one and not in the middle of a character, then the
  -- append reports an error, and the file replays to the same progress with its torn tail flagged.
  pub broken_append_discarded :
      (es : List (JournalEntry Time)) (j : Journal) (q : Progress) (run : RunId) (at : Time)
      (r : Record) (b : ℕ) (p m : Text)
      → Holds c es j.file
      → follow_entries fresh es ≡ ok q
      → q.run ≡ some run
      → Torn (record { seq = u64 (j.seq + 1); at = at; run = j.run; entry = r }) (b ∷ p)
      → let (j', reported) = append c j at r (write_failed (length (b ∷ p)) m) in
        (reported ≡ err (io_err m)) × (replay c (done j'.file) ≡ ok (recovered run q true))
  broken_append_discarded es j q run at r b p m h followed named torn =
      let l : Text = (b ∷ p) ++ (torn.0 ∷ torn.1) in
      let kept : (append c j at r (write_failed (length (b ∷ p)) m)).0.file ≡ j.file ++ (b ∷ p) =
        ap (λ x. x.0.file) (append-write_failed j at r l (length (b ∷ p)) m torn.2)
        ∙ ap (λ x. j.file ++ x) (take-torn (b ∷ p) (torn.0 ∷ torn.1) (b'\n' ∷ [])) in
      (
        ap (λ x. x.1) (append-write_failed j at r l (length (b ∷ p)) m torn.2),
        rw kept (replay-Torn es j.file q run _ b p h followed named torn),
      )

  -- Where a journal with a torn tail is reopened, the next entry is written behind the torn bytes.
  reopen-Torn :
      (join : Text → Text → Text) (dir : Text) (es : List (JournalEntry Time)) (f : Text)
      (q : Progress) (run : RunId) (e : JournalEntry Time) (b : ℕ) (p : Text)
      → Holds c es f
      → follow_entries fresh es ≡ ok q
      → q.run ≡ some run
      → Torn e (b ∷ p)
      → reopen c join dir run (f ++ (b ∷ p)) (done tt)
        ≡ ok (
          record {
            path = join dir (file_name run);
            file = f ++ (b ∷ p);
            run = run;
            seq = q.last_seq;
          },
          recovered run q true,
        )
  unfolding reopen
  reopen-Torn join dir es f q run e b p h followed named torn =
      rw (replay-Torn es f q run e b p h followed named torn) refl

  -- The file in which a whole entry stands behind a torn one, and what follows that.
  glued : (f p l t : Text) → (f ++ p) ++ (l ++ (b'\n' ∷ t)) ≡ f ++ ((p ++ l) ++ (b'\n' ∷ t))
  glued f p l t = append_assoc f p _ ∙ ap (λ x. f ++ x) (sym (append_assoc p l (b'\n' ∷ t)))

  replay-glued :
      (es : List (JournalEntry Time)) (f : Text) (q : Progress) (run : RunId)
      (e e' : JournalEntry Time) (b : ℕ) (p l t x : Text)
      → Holds c es f
      → follow_entries fresh es ≡ ok q
      → Torn e (b ∷ p)
      → c.encode e' ≡ parsed l
      → is_utf8 ((b ∷ p) ++ l) ≡ true
      → c.decode ((b ∷ p) ++ l) ≡ malformed x
      → replay c (done ((f ++ (b ∷ p)) ++ (l ++ (b'\n' ∷ t)))) ≡ (
          on_line {Time = Time}
            (malformed x)
            (is_empty (read_lines t))
            (1 + length es)
            q
            (λ q'. kawach.Rotation.Journal.replay_lines c (1 + length es + 1) (read_lines t) q')
          >>= finish)
  replay-glued es f q run e e' b p l t x h followed torn enc u bad = rw (glued f (b ∷ p) l t) (
      replay-malformed c laws es f ((b ∷ p) ++ l) t {m = x} h
        (All-append (λ y. 32 ≤ y) (b ∷ p) l (Torn-IsLine e (b ∷ p) torn) (laws.one_line e' l enc)) u
        (Torn-is_blank e b p (p ++ l) torn) bad
      ∙ rw followed refl)

  replay-glued_last :
      (es : List (JournalEntry Time)) (f : Text) (q : Progress) (run : RunId)
      (e e' : JournalEntry Time) (b : ℕ) (p l x : Text)
      → Holds c es f
      → follow_entries fresh es ≡ ok q
      → q.run ≡ some run
      → Torn e (b ∷ p)
      → c.encode e' ≡ parsed l
      → is_utf8 ((b ∷ p) ++ l) ≡ true
      → c.decode ((b ∷ p) ++ l) ≡ malformed x
      → replay c (done ((f ++ (b ∷ p)) ++ (l ++ (b'\n' ∷ [])))) ≡ ok (recovered run q true)
  replay-glued_last es f q run e e' b p l x h followed named torn enc u bad =
      replay-glued es f q run e e' b p l [] x h followed torn enc u bad
      ∙ rw read_lines-nil (unfold on_line is_empty in finish-ok q run true named)

  replay-glued_more :
      (es : List (JournalEntry Time)) (f : Text) (q : Progress) (run : RunId)
      (e e' e'' : JournalEntry Time) (b : ℕ) (p l l' x : Text)
      → Holds c es f
      → follow_entries fresh es ≡ ok q
      → Torn e (b ∷ p)
      → c.encode e' ≡ parsed l
      → c.encode e'' ≡ parsed l'
      → is_utf8 ((b ∷ p) ++ l) ≡ true
      → c.decode ((b ∷ p) ++ l) ≡ malformed x
      → replay c (done (((f ++ (b ∷ p)) ++ (l ++ (b'\n' ∷ []))) ++ (l' ++ (b'\n' ∷ []))))
        ≡ err (malformed_at (1 + length es) x)
  replay-glued_more es f q run e e' e'' b p l l' x h followed torn enc enc' u bad =
      let t : Text = l' ++ (b'\n' ∷ []) in
      let shape : ((f ++ (b ∷ p)) ++ (l ++ (b'\n' ∷ []))) ++ t
          ≡ (f ++ (b ∷ p)) ++ (l ++ (b'\n' ∷ t)) =
        append_assoc (f ++ (b ∷ p)) (l ++ (b'\n' ∷ [])) t
        ∙ ap (λ y. (f ++ (b ∷ p)) ++ y) (append_assoc l (b'\n' ∷ []) t) in
      rw shape (
        replay-glued es f q run e e' b p l t x h followed torn enc u bad
        ∙ rw (read_lines-line l' [] (laws.one_line e'' l' enc') (laws.utf8 e'' l' enc'))
            (unfold on_line is_empty in refl))

  -- Suppose that a file of whole entries replays to some progress `q` of a run, that a torn entry
  -- stands behind them, and that the torn bytes with a whole entry behind them, which the codec writes
  -- for the next record of the reopened journal, are UTF-8 and do not parse. Then reopening succeeds,
  -- and the append of that record is reported as durable, but the file replays to `q` as if the record
  -- had not been written; and after the append of one record more the file does not replay at all.
  pub reopen_after_tear_loses :
      (join : Text → Text → Text) (dir : Text) (es : List (JournalEntry Time)) (f : Text)
      (q : Progress) (run : RunId) (e : JournalEntry Time) (b : ℕ) (p : Text) (at at' : Time)
      (r r' : Record) (l l' x : Text)
      → Holds c es f
      → follow_entries fresh es ≡ ok q
      → q.run ≡ some run
      → Torn e (b ∷ p)
      → c.encode (record { seq = u64 (q.last_seq + 1); at = at; run = run; entry = r }) ≡ parsed l
      → c.encode (record { seq = u64 (u64 (q.last_seq + 1) + 1); at = at'; run = run; entry = r' })
        ≡ parsed l'
      → is_utf8 ((b ∷ p) ++ l) ≡ true
      → c.decode ((b ∷ p) ++ l) ≡ malformed x
      → let j : Journal = record {
        path = join dir (file_name run);
        file = f ++ (b ∷ p);
        run = run;
        seq = q.last_seq;
      } in
        let (j', reported) = append c j at r durable in
        (reopen c join dir run (f ++ (b ∷ p)) (done tt) ≡ ok (j, recovered run q true))
        × (reported ≡ ok (u64 (q.last_seq + 1)))
        × (replay c (done j'.file) ≡ ok (recovered run q true))
        × (replay c (done (append c j' at' r' durable).0.file)
            ≡ err (malformed_at (1 + length es) x))
  reopen_after_tear_loses join dir es f q run e b p at at' r r' l l' x h followed named torn enc
        enc' u bad =
      let j : Journal = record {
        path = join dir (file_name run);
        file = f ++ (b ∷ p);
        run = run;
        seq = q.last_seq;
      } in
      let j' : Journal = record j {
        seq = u64 (q.last_seq + 1);
        file = (f ++ (b ∷ p)) ++ (l ++ (b'\n' ∷ []));
      } in
      let first = append-durable c j at r l enc in
      let second = append-durable c j' at' r' l' enc' in
      (
        reopen-Torn join dir es f q run e b p h followed named torn,
        ap (λ y. y.1) first,
        ap (λ y. replay c (done y.0.file)) first
            ∙ replay-glued_last es f q run e _ b p l x h followed named torn enc u bad,
        ap (λ y. replay c (done (append c y.0 at' r' durable).0.file)) first
            ∙ ap (λ y. replay c (done y.0.file)) second
            ∙ replay-glued_more es f q run e _ _ b p l l' x h followed torn enc enc' u bad,
      )
