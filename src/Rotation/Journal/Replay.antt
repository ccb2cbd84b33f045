-- ===== src/Rotation/Journal/Replay.antt =====
-- Replay of a file is the loop over the entries that the file holds.
use kawach.Prelude.{
  ℕ, ◌+◌, ◌≡◌, refl, sym, ap, Text, true, false, List, [], ◌∷◌, ◌++◌, append_assoc, append-nil,
  length, ◌∙◌, subst, fun_ext, arith,
}
use kawach.Platform.Codec.{parsed, malformed, Codec, IsLawful, Holds}
use kawach.Platform.Lines.{IsLine, read_lines, read_lines-line, read_lines-last, read_lines-nil}
use kawach.Platform.Utf8.{is_utf8, is_blank, brace_not_blank}
use native.Mathlib.Nat.{add-zero}
use kawach.Core.Error.{◌>>=◌, >>=-regroup}
use kawach.Rotation.Journal.{
  JournalEntry, Progress, fresh, done, apply_entry, replay_lines, finish, replay, on_line, is_empty,
}
use kawach.Rotation.Journal.Entries.{follow_entries}

module _ {Time : Type 0} (c : Codec (JournalEntry Time)) (laws : IsLawful c) where
  not_blank : (e : JournalEntry Time) (l : Text) → c.encode e ≡ parsed l → is_blank l ≡ false
  not_blank e l h = let (r, p) = laws.opens e l h in rw p (brace_not_blank r)

  -- One whole line is one entry.
  replay_lines-line :
      (e : JournalEntry Time) (l t : Text) (n : ℕ) (p : Progress)
      → c.encode e ≡ parsed l
      → replay_lines c n (read_lines (l ++ (b'\n' ∷ t))) p
        ≡ (apply_entry p e >>= λ q. replay_lines c (n + 1) (read_lines t) q)
  unfolding replay_lines
  replay_lines-line e l t n p h = rw (
    read_lines-line l t (laws.one_line e l h) (laws.utf8 e l h),
    not_blank e l h,
    laws.round_trip e l h,
  )

  -- The loop reads the entries that the file holds, and goes on with the bytes that follow them.
  pub replay_lines-Holds :
      (es : List (JournalEntry Time)) (f t : Text) (n : ℕ) (p : Progress)
      → Holds c es f
      → replay_lines c n (read_lines (f ++ t)) p
        ≡ (follow_entries p es >>= λ q. replay_lines c (n + length es) (read_lines t) q)
  replay_lines-Holds [] f t n p h = rw (h, add-zero n) refl
  replay_lines-Holds (e ∷ es) f t n p (l, g, enc, split, h) =
      rw (split, append_assoc l (b'\n' ∷ g) t, replay_lines-line e l (g ++ t) n p enc)
        (>>=-regroup (apply_entry p e) (λ q. replay_lines c (n + 1) (read_lines (g ++ t)) q)
          (λ q. follow_entries q es) (λ q. replay_lines c (n + length (e ∷ es)) (read_lines t) q)
          (λ q.
            replay_lines-Holds es g t (n + 1) q h
            ∙ ap (λ m. follow_entries q es >>= λ q'. replay_lines c m (read_lines t) q')
                (omega arith)))

  -- Replay of a file of whole lines with some bytes behind them.
  pub replay-Holds-append :
      (es : List (JournalEntry Time)) (f t : Text)
      → Holds c es f
      → replay c (done (f ++ t)) ≡ (
          follow_entries fresh es >>= λ q.
          replay_lines c (1 + length es) (read_lines t) q >>= finish)
  unfolding replay
  replay-Holds-append es f t h = rw (replay_lines-Holds es f t 1 fresh h) (
      sym (
        >>=-regroup (follow_entries fresh es)
          (λ q. replay_lines c (1 + length es) (read_lines t) q >>= finish)
          (λ q. replay_lines c (1 + length es) (read_lines t) q) finish (λ q. refl)))

  -- A file of whole lines is replayed to the end, and no tail is torn.
  pub replay-Holds :
      (es : List (JournalEntry Time)) (f : Text)
      → Holds c es f
      → replay c (done f) ≡ (follow_entries fresh es >>= λ q. finish (q, false))
  replay-Holds es f h =
      subst (λ b. replay c (done b) ≡ (follow_entries fresh es >>= λ q. finish (q, false)))
        (append-nil f)
        (replay-Holds-append es f [] h
          ∙ ap (λ k. follow_entries fresh es >>= k) (fun_ext λ q. none_left (1 + length es) q))
    where
      none_left :
          (n : ℕ) (q : Progress)
          → (replay_lines c n (read_lines []) q >>= finish) ≡ finish (q, false)
      none_left n q = rw read_lines-nil (unfold replay_lines in refl)

  -- A last line that ends in no newline and does not parse is discarded.
  pub replay-torn :
      (es : List (JournalEntry Time)) (f : Text) (b : ℕ) (t : Text) {m : Text}
      → Holds c es f
      → IsLine (b ∷ t)
      → is_utf8 (b ∷ t) ≡ true
      → is_blank (b ∷ t) ≡ false
      → c.decode (b ∷ t) ≡ malformed m
      → replay c (done (f ++ (b ∷ t))) ≡ (follow_entries fresh es >>= λ q. finish (q, true))
  replay-torn es f b t h line u w d =
      replay-Holds-append es f (b ∷ t) h
      ∙ ap (λ k. follow_entries fresh es >>= k) (fun_ext λ q. torn (1 + length es) q)
    where
      torn :
          (n : ℕ) (q : Progress)
          → (replay_lines c n (read_lines (b ∷ t)) q >>= finish) ≡ finish (q, true)
      torn n q = rw (read_lines-last b t line u) (unfold replay_lines in rw (w, d) refl)

  -- A line that does not parse and ends in a newline is discarded if nothing follows it, and stops
  -- the replay otherwise.
  pub replay-malformed :
      (es : List (JournalEntry Time)) (f l t : Text) {m : Text}
      → Holds c es f
      → IsLine l
      → is_utf8 l ≡ true
      → is_blank l ≡ false
      → c.decode l ≡ malformed m
      → replay c (done (f ++ (l ++ (b'\n' ∷ t)))) ≡ (
          follow_entries fresh es >>= λ q.
          on_line {Time = Time}
            (malformed m)
            (is_empty (read_lines t))
            (1 + length es)
            q
            (λ q'. replay_lines c (1 + length es + 1) (read_lines t) q')
          >>= finish)
  replay-malformed es f l t {m} h line u w d =
      replay-Holds-append es f (l ++ (b'\n' ∷ t)) h
      ∙ ap (λ k. follow_entries fresh es >>= k) (fun_ext λ q. stopped (1 + length es) q)
    where
      stopped :
          (n : ℕ) (q : Progress)
          → (replay_lines c n (read_lines (l ++ (b'\n' ∷ t))) q >>= finish) ≡ (
              on_line {Time = Time}
                (malformed m)
                (is_empty (read_lines t))
                n
                q
                (λ q'. replay_lines c (n + 1) (read_lines t) q')
              >>= finish)
      stopped n q = rw (read_lines-line l t line u) (unfold replay_lines in rw (w, d) refl)
