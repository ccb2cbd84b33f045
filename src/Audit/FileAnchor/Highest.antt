-- ===== src/Audit/FileAnchor/Highest.antt =====
-- What the anchor file gives back is the record that covers the most entries, whatever the order of its
-- lines.
use kawach.Prelude.{
  ℕ, ◌+◌, ◌≤◌, ◌≡◌, refl, sym, ap, Text, false, ◌&&◌, Bool-cases, inl, inr, Option, none, some,
  List, [], ◌∷◌, ◌++◌, In, leb, leb_iff, &&-true, ◌∙◌, ◌⊎◌, subst, text_eq, text_eq_iff, arith,
}
use kawach.Platform.Codec.{Parsed, malformed, parsed, Codec, IsLawful, Holds, Holds-append}
use kawach.Platform.Files.{Io, done, failed, Write, durable, write_failed, sync_failed}
use kawach.Platform.Lines.{read_lines, read_lines-line, read_lines-nil}
use kawach.Platform.Utf8.{is_blank, brace_not_blank}
use kawach.Core.Error.{ok}
use kawach.Audit.Checkpoint.{AnchorRecord}
use kawach.Audit.FileAnchor.{
  consider, supersedes, latest_lines, latest, publish, publish_line, on_record,
}

-- The loop over records that have been parsed.
abbrev pub best_of : Text → Option AnchorRecord → List AnchorRecord → Option AnchorRecord
best_of i best [] = best
best_of i best (r ∷ rs) = best_of i (consider i best r) rs

-- What is found covers as much as a record.
abbrev pub AtLeast : Option AnchorRecord → ℕ → Type 0
AtLeast none n = ⊥
AtLeast (some b) n = n ≤ b.entry_count

AtLeast-consider :
    (i : Text) (o : Option AnchorRecord) (r : AnchorRecord) (n : ℕ)
    → AtLeast o n
    → AtLeast (consider i o r) n
unfolding consider supersedes
AtLeast-consider i none r n h = absurd h
AtLeast-consider i (some b) r n h =
    elim (Bool-cases (text_eq r.instance_id i && leb (b.entry_count + 1) r.entry_count)) [
      | inl y ↦
          rw y (omega (arith, h, (leb_iff (b.entry_count + 1) r.entry_count).0 (&&-true _ _ y).1))
      | inr m ↦ rw m h
    ]

consider-covers :
    (i : Text) (o : Option AnchorRecord) (r : AnchorRecord)
    → r.instance_id ≡ i
    → AtLeast (consider i o r) r.entry_count
unfolding consider supersedes
consider-covers i none r own = rw ((text_eq_iff r.instance_id i).1 own) (omega arith)
consider-covers i (some b) r own =
    rw ((text_eq_iff r.instance_id i).1 own)
      (elim (Bool-cases (leb (b.entry_count + 1) r.entry_count)) [
        | inl y ↦ rw y (omega arith)
        | inr m ↦ rw m (not_more b r m)
      ])
  where
    not_more :
        (b r : AnchorRecord)
        → leb (b.entry_count + 1) r.entry_count ≡ false
        → r.entry_count ≤ b.entry_count
    not_more b r m = ground (arith, leb_iff (b.entry_count + 1) r.entry_count)

best_of-AtLeast :
    (i : Text) (o : Option AnchorRecord) (rs : List AnchorRecord) (n : ℕ)
    → AtLeast o n
    → AtLeast (best_of i o rs) n
best_of-AtLeast i o [] n h = h
best_of-AtLeast i o (r ∷ rs) n h =
    best_of-AtLeast i (consider i o r) rs n (AtLeast-consider i o r n h)

best_of-covers :
    (i : Text) (o : Option AnchorRecord) (rs : List AnchorRecord) (r : AnchorRecord)
    → In r rs
    → r.instance_id ≡ i
    → AtLeast (best_of i o rs) r.entry_count
best_of-covers i o [] r h own = absurd h
best_of-covers i o (q ∷ rs) r (inl p) own = best_of-AtLeast i (consider i o q) rs r.entry_count (
    subst (λ x. AtLeast (consider i o q) x.entry_count) (sym p)
      (consider-covers i o q (ap (λ x. x.instance_id) (sym p) ∙ own)))
best_of-covers i o (q ∷ rs) r (inr h) own = best_of-covers i (consider i o q) rs r h own

-- What is found was there before, or is one of the records and of the instance.
abbrev From : Text → Option AnchorRecord → List AnchorRecord → AnchorRecord → Type 0
From i o rs b = (o ≡ some b) ⊎ (In b rs × (b.instance_id ≡ i))

consider-From :
    (i : Text) (o : Option AnchorRecord) (r b : AnchorRecord)
    → consider i o r ≡ some b
    → (o ≡ some b) ⊎ ((b ≡ r) × (b.instance_id ≡ i))
unfolding consider
consider-From i o r b h = elim (Bool-cases (text_eq r.instance_id i && supersedes o r)) [
  | inl y ↦ inr (
    found (rw y at h),
    ap (λ x. x.instance_id) (found (rw y at h)) ∙ (text_eq_iff r.instance_id i).0 (&&-true _ _ y).0,
  )
  | inr m ↦ inl (rw m at h)
]
  where
    found : some r ≡ some b → b ≡ r
    found p = cc

best_of-From :
    (i : Text) (o : Option AnchorRecord) (rs : List AnchorRecord) (b : AnchorRecord)
    → best_of i o rs ≡ some b
    → From i o rs b
best_of-From i o [] b h = inl h
best_of-From i o (r ∷ rs) b h = elim (best_of-From i (consider i o r) rs b h) [
  | inr (k, own) ↦ inr (inr k, own)
  | inl p ↦ elim (consider-From i o r b p) [ inl q ↦ inl q | inr (q, own) ↦ inr (inl q, own) ]
]

-- What `latest` finds in a file of some records: one of those of the instance, and none of those
-- covers more entries.
abbrev pub Highest : Text → List AnchorRecord → Option AnchorRecord → Type 0
Highest i rs o =
    ((r : AnchorRecord) → In r rs → r.instance_id ≡ i → AtLeast o r.entry_count)
    × ((b : AnchorRecord) → o ≡ some b → In b rs × (b.instance_id ≡ i))

best_of-Highest : (i : Text) (rs : List AnchorRecord) → Highest i rs (best_of i none rs)
best_of-Highest i rs = (
  λ r k own. best_of-covers i none rs r k own,
  λ b h. elim (best_of-From i none rs b h) [ inl p ↦ absurd cc | inr k ↦ k ],
)

publish_line-ok :
    (file file' : Text) (o : Parsed Text) (w : Write)
    → publish_line file o w ≡ (file', ok tt)
    → (l : Text) × (o ≡ parsed l) × (file' ≡ file ++ (l ++ (b'\n' ∷ [])))
unfolding publish_line
publish_line-ok file file' (malformed e) w h = absurd cc
publish_line-ok file file' (parsed l) durable h = (l, refl, cc)
publish_line-ok file file' (parsed l) (write_failed n e) h = absurd cc
publish_line-ok file file' (parsed l) (sync_failed e) h = absurd cc

module _ (c : Codec AnchorRecord) (laws : IsLawful c) where
  not_blank : (r : AnchorRecord) (l : Text) → c.encode r ≡ parsed l → is_blank l ≡ false
  not_blank r l h = let (t, p) = laws.opens r l h in rw p (brace_not_blank t)

  latest_lines-Holds :
      (i : Text) (rs : List AnchorRecord) (f : Text) (best : Option AnchorRecord)
      → Holds c rs f
      → latest_lines c i (read_lines f) best ≡ ok (best_of i best rs)
  unfolding latest_lines on_record
  latest_lines-Holds i [] f best h = rw (h, read_lines-nil) refl
  latest_lines-Holds i (r ∷ rs) f best (l, g, enc, split, h) =
      rw
        (
          split,
          read_lines-line l g (laws.one_line r l enc) (laws.utf8 r l enc),
          not_blank r l enc,
          laws.round_trip r l enc,
        )
        (latest_lines-Holds i rs g (consider i best r) h)

  -- The codec is lawful and the file holds some records. If `publish` of one more succeeds, then
  -- `latest` succeeds on the file that it leaves, for every instance: it gives one of the records of
  -- that instance, the new one among them, and none of those covers more entries; it gives none only
  -- if there is none.
  pub latest-publish :
      (i : Text) (rs : List AnchorRecord) (file file' : Text) (made opened : Io Unit)
      (r : AnchorRecord) (w : Write)
      → Holds c rs file
      → publish c made opened file r w ≡ (file', ok tt)
      → (o : Option AnchorRecord) × (latest c (some (done file')) i ≡ ok o)
        × Highest i (rs ++ (r ∷ [])) o
  unfolding publish latest
  latest-publish i rs file file' (failed e) opened r w held h = absurd cc
  latest-publish i rs file file' (done a) (failed e) r w held h = absurd cc
  latest-publish i rs file file' (done a) (done b) r w held h =
      let (l, encoded, left) = publish_line-ok file file' (c.encode r) w h in
      rw left (
        best_of i none (rs ++ (r ∷ [])),
        latest_lines-Holds i (rs ++ (r ∷ [])) (file ++ (l ++ (b'\n' ∷ []))) none
            (Holds-append c rs r file l held encoded),
        best_of-Highest i (rs ++ (r ∷ [])),
      )
