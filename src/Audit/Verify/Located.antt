-- ===== src/Audit/Verify/Located.antt =====
-- The report of a verification: it is intact exactly for a chain, and locates where the chain ends.
use kawach.Prelude.{
  ℕ, suc, ◌+◌, ◌-◌, ◌^◌, ◌<◌, ◌≡◌, refl, sym, ap, ◌∙◌, subst, ◌↔◌, Text, none, List, [], ◌∷◌, ◌++◌,
  append-nil, length, length-append, arith,
}
use kawach.Audit.Hash.{EntryHash, genesis}
use kawach.Audit.Entry.{AuditRecord}
use kawach.Audit.Verify.{
  ChainStatus, intact, VerificationReport, verify_records, report_of, loop_start, Loop,
}
use kawach.Audit.Verify.Chain.{
  latest, last_hash, walk-expected_seq, walk-head, Chained, Diverges, nowhere, at_number,
  at_genesis, at_link, at_contents, Located, verify_loop-Located,
}

prefix_bound :
    (xs ys zs : List AuditRecord) → length zs < 2 ^ 64 - 1 → zs ≡ xs ++ ys → 1 + length xs < 2 ^ 64
prefix_bound xs ys zs b e =
    let sum : length zs ≡ length xs + length ys = ap length e ∙ length-append xs ys in omega arith

module _ (sha256 : Text → Text) where
  -- What a report says of the records that it is about.
  abbrev pub Describes : EntryHash → List AuditRecord → VerificationReport → Type 0
  Describes first rs report =
      (good : List AuditRecord) × (rest : List AuditRecord) × (rs ≡ good ++ rest)
      × Chained sha256 first 1 good
      × (report.entry_count ≡ length good)
      × (report.head ≡ latest none good)
      × Diverges sha256 first (last_hash first good) (1 + length good) rest report.status

  describe :
      (i : Text) (rs : List AuditRecord) (o : ChainStatus × Loop)
      → length rs < 2 ^ 64 - 1
      → Located sha256 (genesis sha256 i) (loop_start sha256 i) rs o
      → Describes (genesis sha256 i) rs (report_of sha256 o)
  unfolding Located report_of
  describe i rs (s, l) b (good, rest, e, c, w, d) =
      let bound : 1 + length good < 2 ^ 64 = prefix_bound good rest rs b e in
      let last_seq = walk-expected_seq (loop_start sha256 i) good bound in
      (
        good,
        rest,
        e,
        c,
        rw (w, last_seq) (omega arith),
        rw w (walk-head (loop_start sha256 i) good),
        d,
      )

  -- For fewer than 2 ^ 64 - 1 records, verification finds the longest chain from the genesis hash
  -- that they begin with, reports its length and head, and says what is wrong with the record
  -- behind it, or that there is none.
  pub report_located :
      (rs : List AuditRecord) (i : Text)
      → length rs < 2 ^ 64 - 1
      → Describes (genesis sha256 i) rs (verify_records sha256 rs i)
  unfolding verify_records
  report_located rs i b =
      describe i rs _ b
        (verify_loop-Located sha256 (genesis sha256 i) (loop_start sha256 i) rs (omega arith))

  pub Chained-append :
      (h : EntryHash) (n : ℕ) (xs ys : List AuditRecord)
      → Chained sha256 h n (xs ++ ys)
        ↔ (Chained sha256 h n xs × Chained sha256 (last_hash h xs) (n + length xs) ys)
  Chained-append h n [] ys = (
    λ c. (tt, subst (λ k. Chained sha256 h k ys) (omega arith) c),
    λ p. subst (λ k. Chained sha256 h k ys) (omega arith) p.1,
  )
  Chained-append h n (x ∷ xs) ys =
      let later = Chained-append x.hash (n + 1) xs ys in
      let shift : n + 1 + length xs ≡ n + suc (length xs) = omega arith in
      (
        λ c. (
          (c.0, (later.0 c.1).0),
          subst (λ k. Chained sha256 (last_hash x.hash xs) k ys) shift (later.0 c.1).1,
        ),
        λ p. (
          p.0.0,
          later.1 (p.0.1, subst (λ k. Chained sha256 (last_hash x.hash xs) k ys) (sym shift) p.1),
        ),
      )

  Diverges-nowhere :
      (first h : EntryHash) (n : ℕ) (rest : List AuditRecord) (s : ChainStatus)
      → Diverges sha256 first h n rest s
      → (s ≡ intact) ↔ Chained sha256 h n rest
  Diverges-nowhere first h n _ _ nowhere = (λ e. tt, λ c. refl)
  Diverges-nowhere first h n _ _ (at_number r rs x) = (λ e. cc, λ c. absurd (x c.0.0))
  Diverges-nowhere first h n _ _ (at_genesis r rs p q x) = (λ e. cc, λ c. absurd (x c.0.1))
  Diverges-nowhere first h n _ _ (at_link r rs p q x) = (λ e. cc, λ c. absurd (x c.0.1))
  Diverges-nowhere first h n _ _ (at_contents r rs p q x) = (λ e. cc, λ c. absurd (x c.0.2))

  pub Diverges-empty :
      (first h : EntryHash) (n : ℕ) (rest : List AuditRecord) (s : ChainStatus)
      → Diverges sha256 first h n rest s
      → s ≡ intact
      → rest ≡ []
  Diverges-empty first h n _ _ nowhere e = refl
  Diverges-empty first h n _ _ (at_number r rs x) e = cc
  Diverges-empty first h n _ _ (at_genesis r rs p q x) e = cc
  Diverges-empty first h n _ _ (at_link r rs p q x) e = cc
  Diverges-empty first h n _ _ (at_contents r rs p q x) e = cc

  chain_exact :
      (i : Text) (rs : List AuditRecord) (report : VerificationReport)
      → Describes (genesis sha256 i) rs report
      → (report.status ≡ intact) ↔ Chained sha256 (genesis sha256 i) 1 rs
  chain_exact i rs report (good, rest, e, c, n, h, d) =
      let split = Chained-append (genesis sha256 i) 1 good rest in
      let exact = Diverges-nowhere (genesis sha256 i) _ _ _ _ d in
      (
        λ s. subst (Chained sha256 (genesis sha256 i) 1) (sym e) (split.1 (c, exact.0 s)),
        λ k. exact.1 (split.0 (subst (Chained sha256 (genesis sha256 i) 1) e k)).1,
      )

  -- For fewer than 2 ^ 64 - 1 records, verification reports an intact chain exactly if the records
  -- are numbered from one, each follows the hash of the one before, the first the genesis hash of
  -- the instance, and each carries the hash of its contents.
  pub intact_iff-Chained :
      (rs : List AuditRecord) (i : Text)
      → length rs < 2 ^ 64 - 1
      → ((verify_records sha256 rs i).status ≡ intact) ↔ Chained sha256 (genesis sha256 i) 1 rs
  intact_iff-Chained rs i b = chain_exact i rs (verify_records sha256 rs i) (report_located rs i b)

  whole_chain :
      (i : Text) (rs : List AuditRecord) (report : VerificationReport)
      → Describes (genesis sha256 i) rs report
      → report.status ≡ intact
      → (report.entry_count ≡ length rs) × (report.head ≡ latest none rs)
  whole_chain i rs report (good, rest, e, c, n, h, d) s =
      let all_good : rs ≡ good =
        e ∙ (ap (λ t. good ++ t) (Diverges-empty _ _ _ _ _ d s) ∙ append-nil good) in
      (n ∙ ap length (sym all_good), h ∙ ap (latest none) (sym all_good))

  pub intact_counts :
      (rs : List AuditRecord) (i : Text)
      → length rs < 2 ^ 64 - 1
      → (verify_records sha256 rs i).status ≡ intact
      → ((verify_records sha256 rs i).entry_count ≡ length rs)
        × ((verify_records sha256 rs i).head ≡ latest none rs)
  intact_counts rs i b = whole_chain i rs (verify_records sha256 rs i) (report_located rs i b)
