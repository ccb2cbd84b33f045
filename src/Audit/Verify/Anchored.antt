-- ===== src/Audit/Verify/Anchored.antt =====
-- What an external anchor adds: a truncated tail is seen, and the anchored history is fixed.
use kawach.Prelude.{
  ℕ, zero, suc, ◌+◌, ◌-◌, ◌^◌, ◌≤◌, ◌<◌, ◌≡◌, refl, ap, ◌∙◌, subst, ◌⊎◌, inl, inr, Bool-cases, true,
  false, some, Text, List, [], ◌∷◌, ◌++◌, length, length-append, All, All-append_left, text_eq,
  text_eq_iff, ltb, ==_iff, ◌==◌, arith,
}
use kawach.Core.Error.{ok}
use kawach.Audit.Hash.{EntryHash, genesis}
use kawach.Audit.Entry.{AuditRecord}
use kawach.Audit.Checkpoint.{AnchorRecord}
use kawach.Audit.Verify.{
  intact, truncated, VerificationReport, verify_records, verify_against_anchor, compare_head,
  hash_at,
}
use kawach.Audit.Verify.Chain.{last_hash, Chained}
use kawach.Audit.Verify.Located.{Chained-append, intact_iff-Chained, intact_counts}
use kawach.Audit.Verify.Agree.{IsSized, AllAlike, Collision, head_binds_history}

split_at :
    (n : ℕ) (rs : List AuditRecord)
    → n ≤ length rs
    → (xs : List AuditRecord) × (ys : List AuditRecord) × (rs ≡ xs ++ ys) × (length xs ≡ n)
split_at zero rs b = ([], rs, refl, refl)
split_at (suc n) [] b = absurd (omega arith)
split_at (suc n) (r ∷ rs) b =
    let (xs, ys, e, l) = split_at n rs (omega arith) in (r ∷ xs, ys, ap (λ t. r ∷ t) e, ap suc l)

module _ (sha256 : Text → Text) where
  hash_at-Chained :
      (h : EntryHash) (n : ℕ) (x : AuditRecord) (xs ys : List AuditRecord)
      → Chained sha256 h n ((x ∷ xs) ++ ys)
      → hash_at (n + length xs) ((x ∷ xs) ++ ys) ≡ some (last_hash x.hash xs)
  unfolding hash_at
  hash_at-Chained h n x [] ys c = rw ((==_iff x.seq (n + 0)).1 (omega (arith, c.0.0))) refl
  hash_at-Chained h n x (x' ∷ xs) ys c =
      let later = hash_at-Chained x.hash (n + 1) x' xs ys c.1 in
      let ahead : (x.seq == n + suc (length xs)) ≡ false = ground (arith, c.0.0) in
      rw ahead
        (subst (λ k. hash_at k ((x' ∷ xs) ++ ys) ≡ some (last_hash x'.hash xs)) (omega arith) later)

  -- What an anchor that leaves the report intact says.
  long_enough :
      (rs : List AuditRecord) (a : AnchorRecord) (before after : VerificationReport)
      → verify_against_anchor rs (ok (some a)) before ≡ ok after
      → after.status ≡ intact
      → a.entry_count ≤ before.entry_count
  unfolding verify_against_anchor
  long_enough rs a before after e s = elim (Bool-cases (ltb before.entry_count a.entry_count)) [
    | inl short ↦ cc (rw short at e)
    | inr enough ↦ ground arith
  ]

  same_head :
      (rs : List AuditRecord) (a : AnchorRecord) (before after : VerificationReport) (h : EntryHash)
      → ltb before.entry_count a.entry_count ≡ false
      → hash_at a.entry_count rs ≡ some h
      → verify_against_anchor rs (ok (some a)) before ≡ ok after
      → after.status ≡ intact
      → h ≡ a.head
  unfolding verify_against_anchor compare_head
  same_head rs a before after h b f e s = elim (Bool-cases (text_eq h a.head)) [
    | inl same ↦ (text_eq_iff h a.head).0 same
    | inr other ↦ cc (rw (b, f, other) at e)
  ]

  -- The records up to the number of an anchor that leaves an intact report intact.
  anchored_prefix :
      (rs : List AuditRecord) (i : Text) (a : AnchorRecord) (after : VerificationReport)
      → length rs < 2 ^ 64 - 1
      → (verify_records sha256 rs i).status ≡ intact
      → 0 < a.entry_count
      → verify_against_anchor rs (ok (some a)) (verify_records sha256 rs i) ≡ ok after
      → after.status ≡ intact
      → (zs : List AuditRecord) × (rest : List AuditRecord) × (rs ≡ zs ++ rest)
        × (length zs ≡ a.entry_count)
        × Chained sha256 (genesis sha256 i) 1 zs
        × (last_hash (genesis sha256 i) zs ≡ a.head)
  anchored_prefix rs i a after b s p e t =
      let chain = (intact_iff-Chained sha256 rs i b).0 s in
      let (count, _) = intact_counts sha256 rs i b s in
      let enough = long_enough rs a (verify_records sha256 rs i) after e t in
      let (zs, rest, q, l) = split_at a.entry_count rs (omega arith) in
      let split = subst (Chained sha256 (genesis sha256 i) 1) q chain in
      (
        zs,
        rest,
        q,
        l,
        ((Chained-append sha256 (genesis sha256 i) 1 zs rest).0 split).0,
        same_head rs a (verify_records sha256 rs i) after _ (ground arith)
            (found zs rest q l split p) e t,
      )
    where
      found :
          (zs rest : List AuditRecord)
          → rs ≡ zs ++ rest
          → length zs ≡ a.entry_count
          → Chained sha256 (genesis sha256 i) 1 (zs ++ rest)
          → 0 < a.entry_count
          → hash_at a.entry_count rs ≡ some (last_hash (genesis sha256 i) zs)
      found [] rest q l c p = absurd (omega arith)
      found (z ∷ zs) rest q l c p =
          ap (hash_at a.entry_count) q
          ∙ subst (λ k. hash_at k ((z ∷ zs) ++ rest) ≡ some (last_hash z.hash zs)) (omega arith)
              (hash_at-Chained (genesis sha256 i) 1 z zs rest c)

  -- If fewer than 2 ^ 64 - 1 sized records verify for an instance, and comparison with an anchor
  -- leaves the report intact, and the anchor states the length and the head of a non-empty chain of
  -- sized records of that instance, then the records begin with that chain, but for what the hash
  -- does not cover, or there are two different texts with the same SHA-256.
  pub anchor_binds_history :
      (rs ys : List AuditRecord) (i : Text) (a : AnchorRecord) (after : VerificationReport)
      → length rs < 2 ^ 64 - 1
      → All IsSized rs
      → All IsSized ys
      → Chained sha256 (genesis sha256 i) 1 ys
      → 0 < length ys
      → a.entry_count ≡ length ys
      → a.head ≡ last_hash (genesis sha256 i) ys
      → (verify_records sha256 rs i).status ≡ intact
      → verify_against_anchor rs (ok (some a)) (verify_records sha256 rs i) ≡ ok after
      → after.status ≡ intact
      → Collision sha256
        ⊎ ((zs : List AuditRecord) × (rest : List AuditRecord) × (rs ≡ zs ++ rest) × AllAlike zs ys)
  anchor_binds_history rs ys i a after b sr sy cy p n h s e t =
      let (zs, rest, q, l, cz, hz) = anchored_prefix rs i a after b s (omega arith) e t in
      elim (head_binds_history sha256 _ _ 1 zs ys
        (All-append_left IsSized zs rest (subst (All IsSized) q sr)) sy cz cy (l ∙ n) (hz ∙ h)) [
          | inl c ↦ inl c
          | inr (g, al) ↦ inr (zs, rest, q, al)
        ]

  -- When the tail of a chain of fewer than 2 ^ 64 - 1 records is cut off, what is left verifies as
  -- intact, and comparison with an anchor that states the number of all the records reports the
  -- truncation with both counts.
  pub truncation_needs_anchor :
      (xs ys : List AuditRecord) (i : Text) (a : AnchorRecord)
      → length (xs ++ ys) < 2 ^ 64 - 1
      → 0 < length ys
      → (verify_records sha256 (xs ++ ys) i).status ≡ intact
      → a.entry_count ≡ length (xs ++ ys)
      → ((verify_records sha256 xs i).status ≡ intact)
        × (verify_against_anchor xs (ok (some a)) (verify_records sha256 xs i)
            ≡ ok (record (verify_records sha256 xs i) {
              status = truncated (length (xs ++ ys)) (length xs);
            }))
  unfolding verify_against_anchor
  truncation_needs_anchor xs ys i a b p s n =
      let sum = length-append xs ys in
      let chain = (intact_iff-Chained sha256 (xs ++ ys) i b).0 s in
      let left = (Chained-append sha256 (genesis sha256 i) 1 xs ys).0 chain in
      let still = (intact_iff-Chained sha256 xs i (omega arith)).1 left.0 in
      let (count, _) = intact_counts sha256 xs i (omega arith) still in
      let short : ltb (verify_records sha256 xs i).entry_count a.entry_count ≡ true =
        ground (arith, sum, count, n) in
      (still, rw (short, n, count) refl)
