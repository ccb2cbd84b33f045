-- ===== src/Audit/Verify/Chain.antt =====
-- What verification decides: whether the records are a chain, and if not, where the chain ends.
use kawach.Prelude.{
  ℕ, ◌+◌, ◌^◌, ◌<◌, ◌≡◌, ◌≢◌, refl, ap, subst, ◌⊎◌, inl, inr, Text, Bool, true, false, Option, some,
  List, [], ◌∷◌, ◌++◌, length, text_eq, text_eq_iff, ◌==◌, arith,
}
use kawach.Audit.Hash.{EntryHash}
use kawach.Audit.Entry.{AuditRecord, recompute_hash}
use kawach.Audit.Verify.{
  ChainStatus, intact, entry_edited, chain_broken, sequence_gap, wrong_genesis, Loop, advance,
  check_record, break_unless, verify_loop,
}

-- The hash at the end of the records, after a given one.
abbrev pub latest : Option EntryHash → List AuditRecord → Option EntryHash
latest o [] = o
latest o (r ∷ rs) = latest (some r.hash) rs

abbrev pub last_hash : EntryHash → List AuditRecord → EntryHash
last_hash h [] = h
last_hash h (r ∷ rs) = last_hash r.hash rs

pub differ : (s t : Text) → text_eq s t ≡ false → s ≢ t
differ s t h e = cc ((text_eq_iff s t).1 e)

unfoldable pub walk : Loop → List AuditRecord → Loop
walk l [] = l
walk l (r ∷ rs) = walk (advance l r) rs

walk-expected_prev :
    (l : Loop) (rs : List AuditRecord) → (walk l rs).expected_prev ≡ last_hash l.expected_prev rs
unfolding walk advance
walk-expected_prev l [] = refl
walk-expected_prev l (r ∷ rs) = walk-expected_prev (advance l r) rs

pub walk-expected_seq :
    (l : Loop) (rs : List AuditRecord)
    → l.expected_seq + length rs < 2 ^ 64
    → (walk l rs).expected_seq ≡ l.expected_seq + length rs
unfolding walk advance
walk-expected_seq l [] b = omega arith
walk-expected_seq l (r ∷ rs) b =
    let next_seq : (advance l r).expected_seq ≡ l.expected_seq + 1 = omega arith in
    let rest = walk-expected_seq (advance l r) rs (omega arith) in omega arith

pub walk-head : (l : Loop) (rs : List AuditRecord) → (walk l rs).head ≡ latest l.head rs
unfolding walk advance
walk-head l [] = refl
walk-head l (r ∷ rs) = walk-head (advance l r) rs

break_unless-stop :
    (s : ChainStatus) (l : Loop) (rest : ChainStatus × Loop)
    → s ≢ intact
    → break_unless s l rest ≡ (s, l)
unfolding break_unless
break_unless-stop intact l rest n = absurd (n refl)
break_unless-stop s l rest n = ground arith

advance_bound :
    (l : Loop) (r : AuditRecord) (rs : List AuditRecord)
    → l.expected_seq + length (r ∷ rs) < 2 ^ 64
    → (advance l r).expected_seq + length rs < 2 ^ 64
unfolding advance
advance_bound l r rs b = omega arith

module _ (sha256 : Text → Text) where
  -- A record that extends a chain with the given head and next number.
  abbrev pub Extends : EntryHash → ℕ → AuditRecord → Type 0
  Extends h n r = (r.seq ≡ n) × (r.prev ≡ h) × (recompute_hash sha256 r ≡ r.hash)

  abbrev pub Chained : EntryHash → ℕ → List AuditRecord → Type 0
  Chained h n [] = Unit
  Chained h n (r ∷ rs) = Extends h n r × Chained r.hash (n + 1) rs

  -- Why a chain from `first`, with head `h` and next number `n`, ends before the rest of the records.
  pub data Diverges (first h : EntryHash) (n : ℕ) : List AuditRecord → ChainStatus → Type 0 where
    nowhere : Diverges first h n [] intact
    at_number :
        (r : AuditRecord) (rs : List AuditRecord)
        → r.seq ≢ n
        → Diverges first h n (r ∷ rs) (sequence_gap n r.seq)
    at_genesis :
        (r : AuditRecord) (rs : List AuditRecord)
        → r.seq ≡ n
        → n ≡ 1
        → r.prev ≢ h
        → Diverges first h n (r ∷ rs) (wrong_genesis first r.prev)
    at_link :
        (r : AuditRecord) (rs : List AuditRecord)
        → r.seq ≡ n
        → n ≢ 1
        → r.prev ≢ h
        → Diverges first h n (r ∷ rs) (chain_broken r.seq h r.prev)
    at_contents :
        (r : AuditRecord) (rs : List AuditRecord)
        → r.seq ≡ n
        → r.prev ≡ h
        → recompute_hash sha256 r ≢ r.hash
        → Diverges first h n (r ∷ rs) (entry_edited r.seq)

  abbrev Checked : EntryHash → Loop → AuditRecord → ChainStatus → Type 0
  Checked first l r s =
      ((s ≡ intact) × Extends l.expected_prev l.expected_seq r)
      ⊎ ((s ≢ intact)
          × ((rs : List AuditRecord) → Diverges first l.expected_prev l.expected_seq (r ∷ rs) s))

  unfold_check :
      (first : EntryHash) (l : Loop) (r : AuditRecord)
      → (a b c d : Bool) → (r.seq == l.expected_seq) ≡ a
      → text_eq r.prev l.expected_prev ≡ b
      → (l.expected_seq == 1) ≡ c
      → text_eq (recompute_hash sha256 r) r.hash ≡ d
      → Checked first l r (check_record sha256 first l r)
  unfolding check_record
  unfold_check first l r false b c d p q s t =
      rw p (inr (λ e. cc, λ rs. at_number r rs (ground arith)))
  unfold_check first l r true false true d p q s t =
      rw (p, q, s)
        (inr (λ e. cc, λ rs. at_genesis r rs (ground arith) (ground arith) (differ _ _ q)))
  unfold_check first l r true false false d p q s t =
      rw (p, q, s) (inr (λ e. cc, λ rs. at_link r rs (ground arith) (ground arith) (differ _ _ q)))
  unfold_check first l r true true c false p q s t =
      rw (p, q, t)
        (inr
          (λ e. cc, λ rs. at_contents r rs (ground arith) ((text_eq_iff _ _).0 q) (differ _ _ t)))
  unfold_check first l r true true c true p q s t =
      rw (p, q, t) (inl (refl, (ground arith, (text_eq_iff _ _).0 q, (text_eq_iff _ _).0 t)))

  check_record-Checked :
      (first : EntryHash) (l : Loop) (r : AuditRecord)
      → Checked first l r (check_record sha256 first l r)
  check_record-Checked first l r = unfold_check first l r _ _ _ _ refl refl refl refl

  -- The loop stops where the longest chain that the records begin with ends.
  unfoldable pub Located : EntryHash → Loop → List AuditRecord → ChainStatus × Loop → Type 0
  unfolding walk
  Located first l rs (s, l') =
      (good : List AuditRecord) × (rest : List AuditRecord) × (rs ≡ good ++ rest)
      × Chained l.expected_prev l.expected_seq good
      × (l' ≡ walk l good)
      × Diverges first (last_hash l.expected_prev good) (l.expected_seq + length good) rest s

  Located-later :
      (first : EntryHash) (l : Loop) (r : AuditRecord) (rs : List AuditRecord)
      (o : ChainStatus × Loop)
      → l.expected_seq + 1 < 2 ^ 64
      → Extends l.expected_prev l.expected_seq r
      → Located first (advance l r) rs o
      → Located first l (r ∷ rs) o
  unfolding Located advance walk
  Located-later first l r rs (s, l') b x (good, rest, e, c, w, d) =
      let next_seq : (advance l r).expected_seq ≡ l.expected_seq + 1 = omega arith in
      (
        r ∷ good,
        rest,
        ap (λ t. r ∷ t) e,
        (x, subst (λ n. Chained r.hash n good) next_seq c),
        w,
        subst (λ n. Diverges first (last_hash r.hash good) n rest s) (omega arith) d,
      )

  pub verify_loop-Located :
      (first : EntryHash) (l : Loop) (rs : List AuditRecord)
      → l.expected_seq + length rs < 2 ^ 64
      → Located first l rs (verify_loop sha256 first l rs)
  unfolding verify_loop Located walk
  verify_loop-Located first l [] b = ([], [], refl, tt, refl, nowhere)
  verify_loop-Located first l (r ∷ rs) b = elim (check_record-Checked first l r) [
    | inl (e, x) ↦ rw e (
        Located-later first l r rs _ (omega arith) x
          (verify_loop-Located first (advance l r) rs (advance_bound l r rs b)))
    | inr (n, d) ↦ rw (break_unless-stop _ l _ n) (
      [],
      r ∷ rs,
      refl,
      tt,
      refl,
      subst (λ k. Diverges first l.expected_prev k (r ∷ rs) (check_record sha256 first l r))
          (omega arith) (d rs),
    )
  ]
