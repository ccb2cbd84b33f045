-- ===== src/Audit/Log/Consistent.antt =====
-- The invariant of an open log: its file holds a chain whose length and head the log knows.
use kawach.Prelude.{
  ℕ, ◌+◌, ◌%◌, ◌^◌, ◌<◌, ◌≡◌, refl, sym, ap, ap₂, ◌∙◌, subst, Text, Bool-cases, Option, some, List,
  [], ◌∷◌, ◌++◌, append_assoc, length, length-append, ◌==◌, inl, inr, ◌≢◌, ◌⊎◌, arith,
}
use kawach.Platform.Codec.{Parsed, parsed, malformed, Codec, Holds, Holds-append}
use kawach.Platform.Files.{durable}
use kawach.Core.Error.{Result, ok, err}
use kawach.Audit.Hash.{EntryHash, genesis, to_hex}
use kawach.Audit.Event.{Actor, AuditEvent, checkpoint}
use kawach.Audit.Entry.{AuditRecord, recompute_hash, canonical_of}
use kawach.Audit.Verify.Chain.{Chained, last_hash, Extends}
use kawach.Audit.Verify.Located.{Chained-append}
use kawach.Audit.Log.{
  AuditLog, Call, entry_record, write_line, write_entry, checkpoint_event, checkpoint_now,
  maybe_checkpoint, then_checkpoint, replace_value, signature_of, append_as,
}

last_hash-append :
    (h : EntryHash) (xs : List AuditRecord) (r : AuditRecord)
    → last_hash h (xs ++ (r ∷ [])) ≡ r.hash
last_hash-append h [] r = refl
last_hash-append h (x ∷ xs) r = last_hash-append x.hash xs r

module _ (sha256 : Text → Text) (c : Codec AuditRecord) where
  -- The log's file holds the given chain, and the log stands at its end.
  abbrev pub Stands : AuditLog → List AuditRecord → Type 0
  Stands log rs =
      Holds c rs log.file
      × Chained sha256 (genesis sha256 log.instance_id) 1 rs
      × (log.seq ≡ length rs)
      × (log.head ≡ last_hash (genesis sha256 log.instance_id) rs)

  entry_record-Extends :
      (log : AuditLog) (actor : Actor) (event : AuditEvent) (at : Text)
      → log.seq + 1 < 2 ^ 64
      → Extends sha256 log.head (log.seq + 1) (entry_record sha256 log actor event at)
  unfolding entry_record recompute_hash canonical_of
  entry_record-Extends log actor event at b = (omega arith, refl, refl)

  abbrev pub linked : AuditLog → AuditRecord → Text → AuditLog
  linked log r l = record log { file = log.file ++ (l ++ (b'\n' ∷ [])); seq = r.seq; head = r.hash }

  pub linked-Stands :
      (log : AuditLog) (rs : List AuditRecord) (r : AuditRecord) (l : Text)
      → Stands log rs
      → c.encode r ≡ parsed l
      → Extends sha256 log.head (log.seq + 1) r
      → Stands (linked log r l) (rs ++ (r ∷ []))
  linked-Stands log rs r l (held, chain, count, head) e (p, q, h) =
      let first = genesis sha256 log.instance_id in
      let total = length-append rs (r ∷ []) in
      let link : Extends sha256 (last_hash first rs) (1 + length rs) r =
        (omega arith, q ∙ head, h) in
      (
        Holds-append c rs r log.file l held e,
        (Chained-append sha256 first 1 rs (r ∷ [])).1 (chain, (link, tt)),
        omega arith,
        sym (last_hash-append first rs r),
      )

  pub write_line-ok :
      (log : AuditLog) (r : AuditRecord) (log' : AuditLog) (n : ℕ)
      → write_line log r (c.encode r) durable ≡ (log', ok n)
      → (l : Text) × (c.encode r ≡ parsed l) × (log' ≡ linked log r l) × (n ≡ r.seq)
  unfolding write_line
  write_line-ok log r log' n e = known (c.encode r) refl e
    where
      known :
          (p : Parsed Text)
          → c.encode r ≡ p
          → write_line log r p durable ≡ (log', ok n)
          → (l : Text) × (c.encode r ≡ parsed l) × (log' ≡ linked log r l) × (n ≡ r.seq)
      known (parsed l) d e = (l, d, cc, cc)
      known (malformed m) d e = cc

  abbrev pub durably : Text → Call
  durably at = record { now = some at; outcome = durable }

  -- A durable entry is one more link.
  pub write_entry-Stands :
      (log : AuditLog) (rs : List AuditRecord) (actor : Actor) (event : AuditEvent) (at : Text)
      (log' : AuditLog) (n : ℕ)
      → Stands log rs
      → log.seq + 1 < 2 ^ 64
      → write_entry sha256 c log actor event (durably at) ≡ (log', ok n)
      → (l : Text) × (log' ≡ linked log (entry_record sha256 log actor event at) l)
        × (n ≡ log.seq + 1)
        × Stands log' (rs ++ (entry_record sha256 log actor event at ∷ []))
  unfolding write_entry
  write_entry-Stands log rs actor event at log' n s b e =
      let r = entry_record sha256 log actor event at in
      let (l, d, p, q) = write_line-ok log r log' n e in
      let link = entry_record-Extends log actor event at b in
      (
        l,
        p,
        q ∙ link.0,
        subst (λ k. Stands k (rs ++ (r ∷ []))) (sym p) (linked-Stands log rs r l s d link),
      )

  -- What stands behind a new entry: a checkpoint of it if the policy calls for one.
  pub data Tail (log : AuditLog) (r : AuditRecord) : List AuditRecord → Type 0 where
    not_due : (log.every_n_entries ≡ 0) ⊎ (r.seq % log.every_n_entries ≢ 0) → Tail log r []
    due :
        log.every_n_entries ≢ 0
        → r.seq % log.every_n_entries ≡ 0
        → (m : AuditRecord) (signature : Option Text)
        → m.event ≡ checkpoint r.seq (to_hex r.hash) signature
        → Tail log r (m ∷ [])

  abbrev pub Grown : AuditLog → List AuditRecord → AuditRecord → AuditLog → Type 0
  Grown log rs r log' =
      (log'.instance_id ≡ log.instance_id)
      × ((more : List AuditRecord) × Tail log r more × Stands log' (rs ++ (r ∷ more)))

  replace_value-ok :
      (n : ℕ) (o : AuditLog × Result ℕ) (log' : AuditLog) (k : ℕ)
      → replace_value sha256 c n o ≡ (log', ok k)
      → (m : ℕ) × (o ≡ (log', ok m)) × (k ≡ n)
  replace_value-ok n (log, ok m) log' k e = (m, cc, cc)
  replace_value-ok n (log, err x) log' k e = cc

  without_checkpoint :
      (log : AuditLog) (rs : List AuditRecord) (r : AuditRecord) (l : Text) (log' : AuditLog)
      (k : ℕ)
      → Stands (linked log r l) (rs ++ (r ∷ []))
      → (log.every_n_entries ≡ 0) ⊎ (r.seq % log.every_n_entries ≢ 0)
      → ◌≡◌ {A = AuditLog × Result ℕ} (linked log r l, ok r.seq) (log', ok k)
      → (k ≡ r.seq) × Grown log rs r log'
  without_checkpoint log rs r l log' k s d e =
      let same : linked log r l ≡ log' = cc in
      (cc, subst (Grown log rs r) same (refl, ([], not_due d, s)))

  with_checkpoint :
      (log : AuditLog) (rs : List AuditRecord) (r : AuditRecord) (l : Text) (at : Text)
      (log' : AuditLog) (k : ℕ)
      → Stands (linked log r l) (rs ++ (r ∷ []))
      → r.seq + 1 < 2 ^ 64
      → log.every_n_entries ≢ 0
      → r.seq % log.every_n_entries ≡ 0
      → checkpoint_now sha256 c (linked log r l) (durably at) ≡ (log', ok k)
      → Grown log rs r log'
  unfolding checkpoint_now entry_record checkpoint_event
  with_checkpoint log rs r l at log' k s b p q e =
      let mid = linked log r l in
      let (l', same, _, s') =
        write_entry-Stands mid (rs ++ (r ∷ [])) mid.actor (checkpoint_event sha256 c mid) at log' k
          s b e in
      (
        ap (λ x. x.instance_id) same,
        (
          entry_record sha256 mid mid.actor (checkpoint_event sha256 c mid) at ∷ [],
          due p q _ (signature_of sha256 c mid.signer mid.seq mid.head) refl,
          subst (Stands log') (append_assoc rs (r ∷ []) _) s',
        ),
      )

  maybe_checkpoint-Grown :
      (log : AuditLog) (rs : List AuditRecord) (r : AuditRecord) (l : Text) (at : Text)
      (log' : AuditLog) (k : ℕ)
      → Stands (linked log r l) (rs ++ (r ∷ []))
      → r.seq + 1 < 2 ^ 64
      → maybe_checkpoint sha256 c (linked log r l) r.seq (durably at) ≡ (log', ok k)
      → (k ≡ r.seq) × Grown log rs r log'
  unfolding maybe_checkpoint
  maybe_checkpoint-Grown log rs r l at log' k s b e = elim (Bool-cases (log.every_n_entries == 0)) [
    | inl off ↦ without_checkpoint log rs r l log' k s (inl (ground arith)) (rw off at e)
    | inr on ↦ elim (Bool-cases (r.seq % log.every_n_entries == 0)) [
      | inr early ↦
          without_checkpoint log rs r l log' k s (inr (ground arith)) (rw (on, early) at e)
      | inl now ↦
          let (m, o, q) =
            replace_value-ok r.seq (checkpoint_now sha256 c (linked log r l) (durably at)) log' k
              (rw (on, now) at e) in
          (q, with_checkpoint log rs r l at log' m s b (ground arith) (ground arith) o)
    ]
  ]

  after_entry :
      (log : AuditLog) (rs : List AuditRecord) (actor : Actor) (event : AuditEvent) (at at' : Text)
      (log' : AuditLog) (n : ℕ) (o : AuditLog × Result ℕ)
      → Stands log rs
      → log.seq + 2 < 2 ^ 64
      → write_entry sha256 c log actor event (durably at) ≡ o
      → then_checkpoint sha256 c o (durably at') ≡ (log', ok n)
      → (n ≡ log.seq + 1) × Grown log rs (entry_record sha256 log actor event at) log'
  unfolding then_checkpoint
  after_entry log rs actor event at at' log' n (mid, err x) s b w e = cc
  after_entry log rs actor event at at' log' n (mid, ok k) s b w e =
      let r = entry_record sha256 log actor event at in
      let link = entry_record-Extends log actor event at (omega arith) in
      let (l, same, count, s') = write_entry-Stands log rs actor event at mid k s (omega arith) w in
      let at_link = subst (λ x. Stands x (rs ++ (r ∷ []))) same s' in
      let number : k ≡ r.seq = count ∙ sym link.0 in
      let e' : maybe_checkpoint sha256 c (linked log r l) r.seq (durably at') ≡ (log', ok n) =
        ap₂ (λ x y. maybe_checkpoint sha256 c x y (durably at')) (sym same) (sym number) ∙ e in
      let (q, grown) =
        maybe_checkpoint-Grown log rs r l at' log' n at_link (omega (arith, link.0)) e' in
      (q ∙ link.0, grown)

  -- On a log that stands at the end of the chain in its file, with fewer than 2 ^ 64 - 2 entries, an
  -- append whose writes are durable and which succeeds returns the next number and leaves a log of
  -- the same instance that stands at the end of the chain made longer by the entry, with a
  -- checkpoint of it behind exactly when the policy is on and its number divides that of the entry.
  pub append_as-Stands :
      (log : AuditLog) (rs : List AuditRecord) (actor : Actor) (event : AuditEvent) (at at' : Text)
      (log' : AuditLog) (n : ℕ)
      → Stands log rs
      → log.seq + 2 < 2 ^ 64
      → append_as sha256 c log actor event (durably at) (durably at') ≡ (log', ok n)
      → (n ≡ log.seq + 1) × Grown log rs (entry_record sha256 log actor event at) log'
  unfolding append_as
  append_as-Stands log rs actor event at at' log' n s b e =
      after_entry log rs actor event at at' log' n _ s b refl e
