-- ===== src/Audit/Log/Unsynced.antt =====
-- What becomes of a log whose file could not be synced: a line that the log does not count.
use kawach.Prelude.{
  ℕ, ◌+◌, ◌^◌, ◌<◌, ◌≡◌, refl, sym, ap, ◌∙◌, subst, Text, some, List, [], ◌∷◌, ◌++◌, append_assoc,
  length-append, ==_iff, arith,
}
use kawach.Platform.Codec.{parsed, Codec, IsLawful, Holds, Holds-append}
use kawach.Platform.Files.{durable, sync_failed}
use kawach.Core.Error.{KawachError, Result, ok, err}
use kawach.Audit.Hash.{EntryHash}
use kawach.Audit.Event.{Actor, AuditEvent}
use kawach.Audit.Entry.{AuditRecord}
use kawach.Audit.Verify.Chain.{Chained}
use kawach.Audit.Verify.Located.{Chained-append}
use kawach.Audit.Log.{
  AuditLog, Call, entry_record, append_as, write_entry, write_at, write_line, then_checkpoint,
  maybe_checkpoint,
}
use kawach.Audit.Log.Consistent.{Stands, durably, linked, write_line-ok}
use kawach.Audit.Log.Open.{resume}
use kawach.Audit.Log.Reopen.{resume-broken}

module _ (sha256 : Text → Text) (c : Codec AuditRecord) where
  abbrev pub unsynced : Text → Text → Call
  unsynced at m = record { now = some at; outcome = sync_failed m }

  unsynced_append :
      (log : AuditLog) (actor : Actor) (event : AuditEvent) (at m l : Text) (call : Call)
      (log₁ : AuditLog) (x : KawachError)
      → c.encode (entry_record sha256 log actor event at) ≡ parsed l
      → append_as sha256 c log actor event (unsynced at m) call ≡ (log₁, err x)
      → log₁ ≡ record log { file = log.file ++ (l ++ (b'\n' ∷ [])) }
  unfolding append_as then_checkpoint write_entry write_at write_line
  unsynced_append log actor event at m l call log₁ x e h = cc (rw e at h)

  no_checkpoint :
      (log : AuditLog) (k : ℕ) (call : Call)
      → log.every_n_entries ≡ 0
      → maybe_checkpoint sha256 c log k call ≡ (log, ok k)
  unfolding maybe_checkpoint
  no_checkpoint log k call z = rw ((==_iff log.every_n_entries 0).1 z) refl

  -- An append that is no occasion for a checkpoint.
  single_entry :
      (log : AuditLog) (r : AuditRecord) (call : Call) (o : AuditLog × Result ℕ) (log' : AuditLog)
      (n : ℕ)
      → log.every_n_entries ≡ 0
      → write_line log r (c.encode r) durable ≡ o
      → then_checkpoint sha256 c o call ≡ (log', ok n)
      → (l : Text) × (c.encode r ≡ parsed l) × (log' ≡ linked sha256 c log r l) × (n ≡ r.seq)
  unfolding then_checkpoint
  single_entry log r call (mid, err x) log' n z w e = cc
  single_entry log r call (mid, ok k) log' n z w e =
      let (l, d, p, q) = write_line-ok sha256 c log r mid k w in
      let off : mid.every_n_entries ≡ 0 = ap (λ y. y.every_n_entries) p ∙ z in
      let same : ◌≡◌ {A = AuditLog × Result ℕ} (mid, ok k) (log', ok n) =
        sym (no_checkpoint mid k call off) ∙ e in
      (l, d, cc, cc)

  pub second_line :
      (log : AuditLog) (actor : Actor) (event : AuditEvent) (at : Text) (call : Call)
      (log' : AuditLog) (n : ℕ)
      → log.every_n_entries ≡ 0
      → append_as sha256 c log actor event (durably sha256 c at) call ≡ (log', ok n)
      → (l : Text) × (c.encode (entry_record sha256 log actor event at) ≡ parsed l)
        × (log' ≡ linked sha256 c log (entry_record sha256 log actor event at) l)
        × (n ≡ (entry_record sha256 log actor event at).seq)
  unfolding append_as write_entry write_at
  second_line log actor event at call log' n z e =
      single_entry log (entry_record sha256 log actor event at) call _ log' n z refl e

  -- Two entries with one number are no chain.
  repeated_number :
      (h : EntryHash) (rs : List AuditRecord) (r r' : AuditRecord)
      → r.seq ≡ r'.seq
      → ¬ Chained sha256 h 1 (rs ++ (r ∷ (r' ∷ [])))
  repeated_number h rs r r' e ch =
      let (p, (q, _)) = ((Chained-append sha256 h 1 rs (r ∷ (r' ∷ []))).0 ch).1 in
      omega (arith, p.0, q.0)

  -- Take a log that stands at the end of the chain in its file, with no checkpoint policy and a
  -- lawful codec, and an append whose line is written but whose sync fails. If the caller goes on
  -- with this log, and the next append is durable and succeeds, it returns the number that the
  -- failed entry has in the file, and the log can never be opened again.
  pub failed_sync_poisons :
      (laws : IsLawful c) (log log₁ log₂ : AuditLog) (rs : List AuditRecord) (actor actor' : Actor)
      (event event' : AuditEvent) (at at' m l : Text) (call call' : Call) (x : KawachError) (n : ℕ)
      → Stands sha256 c log rs
      → log.seq + 3 < 2 ^ 64
      → log.every_n_entries ≡ 0
      → c.encode (entry_record sha256 log actor event at) ≡ parsed l
      → append_as sha256 c log actor event (unsynced at m) call ≡ (log₁, err x)
      → append_as sha256 c log₁ actor' event' (durably sha256 c at') call' ≡ (log₂, ok n)
      → (n ≡ (entry_record sha256 log actor event at).seq)
        × ((e : KawachError) × (resume sha256 c (some log₂.file) log.instance_id ≡ err e))
  unfolding entry_record
  failed_sync_poisons laws log log₁ log₂ rs actor actor' event event' at at' m l call call' x n
        (held, chain, count, head) b z e f g =
      let r = entry_record sha256 log actor event at in
      let mid : AuditLog = record log { file = log.file ++ (l ++ (b'\n' ∷ [])) } in
      let same = unsynced_append log actor event at m l call log₁ x e f in
      let g' =
        subst (λ y. append_as sha256 c y actor' event' (durably sha256 c at') call' ≡ (log₂, ok n))
          same g in
      let (l', d, p, q) = second_line mid actor' event' at' call' log₂ n z g' in
      let r' = entry_record sha256 mid actor' event' at' in
      let held₁ = Holds-append c rs r log.file l held e in
      let held₂ = Holds-append c (rs ++ (r ∷ [])) r' mid.file l' held₁ d in
      let lines =
        subst (λ y. Holds c y log₂.file) (append_assoc rs (r ∷ []) (r' ∷ []))
          (subst (λ y. Holds c ((rs ++ (r ∷ [])) ++ (r' ∷ [])) y.file) (sym p) held₂) in
      (
        q,
        resume-broken sha256 c laws (rs ++ (r ∷ (r' ∷ []))) log₂.file log.instance_id lines
            (omega (arith, length-append rs (r ∷ (r' ∷ [])), count))
            (repeated_number _ rs r r' refl),
      )
