-- ===== src/Audit/Log/Grows.antt =====
-- Whatever a call on the log comes to, what was in its file stays at the front of it.
use kawach.Prelude.{
  ℕ, ◌≡◌, refl, ◌∙◌, ap, Text, Bool-cases, inl, inr, Option, none, some, [], ◌∷◌, ◌++◌,
  append_assoc, append-nil, take, ◌==◌, ◌%◌, sym,
}
use kawach.Platform.Codec.{Parsed, parsed, malformed, Codec}
use kawach.Platform.Files.{Write, durable, write_failed, sync_failed}
use kawach.Core.Error.{Result, ok, err}
use kawach.Audit.Entry.{AuditRecord}
use kawach.Audit.Event.{Actor, AuditEvent}
use kawach.Audit.Log.{
  AuditLog, Call, entry_record, write_line, write_at, write_entry, checkpoint_event, checkpoint_now,
  maybe_checkpoint, then_checkpoint, replace_value, append_as,
}

abbrev pub Grows : AuditLog → AuditLog → Type 0
Grows a b = (x : Text) × (b.file ≡ a.file ++ x)

pub Grows-refl : (a : AuditLog) → Grows a a
Grows-refl a = ([], sym (append-nil a.file))

pub Grows-trans : (a b d : AuditLog) → Grows a b → Grows b d → Grows a d
Grows-trans a b d (x, p) (y, q) = (x ++ y, q ∙ ap (λ f. f ++ y) p ∙ append_assoc a.file x y)

module _ (sha256 : Text → Text) (c : Codec AuditRecord) where
  write_line-Grows :
      (log : AuditLog) (r : AuditRecord) (o : Parsed Text) (w : Write)
      → Grows log (write_line log r o w).0
  unfolding write_line
  write_line-Grows log r (malformed e) w = Grows-refl log
  write_line-Grows log r (parsed l) durable = (l ++ (b'\n' ∷ []), refl)
  write_line-Grows log r (parsed l) (write_failed n e) = (take n (l ++ (b'\n' ∷ [])), refl)
  write_line-Grows log r (parsed l) (sync_failed e) = (l ++ (b'\n' ∷ []), refl)

  write_at-Grows :
      (log : AuditLog) (actor : Actor) (event : AuditEvent) (o : Option Text) (w : Write)
      → Grows log (write_at sha256 c log actor event o w).0
  unfolding write_at
  write_at-Grows log actor event none w = Grows-refl log
  write_at-Grows log actor event (some at) w =
      let r = entry_record sha256 log actor event at in write_line-Grows log r (c.encode r) w

  replace_value-Grows :
      (log : AuditLog) (n : ℕ) (r : AuditLog × Result ℕ)
      → Grows log r.0
      → Grows log (replace_value sha256 c n r).0
  replace_value-Grows log n (b, ok m) h = h
  replace_value-Grows log n (b, err e) h = h

  maybe_checkpoint-Grows :
      (log : AuditLog) (n : ℕ) (call : Call) → Grows log (maybe_checkpoint sha256 c log n call).0
  unfolding maybe_checkpoint checkpoint_now write_entry
  maybe_checkpoint-Grows log n call = elim (Bool-cases (log.every_n_entries == 0)) [
    | inl y ↦ rw y (Grows-refl log)
    | inr m ↦ elim (Bool-cases (n % log.every_n_entries == 0)) [
      | inl y ↦
          rw (m, y)
            (replace_value-Grows log n
              (write_at sha256 c log log.actor (checkpoint_event sha256 c log) call.now
                call.outcome)
              (write_at-Grows log log.actor (checkpoint_event sha256 c log) call.now call.outcome))
      | inr k ↦ rw (m, k) (Grows-refl log)
    ]
  ]

  then_checkpoint-Grows :
      (r : AuditLog × Result ℕ) (call : Call) → Grows r.0 (then_checkpoint sha256 c r call).0
  unfolding then_checkpoint
  then_checkpoint-Grows (log, err e) call = Grows-refl log
  then_checkpoint-Grows (log, ok n) call = maybe_checkpoint-Grows log n call

  pub append_as-Grows :
      (log : AuditLog) (actor : Actor) (event : AuditEvent) (first second : Call)
      → Grows log (append_as sha256 c log actor event first second).0
  unfolding append_as write_entry
  append_as-Grows log actor event first second =
      let r = write_at sha256 c log actor event first.now first.outcome in
      Grows-trans log r.0 (then_checkpoint sha256 c r second).0
        (write_at-Grows log actor event first.now first.outcome) (then_checkpoint-Grows r second)

  -- The record of an event stands whole at the end of what the file held before.
  abbrev pub Records : AuditLog → Actor → AuditEvent → AuditLog → Type 0
  Records log actor event log' =
      (at : Text) × (l : Text) × (c.encode (entry_record sha256 log actor event at) ≡ parsed l)
      × (x : Text) × (log'.file ≡ log.file ++ ((l ++ (b'\n' ∷ [])) ++ x))

  pub Records-Grows :
      (log : AuditLog) (actor : Actor) (event : AuditEvent) (a b : AuditLog)
      → Records log actor event a
      → Grows a b
      → Records log actor event b
  Records-Grows log actor event a b (at, l, e, x, p) (y, q) = (
    at,
    l,
    e,
    x ++ y,
    q
        ∙ ap (λ f. f ++ y) p
        ∙ append_assoc log.file ((l ++ (b'\n' ∷ [])) ++ x) y
        ∙ ap (λ f. log.file ++ f) (append_assoc (l ++ (b'\n' ∷ [])) x y),
  )

  write_line-Records :
      (log : AuditLog) (actor : Actor) (event : AuditEvent) (at : Text) (o : Parsed Text)
      (w : Write) (n : ℕ)
      → c.encode (entry_record sha256 log actor event at) ≡ o
      → (write_line log (entry_record sha256 log actor event at) o w).1 ≡ ok n
      → Records log actor event (write_line log (entry_record sha256 log actor event at) o w).0
  unfolding write_line
  write_line-Records log actor event at (malformed e) w n p h = absurd cc
  write_line-Records log actor event at (parsed l) durable n p h =
      (at, l, p, [], ap (λ f. log.file ++ f) (sym (append-nil (l ++ (b'\n' ∷ [])))))
  write_line-Records log actor event at (parsed l) (write_failed m e) n p h = absurd cc
  write_line-Records log actor event at (parsed l) (sync_failed e) n p h = absurd cc

  write_at-Records :
      (log : AuditLog) (actor : Actor) (event : AuditEvent) (o : Option Text) (w : Write) (n : ℕ)
      → (write_at sha256 c log actor event o w).1 ≡ ok n
      → Records log actor event (write_at sha256 c log actor event o w).0
  unfolding write_at
  write_at-Records log actor event none w n h = absurd cc
  write_at-Records log actor event (some at) w n h =
      write_line-Records log actor event at (c.encode (entry_record sha256 log actor event at)) w n
        refl h

  checkpointed-Records :
      (log : AuditLog) (actor : Actor) (event : AuditEvent) (r : AuditLog × Result ℕ) (call : Call)
      (n : ℕ)
      → ((m : ℕ) → r.1 ≡ ok m → Records log actor event r.0)
      → (then_checkpoint sha256 c r call).1 ≡ ok n
      → Records log actor event (then_checkpoint sha256 c r call).0
  unfolding then_checkpoint
  checkpointed-Records log actor event (b, err e) call n w h = absurd cc
  checkpointed-Records log actor event (b, ok m) call n w h =
      Records-Grows log actor event b (maybe_checkpoint sha256 c b m call).0 (w m refl)
        (maybe_checkpoint-Grows b m call)

  pub append_as-Records :
      (log : AuditLog) (actor : Actor) (event : AuditEvent) (first second : Call) (n : ℕ)
      → (append_as sha256 c log actor event first second).1 ≡ ok n
      → Records log actor event (append_as sha256 c log actor event first second).0
  unfolding append_as write_entry
  append_as-Records log actor event first second n h =
      checkpointed-Records log actor event
        (write_at sha256 c log actor event first.now first.outcome) second n
        (λ m p. write_at-Records log actor event first.now first.outcome m p) h
