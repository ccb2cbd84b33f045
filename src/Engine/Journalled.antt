-- ===== src/Engine/Journalled.antt =====
-- What the journal of a running engine says: which progress its file replays to, and what writing one
-- record more makes of it.
pub mod Steps
pub mod Run
pub mod Reopened
use kawach.Prelude.{
  ℕ, ◌==◌, ==_iff, inl, inr, ◌+◌, ◌≡◌, refl, sym, ap, ◌∙◌, Option, none, some, List, [], ◌∷◌, ◌++◌,
  Text, codes, Bool,
}
use kawach.Platform.Codec.{Codec, Parsed, parsed, malformed, Holds, Holds-append}
use kawach.Platform.Files.{Write, durable, write_failed, sync_failed}
use kawach.Core.Effect.{Act, Meets, Meets-continue, continue}
use kawach.Audit.Event.{AuditEvent}
use kawach.Core.Capability.{CoreAuditEvent}
use kawach.Core.Error.{Result, ok, err, ◌>>=◌}
use kawach.Core.Refs.{CredentialHandle, RunId, VersionId}
use kawach.Rotation.Journal.{
  Record, run_started, transition, handle_assigned, publication_baseline, version_assigned,
  escalation, run_finished, Journal, JournalEntry, Progress, fresh, apply_record, apply_entry,
  get_or_insert, u64,
}
use kawach.Rotation.Journal
use kawach.Rotation.Journal.Drive.{append-cases}
use kawach.Rotation.Journal.Entries.{follow_entries, follow_entries-append, Follows}
use kawach.Rotation.State.{RotationState, state_eq_iff}
use kawach.Engine.{RunContext, RotationEngine, Setting, audit_append, anchor, call, journal_append}

-- What a record that follows makes of the progress of replay.
abbrev pub advance : Progress → Record → Progress
advance p (transition from event to) = record p { state = to }
advance p (handle_assigned h) = record p { handle = some h }
advance p (publication_baseline v) = record p { previous_version = v }
advance p (version_assigned v w) = record p { previous_version = v; written_version = some w }
advance p (escalation h) = record p { hint = some h }
advance p _ = p

apply_record-advance :
    (p : Progress) (n : ℕ) (r : Record) → Follows r p.state → apply_record p n r ≡ ok (advance p r)
unfolding apply_record
apply_record-advance p n (run_started r k m) h = refl
apply_record-advance p n (transition a e b) h = rw ((state_eq_iff a p.state).1 h) refl
apply_record-advance p n (handle_assigned x) h = refl
apply_record-advance p n (publication_baseline x) h = refl
apply_record-advance p n (version_assigned x y) h = refl
apply_record-advance p n (escalation x) h = refl
apply_record-advance p n (run_finished t) h = rw ((state_eq_iff t p.state).1 h) refl

advance-numbers :
    (p : Progress) (r : Record)
    → ((advance p r).last_seq ≡ p.last_seq) × ((advance p r).run ≡ p.run)
advance-numbers p (run_started r k m) = (refl, refl)
advance-numbers p (transition a e b) = (refl, refl)
advance-numbers p (handle_assigned x) = (refl, refl)
advance-numbers p (publication_baseline x) = (refl, refl)
advance-numbers p (version_assigned x y) = (refl, refl)
advance-numbers p (escalation x) = (refl, refl)
advance-numbers p (run_finished t) = (refl, refl)

-- What is said of a progress beside the context of the run.
abbrev pub View : Type 1
View =
    RotationState
    → Option CredentialHandle
    → Option VersionId
    → Option VersionId
    → RunContext
    → Type 0

abbrev pub Saying : View → Progress → RunContext → Type 0
Saying K p ctx = K p.state p.handle p.previous_version p.written_version ctx

Saying-advance :
    (K : View) (p : Progress) (ctx : RunContext) (r : Record) (n : ℕ) (run : Option RunId)
    → Saying K (advance p r) ctx
    → Saying K (advance (record p { last_seq = n; run = run }) r) ctx
Saying-advance K p ctx (run_started r k m) n run h = h
Saying-advance K p ctx (transition a e b) n run h = h
Saying-advance K p ctx (handle_assigned x) n run h = h
Saying-advance K p ctx (publication_baseline x) n run h = h
Saying-advance K p ctx (version_assigned x y) n run h = h
Saying-advance K p ctx (escalation x) n run h = h
Saying-advance K p ctx (run_finished t) n run h = h

module _ {Time W : Type 0} (env : Setting Time W) (run : RunId) where
  -- A journal whose file replays to a progress, and that goes on from there.
  abbrev pub Replays : Journal → Progress → Type 0
  Replays j p =
      (es : List (JournalEntry Time)) × Holds env.journal_codec es j.file
      × (follow_entries fresh es ≡ ok p)
      × (p.last_seq ≡ j.seq)
      × (get_or_insert p.run run ≡ some run)
      × (j.run ≡ run)

  abbrev pub Notes : View → RotationEngine W → Type 0
  Notes K e = (p : Progress) × Replays e.journal p × (p.run ≡ some run) × Saying K p e.ctx

  -- Of a run that fails nothing is said.
  abbrev pub Keeps : {A : Type 0} → (A → View) → RotationEngine W × Result A → Type 0
  Keeps K r = Meets (λ a. Notes (K a)) (λ t. Unit) r

  pub Keeps-then :
      {A B : Type 0} (K : A → View) (L : B → View) (r : RotationEngine W × Result A)
      (k : A → Act (RotationEngine W) B)
      → Keeps K r
      → ((a : A) (t : RotationEngine W) → Notes (K a) t → Keeps L (k a t))
      → Keeps L (continue r k)
  Keeps-then K L r k h rest =
      Meets-continue (λ a. Notes (K a)) (λ b. Notes (L b)) (λ t. Unit) r k h rest

  pub Keeps-lift :
      {A : Type 0} (K : View) (e : RotationEngine W) (r : Result A)
      → Notes K e
      → Keeps (λ a. K) (e, r)
  Keeps-lift K e (ok a) h = h
  Keeps-lift K e (err x) h = tt

  Keeps-state :
      {A : Type 0} (K : View) (r : RotationEngine W × Result A) → Notes K r.0 → Keeps (λ a. K) r
  Keeps-state K (e, r) h = Keeps-lift K e r h

  pub audit_append-Keeps :
      (K : View) (v : AuditEvent) (e : RotationEngine W)
      → Notes K e
      → Keeps (λ a. K) (audit_append env v e)
  unfolding audit_append
  audit_append-Keeps K v e h = Keeps-state K (audit_append env v e) h

  pub anchor-Keeps :
      (K : View) (v : CoreAuditEvent) (e : RotationEngine W)
      → Notes K e
      → Keeps (λ a. K) (anchor env v e)
  unfolding anchor
  anchor-Keeps K v e h = Keeps-state K (anchor env v e) h

  pub call-Keeps :
      {A : Type 0} (K : View) (m : Act W A) (e : RotationEngine W)
      → Notes K e
      → Keeps (λ a. K) (call env m e)
  unfolding call
  call-Keeps K m e h = h

  -- The entry that goes on from a progress is accepted.
  apply_entry-advance :
      (j : Journal) (p : Progress) (at : Time) (r : Record)
      → p.last_seq ≡ j.seq
      → get_or_insert p.run j.run ≡ some j.run
      → Follows r p.state
      → apply_entry p (record { seq = u64 (j.seq + 1); at = at; run = j.run; entry = r })
        ≡ ok (advance (record p { last_seq = u64 (j.seq + 1); run = some j.run }) r)
  unfolding apply_entry
  apply_entry-advance j p at r n q f =
      rw ((==_iff (u64 (j.seq + 1)) (u64 (p.last_seq + 1))).1 (ap (λ m. u64 (m + 1)) (sym n)), q)
        (apply_record-advance _ (u64 (j.seq + 1)) r f)

  -- One entry more in the file.
  Replays-append :
      (j : Journal) (p : Progress) (at : Time) (r : Record) (line : Text)
      → env.journal_codec.encode (record { seq = u64 (j.seq + 1); at = at; run = j.run; entry = r })
        ≡ parsed line
      → Replays j p
      → Follows r p.state
      → Replays
          (record j { seq = u64 (j.seq + 1); file = j.file ++ (line ++ (b'\n' ∷ [])) })
          (advance (record p { last_seq = u64 (j.seq + 1); run = some j.run }) r)
  unfolding get_or_insert
  Replays-append j p at r line encoded (es, held, followed, n, q, named) f =
      let entry : JournalEntry Time = record {
        seq = u64 (j.seq + 1);
        at = at;
        run = j.run;
        entry = r;
      } in
      let p' : Progress = record p { last_seq = u64 (j.seq + 1); run = some j.run } in
      (
        es ++ (entry ∷ []),
        Holds-append env.journal_codec es entry j.file line held encoded,
        rw
            (
              follow_entries-append fresh es (entry ∷ []),
              followed,
              apply_entry-advance j p at r n (rw named q) f,
            )
            refl,
        (advance-numbers p' r).0,
        rw ((advance-numbers p' r).1, named) refl,
        named,
      )

  -- A record is written: what is said next is said of the progress that the record makes.
  pub journal_append-opens :
      (L : View) (r : Record) (e : RotationEngine W) (p : Progress)
      → Follows r p.state × Saying L (advance p r) e.ctx
      → Replays e.journal p
      → Keeps (λ n. L) (journal_append env r e)
  unfolding journal_append Journal.append
  journal_append-opens L r e p (follows, said) replays =
      let (world, (at, write)) = env.journal_call e.world in
      elim (append-cases env.journal_codec e.journal at r write) [
        | inl (line, encoded, grown) ↦ rw grown (
          advance (record p { last_seq = u64 (e.journal.seq + 1); run = some e.journal.run }) r,
          Replays-append e.journal p at r line encoded replays follows,
          (advance-numbers
                (record p { last_seq = u64 (e.journal.seq + 1); run = some e.journal.run }) r).1
              ∙ ap some replays.5,
          Saying-advance L p e.ctx r (u64 (e.journal.seq + 1)) (some e.journal.run) said,
        )
        | inr (j, x, refused) ↦ rw refused tt
      ]

  pub journal_append-Keeps :
      (K L : View) (r : Record) (e : RotationEngine W)
      → ((p : Progress) → Saying K p e.ctx → Follows r p.state × Saying L (advance p r) e.ctx)
      → Notes K e
      → Keeps (λ n. L) (journal_append env r e)
  journal_append-Keeps K L r e step (p, replays, named, said) =
      journal_append-opens L r e p (step p said) replays
