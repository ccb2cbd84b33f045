-- ===== src/Rotation/Journal/Entries.antt =====
-- What replay makes of a list of entries, with their bytes left aside.
use mathlib.Core.Path.{subst₂}
use kawach.Prelude.{
  ℕ, ◌+◌, ◌≡◌, refl, Bool-cases, inl, inr, Option, some, List, [], ◌∷◌, ◌++◌, ◌==◌, ==_iff, arith,
}
use kawach.Core.Error.{Result, ok, err, ◌>>=◌, >>=-eq-ok, >>=-regroup, KawachError}
use kawach.Core.Refs.{RunId}
use kawach.Rotation.State.{RotationState, state_eq_iff}
use kawach.Rotation.Journal.{
  Record, run_started, transition, handle_assigned, publication_baseline, version_assigned,
  escalation, run_finished, JournalEntry, u64, Progress, apply_record, apply_entry, get_or_insert,
}

-- The loop of `replay` over entries that have been parsed.
abbrev pub follow_entries : {Time : Type 0} → Progress → List (JournalEntry Time) → Result Progress
follow_entries p [] = ok p
follow_entries p (e ∷ es) = apply_entry p e >>= λ q. follow_entries q es

pub follow_entries-append :
    {Time : Type 0} (p : Progress) (xs ys : List (JournalEntry Time))
    → follow_entries p (xs ++ ys) ≡ (follow_entries p xs >>= λ q. follow_entries q ys)
follow_entries-append p [] ys = refl
follow_entries-append p (x ∷ xs) ys =
    >>=-regroup (apply_entry p x) (λ q. follow_entries q (xs ++ ys)) (λ q. follow_entries q xs)
      (λ q. follow_entries q ys) (λ q. follow_entries-append q xs ys)

-- Where a record leaves the machine, and what it supposes of where it was.
abbrev pub state_after : Record → RotationState → RotationState
state_after (transition from event to) s = to
state_after _ s = s

abbrev pub Follows : Record → RotationState → Type 0
Follows (transition from event to) s = from ≡ s
Follows (run_finished terminal) s = terminal ≡ s
Follows _ s = Unit

-- The numbers go up by one from `n`, and the transitions make a chain from `s`.
abbrev pub WellFormed : {Time : Type 0} → RotationState → ℕ → List (JournalEntry Time) → Type 0
WellFormed s n [] = Unit
WellFormed s n (e ∷ es) =
    (e.seq ≡ u64 (n + 1)) × Follows e.entry s × WellFormed (state_after e.entry s) e.seq es

-- The state in which the transitions of some entries end.
abbrev pub end_state : {Time : Type 0} → RotationState → List (JournalEntry Time) → RotationState
end_state s [] = s
end_state s (e ∷ es) = end_state (state_after e.entry s) es

-- The number of the last of some entries, and the run of the first.
abbrev pub end_seq : {Time : Type 0} → ℕ → List (JournalEntry Time) → ℕ
end_seq n [] = n
end_seq n (e ∷ es) = end_seq e.seq es

abbrev pub end_run : {Time : Type 0} → Option RunId → List (JournalEntry Time) → Option RunId
end_run r [] = r
end_run r (e ∷ es) = end_run (get_or_insert r e.run) es

apply_record-Follows :
    (p : Progress) (n : ℕ) (r : Record)
    → Follows r p.state
    → (q : Progress) × (apply_record p n r ≡ ok q)
      × (q.state ≡ state_after r p.state)
      × (q.last_seq ≡ p.last_seq)
      × (q.run ≡ p.run)
unfolding apply_record
apply_record-Follows p n (run_started r k m) h = (p, refl, refl, refl, refl)
apply_record-Follows p n (transition a e b) h =
    (record p { state = b }, rw ((state_eq_iff a p.state).1 h) refl, refl, refl, refl)
apply_record-Follows p n (handle_assigned x) h =
    (record p { handle = some x }, refl, refl, refl, refl)
apply_record-Follows p n (publication_baseline x) h =
    (record p { previous_version = x }, refl, refl, refl, refl)
apply_record-Follows p n (version_assigned x y) h =
    (record p { previous_version = x; written_version = some y }, refl, refl, refl, refl)
apply_record-Follows p n (escalation x) h = (record p { hint = some x }, refl, refl, refl, refl)
apply_record-Follows p n (run_finished t) h =
    (p, rw ((state_eq_iff t p.state).1 h) refl, refl, refl, refl)

apply_record-ok :
    (p q : Progress) (n : ℕ) (r : Record) → apply_record p n r ≡ ok q → Follows r p.state
unfolding apply_record
apply_record-ok p q n (run_started r k m) h = tt
apply_record-ok p q n (transition a e b) h = ground (arith, state_eq_iff a p.state)
apply_record-ok p q n (handle_assigned x) h = tt
apply_record-ok p q n (publication_baseline x) h = tt
apply_record-ok p q n (version_assigned x y) h = tt
apply_record-ok p q n (escalation x) h = tt
apply_record-ok p q n (run_finished t) h = ground (arith, state_eq_iff t p.state)

-- An entry is accepted if it has the next number and follows from the state.
pub apply_entry-Follows :
    {Time : Type 0} (p : Progress) (e : JournalEntry Time)
    → e.seq ≡ u64 (p.last_seq + 1)
    → Follows e.entry p.state
    → (q : Progress) × (apply_entry p e ≡ ok q)
      × (q.state ≡ state_after e.entry p.state)
      × (q.last_seq ≡ e.seq)
      × (q.run ≡ get_or_insert p.run e.run)
unfolding apply_entry
apply_entry-Follows p e n h =
    rw ((==_iff e.seq (u64 (p.last_seq + 1))).1 n) (apply_record-Follows _ e.seq e.entry h)

-- And only then.
pub apply_entry-ok :
    {Time : Type 0} (p q : Progress) (e : JournalEntry Time)
    → apply_entry p e ≡ ok q
    → (e.seq ≡ u64 (p.last_seq + 1)) × Follows e.entry p.state
unfolding apply_entry
apply_entry-ok p q e h = elim (Bool-cases (e.seq == u64 (p.last_seq + 1))) [
  | inl y ↦
      ((==_iff e.seq (u64 (p.last_seq + 1))).0 y, apply_record-ok _ q e.seq e.entry (rw y at h))
  | inr n ↦ absurd (refused (rw n at h))
]
  where
    refused : {x : KawachError} → err x ≡ ok q → ⊥
    refused b = cc

-- What an accepted entry does to the state, the number and the run.
pub apply_entry-effect :
    {Time : Type 0} (p q : Progress) (e : JournalEntry Time)
    → apply_entry p e ≡ ok q
    → (q.state ≡ state_after e.entry p.state)
      × (q.last_seq ≡ e.seq)
      × (q.run ≡ get_or_insert p.run e.run)
apply_entry-effect p q e h =
    let (n, f) = apply_entry-ok p q e h in
    let (q', h', s, l, r) = apply_entry-Follows p e n f in (cc, cc, cc)

-- The loop accepts exactly the well-formed lists of entries.
pub follow_entries-ok :
    {Time : Type 0} (es : List (JournalEntry Time)) (p q : Progress)
    → follow_entries p es ≡ ok q
    → WellFormed p.state p.last_seq es
      × (q.state ≡ end_state p.state es)
      × (q.last_seq ≡ end_seq p.last_seq es)
      × (q.run ≡ end_run p.run es)
follow_entries-ok [] p q h = (tt, cc, cc, cc)
follow_entries-ok (e ∷ es) p q h =
    let (p', accepted, rest) = >>=-eq-ok (apply_entry p e) (λ v. follow_entries v es) h in
    let (n, f) = apply_entry-ok p p' e accepted in
    let (s, l, r) = apply_entry-effect p p' e accepted in
    let (w, t, m, k) = follow_entries-ok es p' q rest in
    ((n, f, subst₂ (λ a b. WellFormed a b es) s l w), rw (← s) t, rw (← l) m, rw (← r) k)

pub follow_entries-WellFormed :
    {Time : Type 0} (es : List (JournalEntry Time)) (p : Progress)
    → WellFormed p.state p.last_seq es
    → (q : Progress) × (follow_entries p es ≡ ok q)
follow_entries-WellFormed [] p w = (p, refl)
follow_entries-WellFormed (e ∷ es) p w =
    let (p', accepted, s, l, r) = apply_entry-Follows p e w.0 w.1 in
    let (q, rest) = follow_entries-WellFormed es p' (rw (s, l) w.2) in (q, rw accepted rest)
