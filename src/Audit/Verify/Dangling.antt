-- ===== src/Audit/Verify/Dangling.antt =====
-- Which access intents a report calls dangling.
use kawach.Prelude.{
  ℕ, ◌-◌, ◌^◌, ◌<◌, ◌≡◌, ◌≢◌, sym, ap, ◌∙◌, subst, ◌↔◌, ◌⊎◌, inl, inr, Bool-cases, Text, List, [],
  ◌∷◌, ◌++◌, append-nil, length, All, In, ◌==◌, ==_iff, arith,
}
use kawach.Audit.Hash.{genesis}
use kawach.Audit.Event.{
  AuditEvent, access_intent, access_outcome, commit_token_minted, rotation_transition,
  policy_refusal, checkpoint, log_opened,
}
use kawach.Audit.Entry.{AuditRecord}
use kawach.Audit.Verify.{
  intact, Loop, retain_other, count_event, advance, verify_records, report_of, loop_start,
  ChainStatus,
}
use kawach.Audit.Verify.Chain.{walk, Located, verify_loop-Located}
use kawach.Audit.Verify.Located.{Diverges-empty}

abbrev pub IsIntent : AuditEvent → Type 0
IsIntent (access_intent r p) = Unit
IsIntent _ = ⊥

abbrev pub IsOutcomeOf : ℕ → AuditEvent → Type 0
IsOutcomeOf n (access_outcome i o) = n ≡ i
IsOutcomeOf n _ = ⊥

abbrev pub Unanswered : ℕ → List AuditRecord → Type 0
Unanswered n = All (λ r. ¬ IsOutcomeOf n r.event)

-- An intent of that number stands in the records, and no outcome of it behind.
abbrev pub IsDangling : ℕ → List AuditRecord → Type 0
IsDangling n [] = ⊥
IsDangling n (r ∷ rs) = (IsIntent r.event × (n ≡ r.seq) × Unanswered n rs) ⊎ IsDangling n rs

In-retain_other : (n i : ℕ) (ss : List ℕ) → In n (retain_other i ss) ↔ (In n ss × (n ≢ i))
unfolding retain_other
In-retain_other n i [] = (λ x. absurd x, λ x. absurd x.0)
In-retain_other n i (s ∷ ss) = elim (Bool-cases (s == i)) [
  | inl y ↦ rw y (
    λ x. let (a, b) = (In-retain_other n i ss).0 x in (inr a, b),
    λ x. elim x.0 [
      | inl e ↦ absurd (x.1 (e ∙ (==_iff s i).0 y))
      | inr a ↦ (In-retain_other n i ss).1 (a, x.1)
    ],
  )
  | inr y ↦ rw y (
    λ x. elim x [
      | inl e ↦ (inl e, ground (arith, e))
      | inr a ↦ let (b, k) = (In-retain_other n i ss).0 a in (inr b, k)
    ],
    λ x. elim x.0 [ inl e ↦ inl e | inr a ↦ inr ((In-retain_other n i ss).1 (a, x.1)) ],
  )
]

In-last : (n k : ℕ) (ss : List ℕ) → In n (ss ++ (k ∷ [])) ↔ (In n ss ⊎ (n ≡ k))
In-last n k [] = (
  λ x. elim x [ inl e ↦ inr e | inr a ↦ absurd a ],
  λ x. elim x [ inl a ↦ absurd a | inr e ↦ inl e ],
)
In-last n k (s ∷ ss) = (
  λ x. elim x [
    | inl e ↦ inl (inl e)
    | inr a ↦ elim ((In-last n k ss).0 a) [ inl b ↦ inl (inr b) | inr e ↦ inr e ]
  ],
  λ x. elim x [
    | inl y ↦ elim y [ inl e ↦ inl e | inr b ↦ inr ((In-last n k ss).1 (inl b)) ]
    | inr e ↦ inr ((In-last n k ss).1 (inr e))
  ],
)

abbrev Opens : ℕ → Loop → ℕ → AuditEvent → Type 0
Opens n l seq e =
    In n (count_event l seq e).open_intents
    ↔ ((In n l.open_intents × ¬ IsOutcomeOf n e) ⊎ (IsIntent e × (n ≡ seq)))

untouched : (S T : Type 0) → ◌↔◌ {0, 0} S ((S × ¬ ⊥) ⊎ (⊥ × T))
untouched S T = (λ x. inl (x, λ e. e), λ x. elim x [ inl y ↦ y.0 | inr y ↦ absurd y.0 ])

count_event-Opens : (n : ℕ) (l : Loop) (seq : ℕ) (e : AuditEvent) → Opens n l seq e
unfolding count_event
count_event-Opens n l seq (access_intent r p) = (
  λ x. elim ((In-last n seq l.open_intents).0 x) [ inl a ↦ inl (a, λ z. z) | inr e ↦ inr (tt, e) ],
  λ x. elim x [
    | inl y ↦ (In-last n seq l.open_intents).1 (inl y.0)
    | inr y ↦ (In-last n seq l.open_intents).1 (inr y.1)
  ],
)
count_event-Opens n l seq (access_outcome i o) = (
  λ x. inl ((In-retain_other n i l.open_intents).0 x),
  λ x. elim x [ inl y ↦ (In-retain_other n i l.open_intents).1 y | inr y ↦ absurd y.0 ],
)
count_event-Opens n l seq (commit_token_minted c) = untouched _ _
count_event-Opens n l seq (rotation_transition f e t) = untouched _ _
count_event-Opens n l seq (policy_refusal c d) = untouched _ _
count_event-Opens n l seq (checkpoint k h s) = untouched _ _
count_event-Opens n l seq (log_opened i s) = untouched _ _

walk-IsDangling :
    (n : ℕ) (l : Loop) (rs : List AuditRecord)
    → In n (walk l rs).open_intents ↔ ((In n l.open_intents × Unanswered n rs) ⊎ IsDangling n rs)
unfolding walk advance
walk-IsDangling n l [] = (λ x. inl (x, tt), λ x. elim x [ inl y ↦ y.0 | inr y ↦ absurd y ])
walk-IsDangling n l (r ∷ rs) =
    let ih = walk-IsDangling n (advance l r) rs in
    let step = count_event-Opens n l r.seq r.event in
    (
      λ x. elim (ih.0 x) [
        | inl y ↦ elim (step.0 y.0) [
          | inl z ↦ inl (z.0, (z.1, y.1))
          | inr z ↦ inr (inl (z.0, z.1, y.1))
        ]
        | inr y ↦ inr (inr y)
      ],
      λ x. elim x [
        | inl y ↦ ih.1 (inl (step.1 (inl (y.0, y.1.0)), y.1.1))
        | inr y ↦ elim y [
          | inl z ↦ ih.1 (inl (step.1 (inr (z.0, z.1)), z.2))
          | inr z ↦ ih.1 (inr z)
        ]
      ],
    )

module _ (sha256 : Text → Text) where
  intents_of :
      (i : Text) (rs : List AuditRecord) (o : ChainStatus × Loop) (n : ℕ)
      → Located sha256 (genesis sha256 i) (loop_start sha256 i) rs o
      → (report_of sha256 o).status ≡ intact
      → In n (report_of sha256 o).dangling_intents ↔ IsDangling n rs
  unfolding Located report_of
  intents_of i rs (s, l) n (good, rest, e, c, w, d) h =
      let all_good : rs ≡ good =
        e ∙ (ap (λ t. good ++ t) (Diverges-empty sha256 _ _ _ _ _ d h) ∙ append-nil good) in
      let walked = walk-IsDangling n (loop_start sha256 i) good in
      subst (λ x. In n x.open_intents ↔ IsDangling n rs) (sym w)
        (subst (λ xs. In n (walk (loop_start sha256 i) good).open_intents ↔ IsDangling n xs)
          (sym all_good)
          (λ x. elim (walked.0 x) [ inl y ↦ absurd y.0 | inr y ↦ y ], λ y. walked.1 (inr y)))

  -- For fewer than 2 ^ 64 - 1 records that verify, the report lists a number as a dangling intent
  -- exactly if a record of that number is an access intent and no record behind it is an outcome
  -- for that number.
  pub open_intents-IsDangling :
      (rs : List AuditRecord) (i : Text) (n : ℕ)
      → length rs < 2 ^ 64 - 1
      → (verify_records sha256 rs i).status ≡ intact
      → In n (verify_records sha256 rs i).dangling_intents ↔ IsDangling n rs
  unfolding verify_records
  open_intents-IsDangling rs i n b h =
      intents_of i rs _ n
        (verify_loop-Located sha256 (genesis sha256 i) (loop_start sha256 i) rs (omega arith)) h
