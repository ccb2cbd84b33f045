-- ===== src/Core/Glob/Exact.antt =====
-- The matcher of a segment stops, and answers whether the pattern matches.
use kawach.Prelude.{
  ℕ, zero, suc, ◌+◌, ◌*◌, ◌≤◌, ◌<◌, ◌≡◌, ◌≢◌, refl, sym, ap, ◌∙◌, subst, ◌↔◌, inl, inr, Bool-cases,
  Text, Bool, true, false, Option, none, some, [], ◌∷◌, ◌++◌, append_assoc, length, length-append,
  All-append, ◌==◌, ==_iff, arith,
}
use kawach.Core.Glob.{only_stars, LastStar, retry, match_loop, match_one, or_false, enough}
use kawach.Core.Glob.Wild.{Wild, skip, absorb, same, Wild-Begins}
use kawach.Core.Glob.Stars.{SinceStar, MayMatch, star_subsumes, none_later, only_stars-Wild}

-- An answer, and what it is the answer to.
abbrev pub Answers : Option Bool → Type 0 → Type 0
Answers o S = (b : Bool) × (o ≡ some b) × ((b ≡ true) ↔ S)

answers_iff : (o : Option Bool) (S T : Type 0) → S ↔ T → Answers o S → Answers o T
answers_iff o S T f (b, e, h) = (b, e, (λ x. f.0 (h.0 x), λ y. h.1 (f.1 y)))

-- How many steps are left: one more than the pattern for each place of the segment.
abbrev budget : ℕ → ℕ → ℕ
budget zero P = 0
budget (suc W) P = budget W P + (P + 1)

abbrev Bounded : ℕ → ℕ → Text → Text → LastStar → Type 0
Bounded W P p s none = (length s < W) × (length p ≤ P)
Bounded W P p s (some (q, t)) = (length t ≤ W) × (length p ≤ P) × (length q ≤ P)

-- Where the pattern cannot go on, what is left is another try of the last star.
retry-Answers :
    (again : Text → Text → LastStar → Option Bool) (W P : ℕ) (p : Text) (c : ℕ) (s : Text)
    (star : LastStar)
    → SinceStar p (c ∷ s) star
    → Bounded W P p (c ∷ s) star
    → ¬ Wild p (c ∷ s)
    → ((q t : Text) (V : ℕ)
        → W ≡ suc V
        → length t ≤ V
        → length q ≤ P
        → Answers (again q t (some (q, t))) (MayMatch q t (some (q, t))))
    → Answers (retry again star) (MayMatch p (c ∷ s) star)
unfolding retry
retry-Answers again W P p c s none i b n ih =
    (false, refl, (λ e. cc, λ m. elim m [ inl w ↦ absurd (n w) | inr l ↦ absurd l ]))
retry-Answers again W P p c s (some (q, [])) (l, k, eq, et) b n ih =
    absurd (omega (arith, ap length et, length-append l (c ∷ s)))
retry-Answers again zero P p c s (some (q, d ∷ t)) i b n ih = absurd (omega (arith, b.0))
retry-Answers again (suc V) P p c s (some (q, d ∷ t)) i b n ih =
    answers_iff (again q t (some (q, t))) (MayMatch q t (some (q, t)))
      (MayMatch p (c ∷ s) (some (q, d ∷ t))) (λ m. inr (d, t, refl, joined m), λ m. split m)
      (ih q t V refl (omega (arith, b.0)) b.2)
  where
    joined : MayMatch q t (some (q, t)) → Wild (b'*' ∷ q) t
    joined (inl w) = skip q t w
    joined (inr (e, t', k, w)) = subst (Wild (b'*' ∷ q)) (sym k) (absorb q e t' w)

    apart : Wild (b'*' ∷ q) t → MayMatch q t (some (q, t))
    apart w = elim (Wild-Begins _ _ w) [
      | inl (e, inl w') ↦ inl w'
      | inl (e, inr x) ↦ inr x
      | inr (m, x) ↦ absurd (m refl)
    ]

    split : MayMatch p (c ∷ s) (some (q, d ∷ t)) → MayMatch q t (some (q, t))
    split (inl w) = absurd (n w)
    split (inr (e, t', k, w)) = apart (subst (Wild (b'*' ∷ q)) (cc) w)

no_more : (p : Text) (c : ℕ) (s : Text) → p ≡ [] → ¬ Wild p (c ∷ s)
no_more p c s e w = cc (Wild-Begins [] (c ∷ s) (subst (λ x. Wild x (c ∷ s)) e w))

other_character : (d c : ℕ) (p s : Text) → d ≢ b'*' → d ≢ c → ¬ Wild (d ∷ p) (c ∷ s)
other_character d c p s n m w = elim (Wild-Begins _ _ w) [
  | inl (e, x) ↦ n e
  | inr (k, (s', e, w')) ↦ m (cc)
]

-- A literal character on both sides can be taken off.
peel :
    (d c : ℕ) (p s : Text) (star : LastStar)
    → d ≢ b'*'
    → d ≡ c
    → MayMatch p s star ↔ MayMatch (d ∷ p) (c ∷ s) star
peel d c p s star n e = (
  λ m. elim m [
    | inl w ↦ inl (subst (λ x. Wild (d ∷ p) (x ∷ s)) e (same d p s n w))
    | inr l ↦ inr l
  ],
  λ m. elim m [ inl w ↦ inl (tail w) | inr l ↦ inr l ],
)
  where
    tail : Wild (d ∷ p) (c ∷ s) → Wild p s
    tail w = elim (Wild-Begins _ _ w) [
      | inl (k, x) ↦ absurd (n k)
      | inr (k, (s', f, w')) ↦ subst (Wild p) (cc) w'
    ]

-- A new star takes the place of the last one.
new_star :
    (p : Text) (c : ℕ) (s : Text) (star : LastStar)
    → SinceStar (b'*' ∷ p) (c ∷ s) star
    → MayMatch p (c ∷ s) (some (p, c ∷ s)) ↔ MayMatch (b'*' ∷ p) (c ∷ s) star
new_star p c s star i = (
  λ m. inl (taken m),
  λ m. elim m [ inl w ↦ given w | inr l ↦ given (star_subsumes p (c ∷ s) star i l) ],
)
  where
    taken : MayMatch p (c ∷ s) (some (p, c ∷ s)) → Wild (b'*' ∷ p) (c ∷ s)
    taken (inl w) = skip p (c ∷ s) w
    taken (inr (e, t', k, w)) = subst (Wild (b'*' ∷ p)) (sym k) (absorb p e t' w)

    given : Wild (b'*' ∷ p) (c ∷ s) → MayMatch p (c ∷ s) (some (p, c ∷ s))
    given w = elim (Wild-Begins _ _ w) [
      | inl (e, inl w') ↦ inl w'
      | inl (e, inr x) ↦ inr x
      | inr (m, x) ↦ absurd (m refl)
    ]

since_more :
    (d c : ℕ) (p s : Text) (star : LastStar)
    → d ≢ b'*'
    → d ≡ c
    → SinceStar (d ∷ p) (c ∷ s) star
    → SinceStar p s star
since_more d c p s none n e i = tt
since_more d c p s (some (q, t)) n e (l, k, eq, et) = (
  l ++ (d ∷ []),
  All-append (λ x. x ≢ b'*') l (d ∷ []) k (n, tt),
  eq ∙ sym (append_assoc l (d ∷ []) p),
  et ∙ (ap (λ x. l ++ (x ∷ s)) (sym e) ∙ sym (append_assoc l (d ∷ []) s)),
)

Bounded-more :
    (W P d c : ℕ) (p s : Text) (star : LastStar)
    → Bounded W P (d ∷ p) (c ∷ s) star
    → Bounded W P p s star
Bounded-more W P d c p s none b = (omega (arith, b.0), omega (arith, b.1))
Bounded-more W P d c p s (some (q, t)) b = (b.0, omega (arith, b.1), b.2)

Bounded-star :
    (W P d c : ℕ) (p s : Text) (star : LastStar)
    → SinceStar (d ∷ p) (c ∷ s) star
    → Bounded W P (d ∷ p) (c ∷ s) star
    → Bounded W P p (c ∷ s) (some (p, c ∷ s))
Bounded-star W P d c p s none i b = (omega (arith, b.0), omega (arith, b.1), omega (arith, b.1))
Bounded-star W P d c p s (some (q, t)) (l, k, eq, et) b = (
  omega (arith, b.0, ap length et, length-append l (c ∷ s)),
  omega (arith, b.1),
  omega (arith, b.1),
)

starred :
    (fuel d : ℕ) (p : Text) (c : ℕ) (s : Text) (star : LastStar)
    → d ≡ b'*'
    → SinceStar (d ∷ p) (c ∷ s) star
    → Answers (match_loop fuel p (c ∷ s) (some (p, c ∷ s))) (MayMatch p (c ∷ s) (some (p, c ∷ s)))
    → Answers (match_loop fuel p (c ∷ s) (some (p, c ∷ s))) (MayMatch (d ∷ p) (c ∷ s) star)
starred fuel d p c s star e i =
    answers_iff (match_loop fuel p (c ∷ s) (some (p, c ∷ s))) (MayMatch p (c ∷ s) (some (p, c ∷ s)))
      (MayMatch (d ∷ p) (c ∷ s) star)
      (subst (λ x. MayMatch p (c ∷ s) (some (p, c ∷ s)) ↔ MayMatch (x ∷ p) (c ∷ s) star) (sym e)
        (new_star p c s star (subst (λ x. SinceStar (x ∷ p) (c ∷ s) star) e i)))

match_loop-Answers :
    (fuel W P : ℕ) (p s : Text) (star : LastStar)
    → SinceStar p s star
    → Bounded W P p s star
    → budget W P + length p < fuel
    → Answers (match_loop fuel p s star) (MayMatch p s star)
unfolding match_loop
match_loop-Answers zero W P p s star i b f = absurd (omega arith)
match_loop-Answers (suc fuel) W P p [] star i b f = (
  only_stars p,
  refl,
  (
    λ e. inl ((only_stars-Wild p).0 e),
    λ m. elim m [ inl w ↦ (only_stars-Wild p).1 w | inr l ↦ absurd (none_later p star i l) ],
  ),
)
match_loop-Answers (suc fuel) W P [] (c ∷ s) star i b f =
    retry-Answers (match_loop fuel) W P [] c s star i b (no_more [] c s refl) λ q t V e lt lq.
      match_loop-Answers fuel V P q t (some (q, t)) ([], tt, refl, refl) (lt, lq, lq)
        (omega (arith, ap (λ x. budget x P) e))
match_loop-Answers (suc fuel) W P (d ∷ p) (c ∷ s) star i b f = elim (Bool-cases (d == b'*')) [
  | inl st ↦
      rw (match_loop, st)
        (starred fuel d p c s star ((==_iff d b'*').0 st) i (
          match_loop-Answers fuel W P p (c ∷ s) (some (p, c ∷ s)) ([], tt, refl, refl)
            (Bounded-star W P d c p s star i b) (omega arith)))
  | inr li ↦
      rw (match_loop, li)
        (elim (Bool-cases (d == c)) [
          | inl eq ↦ rw eq (
              answers_iff (match_loop fuel p s star) (MayMatch p s star)
                (MayMatch (d ∷ p) (c ∷ s) star) (peel d c p s star (ground arith) (ground arith))
                (match_loop-Answers fuel W P p s star
                  (since_more d c p s star (ground arith) (ground arith) i)
                  (Bounded-more W P d c p s star b) (omega arith)))
          | inr ne ↦ rw ne (
              retry-Answers (match_loop fuel) W P (d ∷ p) c s star i b
                (other_character d c p s (ground arith) (ground arith))
                λ q t V e lt lq.
                  match_loop-Answers fuel V P q t (some (q, t)) ([], tt, refl, refl) (lt, lq, lq)
                    (omega (arith, ap (λ x. budget x P) e)))
        ])
]

budget-product : (W P : ℕ) → budget W P ≡ W * (P + 1)
budget-product zero P = omega arith
budget-product (suc W) P = omega (arith, budget-product W P)

-- The matcher of a segment answers within its fuel, and says yes exactly if the pattern matches: its
-- stars each stand for any characters, all else for itself.
pub match_one_exact :
    (pattern segment : Text)
    → Answers (match_loop (enough pattern segment) pattern segment none) (Wild pattern segment)
      × ((match_one pattern segment ≡ true) ↔ Wild pattern segment)
unfolding match_one or_false
match_one_exact p s =
    let answer =
      answers_iff (match_loop (enough p s) p s none) (MayMatch p s none) (Wild p s)
        (λ m. elim m [ inl w ↦ w | inr l ↦ absurd l ], λ w. inl w)
        (match_loop-Answers (enough p s) (length s + 1) (length p) p s none tt
          (omega arith, omega arith) (omega (arith, budget-product (length s + 1) (length p)))) in
    let (b, e, h) = answer in (answer, rw e h)
