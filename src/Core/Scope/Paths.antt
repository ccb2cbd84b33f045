-- ===== src/Core/Scope/Paths.antt =====
-- What it means that a pattern matches a path, segment by segment.
use kawach.Prelude.{
  ◌≡◌, ◌≢◌, refl, sym, subst, ◌↔◌, ◌⊎◌, inl, inr, Text, Bool, true, false, Bool-cases, ◌&&◌, ◌||◌,
  &&-true, List, [], ◌∷◌, text_eq, text_eq_iff, arith,
}
use kawach.Core.Glob.{match_one}
use kawach.Core.Glob.Wild.{Wild}
use kawach.Core.Glob.Exact.{match_one_exact}
use kawach.Core.Scope.{any_depth, any_suffix, is_empty, on_first, match_segments}

pub data Covers : List Text → List Text → Type 0 where
  ends : Covers [] []
  no_segment : (ps ss : List Text) → Covers ps ss → Covers (any_depth ∷ ps) ss
  more_segments :
      (ps : List Text) (s : Text) (ss : List Text)
      → Covers (any_depth ∷ ps) ss
      → Covers (any_depth ∷ ps) (s ∷ ss)
  one_segment :
      (p : Text) (ps : List Text) (s : Text) (ss : List Text)
      → p ≢ any_depth
      → Wild p s
      → Covers ps ss
      → Covers (p ∷ ps) (s ∷ ss)

abbrev Starts : List Text → List Text → Type 0
Starts [] ss = ss ≡ []
Starts (p ∷ ps) ss =
    ((p ≡ any_depth)
      × (Covers ps ss
          ⊎ ((s : Text) × (rest : List Text) × (ss ≡ s ∷ rest) × Covers (any_depth ∷ ps) rest)))
    ⊎ ((p ≢ any_depth)
        × ((s : Text) × (rest : List Text) × (ss ≡ s ∷ rest) × Wild p s × Covers ps rest))

Covers-Starts : (ps ss : List Text) → Covers ps ss → Starts ps ss
Covers-Starts _ _ ends = refl
Covers-Starts _ _ (no_segment ps ss c) = inl (refl, inl c)
Covers-Starts _ _ (more_segments ps s ss c) = inl (refl, inr (s, ss, refl, c))
Covers-Starts _ _ (one_segment p ps s ss n w c) = inr (n, (s, ss, refl, w, c))

||-true : (a b : Bool) → (a || b) ≡ true → (a ≡ true) ⊎ (b ≡ true)
||-true true b h = inl refl
||-true false b h = inr h

-- Any number of segments under a star star, where what follows is decided.
any_suffix-Covers :
    (f : List Text → Bool) (ps ss : List Text)
    → ((ss : List Text) → (f ss ≡ true) ↔ Covers ps ss)
    → (any_suffix f ss ≡ true) ↔ Covers (any_depth ∷ ps) ss
unfolding any_suffix
any_suffix-Covers f ps [] h = (λ e. no_segment ps [] ((h []).0 e), λ c. (h []).1 (given c))
  where
    given : Covers (any_depth ∷ ps) [] → Covers ps []
    given c = elim (Covers-Starts _ _ c) [
      | inl (e, inl x) ↦ x
      | inl (e, inr (s, rest, k, x)) ↦ cc
      | inr (n, x) ↦ absurd (n refl)
    ]
any_suffix-Covers f ps (s ∷ ss) h = (
  λ e. elim (||-true (f (s ∷ ss)) (any_suffix f ss) e) [
    | inl x ↦ no_segment ps (s ∷ ss) ((h (s ∷ ss)).0 x)
    | inr x ↦ more_segments ps s ss ((any_suffix-Covers f ps ss h).0 x)
  ],
  λ c. elim (Covers-Starts _ _ c) [
    | inl (e, inl x) ↦ rw ((h (s ∷ ss)).1 x) refl
    | inl (e, inr (t, rest, k, x)) ↦
        or_right (f (s ∷ ss)) (any_suffix f ss)
          ((any_suffix-Covers f ps ss h).1 (subst (Covers (any_depth ∷ ps)) (cc) x))
    | inr (n, x) ↦ absurd (n refl)
  ],
)
  where
    or_right : (a b : Bool) → b ≡ true → (a || b) ≡ true
    or_right a b e = ground arith

-- One segment under a pattern of one segment, where what follows is decided.
on_first-Covers :
    (f : List Text → Bool) (p : Text) (ps ss : List Text)
    → p ≢ any_depth
    → ((ss : List Text) → (f ss ≡ true) ↔ Covers ps ss)
    → (on_first (λ s rest. match_one p s && f rest) ss ≡ true) ↔ Covers (p ∷ ps) ss
unfolding on_first
on_first-Covers f p ps [] n h = (λ e. cc, λ c. absurd (none_left c))
  where
    none_left : ¬ Covers (p ∷ ps) []
    none_left c = elim (Covers-Starts _ _ c) [ inl (e, x) ↦ n e | inr (m, (s, rest, k, w, x)) ↦ cc ]
on_first-Covers f p ps (s ∷ ss) n h = (
  λ e.
      let (one, more) = &&-true (match_one p s) (f ss) e in
      one_segment p ps s ss n ((match_one_exact p s).1.0 one) ((h ss).0 more),
  λ c. elim (Covers-Starts _ _ c) [
    | inl (e, x) ↦ absurd (n e)
    | inr (m, (t, rest, k, w, x)) ↦
        both (match_one p s) (f ss) ((match_one_exact p s).1.1 (subst (Wild p) (cc) w))
          ((h ss).1 (subst (Covers ps) (cc) x))
  ],
)
  where
    both : (a b : Bool) → a ≡ true → b ≡ true → (a && b) ≡ true
    both a b e k = ground arith

pub match_segments-Covers : (ps ss : List Text) → (match_segments ps ss ≡ true) ↔ Covers ps ss
unfolding match_segments is_empty on_first
match_segments-Covers [] [] = (λ e. ends, λ c. refl)
match_segments-Covers [] (s ∷ ss) = (λ e. cc, λ c. cc (Covers-Starts _ _ c))
match_segments-Covers (p ∷ ps) ss = elim (Bool-cases (text_eq p any_depth)) [
  | inl deep ↦
      rw (match_segments, deep)
        (subst (λ q. (any_suffix (match_segments ps) ss ≡ true) ↔ Covers (q ∷ ps) ss)
          (sym ((text_eq_iff p any_depth).0 deep))
          (any_suffix-Covers (match_segments ps) ps ss (match_segments-Covers ps)))
  | inr plain ↦
      rw (match_segments, plain)
        (on_first-Covers (match_segments ps) p ps ss (differs plain) (match_segments-Covers ps))
]
  where
    differs : text_eq p any_depth ≡ false → p ≢ any_depth
    differs h e = cc ((text_eq_iff p any_depth).1 e)
