-- ===== src/Core/Glob/Stars.antt =====
-- What the last star still offers while the matcher runs.
use kawach.Prelude.{
  ℕ, ◌≤◌, ◌<◌, ◌≡◌, ◌≢◌, refl, sym, ap, ◌∙◌, subst, ◌↔◌, ◌⊎◌, inl, inr, Bool-cases, Text, true,
  none, some, [], ◌∷◌, ◌++◌, append_assoc, length, length-append, ◌==◌, ==_iff, arith,
}
use kawach.Core.Glob.{only_stars, LastStar}
use kawach.Core.Glob.Wild.{
  Wild, finished, skip, Wild-Begins, absorb_all, star_rest, Starless, literal_rest,
}

-- A later try of the last star matches.
abbrev pub LaterTry : LastStar → Type 0
LaterTry none = ⊥
LaterTry (some (q, t)) = (c : ℕ) × (t' : Text) × (t ≡ c ∷ t') × Wild (b'*' ∷ q) t'

-- The loop has matched a literal part since the last star.
abbrev pub SinceStar : Text → Text → LastStar → Type 0
SinceStar p s none = Unit
SinceStar p s (some (q, t)) = (l : Text) × Starless l × (q ≡ l ++ p) × (t ≡ l ++ s)

abbrev pub MayMatch : Text → Text → LastStar → Type 0
MayMatch p s star = Wild p s ⊎ LaterTry star

suffix_of : (a b x y : Text) → a ++ x ≡ b ++ y → length b ≤ length a → (w : Text) × (y ≡ w ++ x)
suffix_of a [] x y e b = (a, sym e)
suffix_of [] (c ∷ b) x y e l = absurd (omega arith)
suffix_of (d ∷ a) (c ∷ b) x y e l = suffix_of a b x y (cc) (omega arith)

-- What a later try comes to: the rest of the pattern matches a suffix.
later_rest :
    (p s q t l : Text)
    → Starless l
    → q ≡ l ++ p
    → t ≡ l ++ s
    → LaterTry (some (q, t))
    → (a : Text) × (v : Text) × (length l < length a) × (l ++ s ≡ a ++ v) × Wild p v
later_rest p s q t l n eq et (c, t', e, w) =
    let (u, v, k, w') = star_rest q t' w in
    let (v', k', w'') = literal_rest l p v n (subst (λ x. Wild x v) eq w') in
    (
      c ∷ (u ++ l),
      v',
      omega (arith, length-append u l),
      sym et ∙ (e ∙ ap (λ x. c ∷ x) (k ∙ (ap (λ x. u ++ x) k' ∙ sym (append_assoc u l v')))),
      w'',
    )

-- A later try adds nothing where a new star stands.
pub star_subsumes :
    (p s : Text) (star : LastStar) → SinceStar (b'*' ∷ p) s star → LaterTry star → Wild (b'*' ∷ p) s
star_subsumes p s none i later = absurd later
star_subsumes p s (some (q, t)) (l, n, eq, et) later =
    let (a, v, b, e, w) = later_rest (b'*' ∷ p) s q t l n eq et later in
    let (x, k) = suffix_of a l v s (sym e) (omega arith) in
    subst (Wild (b'*' ∷ p)) (sym k) (absorb_all p x v w)

-- A later try is too short at the end of the segment.
pub none_later : (p : Text) (star : LastStar) → SinceStar p [] star → ¬ LaterTry star
none_later p none i later = later
none_later p (some (q, t)) (l, n, eq, et) later =
    let (a, v, b, e, w) = later_rest p [] q t l n eq et later in
    omega (arith, ap length e, length-append l [], length-append a v)

pub only_stars-Wild : (p : Text) → (only_stars p ≡ true) ↔ Wild p []
unfolding only_stars
only_stars-Wild [] = (λ e. finished, λ w. refl)
only_stars-Wild (d ∷ p) = elim (Bool-cases (d == b'*')) [
  | inl star ↦
      let is_star : d ≡ b'*' = (==_iff d b'*').0 star in
      (
        λ e.
            subst (λ x. Wild (x ∷ p) []) (sym is_star)
              (skip p [] ((only_stars-Wild p).0 (rw star at e))),
        λ w. rw star ((only_stars-Wild p).1 (drop_star d p w)),
      )
  | inr literal ↦ (λ e. cc (rw literal at e), λ w. absurd (not_literal d p (ground arith) w))
]
  where
    drop_star : (d : ℕ) (p : Text) → Wild (d ∷ p) [] → Wild p []
    drop_star d p w = elim (Wild-Begins _ _ w) [
      | inl (e, inl w') ↦ w'
      | inl (e, inr (c, s', k, w')) ↦ cc
      | inr (n, (s', k, w')) ↦ cc
    ]

    not_literal : (d : ℕ) (p : Text) → d ≢ b'*' → ¬ Wild (d ∷ p) []
    not_literal d p n w = elim (Wild-Begins _ _ w) [ inl (e, x) ↦ n e | inr (m, (s', k, w')) ↦ cc ]
