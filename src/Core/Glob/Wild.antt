-- ===== src/Core/Glob/Wild.antt =====
-- What it means that a pattern with stars matches a segment, apart from how the matcher finds out.
use kawach.Prelude.{ℕ, ◌≡◌, ◌≢◌, refl, ap, ◌∙◌, subst, ◌⊎◌, inl, inr, Text, [], ◌∷◌, ◌++◌, All}

pub data Wild : Text → Text → Type 0 where
  finished : Wild [] []
  skip : (p s : Text) → Wild p s → Wild (b'*' ∷ p) s
  absorb : (p : Text) (c : ℕ) (s : Text) → Wild (b'*' ∷ p) s → Wild (b'*' ∷ p) (c ∷ s)
  same : (c : ℕ) (p s : Text) → c ≢ b'*' → Wild p s → Wild (c ∷ p) (c ∷ s)

-- How a match begins, by the pattern.
abbrev pub Begins : Text → Text → Type 0
Begins [] s = s ≡ []
Begins (d ∷ p) s =
    ((d ≡ b'*') × (Wild p s ⊎ ((c : ℕ) × (s' : Text) × (s ≡ c ∷ s') × Wild (b'*' ∷ p) s')))
    ⊎ ((d ≢ b'*') × ((s' : Text) × (s ≡ d ∷ s') × Wild p s'))

pub Wild-Begins : (p s : Text) → Wild p s → Begins p s
Wild-Begins _ _ finished = refl
Wild-Begins _ _ (skip p s w) = inl (refl, inl w)
Wild-Begins _ _ (absorb p c s w) = inl (refl, inr (c, s, refl, w))
Wild-Begins _ _ (same c p s n w) = inr (n, (s, refl, w))

-- A star takes whatever stands before.
pub absorb_all : (p u s : Text) → Wild (b'*' ∷ p) s → Wild (b'*' ∷ p) (u ++ s)
absorb_all p [] s w = w
absorb_all p (c ∷ u) s w = absorb p c (u ++ s) (absorb_all p u s w)

-- A star behind which the pattern matches a suffix.
pub star_rest : (p s : Text) → Wild (b'*' ∷ p) s → (u : Text) × (v : Text) × (s ≡ u ++ v) × Wild p v
star_rest p s w = rest (b'*' ∷ p) s w p refl
  where
    rest :
        (r s : Text)
        → Wild r s
        → (p : Text) → r ≡ b'*' ∷ p
        → (u : Text) × (v : Text) × (s ≡ u ++ v) × Wild p v
    rest _ _ finished p e = cc
    rest _ _ (skip q s w) p e = let f : q ≡ p = cc in ([], s, refl, subst (λ x. Wild x s) f w)
    rest _ _ (absorb q c s w) p e =
        let (u, v, k, w') = rest (b'*' ∷ q) s w p e in (c ∷ u, v, ap (λ x. c ∷ x) k, w')
    rest _ _ (same c q s n w) p e = absurd (n (cc))

abbrev pub Starless : Text → Type 0
Starless = All (λ c. c ≢ b'*')

-- A literal part matches itself.
pub literal_rest :
    (l p s : Text) → Starless l → Wild (l ++ p) s → (v : Text) × (s ≡ l ++ v) × Wild p v
literal_rest [] p s n w = (s, refl, w)
literal_rest (d ∷ l) p s (n, ns) w = elim (Wild-Begins _ _ w) [
  | inl (e, x) ↦ absurd (n e)
  | inr (m, (s', e, w')) ↦
      let (v, k, w'') = literal_rest l p s' ns w' in (v, e ∙ ap (λ x. d ∷ x) k, w'')
]
