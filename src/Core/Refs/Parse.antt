-- ===== src/Core/Refs/Parse.antt =====
-- The canonical form of a reference is read back as written.
use kawach.Prelude.{
  ℕ, ◌≡◌, ◌≢◌, refl, ap, ap₂, subst, ◌∙◌, ◌↔◌, inl, inr, Bool-cases, Text, false, Option, none,
  some, [], ◌∷◌, ◌++◌, All, ◌==◌, ==_iff, arith,
}
use kawach.Core.Refs.{SecretRef, after_byte, split_once, non_empty, from_parts, parse, display}

split_once-append :
    (sep : ℕ) (x y : Text) → All (λ b. b ≢ sep) x → split_once sep (x ++ (sep ∷ y)) ≡ some (x, y)
unfolding split_once
split_once-append sep [] y h = rw ((==_iff sep sep).1 refl) refl
split_once-append sep (b ∷ x) y (n, h) =
    let other : (b == sep) ≡ false = ground (arith, n) in
    rw (other, split_once-append sep x y h) refl

after_byte-some :
    (b : ℕ) (o : Option (Text × Text)) (x y : Text)
    → ◌≡◌ {A = Option (Text × Text)} (after_byte b o) (some (x, y))
    → (x' : Text) × (x ≡ b ∷ x') × (◌≡◌ {A = Option (Text × Text)} o (some (x', y)))
unfolding after_byte
after_byte-some b none x y h = cc
after_byte-some b (some (x', y')) x y h = (x', cc, cc)

split_once-some :
    (sep : ℕ) (s x y : Text)
    → ◌≡◌ {A = Option (Text × Text)} (split_once sep s) (some (x, y))
    → (s ≡ x ++ (sep ∷ y)) × All (λ b. b ≢ sep) x
unfolding split_once
split_once-some sep [] x y h = cc
split_once-some sep (b ∷ s) x y h = elim (Bool-cases (b == sep)) [
  | inl found ↦ at_once (rw found at h) ((==_iff b sep).0 found)
  | inr other ↦
      let (x', e, k) = after_byte-some b (split_once sep s) x y (rw other at h) in
      let (p, q) = split_once-some sep s x' y k in rw e (ap (λ u. b ∷ u) p, (ground arith, q))
]
  where
    at_once :
        ◌≡◌ {A = Option (Text × Text)} (some ([], s)) (some (x, y))
        → b ≡ sep
        → (b ∷ s ≡ x ++ (sep ∷ y)) × All (λ c. c ≢ sep) x
    at_once e k =
        let none_before : x ≡ [] = cc in
        let behind : s ≡ y = cc in rw (none_before, behind, k) (refl, tt)

non_empty-some :
    (b p : Text) (r : SecretRef)
    → (non_empty b p ≡ some r) ↔ ((b ≡ r.backend) × (p ≡ r.path) × (b ≢ []) × (p ≢ []))
unfolding non_empty
non_empty-some [] p r = (λ e. cc, λ x. absurd (x.2 refl))
non_empty-some (c ∷ b) [] r = (λ e. cc, λ x. absurd (x.3 refl))
non_empty-some (c ∷ b) (d ∷ p) r = (
  λ e. (ap backend_of e, ap path_of e, λ k. cc, λ k. cc),
  λ x. ap₂ (λ u v. some (record { backend = u; path = v })) x.0 x.1,
)
  where
    backend_of : Option SecretRef → Text
    backend_of none = []
    backend_of (some q) = q.backend

    path_of : Option SecretRef → Text
    path_of none = []
    path_of (some q) = q.path

read_parts :
    (s : Text) (r : SecretRef) (o : Option (Text × Text))
    → split_once b':' s ≡ o
    → from_parts o ≡ some r
    → (s ≡ display r) × (r.backend ≢ []) × (r.path ≢ []) × All (λ b. b ≢ b':') r.backend
unfolding from_parts display
read_parts s r none k e = cc
read_parts s r (some (x, y)) k e =
    let (p, q) = split_once-some b':' s x y k in
    let (f, g, m, n) = (non_empty-some x y r).0 e in
    (
      p ∙ ap₂ (λ u v. u ++ (b':' ∷ v)) f g,
      λ z. m (f ∙ z),
      λ z. n (g ∙ z),
      subst (All (λ b. b ≢ b':')) f q,
    )

-- What is read as a reference is the canonical form of that reference, whose parts are not empty and
-- whose backend has no colon; and every reference with such parts is read back from its canonical
-- form.
pub parse_exact :
    (s : Text) (r : SecretRef)
    → (parse s ≡ some r)
      ↔ ((s ≡ display r) × (r.backend ≢ []) × (r.path ≢ []) × All (λ b. b ≢ b':') r.backend)
unfolding parse display from_parts
parse_exact s r = (
  λ e. read_parts s r (split_once b':' s) refl e,
  λ x.
      ap parse x.0
      ∙ (ap from_parts (split_once-append b':' r.backend r.path x.3)
          ∙ (non_empty-some r.backend r.path r).1 (refl, refl, x.1, x.2)),
)
