-- ===== src/Core/Scope/Permits.antt =====
-- What the scope engine permits.
use kawach.Prelude.{
  ◌≡◌, refl, sym, ap, ◌∙◌, subst, ◌↔◌, inl, inr, Text, true, false, Bool-cases, Option, none, some,
  Option-cases, List, [], ◌∷◌, ◌++◌, any, In, text_eq, text_eq_iff, if◌then◌else◌,
}
use kawach.Core.Error.{ScopeDenial, Result, ok, err}
use kawach.Core.Refs.{BackendId, SecretRef}
use kawach.Core.Scope.{
  BackendScope, Scope, ScopedRef, with_backend, covers_backend, segments, glob_match, rules_of,
  find_match, allowed_by, under_rules, decide, unless_denied, authorize, keep_ok, authorize_all,
}
use kawach.Core.Scope.Paths.{Covers, match_segments-Covers}

abbrev pub Matches : Text → Text → Type 0
Matches pattern path = Covers (segments pattern) (segments path)

-- The first rules for the backend have an allow pattern that matches and no deny pattern that does.
abbrev pub Permits : Scope → SecretRef → Type 0
Permits scope r =
    (rules : BackendScope) × (rules_of scope r.backend ≡ some rules)
    × ((p : Text) × In p rules.allow × Matches p r.path)
    × ((p : Text) → In p rules.deny → ¬ Matches p r.path)

glob_match-Matches : (p path : Text) → (glob_match p path ≡ true) ↔ Matches p path
unfolding glob_match
glob_match-Matches p path = match_segments-Covers (segments p) (segments path)

any-Matches :
    (path : Text) (ps : List Text)
    → (any (λ p. glob_match p path) ps ≡ true) ↔ ((p : Text) × In p ps × Matches p path)
any-Matches path [] = (λ e. cc, λ x. absurd x.1)
any-Matches path (p ∷ ps) = elim (Bool-cases (glob_match p path)) [
  | inl yes_ ↦ rw yes_ (λ e. (p, inl refl, (glob_match-Matches p path).0 yes_), λ x. refl)
  | inr no_ ↦
      rw no_ (λ e. later ((any-Matches path ps).0 e), λ x. (any-Matches path ps).1 (earlier no_ x))
]
  where
    later : ((q : Text) × In q ps × Matches q path) → (q : Text) × In q (p ∷ ps) × Matches q path
    later (q, i, m) = (q, inr i, m)

    earlier :
        glob_match p path ≡ false
        → ((q : Text) × In q (p ∷ ps) × Matches q path)
        → (q : Text) × In q ps × Matches q path
    earlier n (q, inl e, m) =
        absurd (cc ((glob_match-Matches p path).1 (subst (λ x. Matches x path) e m)))
    earlier n (q, inr i, m) = (q, i, m)

find_match-none :
    (path : Text) (ps : List Text)
    → (find_match path ps ≡ none) ↔ ((p : Text) → In p ps → ¬ Matches p path)
unfolding find_match
find_match-none path [] = (λ e p i. absurd i, λ h. refl)
find_match-none path (p ∷ ps) = elim (Bool-cases (glob_match p path)) [
  | inl yes_ ↦ rw yes_ (λ e. cc, λ h. absurd (h p (inl refl) ((glob_match-Matches p path).0 yes_)))
  | inr no_ ↦ rw no_ (
    λ e. later no_ ((find_match-none path ps).0 e),
    λ h. (find_match-none path ps).1 (λ q i. h q (inr i)),
  )
]
  where
    later :
        glob_match p path ≡ false
        → ((q : Text) → In q ps → ¬ Matches q path)
        → (q : Text) → In q (p ∷ ps)
        → ¬ Matches q path
    later n h q (inl e) m = cc ((glob_match-Matches p path).1 (subst (λ x. Matches x path) e m))
    later n h q (inr i) m = h q i m

allowed_by-none :
    (allow : List Text) (path : Text)
    → (allowed_by allow path ≡ none) ↔ ((p : Text) × In p allow × Matches p path)
unfolding allowed_by
allowed_by-none allow path = elim (Bool-cases (any (λ p. glob_match p path) allow)) [
  | inl some_ ↦ rw some_ (λ e. (any-Matches path allow).0 some_, λ x. refl)
  | inr none_ ↦ rw none_ (λ e. cc, λ x. absurd (cc ((any-Matches path allow).1 x)))
]

under_rules-none :
    (rules : BackendScope) (r : SecretRef)
    → (under_rules (some rules) r ≡ none) ↔ (
        ((p : Text) × In p rules.allow × Matches p r.path)
        × ((p : Text) → In p rules.deny → ¬ Matches p r.path))
unfolding under_rules
under_rules-none rules r = elim (Option-cases (find_match r.path rules.deny)) [
  | inl clear ↦
      rw (under_rules, clear)
        (
          λ e. (
            (allowed_by-none rules.allow r.path).0 e,
            (find_match-none r.path rules.deny).0 clear,
          ),
          λ x. (allowed_by-none rules.allow r.path).1 x.0,
        )
  | inr (p, denied) ↦
      rw (under_rules, denied)
        (λ e. cc, λ x. absurd (cc ((find_match-none r.path rules.deny).1 x.1)))
]

unknown_denied : (r : SecretRef) → ¬ (under_rules none r ≡ none)
unfolding under_rules
unknown_denied r e = cc

decide-Permits : (scope : Scope) (r : SecretRef) → (decide scope r ≡ none) ↔ Permits scope r
unfolding decide
decide-Permits scope r = elim (Option-cases (rules_of scope r.backend)) [
  | inl missing ↦ rw missing (λ e. absurd (unknown_denied r e), λ x. cc)
  | inr (rules, found) ↦ rw found (
    λ e. let (a, d) = (under_rules-none rules r).0 e in (rules, refl, a, d),
    λ x. (under_rules-none rules r).1 (same rules x),
  )
]
  where
    same :
        (rules : BackendScope)
        → ((q : BackendScope) × (some rules ≡ some q)
            × ((p : Text) × In p q.allow × Matches p r.path)
            × ((p : Text) → In p q.deny → ¬ Matches p r.path))
        → (((p : Text) × In p rules.allow × Matches p r.path)
            × ((p : Text) → In p rules.deny → ¬ Matches p r.path))
    same rules (q, e, x, y) =
        let f : q ≡ rules = cc in
        subst
          (λ k.
            ((p : Text) × In p k.allow × Matches p r.path)
            × ((p : Text) → In p k.deny → ¬ Matches p r.path))
          f (x, y)

unless_denied-ok :
    (o : Option ScopeDenial) (r : SecretRef) (s : ScopedRef)
    → (unless_denied o r ≡ ok s) ↔ ((s.inner ≡ r) × (o ≡ none))
unfolding unless_denied
unless_denied-ok none r s = (λ e. (cc, refl), λ x. ap (λ y. ok (record { inner = y })) (sym x.0))
unless_denied-ok (some d) r s = (λ e. cc, λ x. cc)

-- A reference is authorized exactly if the first rules for its backend have an allow pattern that
-- matches its path and no deny pattern that does, and the capability is for that reference. A
-- pattern matches a path if its segments do: a double star any number of segments, else one each,
-- in which a star stands for any characters.
pub authorize_exact :
    (scope : Scope) (r : SecretRef) (s : ScopedRef)
    → (authorize scope r ≡ ok s) ↔ ((s.inner ≡ r) × Permits scope r)
unfolding authorize
authorize_exact scope r s =
    let (f, g) = unless_denied-ok (decide scope r) r s in
    let (h, k) = decide-Permits scope r in (λ e. let (a, b) = f e in (a, h b), λ x. g (x.0, k x.1))

kept :
    (scope : Scope) (r : SecretRef) (refs : List SecretRef) (s : ScopedRef) (o : Result ScopedRef)
    (rest : List ScopedRef)
    → authorize scope r ≡ o
    → In s rest ↔ (In s.inner refs × Permits scope s.inner)
    → In s (keep_ok o rest) ↔ (In s.inner (r ∷ refs) × Permits scope s.inner)
unfolding keep_ok
kept scope r refs s (ok s') rest e h =
    let (same, granted) = (authorize_exact scope r s').0 e in
    (
      λ i. elim i [
        | inl k ↦ (
          inl (ap (λ x. x.inner) k ∙ same),
          subst (Permits scope) (sym (ap (λ x. x.inner) k ∙ same)) granted,
        )
        | inr j ↦ (inr (h.0 j).0, (h.0 j).1)
      ],
      λ x. elim x.0 [
        | inl k ↦ inl (ap (λ y. record { inner = y }) (k ∙ sym same))
        | inr j ↦ inr (h.1 (j, x.1))
      ],
    )
kept scope r refs s (err k) rest e h = (
  λ i. (inr (h.0 i).0, (h.0 i).1),
  λ x. elim x.0 [
    | inl same ↦
        absurd (refused ((authorize_exact scope r s).1 (same, subst (Permits scope) same x.1)) e)
    | inr j ↦ h.1 (j, x.1)
  ],
)
  where
    refused : authorize scope r ≡ ok s → authorize scope r ≡ err k → ⊥
    refused a b = cc

-- `authorize_all` keeps exactly the capabilities for references of its list that are permitted.
pub authorize_all_exact :
    (scope : Scope) (refs : List SecretRef) (s : ScopedRef)
    → In s (authorize_all scope refs) ↔ (In s.inner refs × Permits scope s.inner)
unfolding authorize_all
authorize_all_exact scope [] s = (λ i. absurd i, λ x. absurd x.0)
authorize_all_exact scope (r ∷ refs) s =
    kept scope r refs s (authorize scope r) (authorize_all scope refs) refl
      (authorize_all_exact scope refs s)

rules_of-other :
    (scope : Scope) (b b' : BackendId) (rules : BackendScope)
    → text_eq b b' ≡ false
    → rules_of (scope ++ ((b, rules) ∷ [])) b' ≡ rules_of scope b'
unfolding rules_of
rules_of-other [] b b' rules h = rw h refl
rules_of-other ((id, q) ∷ scope) b b' rules h =
    ap (λ o. if text_eq id b' then some q else o) (rules_of-other scope b b' rules h)

rules_of-append :
    (scope : Scope) (b b' : BackendId) (rules : BackendScope)
    → covers_backend scope b ≡ true
    → rules_of (scope ++ ((b, rules) ∷ [])) b' ≡ rules_of scope b'
unfolding rules_of covers_backend
rules_of-append [] b b' rules h = cc
rules_of-append ((id, q) ∷ scope) b b' rules h = elim (Bool-cases (text_eq id b)) [
  | inr n ↦
      ap (λ o. if text_eq id b' then some q else o) (rules_of-append scope b b' rules (rw n at h))
  | inl y ↦ elim (Bool-cases (text_eq id b')) [
    | inl z ↦ rw z refl
    | inr z ↦ rw z (
        rules_of-other scope b b' rules
          (subst (λ x. text_eq x b' ≡ false) ((text_eq_iff id b).0 y) z))
  ]
]

-- Rules that are added for a backend which has some already change no decision: neither what they
-- allow nor what they deny has any effect.
pub repeated_rules_ignored :
    (scope : Scope) (b : BackendId) (rules : BackendScope) (r : SecretRef)
    → covers_backend scope b ≡ true
    → decide (with_backend scope b rules) r ≡ decide scope r
unfolding decide with_backend
repeated_rules_ignored scope b rules r h =
    ap (λ o. under_rules o r) (rules_of-append scope b r.backend rules h)
