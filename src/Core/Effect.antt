-- ===== src/Core/Effect.antt =====
-- Code that changes a state and can fail: the state comes back after an error too, since an effect
-- that has taken place stays. `Meets` says what holds at either end.
use kawach.Prelude.{◌≡◌, refl}
use kawach.Core.Error.{KawachError, Result, ok, err}

abbrev pub Act : Type 0 → Type 0 → Type 0
Act S A = S → S × Result A

module _ {S A : Type 0} where
  abbrev pub pure : A → Act S A
  pure a s = (s, ok a)

  abbrev pub raise : KawachError → Act S A
  raise e s = (s, err e)

  -- `?` on a value that has no effect.
  abbrev pub lift : Result A → Act S A
  lift r s = (s, r)

  -- What a `match` on the result of a call sees.
  abbrev pub attempt : Act S A → Act S (Result A)
  attempt m s = let (t, r) = m s in (t, ok r)

  abbrev pub gets : (S → A) → Act S A
  gets f s = (s, ok (f s))

abbrev pub modify : {S : Type 0} → (S → S) → Act S Unit
modify f s = (f s, ok tt)

module _ {S A B : Type 0} where
  abbrev pub continue : S × Result A → (A → Act S B) → S × Result B
  continue (s, ok a) k = k a s
  continue (s, err e) k = (s, err e)

  infixl 5 ◌>>=◌ ◌>>◌
  abbrev pub ◌>>=◌ : Act S A → (A → Act S B) → Act S B
  ◌>>=◌ m k s = continue (m s) k

  abbrev pub ◌>>◌ : Act S A → Act S B → Act S B
  ◌>>◌ m k s = continue (m s) (λ a. k)

-- What holds of the result and the state if the code succeeds, and of the state if it fails.
abbrev pub Meets : {S A : Type 0} → (A → S → Type 0) → (S → Type 0) → S × Result A → Type 0
Meets P E (s, ok a) = P a s
Meets P E (s, err e) = E s

-- A chain meets what its second part meets wherever the first part ends.
pub Meets-continue :
    {S A B : Type 0} (P : A → S → Type 0) (Q : B → S → Type 0) (E : S → Type 0) (r : S × Result A)
    (k : A → Act S B)
    → Meets P E r
    → ((a : A) (s : S) → P a s → Meets Q E (k a s))
    → Meets Q E (continue r k)
Meets-continue P Q E (s, ok a) k h rest = rest a s h
Meets-continue P Q E (s, err e) k h rest = h

pub Meets-weaken :
    {S A : Type 0} (P Q : A → S → Type 0) (D E : S → Type 0) (r : S × Result A)
    → Meets P D r
    → ((a : A) (s : S) → P a s → Q a s)
    → ((s : S) → D s → E s)
    → Meets Q E r
Meets-weaken P Q D E (s, ok a) h f g = f a s h
Meets-weaken P Q D E (s, err e) h f g = g s h

-- The same where only the results matter.
abbrev pub Gives : {S A : Type 0} → (A → Type 0) → S × Result A → Type 0
Gives P r = Meets (λ a s. P a) (λ s. Unit) r

Gives-any : {S A : Type 0} (r : S × Result A) → Gives (λ a. Unit) r
Gives-any (s, ok a) = tt
Gives-any (s, err e) = tt

module _ {S A B : Type 0} where
  pub Gives-continue :
      (P : A → Type 0) (Q : B → Type 0) (r : S × Result A) (k : A → Act S B)
      → Gives P r
      → ((a : A) (s : S) → P a → Gives Q (k a s))
      → Gives Q (continue r k)
  Gives-continue P Q r k = Meets-continue (λ a s. P a) (λ b s. Q b) (λ s. Unit) r k

  pub Gives-then :
      (Q : B → Type 0) (r : S × Result A) (k : A → Act S B)
      → ((a : A) (s : S) → Gives Q (k a s))
      → Gives Q (continue r k)
  Gives-then Q r k rest = Gives-continue (λ a. Unit) Q r k (Gives-any r) (λ a s u. rest a s)

pub Gives-lift : {S A : Type 0} (s : S) (r : Result A) → Gives (λ a. r ≡ ok a) (s, r)
Gives-lift s (ok a) = refl
Gives-lift s (err e) = tt
