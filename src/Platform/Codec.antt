-- ===== src/Platform/Codec.antt =====
-- `serde_json::to_string` and `from_str` at a type, as a parameter: a pair of functions, and what is
-- documented of them. Both can fail with a message.
use kawach.Prelude.{ℕ, ◌≡◌, refl, true, List, [], ◌∷◌, ◌++◌, append_assoc, Text}
use kawach.Platform.Lines.{IsLine}
use kawach.Platform.Utf8.{is_utf8}

pub data Parsed (A : Type 0) : Type 0 where
  parsed : A → Parsed A
  malformed : Text → Parsed A

pub record Codec (A : Type 0) : Type 0 where
  pub encode : A → Parsed Text
  pub decode : Text → Parsed A

-- What is written is one line of UTF-8 that opens with a brace; it reads back as what was written, and
-- a text that breaks off inside it is refused.
pub record IsLawful {A : Type 0} (c : Codec A) : Type 0 where
  pub one_line : (a : A) (l : Text) → c.encode a ≡ parsed l → IsLine l
  pub utf8 : (a : A) (l : Text) → c.encode a ≡ parsed l → is_utf8 l ≡ true
  pub opens : (a : A) (l : Text) → c.encode a ≡ parsed l → (r : Text) × (l ≡ b'{' ∷ r)
  pub round_trip : (a : A) (l : Text) → c.encode a ≡ parsed l → c.decode l ≡ parsed a
  pub cut_off :
      (a : A) (p : Text) (b : ℕ) (q : Text)
      → c.encode a ≡ parsed (p ++ (b ∷ q))
      → (e : Text) × (c.decode p ≡ malformed e)

module _ {A : Type 0} (c : Codec A) where
  -- The file that holds the given records, a line each.
  abbrev pub Holds : List A → Text → Type 0
  Holds [] f = f ≡ []
  Holds (a ∷ xs) f =
      (l : Text) × (g : Text) × (c.encode a ≡ parsed l) × (f ≡ l ++ (b'\n' ∷ g)) × Holds xs g

  pub Holds-append :
      (xs : List A) (a : A) (f l : Text)
      → Holds xs f
      → c.encode a ≡ parsed l
      → Holds (xs ++ (a ∷ [])) (f ++ (l ++ (b'\n' ∷ [])))
  Holds-append [] a f l h e = (l, [], e, rw h refl, refl)
  Holds-append (a' ∷ xs) a f l (k, g, e', p, h) e = (
    k,
    g ++ (l ++ (b'\n' ∷ [])),
    e',
    rw p (append_assoc k (b'\n' ∷ g) _),
    Holds-append xs a g l h e,
  )
