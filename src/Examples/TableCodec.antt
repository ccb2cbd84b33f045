-- ===== src/Examples/TableCodec.antt =====
-- A codec for the values of a finite table, and a test that decides whether it is lawful.
use mathlib.Core.List.{map}
use kawach.Prelude.{
  ℕ, ◌≤◌, ◌≡◌, refl, sym, ap, inl, inr, Bool, true, false, ◌&&◌, Bool-cases, List, [], ◌∷◌, ◌++◌,
  Text, text_eq, In, all, all-In, all→All, All-map, &&-true, leb, leb_iff, ◌==◌, if◌then◌else◌,
  arith,
}
use kawach.Platform.Codec.{Parsed, parsed, malformed, Codec, IsLawful}
use kawach.Platform.Utf8.{is_utf8}

module _ {A : Type 0} (dec : Discrete A) where
  dec_eq : (a b : A) → Dec (a ≡ b) → Bool
  dec_eq a b (yes p) = true
  dec_eq a b (no n) = false

  unfoldable pub same : A → A → Bool
  unfolding dec_eq
  same a b = dec_eq a b (dec a b)

  dec_eq→eq : (a b : A) (d : Dec (a ≡ b)) → dec_eq a b d ≡ true → a ≡ b
  unfolding dec_eq
  dec_eq→eq a b (yes p) h = p
  dec_eq→eq a b (no n) h = cc

  same→eq : (a b : A) → same a b ≡ true → a ≡ b
  unfolding same
  same→eq a b = dec_eq→eq a b (dec a b)

  unfoldable pub encode_in : List (A × Text) → A → Parsed Text
  unfolding same
  encode_in [] a = malformed []
  encode_in ((b, l) ∷ rows) a = if same b a then parsed l else encode_in rows a

  unfoldable pub decode_in : List (A × Text) → Text → Parsed A
  decode_in [] t = malformed []
  decode_in ((b, l) ∷ rows) t = if text_eq l t then parsed b else decode_in rows t

  abbrev pub table : List (A × Text) → Codec A
  table rows = record { encode = encode_in rows; decode = decode_in rows }

  is_parsed : Parsed A → A → Bool
  unfolding same
  is_parsed (parsed b) a = same b a
  is_parsed (malformed e) a = false

  is_malformed : Parsed A → Bool
  is_malformed (parsed a) = false
  is_malformed (malformed e) = true

  -- The texts that a text properly begins with.
  prefixes : Text → List Text
  prefixes [] = []
  prefixes (b ∷ l) = [] ∷ map (λ p. b ∷ p) (prefixes l)

  opens_brace : Text → Bool
  opens_brace [] = false
  opens_brace (b ∷ l) = b == b'{'

  row_ok : List (A × Text) → A × Text → Bool
  unfolding is_parsed is_malformed prefixes opens_brace decode_in
  row_ok rows (a, l) =
      all (λ b. leb 32 b) l
      && (is_utf8 l
          && (opens_brace l
              && (is_parsed (decode_in rows l) a
                  && all (λ p. is_malformed (decode_in rows p)) (prefixes l))))

  unfoldable pub is_sound : List (A × Text) → Bool
  unfolding row_ok
  is_sound rows = all (row_ok rows) rows

  encode_in-In :
      (rows : List (A × Text)) (a : A) (l : Text) → encode_in rows a ≡ parsed l → In (a, l) rows
  unfolding encode_in
  encode_in-In [] a l h = cc
  encode_in-In ((b, k) ∷ rows) a l h = elim (Bool-cases (same b a)) [
    | inl y ↦ inl (λ i. (sym (same→eq b a y) i, found (rw y at h) i))
    | inr n ↦ inr (encode_in-In rows a l (rw n at h))
  ]
    where
      found : ◌≡◌ {A = Parsed Text} (parsed k) (parsed l) → l ≡ k
      found e = cc

  parsed_as : (r : Parsed A) (a : A) → is_parsed r a ≡ true → r ≡ parsed a
  unfolding is_parsed
  parsed_as (parsed b) a h = ap parsed (same→eq b a h)
  parsed_as (malformed e) a h = cc

  refused : (r : Parsed A) → is_malformed r ≡ true → (e : Text) × (r ≡ malformed e)
  unfolding is_malformed
  refused (parsed b) h = cc
  refused (malformed e) h = (e, refl)

  opened : (l : Text) → opens_brace l ≡ true → (r : Text) × (l ≡ b'{' ∷ r)
  unfolding opens_brace
  opened [] h = cc
  opened (b ∷ l) h = (l, ap (λ x. x ∷ l) (ground arith))

  In-map : (b : ℕ) (p : Text) (ps : List Text) → In p ps → In (b ∷ p) (map (λ q. b ∷ q) ps)
  In-map b p [] i = i
  In-map b p (q ∷ ps) (inl e) = inl (ap (λ x. b ∷ x) e)
  In-map b p (q ∷ ps) (inr i) = inr (In-map b p ps i)

  In-prefixes : (p : Text) (b : ℕ) (q : Text) → In p (prefixes (p ++ (b ∷ q)))
  unfolding prefixes
  In-prefixes [] b q = inl refl
  In-prefixes (c ∷ p) b q = inr (In-map c p (prefixes (p ++ (b ∷ q))) (In-prefixes p b q))

  record IsRow (rows : List (A × Text)) (a : A) (l : Text) : Type 0 where
    visible : all (λ b. leb 32 b) l ≡ true
    valid : is_utf8 l ≡ true
    opening : opens_brace l ≡ true
    read_back : is_parsed (decode_in rows l) a ≡ true
    incomplete : all (λ p. is_malformed (decode_in rows p)) (prefixes l) ≡ true

  row_ok-IsRow :
      (rows : List (A × Text)) (a : A) (l : Text) → row_ok rows (a, l) ≡ true → IsRow rows a l
  unfolding row_ok
  row_ok-IsRow rows a l h =
      let (v, h1) = &&-true _ _ h in
      let (u, h2) = &&-true _ _ h1 in
      let (o, h3) = &&-true _ _ h2 in
      let (r, i) = &&-true _ _ h3 in
      record { visible = v; valid = u; opening = o; read_back = r; incomplete = i }

  row :
      (rows : List (A × Text))
      → is_sound rows ≡ true
      → (a : A) (l : Text) → encode_in rows a ≡ parsed l
      → IsRow rows a l
  unfolding is_sound
  row rows h a l e = row_ok-IsRow rows a l (all-In (row_ok rows) rows h (encode_in-In rows a l e))

  -- A table that passes the test makes a lawful codec.
  pub table-IsLawful : (rows : List (A × Text)) → is_sound rows ≡ true → IsLawful (table rows)
  table-IsLawful rows h = record {
    one_line = λ a l e.
        All-map (λ b. leb 32 b ≡ true) (λ b. 32 ≤ b) l (λ b k. (leb_iff 32 b).0 k)
          (all→All (λ b. leb 32 b) l (row rows h a l e).visible);
    utf8 = λ a l e. (row rows h a l e).valid;
    opens = λ a l e. opened l (row rows h a l e).opening;
    round_trip = λ a l e. parsed_as (decode_in rows l) a (row rows h a l e).read_back;
    cut_off = λ a p b q e. refused (decode_in rows p) (
        all-In (λ x. is_malformed (decode_in rows x)) (prefixes (p ++ (b ∷ q)))
          (row rows h a (p ++ (b ∷ q)) e).incomplete (In-prefixes p b q));
  }
