-- ===== src/Audit/Hash/Injective.antt =====
-- The canonical encoding loses nothing: entries whose lengths fit their prefixes encode alike only if
-- they are alike.
use native.Mathlib.Nat.{pow-suc}
use kawach.Prelude.{
  ℕ, zero, suc, ◌*◌, ◌/◌, ◌%◌, ◌^◌, ◌<◌, ◌≡◌, refl, ap, ap₂, sym, ◌∙◌, append_assoc, Text, List, [],
  ◌∷◌, ◌++◌, length, All, arith,
}
use kawach.Audit.Hash.{EntryHash, le_bytes, lp, Payload, encode_fields, canonical_entry}

le_bytes-injective : (k m n : ℕ) → m < 256 ^ k → n < 256 ^ k → le_bytes k m ≡ le_bytes k n → m ≡ n
unfolding le_bytes
le_bytes-injective zero m n p q h = omega arith
le_bytes-injective (suc k) m n p q h =
    let p' : m < 256 ^ k * 256 = rw pow-suc at p in
    let q' : n < 256 ^ k * 256 = rw pow-suc at q in
    let low : m % 256 ≡ n % 256 = cc in
    let high : m / 256 ≡ n / 256 =
      le_bytes-injective k (m / 256) (n / 256) (omega arith) (omega arith) (cc) in
    omega arith

pub length-le_bytes : (k n : ℕ) → length (le_bytes k n) ≡ k
unfolding le_bytes
length-le_bytes zero n = refl
length-le_bytes (suc k) n = ap suc (length-le_bytes k (n / 256))

-- Two texts that agree, and whose first parts are equally long, agree in both parts.
pub split_append {ℓ} :
    {A : Type ℓ} (a b s t : List A) → length a ≡ length b → a ++ s ≡ b ++ t → (a ≡ b) × (s ≡ t)
split_append [] [] s t l h = (refl, h)
split_append [] (y ∷ b) s t l h = absurd (omega arith)
split_append (x ∷ a) [] s t l h = absurd (omega arith)
split_append (x ∷ a) (y ∷ b) s t l h =
    let (p, q) = split_append a b s t (omega arith) (cc) in (cc, q)

abbrev pub Short : Text → Type 0
Short t = length t < 2 ^ 32

lp-injective : (a b s t : Text) → Short a → Short b → lp a ++ s ≡ lp b ++ t → (a ≡ b) × (s ≡ t)
unfolding lp
lp-injective a b s t p q h =
    let h' : le_bytes 4 (length a) ++ (a ++ s) ≡ le_bytes 4 (length b) ++ (b ++ t) =
      sym (append_assoc (le_bytes 4 (length a)) a s)
      ∙ (h ∙ append_assoc (le_bytes 4 (length b)) b t) in
    let (e, k) =
      split_append (le_bytes 4 (length a)) (le_bytes 4 (length b)) _ _
        (length-le_bytes 4 (length a) ∙ sym (length-le_bytes 4 (length b))) h' in
    split_append a b s t (le_bytes-injective 4 (length a) (length b) p q e) k

-- A field of the encoding whose two lengths fit their prefixes.
abbrev pub ShortField : Text × Text → Type 0
ShortField f = Short f.0 × Short f.1

encode_fields-injective :
    (fs gs : List (Text × Text))
    → All ShortField fs
    → All ShortField gs
    → length fs ≡ length gs
    → encode_fields fs ≡ encode_fields gs
    → fs ≡ gs
unfolding encode_fields
encode_fields-injective [] [] p q l h = refl
encode_fields-injective [] (g ∷ gs) p q l h = absurd (omega arith)
encode_fields-injective (f ∷ fs) [] p q l h = absurd (omega arith)
encode_fields-injective ((m, v) ∷ fs) ((n, w) ∷ gs) ((sm, sv), p) ((sn, sw), q) l h =
    let (em, h₁) = lp-injective m n _ _ sm sn h in
    let (ev, h₂) = lp-injective v w _ _ sv sw h₁ in
    let rest = encode_fields-injective fs gs p q (omega arith) h₂ in
    ap₂ (λ f r. f ∷ r) (ap₂ (λ a b. (a, b)) em ev) rest

-- Every length and number of the entry fits the integer that it is written as.
abbrev pub Fits : ℕ → EntryHash → Text → Text → Text → Payload → Type 0
Fits seq prev at actor run p =
    (seq < 2 ^ 64)
    × Short prev
    × Short at
    × Short actor
    × Short run
    × Short p.kind
    × (length p.fields < 2 ^ 32)
    × All ShortField p.fields

-- Two entries with one canonical encoding, whose lengths and numbers fit the integers they are
-- written as, agree in sequence number, previous hash, timestamp, actor, run, kind and fields.
pub canonical_entry-injective :
    (m n : ℕ) (h k : EntryHash) (s t a b r u : Text) (p q : Payload)
    → Fits m h s a r p
    → Fits n k t b u q
    → canonical_entry m h s a r p ≡ canonical_entry n k t b u q
    → (m ≡ n) × (h ≡ k) × (s ≡ t) × (a ≡ b) × (r ≡ u) × (p.kind ≡ q.kind) × (p.fields ≡ q.fields)
unfolding canonical_entry
canonical_entry-injective m n h k s t a b r u p q (fm, fh, fs, fa, fr, fk, fc, fp)
      (gm, gh, gs, ga, gr, gk, gc, gp) e =
    let (em, e₁) =
      split_append (le_bytes 8 m) (le_bytes 8 n) _ _
        (length-le_bytes 8 m ∙ sym (length-le_bytes 8 n)) e in
    let (eh, e₂) = lp-injective h k _ _ fh gh e₁ in
    let (es, e₃) = lp-injective s t _ _ fs gs e₂ in
    let (ea, e₄) = lp-injective a b _ _ fa ga e₃ in
    let (er, e₅) = lp-injective r u _ _ fr gr e₄ in
    let (ek, e₆) = lp-injective p.kind q.kind _ _ fk gk e₅ in
    let (ec, e₇) =
      split_append (le_bytes 4 (length p.fields)) (le_bytes 4 (length q.fields)) _ _
        (length-le_bytes 4 (length p.fields) ∙ sym (length-le_bytes 4 (length q.fields))) e₆ in
    let count = le_bytes-injective 4 (length p.fields) (length q.fields) fc gc ec in
    (
      le_bytes-injective 8 m n fm gm em,
      eh,
      es,
      ea,
      er,
      ek,
      encode_fields-injective p.fields q.fields fp gp count e₇,
    )
