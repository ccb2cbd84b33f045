-- ===== src/Core/Hex/RoundTrip.antt =====
-- The codec loses nothing, and reads only the text that it writes, up to letter case.
use kawach.Prelude.{
  ℕ, ◌+◌, ◌*◌, ◌/◌, ◌%◌, ◌<◌, ◌≡◌, refl, ap, Text, ◌&&◌, Option, none, some, List, [], ◌∷◌, All,
  leb, if◌then◌else◌, map, arith,
}
use kawach.Core.Hex.{digit, encode, nibble, join_nibbles, decode}

nibble-digit : (n : ℕ) → n < 16 → nibble (digit n) ≡ some n
unfolding nibble digit
nibble-digit n h = ground arith

-- Decoding what was encoded gives back the bytes.
pub decode-encode : (bs : List ℕ) → All (λ b. b < 256) bs → decode (encode bs) ≡ some bs
unfolding decode encode
decode-encode [] h = refl
decode-encode (b ∷ bs) h =
    rw
      (
        nibble-digit (b / 16) (omega (arith, h.0)),
        nibble-digit (b % 16) (omega arith),
        decode-encode bs h.1,
      )
      (ap (λ x. some (x ∷ bs)) (omega arith))

-- ASCII letters in lower case.
unfoldable pub lower : ℕ → ℕ
lower c = if leb b'A' c && leb c b'Z' then c + 32 else c

nibble-lower : (c n : ℕ) → nibble c ≡ some n → (n < 16) × (digit n ≡ lower c)
unfolding nibble digit lower
nibble-lower c n h = (ground arith, ground arith)

join_nibbles-some :
    (x y : Option ℕ) (r : Option (List ℕ)) (bs : List ℕ)
    → join_nibbles x y r ≡ some bs
    → (hi lo : ℕ) × (t : List ℕ) × (x ≡ some hi)
      × (y ≡ some lo)
      × (r ≡ some t)
      × (bs ≡ (hi * 16 + lo) ∷ t)
unfolding join_nibbles
join_nibbles-some (some hi) (some lo) (some t) bs h = (hi, lo, t, refl, refl, refl, cc)
join_nibbles-some (some hi) (some lo) none bs h = cc
join_nibbles-some (some hi) none r bs h = cc
join_nibbles-some none y r bs h = cc

-- Text that decodes is the encoding of the bytes up to letter case, and they are bytes.
pub encode-decode :
    (s : Text) (bs : List ℕ)
    → decode s ≡ some bs
    → (encode bs ≡ map lower s) × All (λ b. b < 256) bs
unfolding decode encode
encode-decode [] bs h = let e : bs ≡ [] = cc in rw e (refl, tt)
encode-decode (c ∷ []) bs h = cc
encode-decode (c ∷ d ∷ s) bs h =
    let (hi, lo, t, x, y, r, e) = join_nibbles-some (nibble c) (nibble d) (decode s) bs h in
    let (p, p') = nibble-lower c hi x in
    let (q, q') = nibble-lower d lo y in
    let (k, below) = encode-decode s t r in
    let high : (hi * 16 + lo) / 16 ≡ hi = omega arith in
    let low : (hi * 16 + lo) % 16 ≡ lo = omega arith in
    rw (e, high, low, p', q', k) (refl, (omega arith, below))
