-- ===== src/Platform/Utf8.antt =====
-- `str::from_utf8` and `str::trim`: a text is valid if it decodes, and blank if its code points are
-- all white space.
use kawach.Prelude.{
  ℕ, zero, suc, ◌+◌, ◌-◌, ◌*◌, ◌≡◌, refl, Bool, true, false, ◌&&◌, ◌||◌, Option, none, some, List,
  [], ◌∷◌, Text, all, leb, ltb, ◌==◌, if◌then◌else◌,
}

-- Where a decoder stands: between characters, or before some more continuation bytes, the next of
-- which has to lie in a range.
pub data Expect : Type 0 where
  lead : Expect
  more : (left lo hi acc : ℕ) → Expect

abbrev within : ℕ → ℕ → ℕ → Bool
within lo hi b = leb lo b && leb b hi

on_lead : ℕ → Option (Expect × Option ℕ)
on_lead b =
    if ltb b 0x80
    then some (lead, some b)
    else if within 0xC2 0xDF b
    then some (more 0 0x80 0xBF (b - 0xC0), none)
    else if b == 0xE0
    then some (more 1 0xA0 0xBF 0, none)
    else if b == 0xED
    then some (more 1 0x80 0x9F 13, none)
    else if within 0xE1 0xEF b
    then some (more 1 0x80 0xBF (b - 0xE0), none)
    else if b == 0xF0
    then some (more 2 0x90 0xBF 0, none)
    else if within 0xF1 0xF3 b
    then some (more 2 0x80 0xBF (b - 0xF0), none)
    else if b == 0xF4
    then some (more 2 0x80 0x8F 4, none)
    else none

on_byte : Expect → ℕ → Option (Expect × Option ℕ)
on_byte lead b = on_lead b
on_byte (more zero lo hi acc) b =
    if within lo hi b then some (lead, some (acc * 64 + (b - 0x80))) else none
on_byte (more (suc left) lo hi acc) b =
    if within lo hi b then some (more left 0x80 0xBF (acc * 64 + (b - 0x80)), none) else none

emit : Option ℕ → Option (List ℕ) → Option (List ℕ)
emit (some c) (some cs) = some (c ∷ cs)
emit _ rest = rest

decode_from : Expect → Text → Option (List ℕ)
decode_from lead [] = some []
decode_from (more left lo hi acc) [] = none
decode_from s (b ∷ bs) = elim (on_byte s b) [
  | none ↦ none
  | some (t, c) ↦ emit c (decode_from t bs)
]

unfoldable pub code_points : Text → Option (List ℕ)
unfolding decode_from on_byte on_lead emit
code_points = decode_from lead

-- `char::is_whitespace`.
is_white : ℕ → Bool
is_white c =
    within 9 13 c
    || (c == 0x20
        || (c == 0x85
            || (c == 0xA0
                || (c == 0x1680
                    || (within 0x2000 0x200A c
                        || (within 0x2028 0x2029 c
                            || (c == 0x202F || (c == 0x205F || c == 0x3000))))))))

is_some : Option (List ℕ) → Bool
is_some none = false
is_some (some cs) = true

all_white : Option (List ℕ) → Bool
unfolding is_white
all_white none = false
all_white (some cs) = all is_white cs

unfoldable pub is_utf8 : Text → Bool
unfolding is_some code_points
is_utf8 t = is_some (code_points t)

-- `trim().is_empty()`.
unfoldable pub is_blank : Text → Bool
unfolding all_white code_points
is_blank t = all_white (code_points t)

not_white_first : (o : Option (List ℕ)) → all_white (emit (some b'{') o) ≡ false
unfolding all_white emit
not_white_first none = refl
not_white_first (some cs) = refl

-- A text that begins with a brace is not blank.
pub brace_not_blank : (t : Text) → is_blank (b'{' ∷ t) ≡ false
unfolding is_blank
brace_not_blank t = not_white_first (decode_from lead t)
