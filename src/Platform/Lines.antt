-- ===== src/Platform/Lines.antt =====
-- `BufRead::lines`: the lines of a file without their endings, each checked to be UTF-8.
use kawach.Prelude.{
  ℕ, ◌≤◌, ◌≡◌, refl, Bool, true, false, ◌&&◌, Option, none, some, List, [], ◌∷◌, ◌++◌, map, Text,
  All, ◌==◌, if◌then◌else◌, arith,
}
use kawach.Platform.Utf8.{is_utf8}

push_byte : ℕ → List Text → List Text
push_byte b [] = (b ∷ []) ∷ []
push_byte b (l ∷ ls) = (b ∷ l) ∷ ls

starts_newline : Text → Bool
starts_newline [] = false
starts_newline (b ∷ bs) = b == b'\n'

-- A line ends at `\n` or `\r\n`; what follows the last of them is a line if it is not empty.
split_lines : Text → List Text
split_lines [] = []
split_lines (b ∷ bs) =
    let rest = split_lines bs in
    if b == b'\n'
    then [] ∷ rest
    else if b == b'\r' && starts_newline bs
    then rest
    else push_byte b rest

-- `none` is the error of a line that is not UTF-8.
checked : Text → Option Text
checked l = if is_utf8 l then some l else none

unfoldable pub read_lines : Text → List (Option Text)
unfolding checked split_lines starts_newline push_byte
read_lines t = map checked (split_lines t)

-- A byte that a line of JSON can hold: no control character.
abbrev pub IsLine : Text → Type 0
IsLine = All (λ b. 32 ≤ b)

split_lines-line : (l t : Text) → IsLine l → split_lines (l ++ (b'\n' ∷ t)) ≡ l ∷ split_lines t
unfolding split_lines push_byte
split_lines-line [] t h = refl
split_lines-line (b ∷ l) t h = ground (arith, split_lines-line l t h.1)

-- A line that ends in a newline is read back, and reading goes on behind it.
pub read_lines-line :
    (l t : Text)
    → IsLine l
    → is_utf8 l ≡ true
    → read_lines (l ++ (b'\n' ∷ t)) ≡ some l ∷ read_lines t
unfolding read_lines
read_lines-line l t h u = rw (split_lines-line l t h, u)

split_lines-last : (b : ℕ) (l : Text) → IsLine (b ∷ l) → split_lines (b ∷ l) ≡ (b ∷ l) ∷ []
unfolding split_lines push_byte starts_newline
split_lines-last b [] h = ground arith
split_lines-last b (c ∷ l) h = ground (arith, split_lines-last c l h.1)

-- A last line without a newline is read too, if it is not empty.
pub read_lines-last :
    (b : ℕ) (l : Text)
    → IsLine (b ∷ l)
    → is_utf8 (b ∷ l) ≡ true
    → read_lines (b ∷ l) ≡ some (b ∷ l) ∷ []
unfolding read_lines
read_lines-last b l h u = rw (split_lines-last b l h, u)

pub read_lines-nil : read_lines [] ≡ []
unfolding read_lines
read_lines-nil = refl
