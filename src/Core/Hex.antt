-- ===== src/Core/Hex.antt =====
-- crates/kawach-core/src/hex.rs: the hex codec.
pub mod RoundTrip
use kawach.Prelude.{
  ℕ, ◌+◌, ◌-◌, ◌*◌, ◌/◌, ◌%◌, Text, Bool, ◌&&◌, Option, none, some, List, [], ◌∷◌, leb, ltb,
  if◌then◌else◌,
}

-- The entry of the table `HEX` at an index below 16.
digit : ℕ → ℕ
digit n = if ltb n 10 then b'0' + n else b'a' + (n - 10)

-- `b >> 4` and `b & 0x0f`.
unfoldable pub encode : List ℕ → Text
unfolding digit
encode [] = []
encode (b ∷ bs) = digit (b / 16) ∷ digit (b % 16) ∷ encode bs

unfoldable pub nibble : ℕ → Option ℕ
nibble c =
    if leb b'0' c && leb c b'9'
    then some (c - b'0')
    else if leb b'a' c && leb c b'f'
    then some (c - b'a' + 10)
    else if leb b'A' c && leb c b'F'
    then some (c - b'A' + 10)
    else none

-- `(hi << 4) | lo`, of two nibbles.
join_nibbles : Option ℕ → Option ℕ → Option (List ℕ) → Option (List ℕ)
join_nibbles (some hi) (some lo) (some bs) = some ((hi * 16 + lo) ∷ bs)
join_nibbles _ _ _ = none

-- Text of odd length is refused before anything is read, here by its last character.
unfoldable pub decode : Text → Option (List ℕ)
unfolding nibble join_nibbles
decode [] = some []
decode (c ∷ []) = none
decode (c ∷ d ∷ s) = join_nibbles (nibble c) (nibble d) (decode s)
