-- ===== src/Core/Glob.antt =====
-- crates/kawach-core/src/scope.rs: the matcher of one path segment. The indices of the source are what
-- is left of the pattern and of the segment from them on.
pub mod Wild
pub mod Stars
pub mod Exact
use kawach.Prelude.{
  ℕ, zero, suc, ◌+◌, ◌*◌, Text, Bool, true, false, Option, none, some, List, [], ◌∷◌, length, ◌==◌,
  if◌then◌else◌,
}

-- The loop after the segment: what is left of the pattern is stars.
unfoldable pub only_stars : Text → Bool
only_stars [] = true
only_stars (c ∷ p) = let rest = only_stars p in if c == b'*' then rest else false

-- `star` and `backtrack`: the pattern behind the last star, and the segment where it was last tried.
abbrev pub LastStar : Type 0
LastStar = Option (Text × Text)

-- The last two branches of the loop: another try of the last star, or failure.
pub retry : (Text → Text → LastStar → Option Bool) → LastStar → Option Bool
retry again none = some false
retry again (some (q, [])) = some false
retry again (some (q, c ∷ t)) = again q t (some (q, t))

-- The loop, by fuel; `none` is out of fuel.
unfoldable pub match_loop : ℕ → Text → Text → LastStar → Option Bool
unfolding only_stars retry
match_loop zero p s star = none
match_loop (suc fuel) p [] star = some (only_stars p)
match_loop (suc fuel) [] (c ∷ s) star = retry (match_loop fuel) star
match_loop (suc fuel) (d ∷ p) (c ∷ s) star = elim (d == b'*') [
  | true ↦ match_loop fuel p (c ∷ s) (some (p, c ∷ s))
  | false ↦ elim (d == c) [ true ↦ match_loop fuel p s star | false ↦ retry (match_loop fuel) star ]
]

abbrev pub enough : Text → Text → ℕ
enough p s = (length s + 1) * (length p + 1) + length p + 1

or_false : Option Bool → Bool
or_false none = false
or_false (some b) = b

unfoldable pub match_one : Text → Text → Bool
unfolding match_loop or_false
match_one pattern segment = or_false (match_loop (enough pattern segment) pattern segment none)
