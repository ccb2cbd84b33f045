-- ===== src/Platform/Decimal.antt =====
-- `to_string` of an unsigned integer, and that it loses nothing.
use kawach.Prelude.{
  ℕ, zero, suc, ◌+◌, ◌-◌, ◌*◌, ◌/◌, ◌%◌, ◌<◌, ◌≡◌, ap, Bool-cases, inl, inr, [], ◌∷◌, Text, ltb,
  if◌then◌else◌, arith,
}

-- The digits before those of `acc`; the fuel bounds the number of digits.
decimal_from : ℕ → ℕ → Text → Text
decimal_from zero n acc = acc
decimal_from (suc f) n acc =
    let more = decimal_from f (n / 10) ((b'0' + n % 10) ∷ acc) in
    if ltb n 10 then (b'0' + n) ∷ acc else more

unfoldable pub decimal : ℕ → Text
unfolding decimal_from
decimal n = decimal_from (suc n) n []

value_from : ℕ → Text → ℕ
value_from v [] = v
value_from v (d ∷ ds) = value_from (v * 10 + (d - b'0')) ds

value-decimal_from :
    (f n : ℕ) (acc : Text) → n < f → value_from 0 (decimal_from f n acc) ≡ value_from n acc
unfolding decimal_from value_from
value-decimal_from zero n acc h = absurd (omega arith)
value-decimal_from (suc f) n acc h = elim (Bool-cases (ltb n 10)) [
  | inl small ↦ rw small (ap (λ v. value_from v acc) (omega arith))
  | inr large ↦ rw large (
      rw (value-decimal_from f (n / 10) ((b'0' + n % 10) ∷ acc) (ground arith))
        (ap (λ v. value_from v acc) (omega arith)))
]

value-decimal : (n : ℕ) → value_from 0 (decimal n) ≡ n
unfolding decimal value_from
value-decimal n = value-decimal_from (suc n) n [] (omega arith)

pub decimal-injective : (m n : ℕ) → decimal m ≡ decimal n → m ≡ n
decimal-injective m n h = cc (value-decimal m, value-decimal n, ap (value_from 0) h)
