-- ===== src/Common/Decimals.antt =====
-- Decimal and binary floating point numbers (Python's `Decimal` and `float`) by their exact values,
-- in units of 10^-1074: the value of every finite double is a whole number of these. Special values
-- and the limits of the exponents are not modelled.
use Prim.Native.Nat.{ℕ, zero, suc, ◌+◌, ◌*◌, ◌/◌, ◌%◌, ◌^◌, ◌≤◌, ◌<◌}
use mathlib.Core.Path.{◌≡◌, refl}
use mathlib.Core.Bool.{true, false}
use mathlib.Core.Option.{Option, none, some}
use native.Mathlib.Omega.{arith}
use passport_scorer.Common.Tests.{ltb, ◌==◌, if◌then◌else◌}
use passport_scorer.Common.Int.{ℤ, pos, negsuc, ◌+ℤ◌}

-- The number 1.
unfoldable pub one : ℤ
one = pos (10 ^ 1074)

-- The first of `limit`, `base * limit`, ... that is above `n`.
unfoldable pub limit_from : ℕ → ℕ → ℕ → ℕ → ℕ
limit_from base zero limit n = limit
limit_from base (suc fuel) limit n = elim (ltb n limit) [
  | true ↦ limit
  | false ↦ limit_from base fuel (base * limit) n
]

-- `n` rounded to a multiple of `unit`, a tie to the even multiple.
unfoldable pub half_even : ℕ → ℕ → ℕ
half_even unit n =
    let low = n / unit in
    let rest = n % unit in
    if ltb (rest + rest) unit
    then low * unit
    else if ltb unit (rest + rest)
    then (low + 1) * unit
    else if low % 2 == 0
    then low * unit
    else (low + 1) * unit

-- `n` rounded to `digits` (a power of the base) above the least unit.
unfoldable pub round_digits : ℕ → ℕ → ℕ → ℕ → ℕ
unfolding limit_from half_even
round_digits base digits least n = half_even (limit_from base n (digits * least) n / digits) n

abbrev negated : ℕ → ℤ
negated zero = pos 0
negated (suc n) = negsuc n

-- Signs do not matter to the rounding.
unfoldable pub signed : (ℕ → ℕ) → ℤ → ℤ
signed round (pos n) = pos (round n)
signed round (negsuc n) = negated (round (suc n))

-- `a + b` of two decimals, in the default context of 28 digits.
unfoldable pub add_decimal : ℤ → ℤ → ℤ
unfolding signed round_digits ◌+ℤ◌
add_decimal a b = signed (round_digits 10 (10 ^ 28) 1) (a +ℤ b)

-- `float(d)`: the nearest double, whose least unit is 2^-1074, with 53 binary digits.
unfoldable pub float_of : ℤ → ℤ
unfolding signed round_digits
float_of = signed (round_digits 2 (2 ^ 53) (5 ^ 1074))

-- `f"{d:.5f}"`
unfoldable pub quantize : ℤ → ℤ
unfolding signed half_even
quantize = signed (half_even (10 ^ 1069))

abbrev magnitude : ℤ → ℕ
magnitude (pos n) = n
magnitude (negsuc n) = suc n

-- `d.quantize(Decimal("0.000000000"))`, which raises where the result has more than 28 digits.
unfoldable pub quantize_nine : ℤ → Option ℤ
unfolding signed half_even
quantize_nine d =
    let rounded = signed (half_even (10 ^ 1065)) d in
    if ltb (magnitude rounded) (10 ^ 1093) then some rounded else none

-- The fuel of `limit_from` is enough: the limit is above the number.
pub limit_from-lt :
    (base fuel limit n : ℕ)
    → ((l : ℕ) → l + l ≤ base * l)
    → 1 ≤ limit
    → n < limit + fuel
    → n < limit_from base fuel limit n
unfolding limit_from
limit_from-lt base zero limit n grows h e = omega arith
limit_from-lt base (suc fuel) limit n grows h e =
    ground (arith, grows limit, limit_from-lt base fuel (base * limit) n grows)

-- The double nearest to 0.7 is below it, and so is its sum with 0 in 28 digits.
float_of_seven_tenths :
    (float_of (pos (7 * 10 ^ 1073))
      ≡ pos (69999999999999995559107901499373838305473327636718750 * 10 ^ 1021))
    × (add_decimal (pos 0) (float_of (pos (7 * 10 ^ 1073)))
        ≡ pos (6999999999999999555910790150 * 10 ^ 1046))
unfolding float_of add_decimal
float_of_seven_tenths = (refl, refl)
