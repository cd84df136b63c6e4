-- ===== src/Text/Fixed.antt =====
-- A temperature read from the wire is printed with %.1f as exactly the tenths that the wire held.
use unilux_uart.Common.{
  ℕ, zero, suc, ◌+◌, ◌*◌, ◌/◌, ◌%◌, ◌^◌, ◌≤◌, ◌<◌, ◌≡◌, refl, ap, arith, List, [], ◌∷◌, length,
  length-append,
}
use unilux_uart.Common.Int.{ℤ, pos, negsuc}
use unilux_uart.Float.{unit, round_even}
use unilux_uart.Float.Digits.{tenth}
use unilux_uart.Float.Tenths.{tenths, tenth_back, Is17Bit, tenths-nearest, nearest}
use unilux_uart.Text.{decimal, with_point, fixed}
use unilux_uart.Text.Decimal.{length-decimal_le}

-- The nearest integer to a quotient that is off by less than a half
round_even_near :
    (m n : ℕ)
    → 20 * m < 2 * (n * unit) + unit
    → 2 * (n * unit) < 20 * m + unit
    → round_even (m * 10) unit ≡ n
unfolding round_even
round_even_near m n hi lo = ground arith

-- The digits of a signed number of tenths
abbrev pub tenths_text : ℤ → List ℕ
tenths_text (pos n) = with_point n
tenths_text (negsuc n) = b'-' ∷ with_point (suc n)

fixed-nearest : (z : ℤ) → Is17Bit z → fixed (nearest z) ≡ tenths_text z
unfolding fixed round_even
fixed-nearest (pos zero) h = refl
fixed-nearest (pos (suc n)) h =
    let near = tenth_back (suc n) (omega arith) h in
    ap with_point (round_even_near (tenth (suc n)) (suc n) near.2 near.3)
fixed-nearest (negsuc n) h =
    let near = tenth_back (suc n) (omega arith) h in
    ap (λ (t : ℕ). b'-' ∷ with_point t) (round_even_near (tenth (suc n)) (suc n) near.2 near.3)

length-with_point_le : (n : ℕ) → n < 2 ^ 16 → length (with_point n) ≤ 6
unfolding with_point
length-with_point_le n h = omega (
  arith,
  length-append (decimal (n / 10)) (b'.' ∷ (b'0' + n % 10) ∷ []),
  length-decimal_le 3 (n / 10) (omega arith) (omega arith),
)

length-tenths_text_le : (z : ℤ) → Is17Bit z → length (tenths_text z) ≤ 7
length-tenths_text_le (pos n) h = omega (arith, length-with_point_le n h)
length-tenths_text_le (negsuc n) h = omega (arith, length-with_point_le (suc n) h)

-- Divided by ten as `decode` does, a number of up to 16 binary digits and a sign is printed by %.1f
-- with exactly its own digits, the last one behind the point.
pub fixed-tenths : (z : ℤ) → Is17Bit z → fixed (tenths z) ≡ tenths_text z
unfolding fixed
fixed-tenths z h = rw (tenths-nearest z h) (fixed-nearest z h)

-- At most seven characters
pub length-fixed_le : (z : ℤ) → Is17Bit z → length (fixed (tenths z)) ≤ 7
length-fixed_le z h = rw (fixed-tenths z h) (length-tenths_text_le z h)
