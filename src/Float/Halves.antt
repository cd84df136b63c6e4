-- ===== src/Float/Halves.antt =====
-- Half degrees, which are floats, are the floats that `decode` makes of their tenths.
use unilux_uart.Common.{
  ℕ, zero, suc, ◌+◌, ◌*◌, ◌^◌, ◌<◌, ◌≡◌, ap, sym, ◌∙◌, arith, true, false, Bool, leb, ◌==◌, ◌&&◌,
}
use unilux_uart.Common.Int.{ℤ, pos, negsuc}
use unilux_uart.Float.{Float, finite, unit, round_even}
use unilux_uart.Float.Digits.{tenth, Digits-of}
use unilux_uart.Float.Tenths.{tenths, tenths-nearest}

-- z / 2
abbrev pub half : ℤ → Float
half (pos n) = finite false (n * 2 ^ 148)
half (negsuc n) = finite true (suc n * 2 ^ 148)

-- a <= b, of finite values
abbrev pub le : Float → Float → Bool
le (finite false a) (finite false b) = leb a b
le (finite true a) (finite true b) = leb b a
le (finite true a) (finite false b) = true
le (finite false a) (finite true b) = (a == 0) && (b == 0)
le _ _ = false

round_even_whole : (q : ℕ) → round_even (10 * q) 10 ≡ q
unfolding round_even
round_even_whole q = ground arith

tenth_five : (k : ℕ) → 0 < k → 5 * k < 2 ^ 16 → tenth (5 * k) ≡ k * 2 ^ 148
tenth_five k k_pos fits =
    let d = Digits-of (5 * k) (omega arith) fits in
    let e = 122 + d.place in
    let q = k * 2 ^ d.spare * 2 ^ 10 in
    let ten_q : 5 * k * 2 ^ d.spare * 2 ^ 11 ≡ 10 * q = omega arith in
    let whole : round_even (5 * k * 2 ^ d.spare * 2 ^ 11) 10 ≡ q = rw ten_q (round_even_whole q) in
    let scale : k * unit ≡ k * (2 ^ e * (2 ^ d.spare * 2 ^ 11)) = ap (λ (t : ℕ). k * t) d.scale in
    d.quotient ∙ rw whole (omega (arith, scale))

-- Every half degree that a 16-bit number of tenths can be
pub tenths-half_pos : (n : ℕ) → 5 * n < 2 ^ 16 → tenths (pos (5 * n)) ≡ half (pos n)
tenths-half_pos zero fits = tenths-nearest (pos 0) (omega arith)
tenths-half_pos (suc n) fits =
    let same : 5 * suc n ≡ suc (5 * n + 4) = omega arith in
    ap (λ (t : ℕ). tenths (pos t)) same
    ∙ tenths-nearest (pos (suc (5 * n + 4))) (omega arith)
    ∙ ap (finite false) (ap tenth (sym same) ∙ tenth_five (suc n) (omega arith) fits)

pub tenths-half_negsuc :
    (n : ℕ) → 5 * suc n < 2 ^ 16 → tenths (negsuc (5 * n + 4)) ≡ half (negsuc n)
tenths-half_negsuc n fits =
    let same : suc (5 * n + 4) ≡ 5 * suc n = omega arith in
    tenths-nearest (negsuc (5 * n + 4)) (omega arith)
    ∙ ap (finite true) (ap tenth same ∙ tenth_five (suc n) (omega arith) fits)
