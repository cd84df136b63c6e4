-- ===== src/Float/Round.antt =====
-- Rounding to 24 digits: the exponent that it finds, and that a common factor does not matter.
use unilux_uart.Common.{
  ℕ, zero, suc, ◌+◌, ◌*◌, ◌/◌, ◌%◌, ◌^◌, ◌≤◌, ◌<◌, ◌≡◌, refl, ap, ◌∙◌, arith, ltb, Bool-cases, inl,
  inr, lt→ltb, ltb→lt,
}
use mathlib.Core.Path.{ap₂}
use native.Mathlib.Nat.{
  mul-le-mul_right, mul-lt-mul_of_pos_right, div-add-mod, pow-suc, le-div_iff_mul-le,
  div-lt_iff_lt-mul, mul-div-mul_right, add-zero, add-suc,
}
use unilux_uart.Float.{exponent, round_even, round}

pub two-pow-add : (a b : ℕ) → 2 ^ (a + b) ≡ 2 ^ a * 2 ^ b
two-pow-add a zero = rw add-zero (omega arith)
two-pow-add a (suc b) =
    rw add-suc
      (omega (arith, pow-suc 2 (a + b), two-pow-add a b, ap (λ (t : ℕ). 2 ^ a * t) (pow-suc 2 b)))

pub pow_pos : (k : ℕ) → 0 < 2 ^ k
pow_pos zero = omega arith
pow_pos (suc k) = omega (arith, pow-suc 2 k, pow_pos k)

exponent_lem :
    (j fuel q : ℕ) → j ≤ fuel → 2 ^ 23 * 2 ^ j ≤ q → q < 2 ^ 24 * 2 ^ j → exponent fuel q ≡ j
unfolding exponent
exponent_lem zero zero q f lo hi = refl
exponent_lem zero (suc fuel) q f lo hi = ground arith
exponent_lem (suc j) zero q f lo hi = absurd (omega arith)
exponent_lem (suc j) (suc fuel) q f lo hi =
    let p = pow-suc 2 j in
    let p2 = pow_pos j in
    let rest = exponent_lem j fuel (q / 2) (omega arith) (omega arith) (omega arith) in
    let big : 2 ^ 24 ≤ q = omega arith in ground arith

ltb_scaled : (x y c : ℕ) → 0 < c → ltb (x * c) (y * c) ≡ ltb x y
ltb_scaled x y c pos = elim (Bool-cases (ltb x y)) [
  | inl less ↦ rw less (lt→ltb _ _ (grind (arith, ltb→lt x y less)))
  | inr not_less ↦
      let above : y * c ≤ x * c = mul-le-mul_right c (ground arith) in rw not_less (ground arith)
]

module _ (a b c : ℕ) (pos : 0 < c) where
  div_scaled : a * c / (b * c) ≡ a / b
  div_scaled = mul-div-mul_right a b pos

  mod_scaled : a * c % (b * c) ≡ a % b * c
  mod_scaled =
      let whole : b * c * (a / b) + a * c % (b * c) ≡ a * c =
        rw div_scaled at (div-add-mod (a * c) (b * c)) in
      omega (arith, whole, ap (λ (t : ℕ). t * c) (div-add-mod a b))

  round_even_scaled : round_even (a * c) (b * c) ≡ round_even a b
  unfolding round_even
  round_even_scaled =
      let twice : 2 * (a * c % (b * c)) ≡ 2 * (a % b) * c = omega (arith, mod_scaled) in
      rw (twice, div_scaled, ltb_scaled (2 * (a % b)) b c pos, ltb_scaled b (2 * (a % b)) c pos)
        refl

exponent_scaled :
    (j n d c : ℕ)
    → j ≤ 512
    → 0 < d
    → 0 < c
    → 2 ^ 23 * d ≤ n
    → n < 2 ^ 24 * d
    → exponent 512 (n * 2 ^ j * c / (d * c)) ≡ j
exponent_scaled j n d c small d_pos c_pos lo hi = rw (div_scaled (n * 2 ^ j) d c c_pos) (
    exponent_lem j 512 (n * 2 ^ j / d) small
      ((le-div_iff_mul-le d_pos).1 (omega (arith, mul-le-mul_right (2 ^ j) lo)))
      ((div-lt_iff_lt-mul d_pos).1 (omega (arith, mul-lt-mul_of_pos_right hi (pow_pos j)))))

-- A quotient whose two sides share the factor `c`, with 24 digits left before the factor 2 ^ j
pub round_scaled :
    (j n d c : ℕ)
    → j ≤ 512
    → 0 < d
    → 0 < c
    → 2 ^ 23 * d ≤ n
    → n < 2 ^ 24 * d
    → round (n * 2 ^ j * c) (d * c) ≡ round_even n d * 2 ^ j
unfolding round
round_scaled j n d c small d_pos c_pos lo hi =
    let num : n * 2 ^ j * c ≡ n * (c * 2 ^ j) = omega arith in
    let den : d * c * 2 ^ j ≡ d * (c * 2 ^ j) = omega arith in
    let pos : 0 < c * 2 ^ j = grind (arith, pow_pos j) in
    rw (exponent_scaled j n d c small d_pos c_pos lo hi)
      (ap (λ (t : ℕ). t * 2 ^ j) (ap₂ round_even num den ∙ round_even_scaled n d (c * 2 ^ j) pos))
