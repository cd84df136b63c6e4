-- ===== src/Float/Error.antt =====
-- How far the rounding of a product by ten, and a cast of it, are off.
use unilux_uart.Common.{
  ℕ, zero, suc, ◌+◌, ◌-◌, ◌*◌, ◌/◌, ◌%◌, ◌^◌, ◌≤◌, ◌<◌, ◌≡◌, refl, ap, ◌∙◌, arith, ltb, Bool-cases,
  inl, inr, lt→ltb, false, some,
}
use unilux_uart.Float.{finite, unit, exponent, round_even, round, rounded, mul, to_uint16}
use unilux_uart.Float.Round.{pow_pos, two-pow-add}
use unilux_uart.Float.Tenths.{ten}
use native.Mathlib.Nat.{div-add-mod, mod-lt, pow-suc, mul-le-mul_left}

exponent_le : (k fuel q : ℕ) → q < 2 ^ 24 * 2 ^ k → exponent fuel q ≤ k
unfolding exponent
exponent_le k zero q h = omega arith
exponent_le zero (suc fuel) q h = ground arith
exponent_le (suc k) (suc fuel) q h =
    let p = pow-suc 2 k in let rest = exponent_le k fuel (q / 2) (omega arith) in ground arith

-- Rounding to nearest is off by at most half the divisor.
round_even_error :
    (n d : ℕ)
    → 0 < d
    → (2 * (d * round_even n d) ≤ 2 * n + d) × (2 * n ≤ 2 * (d * round_even n d) + d)
unfolding round_even
round_even_error n d d_pos =
    let whole = div-add-mod n d in
    let small = mod-lt n d_pos in
    elim (Bool-cases (ltb (2 * (n % d)) d)) [
      | inl below ↦ rw below (ground arith)
      | inr not_below ↦ elim (Bool-cases (ltb d (2 * (n % d)))) [
        | inl above ↦ rw (not_below, above) (ground arith)
        | inr not_above ↦ rw (not_below, not_above) (ground arith)
      ]
    ]

pow_le : (a b : ℕ) → a ≤ b → 2 ^ a ≤ 2 ^ b
pow_le a b h =
    let whole : 2 ^ b ≡ 2 ^ a * 2 ^ (b - a) =
      ap (λ (t : ℕ). 2 ^ t) (omega arith) ∙ two-pow-add a (b - a) in
    let more : 2 ^ a * 1 ≤ 2 ^ a * 2 ^ (b - a) = mul-le-mul_left (2 ^ a) (pow_pos (b - a)) in
    omega (arith, whole, more)

-- Ten times a number below 6553.6, rounded, is off by at most 2 ^ -9.
pub round_ten :
    (m : ℕ)
    → 10 * m < 2 ^ 16 * unit
    → let mag = round (m * (10 * unit)) unit in
      (2 * mag ≤ 20 * m + 2 ^ 141) × (20 * m ≤ 2 * mag + 2 ^ 141)
unfolding round
round_ten m h =
    let quotient : m * (10 * unit) / unit ≡ 10 * m = omega arith in
    let e = exponent 512 (m * (10 * unit) / unit) in
    let small : e ≤ 141 = rw quotient (exponent_le 141 512 (10 * m) (omega arith)) in
    let r = round_even (m * (10 * unit)) (unit * 2 ^ e) in
    let near = round_even_error (m * (10 * unit)) (unit * 2 ^ e) (omega (arith, pow_pos e)) in
    let step = pow_le e 141 small in
    let product : unit * 2 ^ e * r ≡ unit * (r * 2 ^ e) = omega arith in
    (omega (arith, near.0, product, step), omega (arith, near.1, product, step))

-- A finite float from 0 to 6553.5, scaled by ten and cast to uint16_t, is not undefined, and is the
-- number of tenths below it, up to 2 ^ -9 tenths.
pub uint16_near :
    (m : ℕ)
    → m ≤ 6553 * unit
    → (w : ℕ) × (to_uint16 (mul (finite false m) ten) ≡ some w)
      × (w < 2 ^ 16)
      × (w * unit ≤ 10 * m + 2 ^ 140)
      × (10 * m < (w + 1) * unit + 2 ^ 140)
unfolding mul to_uint16 rounded
uint16_near m h =
    let mag = round (m * (10 * unit)) unit in
    let near = round_ten m (omega arith) in
    let w = mag / unit in
    let fits : mag < 2 ^ 277 = omega (arith, near.0) in
    let small : w < 2 ^ 16 = omega (arith, near.0) in
    (
      w,
      rw (lt→ltb _ _ fits) (rw (lt→ltb _ _ small) refl),
      small,
      omega (arith, near.0),
      omega (arith, near.1),
    )
