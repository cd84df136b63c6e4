-- ===== src/Float/Tenths.antt =====
-- The fixed-point numbers of the protocol: an integer divided by ten and multiplied by ten again
-- comes back exactly, although neither step is exact.
use unilux_uart.Common.{
  ℕ, zero, suc, ◌+◌, ◌*◌, ◌%◌, ◌^◌, ◌≤◌, ◌<◌, ◌≡◌, refl, ap, sym, ◌∙◌, arith, ltb, Bool-cases, inl,
  inr, lt→ltb, ltb→lt, Bool, true, false,
}
use unilux_uart.Common.Int.{ℤ, pos, negsuc}
use unilux_uart.Float.{Float, finite, unit, exponent, round_even, round, rounded, of_int, mul, div}
use unilux_uart.Float.Round.{two-pow-add, pow_pos, round_scaled}
use unilux_uart.Float.Digits.{binade, tenth, Digits-of}
use native.Mathlib.Nat.{mul-le-mul, mul-le-mul_left, mul-le-mul_right, mul-lt-mul_of_pos_right}

-- Dividing by ten is off by at most four tenths of the last digit, if the last four digits are zero.
round_even_ten :
    (n : ℕ) → n % 16 ≡ 0 → (10 * round_even n 10 ≤ n + 4) × (n ≤ 10 * round_even n 10 + 4)
unfolding round_even
round_even_ten n even = ground arith

round_even_eight : (m n : ℕ) → n % 16 ≡ 0 → m ≤ n + 4 → n ≤ m + 4 → 8 * round_even m 8 ≡ n
unfolding round_even
round_even_eight m n even hi lo = ground arith

round_even_sixteen : (m n : ℕ) → n % 16 ≡ 0 → m ≤ n + 4 → n ≤ m + 4 → 16 * round_even m 16 ≡ n
unfolding round_even
round_even_sixteen m n even hi lo = ground arith

-- Multiplied by ten, the quotient's digits are rounded by three or by four places, to the number
-- that was divided.
module _ (e n m : ℕ) (small : e ≤ 138) (even : n % 16 ≡ 0) (over : 10 * m ≤ n + 4)
    (under : n ≤ 10 * m + 4) where
  back_three :
      2 ^ 23 * 8 ≤ 10 * m → 10 * m < 2 ^ 24 * 8 → round (m * 2 ^ e * (10 * unit)) unit ≡ n * 2 ^ e
  back_three lo hi =
      let num : m * 2 ^ e * (10 * unit) ≡ 10 * m * 2 ^ (e + 3) * 2 ^ 146 =
        rw (two-pow-add e 3) (omega arith) in
      rw num (
        round_scaled (e + 3) (10 * m) 8 (2 ^ 146) (omega arith) (omega arith) (omega arith) lo hi
        ∙ rw (two-pow-add e 3) (
            omega (arith, ap (λ (t : ℕ). t * 2 ^ e) (round_even_eight (10 * m) n even over under))))

  back_four :
      2 ^ 23 * 16 ≤ 10 * m → 10 * m < 2 ^ 24 * 16 → round (m * 2 ^ e * (10 * unit)) unit ≡ n * 2 ^ e
  back_four lo hi =
      let num : m * 2 ^ e * (10 * unit) ≡ 10 * m * 2 ^ (e + 4) * 2 ^ 145 =
        rw (two-pow-add e 4) (omega arith) in
      rw num (
        round_scaled (e + 4) (10 * m) 16 (2 ^ 145) (omega arith) (omega arith) (omega arith) lo hi
        ∙ rw (two-pow-add e 4) (
            omega
              (arith, ap (λ (t : ℕ). t * 2 ^ e) (round_even_sixteen (10 * m) n even over under))))

  back : 2 ^ 23 * 10 ≤ n → n < 2 ^ 24 * 10 → round (m * 2 ^ e * (10 * unit)) unit ≡ n * 2 ^ e
  back lo hi = elim (Bool-cases (ltb (10 * m) (2 ^ 24 * 8))) [
    | inl less ↦ back_three (omega arith) (ltb→lt _ _ less)
    | inr above ↦ back_four (omega (arith, not_less above)) (omega arith)
  ]
    where
      not_less : ltb (10 * m) (2 ^ 24 * 8) ≡ false → 2 ^ 24 * 8 ≤ 10 * m
      not_less e = ground arith

one-le-product : (r : ℕ) → 1 ≤ 2 ^ r * 2 ^ 11
one-le-product r = omega (arith, pow_pos r)

sixteen-le-product : (r : ℕ) → 16 ≤ 2 ^ r * 2 ^ 11
sixteen-le-product r = omega (arith, pow_pos r)

-- A positive number below 2 ^ 16 divided by ten and multiplied by ten is itself again, neither step
-- overflows, and the quotient is off by less than half a tenth.
pub tenth_back :
    (n : ℕ)
    → 0 < n
    → n < 2 ^ 16
    → (round (tenth n * (10 * unit)) unit ≡ n * unit)
      × (tenth n < 2 ^ 277)
      × (20 * tenth n < 2 * (n * unit) + unit)
      × (2 * (n * unit) < 20 * tenth n + unit)
tenth_back n n_pos fits =
    let d = Digits-of n n_pos fits in
    let r = d.spare in
    let e = 122 + d.place in
    let digits = n * 2 ^ r * 2 ^ 11 in
    let total = d.places in
    let scale = d.scale in
    let num : n * unit ≡ digits * 2 ^ e = ap (λ (t : ℕ). n * t) scale ∙ omega arith in
    let even : digits % 16 ≡ 0 = omega arith in
    let near = round_even_ten digits even in
    let quotient = round_even digits 10 in
    let short : 2 ^ e ≤ unit = omega (arith, scale, mul-le-mul_left (2 ^ e) (one-le-product r)) in
    let above : 10 * quotient * 2 ^ e ≤ (digits + 4) * 2 ^ e = mul-le-mul_right (2 ^ e) near.0 in
    let below : digits * 2 ^ e ≤ (10 * quotient + 4) * 2 ^ e = mul-le-mul_right (2 ^ e) near.1 in
    let tiny : 16 * 2 ^ e ≤ unit =
      omega (arith, scale, mul-le-mul_left (2 ^ e) (sixteen-le-product r), pow_pos e) in
    let small : quotient ≤ 2 ^ 25 = omega (arith, d.at_most) in
    let bound : quotient * 2 ^ e ≤ 2 ^ 25 * unit =
      mul-le-mul {n₁ = quotient} {n₂ = 2 ^ 25} small short in
    let back_again = back e digits quotient (omega arith) even near.0 near.1 d.at_least d.at_most in
    (
      rw d.quotient (back_again ∙ sym num),
      rw d.quotient (omega (arith, bound)),
      rw d.quotient (omega (arith, num, above, below, tiny)),
      rw d.quotient (omega (arith, num, above, below, tiny)),
    )

round_even_one : (n : ℕ) → round_even n 1 ≡ n
unfolding round_even
round_even_one n = ground arith

-- Integers below 2 ^ 16 are floats.
round_integer : (n : ℕ) → 0 < n → n < 2 ^ 16 → round (n * unit) 1 ≡ n * unit
round_integer n n_pos fits =
    let (p, r, total, l, h) = binade 15 (10 * n) (omega arith) (omega arith) in
    let e = 126 + p in
    let digits = n * 2 ^ r * 2 ^ 8 in
    let span : 2 ^ 15 ≡ 2 ^ p * 2 ^ r = ap (λ (t : ℕ). 2 ^ t) (sym total) ∙ two-pow-add p r in
    let scale : unit ≡ 2 ^ e * (2 ^ r * 2 ^ 8) = rw (two-pow-add 126 p) (omega (arith, span)) in
    let lo : 2 ^ 23 * 1 ≤ digits = omega (arith, mul-le-mul_right (2 ^ r) l, span) in
    let hi : digits < 2 ^ 24 * 1 = omega (arith, mul-lt-mul_of_pos_right h (pow_pos r), span) in
    let num : n * unit ≡ digits * 2 ^ e * 1 = ap (λ (t : ℕ). n * t) scale ∙ omega arith in
    let first : round (n * unit) 1 ≡ round_even digits 1 * 2 ^ e =
      ap (λ (t : ℕ). round t (1 * 1)) num
      ∙ round_scaled e digits 1 1 (omega arith) (omega arith) (omega arith) lo hi in
    first ∙ ap (λ (t : ℕ). t * 2 ^ e) (round_even_one digits) ∙ omega (arith, num)

rounded_lem :
    (s : Bool) (num den mag : ℕ)
    → round num den ≡ mag
    → mag < 2 ^ 277
    → rounded s num den ≡ finite s mag
unfolding rounded
rounded_lem s num den mag e fits = rw e (rw (lt→ltb _ _ fits) refl)

-- 10.0f
abbrev pub ten : Float
ten = finite false (10 * unit)

module _ (n : ℕ) (n_pos : 0 < n) (fits : n < 2 ^ 16) where
  div-ten : (s : Bool) → div (finite s (n * unit)) ten ≡ finite s (tenth n)
  unfolding div
  div-ten false = rounded_lem false _ _ _ refl (tenth_back n n_pos fits).1
  div-ten true = rounded_lem true _ _ _ refl (tenth_back n n_pos fits).1

  mul-ten : (s : Bool) → mul (finite s (tenth n)) ten ≡ finite s (n * unit)
  unfolding mul
  mul-ten false = rounded_lem false _ _ _ (tenth_back n n_pos fits).0 (omega arith)
  mul-ten true = rounded_lem true _ _ _ (tenth_back n n_pos fits).0 (omega arith)

  integer : (s : Bool) → rounded s (n * unit) 1 ≡ finite s (n * unit)
  integer s = rounded_lem s _ _ _ (round_integer n n_pos fits) (omega arith)

-- `static_cast<float>(z) / SCALE`
unfoldable pub tenths : ℤ → Float
tenths z = div (of_int z) ten

-- The integer as a float
abbrev pub whole : ℤ → Float
whole (pos n) = finite false (n * unit)
whole (negsuc n) = finite true (suc n * unit)

abbrev pub Is17Bit : ℤ → Type 0
Is17Bit (pos n) = n < 2 ^ 16
Is17Bit (negsuc n) = suc n < 2 ^ 16

zero_tenths : mul (tenths (pos 0)) ten ≡ whole (pos 0)
unfolding tenths mul div of_int rounded round exponent round_even
zero_tenths = refl

-- An integer of up to 16 binary digits, divided by ten as a float and multiplied by ten again, is
-- itself.
pub tenths_back : (z : ℤ) → Is17Bit z → mul (tenths z) ten ≡ whole z
unfolding tenths of_int
tenths_back (pos zero) h = zero_tenths
tenths_back (pos (suc n)) h =
    rw (integer (suc n) (omega arith) h false, div-ten (suc n) (omega arith) h false)
      (mul-ten (suc n) (omega arith) h false)
tenths_back (negsuc n) h =
    rw (integer (suc n) (omega arith) h true, div-ten (suc n) (omega arith) h true)
      (mul-ten (suc n) (omega arith) h true)

-- The float of a number of tenths
abbrev pub nearest : ℤ → Float
nearest (pos zero) = finite false 0
nearest (pos (suc n)) = finite false (tenth (suc n))
nearest (negsuc n) = finite true (tenth (suc n))

pub tenths-nearest : (z : ℤ) → Is17Bit z → tenths z ≡ nearest z
unfolding tenths of_int
tenths-nearest (pos zero) h = unfold div rounded round exponent round_even in refl
tenths-nearest (pos (suc n)) h =
    rw (integer (suc n) (omega arith) h false) (div-ten (suc n) (omega arith) h false)
tenths-nearest (negsuc n) h =
    rw (integer (suc n) (omega arith) h true) (div-ten (suc n) (omega arith) h true)
