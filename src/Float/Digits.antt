-- ===== src/Float/Digits.antt =====
-- The digits of an integer that is divided by ten in binary32.
use unilux_uart.Common.{
  ℕ, zero, suc, ◌+◌, ◌*◌, ◌^◌, ◌≤◌, ◌<◌, ◌≡◌, ap, sym, ◌∙◌, arith, ltb, Bool-cases, inl, inr,
  ltb→lt, false,
}
use unilux_uart.Float.{unit, round_even, round}
use unilux_uart.Float.Round.{two-pow-add, pow_pos, round_scaled}
use native.Mathlib.Nat.{pow-suc, mul-le-mul_right, mul-lt-mul_of_pos_right}

-- The binade of a number between 10 and 20 * 2 ^ k
pub binade :
    (k x : ℕ)
    → 10 ≤ x
    → x < 20 * 2 ^ k
    → (p : ℕ) × (r : ℕ) × (p + r ≡ k) × (10 * 2 ^ p ≤ x) × (x < 20 * 2 ^ p)
binade zero x lo hi = (0, 0, omega arith, omega arith, hi)
binade (suc k) x lo hi = elim (Bool-cases (ltb x (20 * 2 ^ k))) [
  | inl less ↦
      let (p, r, e, l, h) = binade k x lo (ltb→lt _ _ less) in (p, suc r, omega arith, l, h)
  | inr above ↦ (suc k, 0, omega arith, omega (arith, pow-suc 2 k, not_less above), hi)
]
  where
    not_less : ltb x (20 * 2 ^ k) ≡ false → 20 * 2 ^ k ≤ x
    not_less e = ground arith

-- The magnitude of n / 10
abbrev pub tenth : ℕ → ℕ
tenth n = round (n * unit * unit) (10 * unit)

-- The 24 digits before the division by ten, which start at a binade's edge, and the scale behind them
pub record Digits (n : ℕ) : Type 0 where
  pub place : ℕ
  pub spare : ℕ
  pub places : place + spare ≡ 16
  pub at_least : 2 ^ 23 * 10 ≤ n * 2 ^ spare * 2 ^ 11
  pub at_most : n * 2 ^ spare * 2 ^ 11 < 2 ^ 24 * 10
  pub scale : unit ≡ 2 ^ (122 + place) * (2 ^ spare * 2 ^ 11)
  pub quotient : tenth n ≡ round_even (n * 2 ^ spare * 2 ^ 11) 10 * 2 ^ (122 + place)

pub Digits-of : (n : ℕ) → 0 < n → n < 2 ^ 16 → Digits n
Digits-of n n_pos fits =
    let (p, r, total, l, h) = binade 16 (16 * n) (omega arith) (omega arith) in
    let e = 122 + p in
    let digits = n * 2 ^ r * 2 ^ 11 in
    let span : 2 ^ 16 ≡ 2 ^ p * 2 ^ r = ap (λ (t : ℕ). 2 ^ t) (sym total) ∙ two-pow-add p r in
    let scale : unit ≡ 2 ^ e * (2 ^ r * 2 ^ 11) = rw (two-pow-add 122 p) (omega (arith, span)) in
    let lo : 2 ^ 23 * 10 ≤ digits = omega (arith, mul-le-mul_right (2 ^ r) l, span) in
    let hi : digits < 2 ^ 24 * 10 = omega (arith, mul-lt-mul_of_pos_right h (pow_pos r), span) in
    let num : n * unit ≡ digits * 2 ^ e = ap (λ (t : ℕ). n * t) scale ∙ omega arith in
    record {
      place = p;
      spare = r;
      places = total;
      at_least = lo;
      at_most = hi;
      scale = scale;
      quotient =
          ap (λ (t : ℕ). round (t * unit) (10 * unit)) num
          ∙ round_scaled e digits 10 unit (omega arith) (omega arith) (omega arith) lo hi;
    }
