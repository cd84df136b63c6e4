-- ===== src/Text/Decimal.antt =====
-- How long printed numbers are, and that they are read back.
use unilux_uart.Common.{
  ℕ, zero, suc, ◌+◌, ◌-◌, ◌*◌, ◌/◌, ◌%◌, ◌^◌, ◌≤◌, ◌<◌, ◌≡◌, refl, ap, ◌∙◌, arith, List, [], ◌∷◌,
  length, length-append, take, ltb, Bool-cases, inl, inr,
}
use unilux_uart.Text.{digits, decimal, c_str, snprintf}
use unilux_uart.Common.{join}
use native.Mathlib.Nat.{pow-suc}

abbrev pub total : List (List ℕ) → ℕ
total [] = 0
total (text ∷ texts) = length text + total texts

pub length-join : (texts : List (List ℕ)) → length (join texts) ≡ total texts
length-join [] = refl
length-join (text ∷ texts) = omega (arith, length-append text (join texts), length-join texts)

length-digits_le :
    (k fuel n : ℕ) (out : List ℕ)
    → n < 10 ^ suc k
    → k ≤ fuel
    → length (digits fuel n out) ≤ suc k + length out
unfolding digits
length-digits_le zero zero n out h f = omega arith
length-digits_le zero (suc fuel) n out h f = ground arith
length-digits_le (suc k) zero n out h f = absurd (omega arith)
length-digits_le (suc k) (suc fuel) n out h f =
    let p = pow-suc 10 (suc k) in
    let rest =
      length-digits_le k fuel (n / 10) ((b'0' + n % 10) ∷ out) (omega arith) (omega arith) in
    ground arith

-- A number below 10 ^ (k + 1) has at most k + 1 digits.
pub length-decimal_le : (k n : ℕ) → n < 10 ^ suc k → k ≤ 40 → length (decimal n) ≤ suc k
unfolding decimal
length-decimal_le k n h f = omega (arith, length-digits_le k 40 n [] h f)

-- The number that digits spell behind `n`
abbrev pub value : ℕ → List ℕ → ℕ
value n [] = n
value n (c ∷ cs) = value (n * 10 + (c - b'0')) cs

value-digits :
    (fuel n : ℕ) (out : List ℕ) → n < 10 ^ suc fuel → value 0 (digits fuel n out) ≡ value n out
unfolding digits
value-digits zero n out h = ap (λ (t : ℕ). value t out) (omega arith)
value-digits (suc fuel) n out h = elim (Bool-cases (ltb n 10)) [
  | inl small ↦ rw small (ap (λ (t : ℕ). value t out) (omega arith))
  | inr large ↦
      let p = pow-suc 10 (suc fuel) in
      rw large (
        value-digits fuel (n / 10) ((b'0' + n % 10) ∷ out) (omega arith)
        ∙ ap (λ (t : ℕ). value t out) (omega arith))
]

-- The digits of a number below 10 ^ 41 spell it.
pub value-decimal : (n : ℕ) → n < 10 ^ 41 → value 0 (decimal n) ≡ n
unfolding decimal
value-decimal n h = value-digits 40 n [] h

take_all : (n : ℕ) (xs : List ℕ) → length xs ≤ n → take n xs ≡ xs
take_all zero [] h = refl
take_all zero (x ∷ xs) h = absurd (omega arith)
take_all (suc n) [] h = refl
take_all (suc n) (x ∷ xs) h = ap (λ (t : List ℕ). x ∷ t) (take_all n xs (omega arith))

-- A text that leaves room for the NUL is not cut.
pub snprintf_whole : (size : ℕ) (text : List ℕ) → length text < size → snprintf size text ≡ text
unfolding snprintf
snprintf_whole size text h = take_all (size - 1) text (omega arith)

pub length-c_str_le : (s : List ℕ) → length (c_str s) ≤ length s
unfolding c_str
length-c_str_le [] = omega arith
length-c_str_le (b ∷ bs) = ground (arith, length-c_str_le bs)
