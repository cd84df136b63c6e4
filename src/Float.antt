-- ===== src/Float.antt =====
-- The IEEE 754 single-precision arithmetic (`float`) that the message classes use: conversions from
-- and to integers, `*` and `/`, rounded to nearest with ties to even, and `std::isnan`.
pub mod Round
pub mod Digits
pub mod Tenths
pub mod Casts
pub mod Halves
pub mod Error
mod Tests
use unilux_uart.Common.{
  ℕ, zero, suc, ◌+◌, ◌-◌, ◌*◌, ◌/◌, ◌%◌, ◌^◌, ◌≡◌, Bool, true, false, Option, none, some, ltb, leb,
  ◌==◌, if◌then◌else◌,
}
use unilux_uart.Common.Int.{ℤ, pos, negsuc}

-- A finite value is a sign and a magnitude counted in units of 2 ^ -149, the smallest positive float.
pub data Float : Type 0 where
  finite : Bool → ℕ → Float
  infinite : Bool → Float
  nan : Float

-- One, in units of 2 ^ -149.
abbrev pub unit : ℕ
unit = 2 ^ 149

-- The power of two by which a value is coarser than the unit: its 24 leading digits are kept.
unfoldable pub exponent : ℕ → ℕ → ℕ
exponent zero q = 0
exponent (suc fuel) q = let rest = exponent fuel (q / 2) in if ltb q (2 ^ 24) then 0 else suc rest

-- The quotient rounded to nearest, ties to even.
unfoldable pub round_even : ℕ → ℕ → ℕ
round_even num den =
    let twice = 2 * (num % den) in
    if ltb twice den
    then num / den
    else if ltb den twice
    then num / den + 1
    else num / den + num / den % 2

-- The magnitude nearest to num / den with 24 digits. Products and quotients of finite floats are
-- below 2 ^ 432, so the fuel is enough.
unfoldable pub round : ℕ → ℕ → ℕ
round num den = let step = 2 ^ exponent 512 (num / den) in round_even num (den * step) * step

-- Magnitudes of 2 ^ 128 and more overflow.
unfoldable pub rounded : Bool → ℕ → ℕ → Float
rounded neg num den =
    let mag = round num den in if ltb mag (2 ^ 277) then finite neg mag else infinite neg

-- static_cast<float> of an integer
unfoldable pub of_int : ℤ → Float
of_int (pos n) = rounded false (n * unit) 1
of_int (negsuc n) = rounded true (suc n * unit) 1

-- The sign of a product or quotient
abbrev sign_of : Bool → Bool → Bool
sign_of true true = false
sign_of true false = true
sign_of false t = t

abbrev scale_infinite : Bool → Bool → ℕ → Float
scale_infinite s t b = if b == 0 then nan else infinite (sign_of s t)

-- a * b
unfoldable pub mul : Float → Float → Float
mul nan y = nan
mul (finite s a) nan = nan
mul (infinite s) nan = nan
mul (infinite s) (infinite t) = infinite (sign_of s t)
mul (infinite s) (finite t b) = scale_infinite s t b
mul (finite s a) (infinite t) = scale_infinite s t a
mul (finite s a) (finite t b) = rounded (sign_of s t) (a * b) unit

abbrev div_finite : Bool → ℕ → ℕ → Float
div_finite s a b = if b == 0 then (if a == 0 then nan else infinite s) else rounded s (a * unit) b

-- a / b
unfoldable pub div : Float → Float → Float
div nan y = nan
div (finite s a) nan = nan
div (infinite s) nan = nan
div (infinite s) (infinite t) = nan
div (infinite s) (finite t b) = infinite (sign_of s t)
div (finite s a) (infinite t) = finite (sign_of s t) 0
div (finite s a) (finite t b) = div_finite (sign_of s t) a b

-- std::isnan
abbrev pub isnan : Float → Bool
isnan nan = true
isnan x = false

-- static_cast<uint16_t>(x): the value is truncated, and `none` is undefined behaviour, where the
-- truncated value does not fit the type.
unfoldable pub to_uint16 : Float → Option ℕ
to_uint16 (finite false m) = if ltb (m / unit) (2 ^ 16) then some (m / unit) else none
to_uint16 (finite true m) = if m / unit == 0 then some 0 else none
to_uint16 (infinite s) = none
to_uint16 nan = none

abbrev negated : ℕ → ℤ
negated zero = pos 0
negated (suc n) = negsuc n

-- static_cast<int16_t>(x)
unfoldable pub to_int16 : Float → Option ℤ
to_int16 (finite false m) = if ltb (m / unit) (2 ^ 15) then some (pos (m / unit)) else none
to_int16 (finite true m) = if leb (m / unit) (2 ^ 15) then some (negated (m / unit)) else none
to_int16 (infinite s) = none
to_int16 nan = none

-- static_cast<int16_t> of a uint16_t, and back: the value modulo 2 ^ 16
unfoldable pub int16_of_uint16 : ℕ → ℤ
int16_of_uint16 w = if ltb w (2 ^ 15) then pos w else negsuc (2 ^ 16 - 1 - w)

unfoldable pub uint16_of_int16 : ℤ → ℕ
uint16_of_int16 (pos n) = n % 2 ^ 16
uint16_of_int16 (negsuc n) = 2 ^ 16 - 1 - n % 2 ^ 16
