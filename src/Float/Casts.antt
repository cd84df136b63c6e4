-- ===== src/Float/Casts.antt =====
-- A 16-bit value read from the wire, taken to a float in tenths and cast back, by each of the casts
-- that the message classes use.
use unilux_uart.Common.{ℕ, suc, ◌*◌, ◌/◌, ◌^◌, ◌<◌, ◌≡◌, arith, none, some}
use unilux_uart.Common.Int.{ℤ, pos, negsuc}
use unilux_uart.Float.{unit, mul, to_uint16, to_int16, int16_of_uint16, uint16_of_int16}
use unilux_uart.Float.Tenths.{ten, tenths, tenths_back}

-- A number of whole units is truncated to itself.
div_unit : (n : ℕ) → n * unit / unit ≡ n
div_unit n = omega arith

-- A 16-bit number divided by ten in binary32, as `decode` does, multiplied by ten and cast to
-- uint16_t, as `encode` does, comes back.
pub uint16_tenths : (w : ℕ) → w < 2 ^ 16 → to_uint16 (mul (tenths (pos w)) ten) ≡ some w
unfolding to_uint16
uint16_tenths w h = rw (tenths_back (pos w) h) (rw (div_unit w) (ground arith))

-- A negative number of tenths, however small, cannot be cast to an unsigned type.
pub uint16_negative : (n : ℕ) → suc n < 2 ^ 16 → to_uint16 (mul (tenths (negsuc n)) ten) ≡ none
unfolding to_uint16
uint16_negative n h = rw (tenths_back (negsuc n) h) (rw (div_unit (suc n)) (ground arith))

abbrev pub IsInt16 : ℤ → Type 0
IsInt16 (pos n) = n < 2 ^ 15
IsInt16 (negsuc n) = n < 2 ^ 15

pub int16_of_uint16-IsInt16 : (w : ℕ) → w < 2 ^ 16 → IsInt16 (int16_of_uint16 w)
unfolding int16_of_uint16
int16_of_uint16-IsInt16 w h = ground arith

-- A signed 16-bit number divided by ten in binary32, multiplied by ten and cast to int16_t, as the
-- scalar settings do, comes back.
pub int16_tenths : (z : ℤ) → IsInt16 z → to_int16 (mul (tenths z) ten) ≡ some z
unfolding to_int16
int16_tenths (pos n) h = rw (tenths_back (pos n) (omega arith)) (rw (div_unit n) (ground arith))
int16_tenths (negsuc n) h =
    rw (tenths_back (negsuc n) (omega arith)) (rw (div_unit (suc n)) (ground arith))

-- The bits of a wire value are those of the signed number read from it.
pub uint16-int16 : (w : ℕ) → w < 2 ^ 16 → uint16_of_int16 (int16_of_uint16 w) ≡ w
unfolding uint16_of_int16 int16_of_uint16
uint16-int16 w h = ground arith
