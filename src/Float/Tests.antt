-- ===== src/Float/Tests.antt =====
-- Known values of the arithmetic, and the casts of concrete temperatures.
use unilux_uart.Common.{◌*◌, ◌^◌, ◌≡◌, refl, arith, none, some, false}
use unilux_uart.Common.Int.{pos, negsuc}
use unilux_uart.Float.{
  finite, mul, div, of_int, rounded, round, exponent, round_even, to_uint16, to_int16,
}
use unilux_uart.Float.Tenths.{ten, tenths}
use unilux_uart.Float.Casts.{uint16_tenths, int16_tenths, uint16_negative}

-- 21.5f is 0x41AC0000: the significand 0xAC0000 with the exponent 4 - 23.
tenths_run : tenths (pos 215) ≡ finite false (0xAC0000 * 2 ^ 130)
unfolding tenths of_int div rounded round exponent round_even
tenths_run = refl

-- 0.1f is 0x3DCCCCCD.
tenth_run : tenths (pos 1) ≡ finite false (0xCCCCCD * 2 ^ 122)
unfolding tenths of_int div rounded round exponent round_even
tenth_run = refl

-- The casts fail beyond the types' ranges.
overflow_run : (to_uint16 (of_int (pos 65536)) ≡ none) × (to_int16 (of_int (pos 32768)) ≡ none)
unfolding of_int rounded round exponent round_even to_uint16 to_int16
overflow_run = (refl, refl)

uint16_tenths_example : to_uint16 (mul (tenths (pos 65535)) ten) ≡ some 65535
uint16_tenths_example = uint16_tenths 65535 (omega arith)

int16_tenths_example : to_int16 (mul (tenths (negsuc 49)) ten) ≡ some (negsuc 49)
int16_tenths_example = int16_tenths (negsuc 49) (omega arith)

uint16_negative_example : to_uint16 (mul (tenths (negsuc 4)) ten) ≡ none
uint16_negative_example = uint16_negative 4 (omega arith)
