-- ===== src/Text.antt =====
-- The part of std::snprintf that `to_string` of the message classes uses: the conversions %u, %02X,
-- %.1f and %s, and the cut at the end of the buffer. A text is the list of its bytes.
pub mod Decimal
pub mod Fixed
use unilux_uart.Common.{
  ℕ, zero, suc, ◌+◌, ◌-◌, ◌*◌, ◌/◌, ◌%◌, Bool, true, false, List, [], ◌∷◌, ◌++◌, ltb, ◌==◌,
  if◌then◌else◌, take, join,
}
use unilux_uart.Float.{Float, finite, infinite, nan, unit, round_even}
use Prim.Native.Char.{code}
use Prim.Native.String.{String}

-- The bytes of an ASCII text
abbrev pub codes : String → List ℕ
codes String.[] = []
codes (String.◌∷◌ c s) = code c ∷ codes s

-- The decimal digits of a number in front of `out`, the last one first. The numbers printed are below
-- 10 ^ 40, so the fuel is enough.
unfoldable pub digits : ℕ → ℕ → List ℕ → List ℕ
digits zero n out = (b'0' + n % 10) ∷ out
digits (suc fuel) n out =
    let rest = digits fuel (n / 10) ((b'0' + n % 10) ∷ out) in
    if ltb n 10 then (b'0' + n) ∷ out else rest

-- %u
unfoldable pub decimal : ℕ → List ℕ
unfolding digits
decimal n = digits 40 n []

abbrev hex_digit : ℕ → ℕ
hex_digit d = if ltb d 10 then b'0' + d else b'A' + (d - 10)

-- %02X of a byte
unfoldable pub two_hex : ℕ → List ℕ
two_hex v = hex_digit (v / 16) ∷ hex_digit (v % 16) ∷ []

-- A number of tenths with its point
unfoldable pub with_point : ℕ → List ℕ
with_point n = decimal (n / 10) ++ b'.' ∷ (b'0' + n % 10) ∷ []

abbrev pub signed : Bool → List ℕ → List ℕ
signed false text = text
signed true text = b'-' ∷ text

-- %.1f: the exact value rounded to tenths, ties to even. The sign of a NaN is not modelled.
unfoldable pub fixed : Float → List ℕ
fixed (finite s m) = signed s (with_point (round_even (m * 10) unit))
fixed (infinite s) = signed s (codes "inf")
fixed nan = codes "nan"

-- %s of `c_str()`: the bytes before the first NUL
unfoldable pub c_str : List ℕ → List ℕ
c_str [] = []
c_str (b ∷ bs) = if b == 0 then [] else b ∷ c_str bs

-- snprintf into a buffer of `size` bytes, which the returned std::string copies
unfoldable pub snprintf : ℕ → List ℕ → List ℕ
snprintf size text = take (size - 1) text
