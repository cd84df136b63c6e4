-- ===== src/Message/Printed.antt =====
-- include/messages/: the buffers of `to_string` are large enough for what a received payload prints.
use unilux_uart.Common.{
  ℕ, ◌+◌, ◌^◌, ◌≤◌, ◌<◌, ◌≡◌, refl, arith, List, [], ◌∷◌, length, All, Option, none, some,
}
use unilux_uart.Common.Int.{ℤ, pos, negsuc}
use unilux_uart.Utils.{byte_at, from_be16, from_be32}
use unilux_uart.Utils.RoundTrip.{be16_join, be32_join}
use unilux_uart.Float.{Float, int16_of_uint16}
use unilux_uart.Float.Tenths.{tenths, Is17Bit}
use unilux_uart.Float.Casts.{IsInt16, int16_of_uint16-IsInt16}
use unilux_uart.Text.{codes, decimal, fixed, two_hex, snprintf}
use unilux_uart.Common.{join}
use unilux_uart.Text.Decimal.{total, length-join, length-decimal_le, snprintf_whole}
use unilux_uart.Text.Fixed.{length-fixed_le, fixed-tenths, tenths_text}
use unilux_uart.Message.{scalar_text, byte_text, get_text}
use unilux_uart.Message.Signed.{byte_at-lt}
use Prim.Native.String.{String}

-- A text in parts
pub parts_whole :
    (size : ℕ) (texts : List (List ℕ))
    → total texts < size
    → snprintf size (join texts) ≡ join texts
parts_whole size texts h = snprintf_whole size (join texts) (omega (arith, length-join texts))

pub scalar_whole :
    (label : String) (x : Float)
    → length (codes label) ≤ 20
    → length (fixed x) ≤ 7
    → snprintf 40 (scalar_text label x) ≡ scalar_text label x
scalar_whole label x h k = parts_whole 40 (codes label ∷ fixed x ∷ codes ")" ∷ []) (omega arith)

-- The text behind the `switch` of an enumeration
pub byte_whole :
    (size : ℕ) (name : Option (List ℕ)) (label : String) (v : ℕ)
    → length (codes label) + 3 < size
    → get_text name (snprintf size (byte_text label v)) ≡ get_text name (byte_text label v)
unfolding two_hex
byte_whole size none label v h =
    parts_whole size (codes label ∷ two_hex v ∷ codes ")" ∷ []) (omega arith)
byte_whole size (some name) label v h = refl

module _ (p : List ℕ) (bytes : All (λ (b : ℕ). b < 256) p) where
  pub be16_lt : (i : ℕ) → from_be16 p i < 2 ^ 16
  unfolding from_be16
  be16_lt i =
      let hi = byte_at-lt p i bytes in
      let lo = byte_at-lt p (i + 1) bytes in
      rw (be16_join (byte_at p i) (byte_at p (i + 1)) lo) (omega arith)

  pub be32_lt : (i : ℕ) → from_be32 p i < 2 ^ 32
  unfolding from_be32
  be32_lt i =
      let a = byte_at-lt p i bytes in
      let b = byte_at-lt p (i + 1) bytes in
      let c = byte_at-lt p (i + 2) bytes in
      let d = byte_at-lt p (i + 3) bytes in
      rw (be32_join (byte_at p i) (byte_at p (i + 1)) (byte_at p (i + 2)) (byte_at p (i + 3)) b c d)
        (omega arith)

  be16-Is17Bit : (i : ℕ) → Is17Bit (int16_of_uint16 (from_be16 p i))
  be16-Is17Bit i =
      wider (int16_of_uint16 (from_be16 p i)) (int16_of_uint16-IsInt16 (from_be16 p i) (be16_lt i))
    where
      wider : (z : ℤ) → IsInt16 z → Is17Bit z
      wider (pos n) h = omega arith
      wider (negsuc n) h = omega arith

  -- A temperature prints the tenths of the wire, in at most seven characters.
  pub unsigned_text :
      (i : ℕ) → fixed (tenths (pos (from_be16 p i))) ≡ tenths_text (pos (from_be16 p i))
  unsigned_text i = fixed-tenths (pos (from_be16 p i)) (be16_lt i)

  pub signed_text :
      (i : ℕ)
      → fixed (tenths (int16_of_uint16 (from_be16 p i)))
        ≡ tenths_text (int16_of_uint16 (from_be16 p i))
  signed_text i = fixed-tenths (int16_of_uint16 (from_be16 p i)) (be16-Is17Bit i)

  pub unsigned_le : (i : ℕ) → length (fixed (tenths (pos (from_be16 p i)))) ≤ 7
  unsigned_le i = length-fixed_le (pos (from_be16 p i)) (be16_lt i)

  pub signed_le : (i : ℕ) → length (fixed (tenths (int16_of_uint16 (from_be16 p i)))) ≤ 7
  signed_le i = length-fixed_le (int16_of_uint16 (from_be16 p i)) (be16-Is17Bit i)

  pub byte_le : (i : ℕ) → length (decimal (byte_at p i)) ≤ 3
  byte_le i = length-decimal_le 2 _ (omega (arith, byte_at-lt p i bytes)) (omega arith)

  pub word_le : (i : ℕ) → length (decimal (from_be32 p i)) ≤ 10
  word_le i = length-decimal_le 9 _ (omega (arith, be32_lt i)) (omega arith)
