-- ===== src/Messages/Received.antt =====
-- include/messages/: the fields of messages that are read from a payload of bytes.
pub mod Config
pub mod Week
pub mod Decoded
pub mod Encoded
use unilux_uart.Common.{
  ℕ, ◌<◌, ◌≡◌, refl, List, All, none, some, subst, arith, Bool-cases, inl, inr, length, ◌==◌,
}
use unilux_uart.Common.Int.{pos}
use unilux_uart.Utils.{from_be16}
use unilux_uart.Wmmm.{Frame}
use unilux_uart.Message.{when_size}
use unilux_uart.Float.{int16_of_uint16}
use unilux_uart.Float.Tenths.{tenths}
use unilux_uart.Float.Casts.{int16_of_uint16-IsInt16}
use unilux_uart.Message.Printed.{be16_lt}
use unilux_uart.Messages.RoundTrip.{IsUnsigned, IsSigned}

module _ (p : List ℕ) (bytes : All (λ (b : ℕ). b < 256) p) where
  pub IsUnsigned-at : (i : ℕ) → IsUnsigned (tenths (pos (from_be16 p i)))
  IsUnsigned-at i = record { wire = from_be16 p i; fits = be16_lt p bytes i; is_wire = refl }

  pub IsSigned-at : (i : ℕ) → IsSigned (tenths (int16_of_uint16 (from_be16 p i)))
  IsSigned-at i = record {
    wire = int16_of_uint16 (from_be16 p i);
    fits = int16_of_uint16-IsInt16 (from_be16 p i) (be16_lt p bytes i);
    is_wire = refl;
  }

-- An accepted payload has the size of its class.
pub when_size-hit :
    {A : Type 0} (f : Frame) (P : A → Type 0) (size : ℕ) (a m : A)
    → when_size f size a ≡ some m
    → (length f.payload ≡ size → P a)
    → P m
when_size-hit f P size a m e h = elim (Bool-cases (length f.payload == size)) [
  | inl hit ↦
      let same : some a ≡ some m = rw (← e, hit) refl in subst P (ground arith) (h (ground arith))
  | inr miss ↦ let nothing : none ≡ some m = rw (← e, miss) refl in absurd (ground arith)
]
