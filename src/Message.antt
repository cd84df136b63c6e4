-- ===== src/Message.antt =====
-- include/message.hpp and include/messages/: the typed messages, one module for a class. This file
-- holds what the classes' `encode` and `decode` have in common.
pub mod Laws
pub mod Signed
pub mod Printed
pub mod Typed
pub mod Temperature
pub mod TargetTemperature
pub mod Mode
pub mod Power
pub mod FanSpeed
pub mod SystemMode
pub mod DisplayUnit
pub mod TemperatureOffset
pub mod SwitchingDiffHeat
pub mod SwitchingDiffCool
pub mod ChangeoverHeat
pub mod ChangeoverCool
pub mod AllConfig
pub mod Schedule
use unilux_uart.Text.{codes, fixed, two_hex}
use unilux_uart.Common.{join}
use Prim.Native.String.{String}
use unilux_uart.Common.{
  [], ◌∷◌, ℕ, ◌≡◌, Bool, List, Option, none, some, ◌==◌, if◌then◌else◌, length, replicate, set,
  ◌>>=◌,
}
use unilux_uart.Common.Int.{ℤ, pos}
use unilux_uart.Utils.{byte_at, from_be16, to_be16}
use unilux_uart.Wmmm.{Frame}
use unilux_uart.Float.{Float, mul, to_uint16, to_int16, int16_of_uint16, uint16_of_int16}
use unilux_uart.Float.Tenths.{ten, tenths}

-- The first lines of every `encode`: the id, zero reserved bytes, and a payload.
abbrev pub frame_of : ℕ → List ℕ → Frame
frame_of id payload = record { msg_id = id; reserved = (0, 0, 0); payload = payload }

-- `frame.payload.assign(PAYLOAD_SIZE, 0)`
abbrev pub zeros : ℕ → List ℕ
zeros size = replicate size 0

-- The first line of every `decode`: the payload has exactly the expected length.
abbrev pub when_size {ℓ} : {A : Type ℓ} → Frame → ℕ → A → Option A
when_size frame size a = if length frame.payload == size then some a else none

-- Two temperatures, each as an unsigned number of tenths (class Temperature and
-- class TargetTemperature). `none` is an undefined cast.
unfoldable pub encode_pair : ℕ → Float → Float → Option Frame
encode_pair id t1 t2 = do
  w1 ← to_uint16 (mul t1 ten)
  w2 ← to_uint16 (mul t2 ten)
  some (frame_of id (to_be16 (to_be16 (zeros 4) 0 w1) 2 w2))

unfoldable pub read_pair : Frame → Float × Float
read_pair frame =
    (tenths (pos (from_be16 frame.payload 0)), tenths (pos (from_be16 frame.payload 2)))

-- A signed number of tenths in the first two bytes (the five scalar settings).
unfoldable pub encode_scalar : ℕ → Float → Option Frame
encode_scalar id value = do
  z ← to_int16 (mul value ten)
  some (frame_of id (to_be16 (zeros 4) 0 (uint16_of_int16 z)))

unfoldable pub read_scalar : Frame → Float
read_scalar frame = tenths (int16_of_uint16 (from_be16 frame.payload 0))

-- One byte in front of three zeros (the enumerations and the power state).
unfoldable pub encode_byte : ℕ → ℕ → Frame
encode_byte id value = frame_of id (set (zeros 4) 0 value)

unfoldable pub read_byte : Frame → ℕ
read_byte frame = byte_at frame.payload 0

-- The text of a scalar setting, by its label
abbrev pub scalar_text : String → Float → List ℕ
scalar_text label value = join (codes label ∷ fixed value ∷ codes ")" ∷ [])

-- The text of an unknown byte of an enumeration
abbrev pub byte_text : String → ℕ → List ℕ
byte_text label value = join (codes label ∷ two_hex value ∷ codes ")" ∷ [])

-- The text that the `switch` of an enumeration returns, or what stands behind the `switch`
abbrev pub get_text : Option (List ℕ) → List ℕ → List ℕ
get_text none rest = rest
get_text (some name) rest = name
