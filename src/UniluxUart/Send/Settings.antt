-- ===== src/UniluxUart/Send/Settings.antt =====
-- esphome/components/unilux_uart/unilux_uart.cpp: what the settings write to the UART.
use unilux_uart.Common.{
  ℕ, ◌≡◌, ◌≢◌, refl, subst, ◌∙◌, arith, List, [], ◌∷◌, Option, none, some, All,
}
use unilux_uart.Float.{Float}
use unilux_uart.Aup
use unilux_uart.Aup.{IsWellFormed}
use unilux_uart.Messages.{AnyMessage, id_of}
use unilux_uart.Messages.RoundTrip.{IsOnWire}
use unilux_uart.UniluxUart.Send.{send_message, send_temperature_setting, send_byte_setting}
use unilux_uart.UniluxUart.Send.Device.{typed_message, sent}

-- The value of a scalar setting, and of a setting of one byte
abbrev pub scalar_of : AnyMessage → Option Float
scalar_of (AnyMessage.temperature_offset m) = some m.value
scalar_of (AnyMessage.switching_diff_heat m) = some m.value
scalar_of (AnyMessage.switching_diff_cool m) = some m.value
scalar_of (AnyMessage.changeover_heat m) = some m.value
scalar_of (AnyMessage.changeover_cool m) = some m.value
scalar_of _ = none

abbrev pub byte_of : AnyMessage → Option ℕ
byte_of (AnyMessage.system_mode m) = some m.value
byte_of (AnyMessage.display_unit m) = some m.value
byte_of _ = none

-- A value, or something else where there is none
abbrev or_else {ℓ} : {A : Type ℓ} → Option A → A → A
or_else none a = a
or_else (some a) b = a

some-or_else {ℓ} : {A : Type ℓ} (o : Option A) (a b : A) → o ≡ some a → or_else o b ≡ a
some-or_else o a b e = rw e refl

sends_scalar :
    (m : AnyMessage) (value : Float)
    → scalar_of m ≡ some value
    → send_temperature_setting (id_of m) (or_else (scalar_of m) value) ≡ send_message m
unfolding send_temperature_setting
sends_scalar (AnyMessage.temperature_offset m) value e = refl
sends_scalar (AnyMessage.switching_diff_heat m) value e = refl
sends_scalar (AnyMessage.switching_diff_cool m) value e = refl
sends_scalar (AnyMessage.changeover_heat m) value e = refl
sends_scalar (AnyMessage.changeover_cool m) value e = refl
sends_scalar _ value e = cc

sends_byte :
    (m : AnyMessage) (value : ℕ)
    → byte_of m ≡ some value
    → send_byte_setting (id_of m) (or_else (byte_of m) value) ≡ send_message m
unfolding send_byte_setting
sends_byte (AnyMessage.system_mode m) value e = refl
sends_byte (AnyMessage.display_unit m) value e = refl
sends_byte _ value e = cc

-- For a scalar setting with a value that the wire carries, `send_temperature_setting` with its id
-- writes one AUP frame, whose payload decodes to that setting with that value.
pub typed_message-send_temperature_setting :
    (m : AnyMessage) (value : Float)
    → scalar_of m ≡ some value
    → IsOnWire m
    → (f : Aup.Frame) × (send_temperature_setting (id_of m) value ≡ some (Aup.encode f))
      × IsWellFormed f
      × (typed_message f ≡ some m)
typed_message-send_temperature_setting m value e h =
    let (f, written, good, read) = sent m h in
    let same : send_temperature_setting (id_of m) value ≡ send_message m =
      subst (λ v. send_temperature_setting (id_of m) v ≡ send_message m)
        (some-or_else (scalar_of m) value value e) (sends_scalar m value e) in
    (f, same ∙ written, good, read)

-- For a setting of one byte with a value that the wire carries, `send_byte_setting` with its id
-- writes one AUP frame, whose payload decodes to that setting with that value.
pub typed_message-send_byte_setting :
    (m : AnyMessage) (value : ℕ)
    → byte_of m ≡ some value
    → IsOnWire m
    → (f : Aup.Frame) × (send_byte_setting (id_of m) value ≡ some (Aup.encode f))
      × IsWellFormed f
      × (typed_message f ≡ some m)
typed_message-send_byte_setting m value e h =
    let (f, written, good, read) = sent m h in
    let same : send_byte_setting (id_of m) value ≡ send_message m =
      subst (λ v. send_byte_setting (id_of m) v ≡ send_message m)
        (some-or_else (byte_of m) value value e) (sends_byte m value e) in
    (f, same ∙ written, good, read)

-- The ids of the settings
abbrev pub setting_ids : List ℕ
setting_ids = 0x56 ∷ 0x58 ∷ 0x59 ∷ 0x5D ∷ 0x5E ∷ 0x23 ∷ 0x2C ∷ []

-- An id that is none of the seven settings' writes nothing, by either function.
pub unknown_setting :
    (id : ℕ) (value : Float) (byte : ℕ)
    → All (λ (known : ℕ). id ≢ known) setting_ids
    → (send_temperature_setting id value ≡ some []) × (send_byte_setting id byte ≡ some [])
unfolding send_temperature_setting send_byte_setting
unknown_setting id value byte h = ground arith
