-- ===== src/Messages/Shown.antt =====
-- src/messages.cpp and include/messages/: the log texts of received messages, by the numbers of their payload.
use unilux_uart.Common.{◌&◌, ℕ, ◌<◌, ◌≡◌, refl, ◌∙◌, List, [], ◌∷◌, some, All}
use unilux_uart.Utils.{byte_at, from_be16, from_be32}
use unilux_uart.Wmmm.{Frame}
use unilux_uart.Common.Int.{pos}
use unilux_uart.Float.{int16_of_uint16}
use unilux_uart.Text.{codes, decimal, c_str}
use unilux_uart.Common.{join}
use unilux_uart.Text.Fixed.{tenths_text}
use unilux_uart.Message.{read_scalar, read_pair}
use unilux_uart.Message.Printed.{unsigned_text, signed_text}
use unilux_uart.Message.Temperature
use unilux_uart.Message.TargetTemperature
use unilux_uart.Message.Mode
use unilux_uart.Message.Power
use unilux_uart.Message.FanSpeed
use unilux_uart.Message.AllConfig
use unilux_uart.Message.Schedule
use unilux_uart.Message.TemperatureOffset
use unilux_uart.Message.SwitchingDiffHeat
use unilux_uart.Message.SwitchingDiffCool
use unilux_uart.Message.ChangeoverHeat
use unilux_uart.Message.ChangeoverCool
use unilux_uart.Message.SystemMode
use unilux_uart.Message.DisplayUnit
use unilux_uart.Messages.{AnyMessage, alternatives, decode_message, to_string}
use unilux_uart.Messages.Again.{Ensures, decode_variant-Ensures}
use unilux_uart.Messages.Printed.{text, of_sized, to_string-decode_message}
use Prim.Native.String.{String}

-- Two unsigned numbers of tenths, a signed one, and a configuration block
abbrev pair_shown : String → List ℕ → List ℕ
pair_shown label p = join (
    codes label
    ∷ tenths_text (pos (from_be16 p 0))
    ∷ codes ", t2="
    ∷ tenths_text (pos (from_be16 p 2))
    ∷ codes ")"
    ∷ [])

abbrev signed_at : List ℕ → ℕ → List ℕ
signed_at p i = tenths_text (int16_of_uint16 (from_be16 p i))

abbrev scalar_shown : String → List ℕ → List ℕ
scalar_shown label p = join (codes label ∷ signed_at p 0 ∷ codes ")" ∷ [])

abbrev config_shown : AllConfig.AllConfig → List ℕ → List ℕ
config_shown m p = join (
    codes "AllConfig(setpoint="
    ∷ signed_at p 0
    ∷ codes ", main="
    ∷ decimal (byte_at p 4)
    ∷ codes ", ctrl="
    ∷ decimal (byte_at p 3)
    ∷ codes ", fan_status="
    ∷ decimal (byte_at p 42)
    ∷ codes ", changeOver="
    ∷ decimal (byte_at p 45)
    ∷ codes " heat="
    ∷ signed_at p 46
    ∷ codes " cool="
    ∷ signed_at p 48
    ∷ codes ", power="
    ∷ decimal (from_be32 p 16)
    ∷ c_str m.power_unit
    ∷ codes ")"
    ∷ [])

-- The text of a message whose payload is `p`, its temperatures by their digits on the wire
unfoldable pub shown : AnyMessage → List ℕ → List ℕ
shown (AnyMessage.temperature m) p = pair_shown "Temperature(t1=" p
shown (AnyMessage.target_temperature m) p = pair_shown "TargetTemperature(t1=" p
shown (AnyMessage.all_config m) p = config_shown m p
shown (AnyMessage.temperature_offset m) p = scalar_shown "TemperatureOffset(" p
shown (AnyMessage.switching_diff_heat m) p = scalar_shown "SwitchingDiffHeat(" p
shown (AnyMessage.switching_diff_cool m) p = scalar_shown "SwitchingDiffCool(" p
shown (AnyMessage.changeover_heat m) p = scalar_shown "ChangeoverHeat(" p
shown (AnyMessage.changeover_cool m) p = scalar_shown "ChangeoverCool(" p
shown m p = text m

module _ (f : Frame) (bytes : All (λ (b : ℕ). b < 256) f.payload) where
  abbrev IsShown : AnyMessage → Type 0
  IsShown m = text m ≡ shown m f.payload

  All-IsShown : All (Ensures f IsShown) alternatives
  unfolding text shown read_scalar read_pair Temperature.decode TargetTemperature.decode Mode.decode
      Power.decode FanSpeed.decode AllConfig.decode Schedule.decode TemperatureOffset.decode
      SwitchingDiffHeat.decode SwitchingDiffCool.decode ChangeoverHeat.decode ChangeoverCool.decode
      SystemMode.decode DisplayUnit.decode
  All-IsShown =
      (λ own m read.
        of_sized f IsShown AnyMessage.temperature _ m Temperature.payload_size read
          (rw (unsigned_text f.payload bytes 0, unsigned_text f.payload bytes 2) refl))
      & (λ own m read.
          of_sized f IsShown AnyMessage.target_temperature _ m TargetTemperature.payload_size read
            (rw (unsigned_text f.payload bytes 0, unsigned_text f.payload bytes 2) refl))
      & (λ own m read. of_sized f IsShown AnyMessage.mode _ m Mode.payload_size read refl)
      & (λ own m read. of_sized f IsShown AnyMessage.power _ m Power.payload_size read refl)
      & (λ own m read. of_sized f IsShown AnyMessage.fan_speed _ m FanSpeed.payload_size read refl)
      & (λ own m read. of_sized f IsShown AnyMessage.all_config _ m AllConfig.payload_size read (
          rw
            (
              signed_text f.payload bytes 0,
              signed_text f.payload bytes 46,
              signed_text f.payload bytes 48,
            )
            refl))
      & (λ own m read. of_sized f IsShown AnyMessage.schedule _ m Schedule.payload_size read refl)
      & (λ own m read.
          of_sized f IsShown AnyMessage.temperature_offset _ m TemperatureOffset.payload_size read
            (rw (signed_text f.payload bytes 0) refl))
      & (λ own m read.
          of_sized f IsShown AnyMessage.switching_diff_heat _ m SwitchingDiffHeat.payload_size read
            (rw (signed_text f.payload bytes 0) refl))
      & (λ own m read.
          of_sized f IsShown AnyMessage.switching_diff_cool _ m SwitchingDiffCool.payload_size read
            (rw (signed_text f.payload bytes 0) refl))
      & (λ own m read.
          of_sized f IsShown AnyMessage.changeover_heat _ m ChangeoverHeat.payload_size read
            (rw (signed_text f.payload bytes 0) refl))
      & (λ own m read.
          of_sized f IsShown AnyMessage.changeover_cool _ m ChangeoverCool.payload_size read
            (rw (signed_text f.payload bytes 0) refl))
      & (λ own m read.
          of_sized f IsShown AnyMessage.system_mode _ m SystemMode.payload_size read refl)
      & (λ own m read.
          of_sized f IsShown AnyMessage.display_unit _ m DisplayUnit.payload_size read refl)
      & tt

-- The log text of a message that was decoded from a frame whose payload consists of bytes shows each
-- temperature by the decimal digits of the number of tenths in the payload: the binary32 division by
-- ten and the rounding of %.1f lose nothing.
pub to_string-shown :
    (f : Frame) (m : AnyMessage)
    → All (λ (b : ℕ). b < 256) f.payload
    → decode_message f ≡ some m
    → to_string m ≡ shown m f.payload
unfolding decode_message
to_string-shown f m bytes read =
    to_string-decode_message f m bytes read
    ∙ decode_variant-Ensures f (IsShown f bytes) alternatives m (All-IsShown f bytes) read
