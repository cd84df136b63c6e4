-- ===== src/UniluxUart/Send/Bytes.antt =====
-- esphome/components/unilux_uart/unilux_uart.cpp: what `send_message` gives to `write_array`.
use unilux_uart.Common.{ℕ, ◌+◌, ◌≡◌, ap, subst, arith, List, length, All, some}
use unilux_uart.Aup
use unilux_uart.Wmmm
use unilux_uart.Message.Temperature
use unilux_uart.Message.TargetTemperature
use unilux_uart.Message.Mode
use unilux_uart.Message.Power
use unilux_uart.Message.FanSpeed
use unilux_uart.Message.TemperatureOffset
use unilux_uart.Message.SwitchingDiffHeat
use unilux_uart.Message.SwitchingDiffCool
use unilux_uart.Message.ChangeoverHeat
use unilux_uart.Message.ChangeoverCool
use unilux_uart.Message.SystemMode
use unilux_uart.Message.DisplayUnit
use unilux_uart.Message.Typed.{
  IsByte, IfSome, IfSome-bind, IsFrame, encode_pair-IsFrame, encode_scalar-IsFrame,
  encode_byte-IsFrame,
}
use unilux_uart.Message.Typed.Config
use unilux_uart.Message.Typed.Week
use unilux_uart.Messages.{AnyMessage, id_of, encode}
use unilux_uart.UniluxUart.Send.{aup_frame, send_message}

-- The fields that the message writes as they are fit their types; any float will do.
abbrev pub IsTyped : AnyMessage → Type 0
IsTyped (AnyMessage.mode m) = IsByte m.value
IsTyped (AnyMessage.fan_speed m) = IsByte m.value
IsTyped (AnyMessage.system_mode m) = IsByte m.value
IsTyped (AnyMessage.display_unit m) = IsByte m.value
IsTyped (AnyMessage.all_config m) = Config.IsTyped m
IsTyped (AnyMessage.schedule m) = Week.IsTyped m
IsTyped _ = Unit

abbrev pub size_of : AnyMessage → ℕ
size_of (AnyMessage.all_config m) = 61
size_of (AnyMessage.schedule m) = 116
size_of _ = 4

encode-IsFrame : (m : AnyMessage) → IsTyped m → IfSome (IsFrame (id_of m) (size_of m)) (encode m)
unfolding encode Temperature.encode TargetTemperature.encode Mode.encode Power.encode
    FanSpeed.encode TemperatureOffset.encode SwitchingDiffHeat.encode SwitchingDiffCool.encode
    ChangeoverHeat.encode ChangeoverCool.encode SystemMode.encode DisplayUnit.encode
encode-IsFrame (AnyMessage.temperature m) h = encode_pair-IsFrame Temperature.id m.t1 m.t2
encode-IsFrame (AnyMessage.target_temperature m) h =
    encode_pair-IsFrame TargetTemperature.id m.t1 m.t2
encode-IsFrame (AnyMessage.mode m) h = encode_byte-IsFrame Mode.id m.value h
encode-IsFrame (AnyMessage.power m) h = encode_byte-IsFrame Power.id _ (ground arith)
encode-IsFrame (AnyMessage.fan_speed m) h = encode_byte-IsFrame FanSpeed.id m.value h
encode-IsFrame (AnyMessage.all_config m) h = Config.encode-IsFrame m h
encode-IsFrame (AnyMessage.schedule m) h = Week.encode-IsFrame m h
encode-IsFrame (AnyMessage.temperature_offset m) h =
    encode_scalar-IsFrame TemperatureOffset.id m.value
encode-IsFrame (AnyMessage.switching_diff_heat m) h =
    encode_scalar-IsFrame SwitchingDiffHeat.id m.value
encode-IsFrame (AnyMessage.switching_diff_cool m) h =
    encode_scalar-IsFrame SwitchingDiffCool.id m.value
encode-IsFrame (AnyMessage.changeover_heat m) h = encode_scalar-IsFrame ChangeoverHeat.id m.value
encode-IsFrame (AnyMessage.changeover_cool m) h = encode_scalar-IsFrame ChangeoverCool.id m.value
encode-IsFrame (AnyMessage.system_mode m) h = encode_byte-IsFrame SystemMode.id m.value h
encode-IsFrame (AnyMessage.display_unit m) h = encode_byte-IsFrame DisplayUnit.id m.value h

id_of-IsByte : (m : AnyMessage) → IsByte (id_of m)
id_of-IsByte m = ground arith

-- Bytes of a frame around a payload of `size` bytes
abbrev pub IsSent : ℕ → List ℕ → Type 0
IsSent size bytes = All IsByte bytes × (length bytes ≡ 12 + size)

frame-IsSent :
    (id size : ℕ) (f : Wmmm.Frame)
    → IsByte id
    → IsFrame id size f
    → IsSent size (Aup.encode (aup_frame (Wmmm.encode f)))
unfolding Aup.encode Wmmm.encode
frame-IsSent id size f h (own, clear, (long, bytes)) =
    let r0 : f.reserved.0 ≡ 0 = ap (λ (r : ℕ × ℕ × ℕ). r.0) clear in
    let r1 : f.reserved.1 ≡ 0 = ap (λ (r : ℕ × ℕ × ℕ). r.1) clear in
    let r2 : f.reserved.2 ≡ 0 = ap (λ (r : ℕ × ℕ × ℕ). r.2) clear in ground arith

-- A message whose bytes, strings and times are within their types, with any floats, is written as
-- bytes, if no cast is undefined: twelve more than the payload of its class, which has four bytes, 61
-- in a configuration block and 116 in a schedule.
pub send_message-IsSent :
    (m : AnyMessage) (bytes : List ℕ)
    → IsTyped m
    → send_message m ≡ some bytes
    → IsSent (size_of m) bytes
unfolding send_message
send_message-IsSent m bytes typed sent = subst (IfSome (IsSent (size_of m))) sent (
    IfSome-bind (IsFrame (id_of m) (size_of m)) (IsSent (size_of m)) (encode m) _
      (encode-IsFrame m typed) (λ f h. frame-IsSent (id_of m) (size_of m) f (id_of-IsByte m) h))
