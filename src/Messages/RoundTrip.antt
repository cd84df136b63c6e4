-- ===== src/Messages/RoundTrip.antt =====
-- include/messages.hpp and src/messages.cpp: a message that is encoded is decoded to itself, and a
-- frame of four payload bytes is encoded again as far as its class reads it.
use unilux_uart.Common.{
  ℕ, ◌<◌, ◌^◌, ◌≡◌, refl, ap, sym, ◌∙◌, Bool, true, false, not, ◌==◌, if◌then◌else◌, List, some,
}
use unilux_uart.Common.Int.{ℤ, pos}
use unilux_uart.Wmmm.{Frame}
use unilux_uart.Float.{Float, uint16_of_int16}
use unilux_uart.Float.Tenths.{tenths}
use unilux_uart.Float.Casts.{IsInt16}
use unilux_uart.Message.{
  frame_of, encode_pair, read_pair, encode_scalar, read_scalar, encode_byte, read_byte,
}
use unilux_uart.Message.Laws.{
  pair_payload, encode_pair_lem, read-encode_pair, scalar_payload, encode_scalar_lem,
  read-encode_scalar, int16-uint16, uint16_of_int16-lt,
}
use unilux_uart.Message.Temperature
use unilux_uart.Message.TargetTemperature
use unilux_uart.Message.Mode
use unilux_uart.Message.Power
use unilux_uart.Message.FanSpeed
use unilux_uart.Message.AllConfig
use unilux_uart.Message.Schedule
use unilux_uart.Message.TemperatureOffset
use unilux_uart.Message.SwitchingDiffHeat
use unilux_uart.Message.SwitchingDiffCool
use unilux_uart.Message.ChangeoverHeat
use unilux_uart.Message.ChangeoverCool
use unilux_uart.Message.SystemMode
use unilux_uart.Message.DisplayUnit
use unilux_uart.Message.AllConfig.RoundTrip.{IsOnWire as IsConfig, decode-encode_config}
use unilux_uart.Message.Schedule.RoundTrip.{IsWeek, decode-encode_schedule}
use unilux_uart.Messages.{AnyMessage, decode_message, id_of, encode}

-- A temperature that is an unsigned 16-bit number of tenths
pub record IsUnsigned (x : Float) : Type 0 where
  pub wire : ℕ
  pub fits : wire < 2 ^ 16
  pub is_wire : x ≡ tenths (pos wire)

-- A temperature that is a signed 16-bit number of tenths
pub record IsSigned (x : Float) : Type 0 where
  pub wire : ℤ
  pub fits : IsInt16 wire
  pub is_wire : x ≡ tenths wire

-- A message whose fields are what the wire carries
abbrev pub IsOnWire : AnyMessage → Type 0
IsOnWire (AnyMessage.temperature m) = IsUnsigned m.t1 × IsUnsigned m.t2
IsOnWire (AnyMessage.target_temperature m) = IsUnsigned m.t1 × IsUnsigned m.t2
IsOnWire (AnyMessage.mode m) = m.value < 256
IsOnWire (AnyMessage.power m) = Unit
IsOnWire (AnyMessage.fan_speed m) = m.value < 256
IsOnWire (AnyMessage.all_config m) = IsConfig m
IsOnWire (AnyMessage.schedule m) = IsWeek m
IsOnWire (AnyMessage.temperature_offset m) = IsSigned m.value
IsOnWire (AnyMessage.switching_diff_heat m) = IsSigned m.value
IsOnWire (AnyMessage.switching_diff_cool m) = IsSigned m.value
IsOnWire (AnyMessage.changeover_heat m) = IsSigned m.value
IsOnWire (AnyMessage.changeover_cool m) = IsSigned m.value
IsOnWire (AnyMessage.system_mode m) = m.value < 256
IsOnWire (AnyMessage.display_unit m) = m.value < 256

abbrev pub RoundTrips : AnyMessage → Type 0
RoundTrips m =
    (f : Frame) × (encode m ≡ some f) × (f.msg_id ≡ id_of m) × (decode_message f ≡ some m)

-- The payload of a pair of such temperatures is read as the pair.
module _ (id : ℕ) (a b : Float) (ha : IsUnsigned a) (hb : IsUnsigned b) where
  abbrev pair_frame : Frame
  pair_frame = frame_of id (pair_payload ha.wire hb.wire)

  write_pair : encode_pair id a b ≡ some pair_frame
  write_pair = rw (ha.is_wire, hb.is_wire) (encode_pair_lem id ha.wire hb.wire ha.fits hb.fits)

  read_written_pair : read_pair pair_frame ≡ (a, b)
  read_written_pair =
      read-encode_pair id ha.wire hb.wire ha.fits hb.fits ∙ rw (ha.is_wire, hb.is_wire) refl

module _ (id : ℕ) (a : Float) (ha : IsSigned a) where
  abbrev scalar_frame : Frame
  scalar_frame = frame_of id (scalar_payload (uint16_of_int16 ha.wire))

  write_scalar : encode_scalar id a ≡ some scalar_frame
  write_scalar = rw ha.is_wire (encode_scalar_lem id ha.wire ha.fits)

  read_written_scalar : read_scalar scalar_frame ≡ a
  read_written_scalar =
      read-encode_scalar id (uint16_of_int16 ha.wire) (uint16_of_int16-lt ha.wire ha.fits)
      ∙ rw (int16-uint16 ha.wire ha.fits) (sym ha.is_wire)

Temperature-RoundTrips :
    (m : Temperature.Temperature)
    → IsOnWire (AnyMessage.temperature m)
    → RoundTrips (AnyMessage.temperature m)
unfolding encode decode_message Temperature.encode Temperature.decode read_pair
Temperature-RoundTrips m (h1, h2) = (
  pair_frame Temperature.id m.t1 m.t2 h1 h2,
  write_pair Temperature.id m.t1 m.t2 h1 h2,
  refl,
  ap (λ (p : Float × Float). some (AnyMessage.temperature (record { t1 = p.0; t2 = p.1 })))
      (read_written_pair Temperature.id m.t1 m.t2 h1 h2),
)

TargetTemperature-RoundTrips :
    (m : TargetTemperature.TargetTemperature)
    → IsOnWire (AnyMessage.target_temperature m)
    → RoundTrips (AnyMessage.target_temperature m)
unfolding encode decode_message TargetTemperature.encode TargetTemperature.decode read_pair
TargetTemperature-RoundTrips m (h1, h2) = (
  pair_frame TargetTemperature.id m.t1 m.t2 h1 h2,
  write_pair TargetTemperature.id m.t1 m.t2 h1 h2,
  refl,
  ap (λ (p : Float × Float). some (AnyMessage.target_temperature (record { t1 = p.0; t2 = p.1 })))
      (read_written_pair TargetTemperature.id m.t1 m.t2 h1 h2),
)

-- The scalar settings share their proof.
module _ (a : Float) (ha : IsSigned a) where
  TemperatureOffset-RoundTrips : RoundTrips (AnyMessage.temperature_offset (record { value = a }))
  unfolding encode decode_message TemperatureOffset.encode TemperatureOffset.decode read_scalar
  TemperatureOffset-RoundTrips = (
    scalar_frame TemperatureOffset.id a ha,
    write_scalar TemperatureOffset.id a ha,
    refl,
    ap (λ (x : Float). some (AnyMessage.temperature_offset (record { value = x })))
        (read_written_scalar TemperatureOffset.id a ha),
  )

  SwitchingDiffHeat-RoundTrips : RoundTrips (AnyMessage.switching_diff_heat (record { value = a }))
  unfolding encode decode_message SwitchingDiffHeat.encode SwitchingDiffHeat.decode read_scalar
  SwitchingDiffHeat-RoundTrips = (
    scalar_frame SwitchingDiffHeat.id a ha,
    write_scalar SwitchingDiffHeat.id a ha,
    refl,
    ap (λ (x : Float). some (AnyMessage.switching_diff_heat (record { value = x })))
        (read_written_scalar SwitchingDiffHeat.id a ha),
  )

  SwitchingDiffCool-RoundTrips : RoundTrips (AnyMessage.switching_diff_cool (record { value = a }))
  unfolding encode decode_message SwitchingDiffCool.encode SwitchingDiffCool.decode read_scalar
  SwitchingDiffCool-RoundTrips = (
    scalar_frame SwitchingDiffCool.id a ha,
    write_scalar SwitchingDiffCool.id a ha,
    refl,
    ap (λ (x : Float). some (AnyMessage.switching_diff_cool (record { value = x })))
        (read_written_scalar SwitchingDiffCool.id a ha),
  )

  ChangeoverHeat-RoundTrips : RoundTrips (AnyMessage.changeover_heat (record { value = a }))
  unfolding encode decode_message ChangeoverHeat.encode ChangeoverHeat.decode read_scalar
  ChangeoverHeat-RoundTrips = (
    scalar_frame ChangeoverHeat.id a ha,
    write_scalar ChangeoverHeat.id a ha,
    refl,
    ap (λ (x : Float). some (AnyMessage.changeover_heat (record { value = x })))
        (read_written_scalar ChangeoverHeat.id a ha),
  )

  ChangeoverCool-RoundTrips : RoundTrips (AnyMessage.changeover_cool (record { value = a }))
  unfolding encode decode_message ChangeoverCool.encode ChangeoverCool.decode read_scalar
  ChangeoverCool-RoundTrips = (
    scalar_frame ChangeoverCool.id a ha,
    write_scalar ChangeoverCool.id a ha,
    refl,
    ap (λ (x : Float). some (AnyMessage.changeover_cool (record { value = x })))
        (read_written_scalar ChangeoverCool.id a ha),
  )

read_on : (on : Bool) → not ((if on then 1 else 0) == 0) ≡ on
read_on true = refl
read_on false = refl

-- A message that is written to a payload and read from it by its own class
of_payload :
    (m : AnyMessage) (payload : List ℕ)
    → encode m ≡ some (frame_of (id_of m) payload)
    → decode_message (frame_of (id_of m) payload) ≡ some m
    → RoundTrips m
of_payload m payload written read = (frame_of (id_of m) payload, written, refl, read)

AllConfig-RoundTrips : (m : AllConfig.AllConfig) → IsConfig m → RoundTrips (AnyMessage.all_config m)
unfolding encode decode_message
AllConfig-RoundTrips m h =
    let (payload, written, read) = decode-encode_config m h in
    of_payload (AnyMessage.all_config m) payload written (rw read refl)

Schedule-RoundTrips : (m : Schedule.Schedule) → IsWeek m → RoundTrips (AnyMessage.schedule m)
unfolding encode decode_message
Schedule-RoundTrips m h =
    let (payload, written, read) = decode-encode_schedule m h in
    of_payload (AnyMessage.schedule m) payload written (rw read refl)

-- A message whose fields are what the wire carries is encoded without an undefined cast, to a frame
-- with its class's id, and `decode_message` gives back the message from that frame. The wire carries
-- temperatures in whole tenths: up to 6553.5 for the two readings, from -3276.8 to 3276.7 for the
-- scalar settings, from 0 to 3276.7 in the configuration block and the weekly program; enumeration
-- values below 256; counts of 32 bits, unit strings of at most eight bytes without NUL, nine trailing
-- bytes; seven days of four entries.
pub decode_message-encode : (m : AnyMessage) → IsOnWire m → RoundTrips m
unfolding encode decode_message Mode.encode Mode.decode Power.encode Power.decode FanSpeed.encode
    FanSpeed.decode SystemMode.encode SystemMode.decode DisplayUnit.encode DisplayUnit.decode
    encode_byte read_byte
decode_message-encode (AnyMessage.temperature m) h = Temperature-RoundTrips m h
decode_message-encode (AnyMessage.target_temperature m) h = TargetTemperature-RoundTrips m h
decode_message-encode (AnyMessage.mode m) h = (Mode.encode m, refl, refl, refl)
decode_message-encode (AnyMessage.power m) h =
    (Power.encode m, refl, refl, λ i. some (AnyMessage.power (record { on = read_on m.on i })))
decode_message-encode (AnyMessage.fan_speed m) h = (FanSpeed.encode m, refl, refl, refl)
decode_message-encode (AnyMessage.all_config m) h = AllConfig-RoundTrips m h
decode_message-encode (AnyMessage.schedule m) h = Schedule-RoundTrips m h
decode_message-encode (AnyMessage.temperature_offset m) h = TemperatureOffset-RoundTrips m.value h
decode_message-encode (AnyMessage.switching_diff_heat m) h = SwitchingDiffHeat-RoundTrips m.value h
decode_message-encode (AnyMessage.switching_diff_cool m) h = SwitchingDiffCool-RoundTrips m.value h
decode_message-encode (AnyMessage.changeover_heat m) h = ChangeoverHeat-RoundTrips m.value h
decode_message-encode (AnyMessage.changeover_cool m) h = ChangeoverCool-RoundTrips m.value h
decode_message-encode (AnyMessage.system_mode m) h = (SystemMode.encode m, refl, refl, refl)
decode_message-encode (AnyMessage.display_unit m) h = (DisplayUnit.encode m, refl, refl, refl)
