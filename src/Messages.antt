-- ===== src/Messages.antt =====
-- include/messages.hpp and src/messages.cpp: the variant of all messages, and the dispatch of a frame
-- to the class whose id it carries.
pub mod Dispatch
pub mod Again
pub mod RoundTrip
pub mod Printed
pub mod Shown
pub mod Received
mod Tests
use unilux_uart.Common.{
  ℕ, Bool, true, false, not, List, [], ◌∷◌, Option, none, some, ◌==◌, if◌then◌else◌,
}
use unilux_uart.Wmmm.{Frame}
use unilux_uart.Message.Temperature
use unilux_uart.Message.Temperature.{Temperature}
use unilux_uart.Message.TargetTemperature
use unilux_uart.Message.TargetTemperature.{TargetTemperature}
use unilux_uart.Message.Mode
use unilux_uart.Message.Mode.{Mode}
use unilux_uart.Message.Power
use unilux_uart.Message.Power.{Power}
use unilux_uart.Message.FanSpeed
use unilux_uart.Message.FanSpeed.{FanSpeed}
use unilux_uart.Message.AllConfig
use unilux_uart.Message.AllConfig.{AllConfig}
use unilux_uart.Message.Schedule
use unilux_uart.Message.Schedule.{Schedule}
use unilux_uart.Message.TemperatureOffset
use unilux_uart.Message.TemperatureOffset.{TemperatureOffset}
use unilux_uart.Message.SwitchingDiffHeat
use unilux_uart.Message.SwitchingDiffHeat.{SwitchingDiffHeat}
use unilux_uart.Message.SwitchingDiffCool
use unilux_uart.Message.SwitchingDiffCool.{SwitchingDiffCool}
use unilux_uart.Message.ChangeoverHeat
use unilux_uart.Message.ChangeoverHeat.{ChangeoverHeat}
use unilux_uart.Message.ChangeoverCool
use unilux_uart.Message.ChangeoverCool.{ChangeoverCool}
use unilux_uart.Message.SystemMode
use unilux_uart.Message.SystemMode.{SystemMode}
use unilux_uart.Message.DisplayUnit
use unilux_uart.Message.DisplayUnit.{DisplayUnit}

-- using AnyMessage = std::variant<...>
pub data AnyMessage : Type 0 where
  temperature : Temperature → AnyMessage
  target_temperature : TargetTemperature → AnyMessage
  mode : Mode → AnyMessage
  power : Power → AnyMessage
  fan_speed : FanSpeed → AnyMessage
  all_config : AllConfig → AnyMessage
  schedule : Schedule → AnyMessage
  temperature_offset : TemperatureOffset → AnyMessage
  switching_diff_heat : SwitchingDiffHeat → AnyMessage
  switching_diff_cool : SwitchingDiffCool → AnyMessage
  changeover_heat : ChangeoverHeat → AnyMessage
  changeover_cool : ChangeoverCool → AnyMessage
  system_mode : SystemMode → AnyMessage
  display_unit : DisplayUnit → AnyMessage

-- An alternative of the variant: its id, and its `decode` with the result put into the variant
pub record Alternative : Type 0 where
  pub id : ℕ
  pub decode : Frame → Option AnyMessage

abbrev pub wrap : {M : Type 0} → (M → AnyMessage) → Option M → Option AnyMessage
wrap inject none = none
wrap inject (some m) = some (inject m)

-- The alternatives in the variant's order
abbrev pub alternatives : List Alternative
alternatives =
    record { id = Temperature.id; decode = λ frame. wrap temperature (Temperature.decode frame) }
    ∷ record {
      id = TargetTemperature.id;
      decode = λ frame. wrap target_temperature (TargetTemperature.decode frame);
    }
    ∷ record { id = Mode.id; decode = λ frame. wrap mode (Mode.decode frame) }
    ∷ record { id = Power.id; decode = λ frame. wrap power (Power.decode frame) }
    ∷ record { id = FanSpeed.id; decode = λ frame. wrap fan_speed (FanSpeed.decode frame) }
    ∷ record { id = AllConfig.id; decode = λ frame. wrap all_config (AllConfig.decode frame) }
    ∷ record { id = Schedule.id; decode = λ frame. wrap schedule (Schedule.decode frame) }
    ∷ record {
      id = TemperatureOffset.id;
      decode = λ frame. wrap temperature_offset (TemperatureOffset.decode frame);
    }
    ∷ record {
      id = SwitchingDiffHeat.id;
      decode = λ frame. wrap switching_diff_heat (SwitchingDiffHeat.decode frame);
    }
    ∷ record {
      id = SwitchingDiffCool.id;
      decode = λ frame. wrap switching_diff_cool (SwitchingDiffCool.decode frame);
    }
    ∷ record {
      id = ChangeoverHeat.id;
      decode = λ frame. wrap changeover_heat (ChangeoverHeat.decode frame);
    }
    ∷ record {
      id = ChangeoverCool.id;
      decode = λ frame. wrap changeover_cool (ChangeoverCool.decode frame);
    }
    ∷ record { id = SystemMode.id; decode = λ frame. wrap system_mode (SystemMode.decode frame) }
    ∷ record { id = DisplayUnit.id; decode = λ frame. wrap display_unit (DisplayUnit.decode frame) }
    ∷ []

-- bool try_decode(const Frame &frame, std::optional<AnyMessage> &out): the result and the new `out`
unfoldable pub try_decode : Alternative → Frame → Option AnyMessage → Bool × Option AnyMessage
try_decode M frame out =
    if not (frame.msg_id == M.id)
    then (false, out)
    else (true, elim (M.decode frame) [ none ↦ out | some msg ↦ some msg ])

-- `(try_decode<Ms>(frame, out) || ...)`: the fold stops at the first alternative that returns true.
unfoldable pub decode_variant : List Alternative → Frame → Option AnyMessage → Option AnyMessage
unfolding try_decode
decode_variant [] frame out = out
decode_variant (M ∷ Ms) frame out =
    let (found, out1) = try_decode M frame out in
    let rest = decode_variant Ms frame out1 in if found then out1 else rest

-- std::optional<AnyMessage> decode_message(const Frame &frame)
unfoldable pub decode_message : Frame → Option AnyMessage
unfolding decode_variant
decode_message frame = decode_variant alternatives frame none

-- The virtual functions `id` and `encode` of class Message
abbrev pub id_of : AnyMessage → ℕ
id_of (temperature m) = Temperature.id
id_of (target_temperature m) = TargetTemperature.id
id_of (mode m) = Mode.id
id_of (power m) = Power.id
id_of (fan_speed m) = FanSpeed.id
id_of (all_config m) = AllConfig.id
id_of (schedule m) = Schedule.id
id_of (temperature_offset m) = TemperatureOffset.id
id_of (switching_diff_heat m) = SwitchingDiffHeat.id
id_of (switching_diff_cool m) = SwitchingDiffCool.id
id_of (changeover_heat m) = ChangeoverHeat.id
id_of (changeover_cool m) = ChangeoverCool.id
id_of (system_mode m) = SystemMode.id
id_of (display_unit m) = DisplayUnit.id

-- `none` is an undefined cast.
unfoldable pub encode : AnyMessage → Option Frame
encode (temperature m) = Temperature.encode m
encode (target_temperature m) = TargetTemperature.encode m
encode (mode m) = some (Mode.encode m)
encode (power m) = some (Power.encode m)
encode (fan_speed m) = some (FanSpeed.encode m)
encode (all_config m) = AllConfig.encode m
encode (schedule m) = Schedule.encode m
encode (temperature_offset m) = TemperatureOffset.encode m
encode (switching_diff_heat m) = SwitchingDiffHeat.encode m
encode (switching_diff_cool m) = SwitchingDiffCool.encode m
encode (changeover_heat m) = ChangeoverHeat.encode m
encode (changeover_cool m) = ChangeoverCool.encode m
encode (system_mode m) = some (SystemMode.encode m)
encode (display_unit m) = some (DisplayUnit.encode m)

-- The virtual function `to_string` of class Message
unfoldable pub to_string : AnyMessage → List ℕ
to_string (temperature m) = Temperature.to_string m
to_string (target_temperature m) = TargetTemperature.to_string m
to_string (mode m) = Mode.to_string m
to_string (power m) = Power.to_string m
to_string (fan_speed m) = FanSpeed.to_string m
to_string (all_config m) = AllConfig.to_string m
to_string (schedule m) = Schedule.to_string m
to_string (temperature_offset m) = TemperatureOffset.to_string m
to_string (switching_diff_heat m) = SwitchingDiffHeat.to_string m
to_string (switching_diff_cool m) = SwitchingDiffCool.to_string m
to_string (changeover_heat m) = ChangeoverHeat.to_string m
to_string (changeover_cool m) = ChangeoverCool.to_string m
to_string (system_mode m) = SystemMode.to_string m
to_string (display_unit m) = DisplayUnit.to_string m
