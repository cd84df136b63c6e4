-- ===== src/UniluxUart/Climate/Tests.antt =====
-- esphome/components/unilux_uart/unilux_uart.cpp: an entity that is restored as off while the device
-- cools, and turned on to heat; values that the traits offer.
use unilux_uart.Common.{ℕ, ◌+◌, ◌*◌, ◌^◌, ◌≤◌, ◌<◌, ◌≡◌, ◌≢◌, ◌↔◌, refl, true, false, some, OneOf}
use unilux_uart.Float.{Float, nan, finite, unit}
use unilux_uart.Aup
use unilux_uart.Aup.{IsWellFormed}
use unilux_uart.UniluxUart.Send.{send_message}
use unilux_uart.UniluxUart.Send.Device.{typed_message}
use unilux_uart.Float.Tenths.{tenths}
use unilux_uart.Common.Int.{pos}
use unilux_uart.UniluxUart.Modes.{
  ClimateMode, ClimateFanMode, device_mode_to_climate, climate_mode_to_device,
  device_fan_to_climate, climate_fan_to_device,
}
use unilux_uart.UniluxUart.Climate.{
  Climate, Inherited, initial, setup, control, ◌>>◌, target_message,
}
use unilux_uart.UniluxUart.Climate.Traits.{
  traits, with_target, device_mode_to_climate-traits, typed_message-target_message,
}
use unilux_uart.UniluxUart.Climate.Mirror.{Device, receive_all}
use unilux_uart.UniluxUart.Climate.Boot.{sync_rounds, mode_call, setup-control_from_off}

abbrev stored : Inherited
stored = record {
  mode = ClimateMode.off;
  target_temperature = tenths (pos 215);
  current_temperature = nan;
  fan_mode = some ClimateFanMode.low;
}

abbrev cooling : Device
cooling = record { power = false; mode = 1; target = tenths (pos 215); fan = 1 }

setup-control_from_off_example :
    let (c, es) =
      (setup (some (λ old. stored)) >> sync_rounds 12 >> control (mode_call ClimateMode.heat))
        (initial true stored) in
    let e = receive_all cooling es in (c.mode ≡ ClimateMode.heat) × (e.power ≡ true) × (e.mode ≡ 1)
setup-control_from_off_example =
    setup-control_from_off (λ old. stored) stored cooling 12 ClimateMode.heat refl refl

device_mode_to_climate-traits_example :
    ((device_mode_to_climate 2 ≡ some ClimateMode.heat_cool) ↔ (
      OneOf ClimateMode.heat_cool traits.supported_modes
      × (ClimateMode.heat_cool ≢ ClimateMode.off)
      × (climate_mode_to_device ClimateMode.heat_cool ≡ 2)))
    × ((device_fan_to_climate 2 ≡ some ClimateFanMode.off) ↔ (
        OneOf ClimateFanMode.off traits.supported_fan_modes
        × (climate_fan_to_device ClimateFanMode.off ≡ 2)))
device_mode_to_climate-traits_example =
    device_mode_to_climate-traits 2 ClimateMode.heat_cool ClimateFanMode.off

-- 20.75 degrees, which is between two tenths
abbrev between_tenths : Float
between_tenths = finite false (83 * 2 ^ 147)

abbrev entity : Climate
entity = initial true stored

typed_message-target_message_example :
    (f : Aup.Frame) × (w : ℕ) × (m : ℕ) × (send_message
        (target_message (with_target between_tenths entity))
      ≡ some (Aup.encode f))
    × IsWellFormed f
    × (typed_message f ≡ some (target_message (with_target (tenths (pos w)) entity)))
    × (between_tenths ≡ finite false m)
    × (w * unit ≤ 10 * m + 2 ^ 140)
    × (10 * m < (w + 1) * unit + 2 ^ 140)
typed_message-target_message_example = typed_message-target_message between_tenths entity refl refl
