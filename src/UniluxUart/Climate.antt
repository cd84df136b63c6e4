-- ===== src/UniluxUart/Climate.antt =====
-- esphome/components/unilux_uart/unilux_uart.cpp: class UniluxUartClimate, the climate entity.
mod State
pub mod Run
pub mod Mirror
pub mod Boot
pub mod Traits
mod Tests
use unilux_uart.Common.{
  ℕ, ◌≡◌, Bool, true, false, not, ◌&&◌, ◌||◌, Option, none, some, List, [], ◌∷◌, ◌++◌,
  if◌then◌else◌,
}
use unilux_uart.Common.Int.{pos}
use unilux_uart.Float.{Float, finite, of_int, isnan}
use unilux_uart.Message.Mode
use unilux_uart.Message.FanSpeed
use unilux_uart.Messages.{AnyMessage}
use unilux_uart.UniluxUart.Modes.{
  ClimateMode, ClimateFanMode, same_mode, device_mode_to_climate, climate_mode_to_device,
  is_active_mode, device_fan_to_climate, climate_fan_to_device,
}
pub use State.*

-- DEFAULT_TARGET_TEMPERATURE
abbrev pub default_target_temperature : Float
default_target_temperature = of_int (pos 21)

-- `0.0f`
abbrev pub float_zero : Float
float_zero = finite false 0

-- `power_on_ ? active_mode_ : CLIMATE_MODE_OFF`
abbrev pub combined_mode : Climate → ClimateMode
combined_mode c = if c.power_on then c.active_mode else ClimateMode.off

abbrev pub target_message : Climate → AnyMessage
target_message c =
    AnyMessage.target_temperature (record { t1 = c.target_temperature; t2 = float_zero })

abbrev pub power_message : Bool → AnyMessage
power_message on = AnyMessage.power (record { on = on })

abbrev pub mode_message : ClimateMode → AnyMessage
mode_message mode = AnyMessage.mode (record { value = climate_mode_to_device mode })

abbrev pub fan_message : ClimateFanMode → AnyMessage
fan_message mode = AnyMessage.fan_speed (record { value = climate_fan_to_device mode })

abbrev pub send_fan : Option ClimateFanMode → Handler
send_fan none c = (c, [])
send_fan (some mode) c = send_if true (fan_message mode) c

-- void sync_to_device()
unfoldable pub sync_to_device : Handler
sync_to_device c =
    let sends =
      (send_if true (target_message c)
          >> send_if true (power_message c.power_on)
          >> send_if c.power_on (mode_message c.active_mode)
          >> send_fan c.fan_mode)
        c in
    if not c.has_parent || isnan c.target_temperature then (c, []) else sends

-- The state that `setup` derives from the restored mode
abbrev pub derive_active : Climate → Climate
derive_active c =
    if same_mode c.mode ClimateMode.off
    then record c { power_on = false }
    else if is_active_mode c.mode
    then record c { power_on = true; active_mode = c.mode }
    else record c { power_on = true; active_mode = ClimateMode.heat }

abbrev pub default_fan : Option ClimateFanMode → Option ClimateFanMode
default_fan none = some ClimateFanMode.auto
default_fan (some mode) = some mode

-- The defaults where `restore_state_` finds nothing, else its `apply`, which is given the base class
abbrev pub restored : Option (Inherited → Inherited) → Climate → Climate
restored none c = record c {
  target_temperature = default_target_temperature;
  mode = ClimateMode.heat_cool;
  fan_mode = some ClimateFanMode.auto;
}
restored (some apply) c = set_inherited c (apply (inherited c))

-- The entity that `setup` sends and publishes
unfoldable pub resolve : Option (Inherited → Inherited) → Climate → Climate
resolve restore c =
    let c1 = derive_active (restored restore c) in
    record c1 {
      mode = combined_mode c1;
      target_temperature =
          if isnan c1.target_temperature then default_target_temperature else c1.target_temperature;
      fan_mode = default_fan c1.fan_mode;
    }

-- What `restore->apply(this)` publishes
abbrev pub applied : Option (Inherited → Inherited) → Climate → List Event
applied none c = []
applied (some apply) c = publish_restored (restored (some apply) c) ∷ []

-- void setup(); the argument is what ESPHome's `restore_state_` returns, by what its `apply` sets.
unfoldable pub setup : Option (Inherited → Inherited) → Handler
unfolding sync_to_device resolve
setup restore c =
    let (c1, es) = (sync_to_device >> publish_state) (resolve restore c) in
    (c1, applied restore c ++ es)

-- climate::ClimateCall, as far as `control` reads it
pub record ClimateCall : Type 0 where
  pub target_temperature : Option Float
  pub mode : Option ClimateMode
  pub fan_mode : Option ClimateFanMode

-- The three parts of `control`
unfoldable pub control_target : Option Float → Handler
control_target none c = (c, [])
control_target (some t) c =
    let c1 = record c { target_temperature = t } in send_if true (target_message c1) c1

unfoldable pub control_power : ClimateMode → Handler
control_power requested c =
    if same_mode requested ClimateMode.off
    then (record c { power_on = false }, (send_if c.power_on (power_message false) c).1)
    else if is_active_mode requested
    then (
      record c { power_on = true; active_mode = requested },
      ((send_if (not c.power_on) (power_message true)
            >> send_if (not (same_mode requested c.active_mode)) (mode_message requested))
          c).1,
    )
    else (c, [])

abbrev pub combine : Handler
combine c = (record c { mode = combined_mode c }, [])

unfoldable pub control_mode : Option ClimateMode → Handler
unfolding control_power
control_mode none c = (c, [])
control_mode (some requested) c = (control_power requested >> combine) c

unfoldable pub control_fan : Option ClimateFanMode → Handler
control_fan none c = (c, [])
control_fan (some mode) c = send_if true (fan_message mode) (record c { fan_mode = some mode })

-- void control(const climate::ClimateCall &call)
unfoldable pub control : ClimateCall → Handler
control call =
    control_target call.target_temperature
    >> control_mode call.mode
    >> control_fan call.fan_mode
    >> publish_state

-- void publish_current_temperature(float temperature)
unfoldable pub publish_current_temperature : Float → Handler
publish_current_temperature temperature c =
    publish_state (record c { current_temperature = temperature })

-- void publish_target_temperature(float temperature)
unfoldable pub publish_target_temperature : Float → Handler
publish_target_temperature temperature c =
    publish_state (record c { target_temperature = temperature })

-- void publish_combined_mode_()
abbrev pub publish_combined_mode : Handler
publish_combined_mode c = publish_state (record c { mode = combined_mode c })

-- void publish_mode(Mode::Value value); an unknown value is only logged.
unfoldable pub publish_mode : Mode.Value → Handler
publish_mode value c = elim (device_mode_to_climate value) [
  | none ↦ (c, [])
  | some mode ↦ publish_combined_mode (record c { active_mode = mode })
]

-- void publish_power(bool on)
unfoldable pub publish_power : Bool → Handler
publish_power on c = publish_combined_mode (record c { power_on = on })

-- void publish_fan_speed(FanSpeed::Value value)
unfoldable pub publish_fan_speed : FanSpeed.Value → Handler
publish_fan_speed value c = elim (device_fan_to_climate value) [
  | none ↦ (c, [])
  | some mode ↦ publish_state (record c { fan_mode = some mode })
]

-- The modes that `traits` lists as supported
abbrev pub supported_modes : List ClimateMode
supported_modes = ClimateMode.off ∷ ClimateMode.heat ∷ ClimateMode.cool ∷ ClimateMode.heat_cool ∷ []
