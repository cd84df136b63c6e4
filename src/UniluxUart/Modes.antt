-- ===== src/UniluxUart/Modes.antt =====
-- esphome/components/unilux_uart/unilux_uart.cpp: the maps between the device's modes and fan speeds
-- and those of ESPHome's climate component.
use unilux_uart.Common.{
  ℕ, ◌≡◌, refl, arith, Bool, true, false, ◌||◌, Option, none, some, ◌==◌, if◌then◌else◌,
}
use unilux_uart.Message.Mode
use unilux_uart.Message.FanSpeed

-- climate::ClimateMode: the enumerators that the component names, and the others.
pub data ClimateMode : Type 0 where
  off heat_cool cool heat : ClimateMode
  other : ℕ → ClimateMode

-- climate::ClimateFanMode, likewise
pub data ClimateFanMode : Type 0 where
  auto low medium high off : ClimateFanMode
  other : ℕ → ClimateFanMode

-- `==` on climate::ClimateMode
abbrev pub same_mode : ClimateMode → ClimateMode → Bool
same_mode ClimateMode.off ClimateMode.off = true
same_mode ClimateMode.heat_cool ClimateMode.heat_cool = true
same_mode ClimateMode.cool ClimateMode.cool = true
same_mode ClimateMode.heat ClimateMode.heat = true
same_mode (ClimateMode.other a) (ClimateMode.other b) = a == b
same_mode _ _ = false

-- static optional<climate::ClimateMode> device_mode_to_climate(Mode::Value value)
unfoldable pub device_mode_to_climate : Mode.Value → Option ClimateMode
device_mode_to_climate value =
    if value == Mode.heat
    then some ClimateMode.heat
    else if value == Mode.cool
    then some ClimateMode.cool
    else if value == Mode.auto
    then some ClimateMode.heat_cool
    else none

-- static Mode::Value climate_mode_to_device(climate::ClimateMode mode)
abbrev pub climate_mode_to_device : ClimateMode → Mode.Value
climate_mode_to_device ClimateMode.cool = Mode.cool
climate_mode_to_device ClimateMode.heat_cool = Mode.auto
climate_mode_to_device _ = Mode.heat

-- static bool is_active_mode(climate::ClimateMode mode)
abbrev pub is_active_mode : ClimateMode → Bool
is_active_mode mode =
    same_mode mode ClimateMode.heat
    || same_mode mode ClimateMode.cool
    || same_mode mode ClimateMode.heat_cool

-- static optional<climate::ClimateFanMode> device_fan_to_climate(FanSpeed::Value value)
unfoldable pub device_fan_to_climate : FanSpeed.Value → Option ClimateFanMode
device_fan_to_climate value =
    if value == FanSpeed.auto
    then some ClimateFanMode.auto
    else if value == FanSpeed.low
    then some ClimateFanMode.low
    else if value == FanSpeed.medium
    then some ClimateFanMode.medium
    else if value == FanSpeed.high
    then some ClimateFanMode.high
    else if value == FanSpeed.off
    then some ClimateFanMode.off
    else none

-- static FanSpeed::Value climate_fan_to_device(climate::ClimateFanMode mode)
abbrev pub climate_fan_to_device : ClimateFanMode → FanSpeed.Value
climate_fan_to_device ClimateFanMode.low = FanSpeed.low
climate_fan_to_device ClimateFanMode.medium = FanSpeed.medium
climate_fan_to_device ClimateFanMode.high = FanSpeed.high
climate_fan_to_device ClimateFanMode.off = FanSpeed.off
climate_fan_to_device _ = FanSpeed.auto

-- An active mode is sent as a value that is read back as the mode.
pub device_mode-climate_mode :
    (mode : ClimateMode)
    → is_active_mode mode ≡ true
    → device_mode_to_climate (climate_mode_to_device mode) ≡ some mode
unfolding device_mode_to_climate
device_mode-climate_mode ClimateMode.off h = cc
device_mode-climate_mode ClimateMode.heat_cool h = refl
device_mode-climate_mode ClimateMode.cool h = refl
device_mode-climate_mode ClimateMode.heat h = refl
device_mode-climate_mode (ClimateMode.other n) h = cc

-- A mode read from the device is active, and sent as the value that was read.
pub climate_mode-device_mode :
    (value : Mode.Value) (mode : ClimateMode)
    → device_mode_to_climate value ≡ some mode
    → (climate_mode_to_device mode ≡ value) × (is_active_mode mode ≡ true)
unfolding device_mode_to_climate
climate_mode-device_mode value mode h = ground arith

-- A fan speed read from the device is sent as the value that was read.
pub climate_fan-device_fan :
    (value : FanSpeed.Value) (mode : ClimateFanMode)
    → device_fan_to_climate value ≡ some mode
    → climate_fan_to_device mode ≡ value
unfolding device_fan_to_climate
climate_fan-device_fan value mode h = ground arith
