-- ===== src/UniluxUart/Configuration.antt =====
-- esphome/components/unilux_uart/__init__.py: the settings that the configuration offers, and to_code,
-- which turns a configuration into calls of the setters.
pub mod Entities
pub mod Ranges
pub mod Options
pub mod Start
pub mod Settings
mod Tests
use unilux_uart.Common.{ℕ, ◌≡◌, Bool, true, false, Option, List, [], ◌∷◌, ◌++◌, map, if◌then◌else◌}
use unilux_uart.Common.Int.{pos, negsuc}
use unilux_uart.Float.{Float}
use unilux_uart.Float.Halves.{half}
use unilux_uart.UniluxUart.Climate
use unilux_uart.UniluxUart.Number
use unilux_uart.UniluxUart.Select
use unilux_uart.UniluxUart.Component.Setup.{
  NumberSetter, SelectSetter, set_number, set_select, new_number, new_select, Setter, t1_sensor,
  t2_sensor, climate, number, select,
}
use Prim.Native.String.{String}

-- A row of NUMBER_SETTINGS
pub record NumberSetting : Type 0 where
  pub key : String
  pub msg_id : ℕ
  pub name : String
  pub min_value : Float
  pub max_value : Float
  pub step : Float
  pub initial_value : Float

-- NUMBER_SETTINGS; a value is written by its half degrees.
abbrev pub number_settings : List NumberSetting
number_settings =
    record {
      key = "temperature_offset";
      msg_id = 0x56;
      name = "Temperature Offset";
      min_value = half (negsuc 9);
      max_value = half (pos 10);
      step = half (pos 1);
      initial_value = half (pos 0);
    }
    ∷ record {
      key = "switching_diff_heat";
      msg_id = 0x58;
      name = "Switching Differential (Heat)";
      min_value = half (pos 4);
      max_value = half (pos 8);
      step = half (pos 1);
      initial_value = half (pos 4);
    }
    ∷ record {
      key = "switching_diff_cool";
      msg_id = 0x59;
      name = "Switching Differential (Cool)";
      min_value = half (pos 4);
      max_value = half (pos 8);
      step = half (pos 1);
      initial_value = half (pos 4);
    }
    ∷ record {
      key = "changeover_heat";
      msg_id = 0x5D;
      name = "Heating Changeover Temperature";
      min_value = half (pos 20);
      max_value = half (pos 50);
      step = half (pos 1);
      initial_value = half (pos 36);
    }
    ∷ record {
      key = "changeover_cool";
      msg_id = 0x5E;
      name = "Cooling Changeover Temperature";
      min_value = half (pos 40);
      max_value = half (pos 80);
      step = half (pos 1);
      initial_value = half (pos 46);
    }
    ∷ []

-- A row of SELECT_SETTINGS; the options are the labels with their bytes.
pub record SelectSetting : Type 0 where
  pub key : String
  pub msg_id : ℕ
  pub name : String
  pub options : List (String × ℕ)
  pub restore : Bool
  pub initial_index : ℕ

-- SELECT_SETTINGS
abbrev pub select_settings : List SelectSetting
select_settings =
    record {
      key = "system_mode";
      msg_id = 0x23;
      name = "System Mode";
      options = ("2 Pipe", 0) ∷ ("4 Pipe", 1) ∷ ("2 Pipe Auto", 2) ∷ ("2 Pipe Heat", 3) ∷ [];
      restore = true;
      initial_index = 0;
    }
    ∷ record {
      key = "display_unit";
      msg_id = 0x2C;
      name = "Temperature Display Unit";
      options = ("Celsius", 2) ∷ ("Fahrenheit", 3) ∷ [];
      restore = false;
      initial_index = 0;
    }
    ∷ []

-- `options.keys()` and `options.values()`
abbrev pub labels : List (String × ℕ) → List String
labels [] = []
labels ((label, byte) ∷ options) = label ∷ labels options

abbrev pub bytes_of : List (String × ℕ) → List ℕ
bytes_of [] = []
bytes_of ((label, byte) ∷ options) = byte ∷ bytes_of options

-- What ESPHome's classes are when they are constructed: the base class of the climate entity, the
-- state of a number, and a select with its options and its active index
pub record Esphome : Type 0 where
  pub base : Climate.Inherited
  pub state : Float
  pub options : List String → Select.SelectApi String
  pub active_index : Option ℕ

-- An entity after the calls of its setters
abbrev pub set_all : {S E : Type 0} → (S → E → E) → List S → E → E
set_all set [] e = e
set_all set (s ∷ ss) e = set_all set ss (set s e)

abbrev pub number_of : Esphome → NumberSetting → Number.Number
number_of esphome s =
    set_all set_number
      (NumberSetter.set_parent
        ∷ NumberSetter.set_msg_id s.msg_id
        ∷ NumberSetter.set_initial_value s.initial_value
        ∷ [])
      (new_number esphome.state)

abbrev pub select_of : Esphome → SelectSetting → Select.SelectApi String × Select.Select
select_of esphome s = (
  esphome.options (labels s.options),
  set_all set_select
      (SelectSetter.set_parent
        ∷ SelectSetter.set_msg_id s.msg_id
        ∷ SelectSetter.set_option_bytes (bytes_of s.options)
        ∷ SelectSetter.set_restore s.restore
        ∷ SelectSetter.set_initial_index s.initial_index
        ∷ [])
      (new_select esphome.active_index),
)

-- `config[key][CONF_DISABLED]` as a function of the key
module _ (esphome : Esphome) (disabled : String → Bool) where
  -- `if conf[CONF_DISABLED]: continue`
  abbrev pub unless_disabled : String → Setter String → List (Setter String)
  unless_disabled key call = if disabled key then [] else call ∷ []

  abbrev pub channel_calls : List (Setter String)
  channel_calls = unless_disabled "t1" t1_sensor ++ unless_disabled "t2" t2_sensor

  abbrev pub climate_calls : List (Setter String)
  climate_calls =
      unless_disabled "climate" (climate (Climate.set_parent (Climate.initial false esphome.base)))

  abbrev pub number_calls : List NumberSetting → List (Setter String)
  number_calls [] = []
  number_calls (s ∷ ss) = unless_disabled s.key (number (number_of esphome s)) ++ number_calls ss

  abbrev pub select_calls : List SelectSetting → List (Setter String)
  select_calls [] = []
  select_calls (s ∷ ss) = unless_disabled s.key (select (select_of esphome s)) ++ select_calls ss

  -- async def to_code(config): the calls on the component, in their order
  unfoldable pub to_code : List (Setter String)
  to_code =
      channel_calls ++ climate_calls ++ number_calls number_settings ++ select_calls select_settings
