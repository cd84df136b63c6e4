-- ===== src/UniluxUart/Climate/State.antt =====
-- esphome/components/unilux_uart/unilux_uart.h: the fields of class UniluxUartClimate, and handlers,
-- which change them and make calls.
use unilux_uart.Common.{Bool, true, ◌&&◌, Option, List, [], ◌∷◌, ◌++◌, if◌then◌else◌}
use unilux_uart.Float.{Float}
use unilux_uart.Messages.{AnyMessage}
use unilux_uart.UniluxUart.Modes.{ClimateMode, ClimateFanMode}

-- The fields of class UniluxUartClimate, and those that it inherits and uses. `has_parent` says
-- whether `parent_` is set.
pub record Climate : Type 0 where
  pub has_parent : Bool
  pub power_on : Bool
  pub active_mode : ClimateMode
  pub mode : ClimateMode
  pub target_temperature : Float
  pub current_temperature : Float
  pub fan_mode : Option ClimateFanMode

-- The fields that climate::Climate declares
pub record Inherited : Type 0 where
  pub mode : ClimateMode
  pub target_temperature : Float
  pub current_temperature : Float
  pub fan_mode : Option ClimateFanMode

abbrev pub inherited : Climate → Inherited
inherited c = record {
  mode = c.mode;
  target_temperature = c.target_temperature;
  current_temperature = c.current_temperature;
  fan_mode = c.fan_mode;
}

abbrev pub set_inherited : Climate → Inherited → Climate
set_inherited c i = record c {
  mode = i.mode;
  target_temperature = i.target_temperature;
  current_temperature = i.current_temperature;
  fan_mode = i.fan_mode;
}

-- A constructed entity: the base class has whatever ESPHome gives it.
abbrev pub initial : Bool → Inherited → Climate
initial has_parent i = record {
  has_parent = has_parent;
  power_on = true;
  active_mode = ClimateMode.heat;
  mode = i.mode;
  target_temperature = i.target_temperature;
  current_temperature = i.current_temperature;
  fan_mode = i.fan_mode;
}

-- void set_parent(UniluxUartComponent *parent)
abbrev pub set_parent : Climate → Climate
set_parent c = record c { has_parent = true }

-- A call of the parent's `send_message`; a call of the inherited `publish_state`, which publishes the
-- fields as they are then; or the publication at the end of the `apply` of a restored state, of the
-- fields as it has set them.
pub data Event : Type 0 where
  send : AnyMessage → Event
  publish : Climate → Event
  publish_restored : Climate → Event

-- A handler changes the entity and makes calls.
abbrev pub Handler : Type 0
Handler = Climate → Climate × List Event

-- `f(); g();`
infixr 30 ◌>>◌
abbrev pub ◌>>◌ : Handler → Handler → Handler
(f >> g) c = let (c1, es1) = f c in let (c2, es2) = g c1 in (c2, es1 ++ es2)

abbrev pub publish_state : Handler
publish_state c = (c, publish c ∷ [])

-- `if (test && this->parent_ != nullptr) this->parent_->send_message(msg);`
abbrev pub send_if : Bool → AnyMessage → Handler
send_if test msg c = (c, if test && c.has_parent then send msg ∷ [] else [])
