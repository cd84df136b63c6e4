-- ===== src/UniluxUart/Tests.antt =====
-- esphome/components/unilux_uart/unilux_uart.cpp: a climate entity and a device with concrete values.
use unilux_uart.Common.{◌≡◌, refl, arith, true, false, none, some, List, [], ◌∷◌, ◌++◌, All, ◌⊎◌}
use unilux_uart.Common.Int.{pos, negsuc}
use unilux_uart.Float.{nan, isnan}
use unilux_uart.Float.Tenths.{tenths}
use unilux_uart.Messages.{AnyMessage}
use unilux_uart.UniluxUart.Modes.{ClimateMode, ClimateFanMode, climate_mode_to_device}
use unilux_uart.UniluxUart.Climate.{
  Climate, Inherited, initial, Event, ClimateCall, setup, control, control_target, control_mode,
  control_fan, sync_to_device,
}
use unilux_uart.UniluxUart.Climate.Run.{
  IsConsistent, IsFine, control_call, Run, started, called, Run-IsConsistent,
}
use unilux_uart.UniluxUart.Climate.Mirror.{
  Device, receive, receive_all, IsMirror, EndsPublished, control-Mirrors, reflect, IsQuiet,
  Displays, reflect-Mirrors, FanMirrors, sync_to_device-Mirrors,
}

-- The messages of a rebroadcast
abbrev messages : List AnyMessage
messages =
    AnyMessage.temperature_offset (record { value = tenths (negsuc 4) })
    ∷ AnyMessage.power (record { on = true })
    ∷ AnyMessage.mode (record { value = 2 })
    ∷ []

-- A base class before it is set up
abbrev base : Inherited
base = record {
  mode = ClimateMode.off;
  target_temperature = nan;
  current_temperature = nan;
  fan_mode = none;
}

abbrev request : ClimateCall
request = record {
  target_temperature = some (tenths (pos 225));
  mode = some ClimateMode.cool;
  fan_mode = some ClimateFanMode.low;
}

abbrev started_up : Climate
started_up = (setup none (initial true base)).0

abbrev after : Climate
after = (control request started_up).0

abbrev events : List Event
events = (setup none (initial true base)).1 ++ (control request started_up).1

events-Run : Run true after events
events-Run = called (control_call request) (started none base)

Run-IsConsistent_example : IsConsistent after × (after.has_parent ≡ true) × All (IsFine true) events
Run-IsConsistent_example = Run-IsConsistent true after events events-Run

-- An entity that is off, and the device
abbrev entity : Climate
entity = record {
  has_parent = true;
  power_on = false;
  active_mode = ClimateMode.heat;
  mode = ClimateMode.off;
  target_temperature = tenths (pos 200);
  current_temperature = tenths (pos 190);
  fan_mode = some ClimateFanMode.high;
}

abbrev device : Device
device = record { power = false; mode = 0; target = tenths (pos 200); fan = 3 }

entity-IsMirror : IsMirror device entity
entity-IsMirror = record { power = refl; mode = refl; target = refl; fan = refl; shown = refl }

control_run :
    receive_all device (control request entity).1
    ≡ record { power = true; mode = 1; target = tenths (pos 225); fan = 1 }
unfolding control control_target control_mode control_fan
control_run = refl

control-Mirrors_example :
    IsMirror (receive_all device (control request entity).1) (control request entity).0
    × EndsPublished (control request entity)
control-Mirrors_example = control-Mirrors request device entity refl entity-IsMirror

abbrev cooling : AnyMessage
cooling = AnyMessage.mode (record { value = 1 })

reflect-Mirrors_example :
    IsMirror (receive device cooling) (reflect cooling entity).0
    × IsQuiet (reflect cooling entity).1
    × Displays cooling entity (reflect cooling entity)
reflect-Mirrors_example = reflect-Mirrors cooling device entity (omega arith) entity-IsMirror

-- A device in another state
abbrev stray : Device
stray = record { power = true; mode = 1; target = tenths (pos 50); fan = 2 }

sync_to_device-Mirrors_example :
    ((sync_to_device entity).0 ≡ entity)
    × (let e = receive_all stray (sync_to_device entity).1 in
        ((entity.has_parent ≡ true)
          × (isnan entity.target_temperature ≡ false)
          × (e.power ≡ entity.power_on)
          × (e.target ≡ entity.target_temperature)
          × FanMirrors entity.fan_mode e.fan
          × (entity.power_on ≡ true → e.mode ≡ climate_mode_to_device entity.active_mode)
          × (entity.power_on ≡ false → e.mode ≡ stray.mode))
        ⊎ (((entity.has_parent ≡ false) ⊎ (isnan entity.target_temperature ≡ true))
            × ((sync_to_device entity).1 ≡ [])))
sync_to_device-Mirrors_example = sync_to_device-Mirrors stray entity
