-- ===== src/UniluxUart/System/Tests.antt =====
-- esphome/components/unilux_uart/unilux_uart.cpp: a component with one entity of each kind, and a
-- device, through a call on each entity, a report and a rebroadcast.
use unilux_uart.Common.{
  ℕ, ◌+◌, ◌≡◌, refl, arith, true, false, none, some, List, [], ◌∷◌, inl, ltb, map,
}
use unilux_uart.Common.Int.{pos, negsuc}
use unilux_uart.Common.Bytes.{bytes_lem}
use unilux_uart.Float.{Float, nan}
use unilux_uart.Float.Tenths.{tenths}
use unilux_uart.Aup.Run.{fresh}
use unilux_uart.Messages.{AnyMessage}
use unilux_uart.Message.Mode
use unilux_uart.UniluxUart.Modes.{ClimateMode, ClimateFanMode}
use unilux_uart.UniluxUart.Climate.{Climate}
use unilux_uart.UniluxUart.Climate.Mirror.{Matches}
use unilux_uart.UniluxUart.Select.{SelectApi}
use unilux_uart.UniluxUart.Component.{Component}
use unilux_uart.UniluxUart.System.{
  System, Action, control_climate, control_number, control_select, report, sync, run,
}
use unilux_uart.Aup.{consume_all, IsIdle}
use unilux_uart.UniluxUart.Send.Device.{typed_message}
use unilux_uart.UniluxUart.Climate
use unilux_uart.UniluxUart.Number
use unilux_uart.UniluxUart.Select
use unilux_uart.UniluxUart.Component.{Event, climate_event, number_event, select_event}
use unilux_uart.UniluxUart.System.{written_all, act}
use unilux_uart.UniluxUart.System.Transcript.{
  scalar_messages, byte_messages, consume_all-written_all,
}
use unilux_uart.UniluxUart.System.Heal.{act-sync}
use unilux_uart.UniluxUart.System.InStep.{IsLinked, InStep, run-InStep}

abbrev published : Float → Float → Float
published old value = value

abbrev entity : Climate
entity = record {
  has_parent = true;
  power_on = false;
  active_mode = ClimateMode.heat;
  mode = ClimateMode.off;
  target_temperature = tenths (pos 210);
  current_temperature = nan;
  fan_mode = some ClimateFanMode.auto;
}

-- Two options, named by their indices
abbrev api : SelectApi ℕ
api = record {
  has_index = λ i. ltb i 2;
  index_of = λ name. some name;
  at = λ i. some i;
  publish_index = λ active i. some i;
  publish_name = λ active name. some name;
}

abbrev component : Component ℕ
component = record {
  decoder = fresh;
  t1_sensor = true;
  t2_sensor = false;
  climate = some entity;
  numbers = record { has_parent = true; msg_id = 0x56; initial_value = nan; state = nan } ∷ [];
  selects =
      (
        api,
        record {
          has_parent = true;
          msg_id = 0x2C;
          option_bytes = 2 ∷ 3 ∷ [];
          restore = false;
          initial_index = 0;
          active_index = none;
        },
      )
      ∷ [];
  sync_count = 0;
}

abbrev system : System ℕ
system = record {
  component = component;
  peer = record {
    decoder = fresh;
    device = record { power = false; mode = 0; target = tenths (pos 210); fan = 0 };
  };
  frontend = some entity;
}

abbrev actions : List (Action ℕ)
actions =
    control_climate (record {
      target_temperature = some (tenths (pos 225));
      mode = some ClimateMode.cool;
      fan_mode = none;
    })
    ∷ control_number 0 (tenths (negsuc 14))
    ∷ control_select 0 1
    ∷ report (AnyMessage.mode (record { value = Mode.auto }))
    ∷ sync
    ∷ []

run-InStep_example : (s1 : System ℕ) × (run published actions system ≡ some s1) × InStep ℕ s1
run-InStep_example =
    run-InStep ℕ published (λ old value. refl) actions system
      (
        record { wire = 225; fits = omega arith; is_wire = refl },
        (
          record { wire = negsuc 14; fits = omega arith; is_wire = refl },
          (tt, ((omega arith, omega arith), (tt, tt))),
        ),
      )
      (record {
        linked = record {
          holds = record {
            entity = entity;
            here = refl;
            connected = refl;
            target = record { wire = 210; fits = omega arith; is_wire = refl };
            mirror = record { power = refl; mode = refl; target = refl; fan = refl; shown = refl };
            numbers = (inl refl, tt);
            selects = (bytes_lem (2 ∷ 3 ∷ []) refl, tt);
            listening = record { state_idle = refl; payload_empty = refl; read_zero = refl };
          };
          hearing = record { state_idle = refl; payload_empty = refl; read_zero = refl };
        };
        displayed = refl;
      })

-- The same entity, on, and a device that has missed everything
abbrev heating : Climate
heating = record entity { power_on = true; mode = ClimateMode.heat }

abbrev astray : System ℕ
astray = record {
  component = record component { climate = some heating };
  peer = record {
    decoder = fresh;
    device = record { power = false; mode = 2; target = tenths (pos 50); fan = 3 };
  };
  frontend = none;
}

act-sync_example :
    (s1 : System ℕ) × (act published sync astray ≡ some s1)
    × IsLinked ℕ Matches s1
    × (s1.component ≡ record astray.component { sync_count = astray.component.sync_count + 1 })
    × (s1.frontend ≡ astray.frontend)
act-sync_example =
    act-sync ℕ published (λ old value. refl) astray heating refl refl refl
      (record { wire = 210; fits = omega arith; is_wire = refl }) (inl refl, tt)
      (bytes_lem (2 ∷ 3 ∷ []) refl, tt)
      (record { state_idle = refl; payload_empty = refl; read_zero = refl })
      (record { state_idle = refl; payload_empty = refl; read_zero = refl })

-- A target, a setting, a publication, and a setting with an unknown id
abbrev calls : List (Event ℕ)
calls =
    climate_event (
      Climate.send
        (AnyMessage.target_temperature (record { t1 = tenths (pos 225); t2 = tenths (pos 0) })))
    ∷ number_event 0x56 (Number.setting 0x56 (tenths (negsuc 4)))
    ∷ number_event 0x56 (Number.publish (tenths (negsuc 4)))
    ∷ select_event 0x99 (Select.setting 0x99 1)
    ∷ []

consume_all-written_all_example :
    (bytes : List ℕ) × (written_all calls ≡ some bytes)
    × IsIdle (consume_all fresh bytes).0
    × (map typed_message (consume_all fresh bytes).1
        ≡ map some (
            AnyMessage.target_temperature (record { t1 = tenths (pos 225); t2 = tenths (pos 0) })
            ∷ AnyMessage.temperature_offset (record { value = tenths (negsuc 4) })
            ∷ []))
unfolding scalar_messages byte_messages
consume_all-written_all_example =
    consume_all-written_all ℕ calls fresh
      (
        (
          record { wire = 225; fits = omega arith; is_wire = refl },
          record { wire = 0; fits = omega arith; is_wire = refl },
        ),
        (record { wire = negsuc 4; fits = omega arith; is_wire = refl }, (tt, (omega arith, tt))),
      )
      (record { state_idle = refl; payload_empty = refl; read_zero = refl })
