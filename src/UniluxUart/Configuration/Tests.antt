-- ===== src/UniluxUart/Configuration/Tests.antt =====
-- esphome/components/unilux_uart/__init__.py: a configuration without the second sensor and without the
-- display unit, and a restart.
use unilux_uart.Common.{
  ℕ, ◌<◌, ◌≡◌, refl, arith, ◌==◌, if◌then◌else◌, Bool-cases, Bool, true, false, ◌||◌, none, some,
  List, [], ◌∷◌, inl, inr, ltb,
}
use unilux_uart.Common.Int.{pos, negsuc}
use unilux_uart.Float.{nan}
use unilux_uart.Float.Tenths.{tenths}
use unilux_uart.Float.Halves.{half, le}
use unilux_uart.Aup
use unilux_uart.Aup.{IsWellFormed}
use unilux_uart.Aup.Run.{fresh}
use unilux_uart.Messages.{AnyMessage, id_of}
use unilux_uart.UniluxUart.Send.{send_temperature_setting, send_byte_setting}
use unilux_uart.UniluxUart.Send.Device.{typed_message}
use unilux_uart.UniluxUart.Send.Settings.{scalar_of, byte_of}
use unilux_uart.UniluxUart.Modes.{ClimateMode}
use unilux_uart.UniluxUart.Component.Setup.{configure, new_component}
use unilux_uart.UniluxUart.System.{
  Peer, System, Action, control_climate, control_number, report, sync, run,
}
use unilux_uart.UniluxUart.System.InStep.{InStep}
use unilux_uart.UniluxUart.System.Boot.{Stored, boot}
use unilux_uart.UniluxUart.Configuration.{Esphome, NumberSetting, SelectSetting, to_code}
use unilux_uart.UniluxUart.Configuration.Entities.{configured, configure-to_code}
use unilux_uart.UniluxUart.Configuration.Ranges.{half-IsSigned, typed_message-number_settings}
use unilux_uart.UniluxUart.System.Boot.Kept.{StoredFits}
use unilux_uart.UniluxUart.System.Boot.Booted.{default-IsUnsigned}
use unilux_uart.UniluxUart.Climate.{resolve}
use unilux_uart.UniluxUart.Component.{Component}
use unilux_uart.UniluxUart.System.Panel.{Panel}
use unilux_uart.UniluxUart.Configuration.Options.{typed_message-select_settings}
use unilux_uart.UniluxUart.Configuration.Start.{run-boot}
use Prim.Native.Nat.{Ordering}
use Prim.Native.String.{String, compare}

abbrev esphome : Esphome
esphome = record {
  base = record {
    mode = ClimateMode.off;
    target_temperature = nan;
    current_temperature = nan;
    fan_mode = none;
  };
  state = nan;
  options = λ labels. record {
    has_index = λ i. ltb i 4;
    index_of = λ name. some 1;
    at = λ i. none;
    publish_index = λ active i. some i;
    publish_name = λ active name. some 1;
  };
  active_index = none;
}

abbrev is_same : Ordering → Bool
is_same Ordering.eq = true
is_same _ = false

abbrev disabled : String → Bool
disabled key = is_same (compare key "t2") || is_same (compare key "display_unit")

configure-to_code_example :
    configure (to_code esphome disabled) (new_component fresh) ≡ configured esphome disabled fresh
configure-to_code_example = configure-to_code esphome disabled fresh

abbrev changeover_heat : NumberSetting
changeover_heat = record {
  key = "changeover_heat";
  msg_id = 0x5D;
  name = "Heating Changeover Temperature";
  min_value = half (pos 20);
  max_value = half (pos 50);
  step = half (pos 1);
  initial_value = half (pos 36);
}

abbrev system_mode : SelectSetting
system_mode = record {
  key = "system_mode";
  msg_id = 0x23;
  name = "System Mode";
  options = ("2 Pipe", 0) ∷ ("4 Pipe", 1) ∷ ("2 Pipe Auto", 2) ∷ ("2 Pipe Heat", 3) ∷ [];
  restore = true;
  initial_index = 0;
}

-- 14.5 degrees, and the last option of the pipes
typed_message-number_settings_example :
    (f : Aup.Frame) × (m : AnyMessage) × (send_temperature_setting 0x5D (half (pos 29))
      ≡ some (Aup.encode f))
    × IsWellFormed f
    × (typed_message f ≡ some m)
    × (id_of m ≡ 0x5D)
    × (scalar_of m ≡ some (half (pos 29)))
    × (le changeover_heat.min_value changeover_heat.initial_value ≡ true)
    × (le changeover_heat.initial_value changeover_heat.max_value ≡ true)
typed_message-number_settings_example =
    typed_message-number_settings changeover_heat (pos 29) (inr (inr (inr (inl refl)))) refl refl

typed_message-select_settings_example :
    (f : Aup.Frame) × (m : AnyMessage) × (send_byte_setting 0x23 3 ≡ some (Aup.encode f))
    × IsWellFormed f
    × (typed_message f ≡ some m)
    × (id_of m ≡ 0x23)
    × (byte_of m ≡ some 3)
    × (0 < 4)
typed_message-select_settings_example =
    typed_message-select_settings system_mode ("2 Pipe Heat", 3) (inl refl)
      (inr (inr (inr (inl refl))))

-- Nothing is stored but an offset; the device cools.
abbrev stored : Stored
stored = record {
  climate = none;
  number = λ id. if id == 0x56 then some (half (negsuc 2)) else none;
  select = λ id. some 2;
}

stored-Fits : (id : ℕ) → StoredFits (stored.number id)
stored-Fits id = elim (Bool-cases (id == 0x56)) [
  | inl offset ↦ rw offset (half-IsSigned (negsuc 2) (omega arith))
  | inr other ↦ rw other tt
]

abbrev peer : Peer
peer = record {
  decoder = fresh;
  device = record { power = false; mode = 1; target = tenths (pos 180); fan = 3 };
}

abbrev actions : List (Action String)
actions =
    sync
    ∷ control_climate (record {
      target_temperature = some (tenths (pos 225));
      mode = some ClimateMode.cool;
      fan_mode = none;
    })
    ∷ control_number 3 (half (pos 29))
    ∷ report (AnyMessage.fan_speed (record { value = 3 }))
    ∷ []

run-boot_example :
    let c = configure (to_code esphome disabled) (new_component fresh) in
    (s : System String) × (s1 : System String) × (boot (λ old value. value) stored c peer ≡ some s)
    × InStep String s
    × (run (λ old value. value) actions s ≡ some s1)
    × InStep String s1
run-boot_example =
    run-boot (λ old value. value) (λ old value. refl) esphome disabled fresh stored peer actions
      refl (record { state_idle = refl; payload_empty = refl; read_zero = refl })
      (record { state_idle = refl; payload_empty = refl; read_zero = refl })
      (inr default-IsUnsigned) (λ off. absurd (unfold resolve in ground arith)) stored-Fits
      (
        tt,
        (
          record { wire = 225; fits = omega arith; is_wire = refl },
          (half-IsSigned (pos 29) (omega arith), ((omega arith, omega arith), tt)),
        ),
      )
