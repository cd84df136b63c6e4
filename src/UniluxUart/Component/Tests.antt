-- ===== src/UniluxUart/Component/Tests.antt =====
-- esphome/components/unilux_uart/unilux_uart.cpp: a component with a number entity and a sensor.
use unilux_uart.Common.{
  ℕ, ◌^◌, ◌≡◌, refl, arith, true, false, none, some, List, [], ◌∷◌, ◌++◌, map, replicate,
}
use unilux_uart.Common.Int.{pos, negsuc}
use unilux_uart.Float.{Float, nan, finite}
use unilux_uart.Float.Tenths.{tenths}
use unilux_uart.Aup.Run.{fresh}
use unilux_uart.Aup
use unilux_uart.Messages.{AnyMessage}
use unilux_uart.UniluxUart.Number
use unilux_uart.UniluxUart.Number.{setup-control}
use unilux_uart.UniluxUart.Send.{send_all}
use unilux_uart.UniluxUart.Component.{Component, loop}
use unilux_uart.UniluxUart.Component.Receive.{visit_all, with_decoder, loop-send_all}
use unilux_uart.UniluxUart.Component.Setup.{
  Setter, number, t1_sensor, configure, new_component, setup, ticks, ticks-setup,
}
use unilux_uart.UniluxUart.Component.Sync.{cancels, rounds}

-- `Number::publish_state` stores what it is given.
abbrev published : Float → Float → Float
published old value = value

abbrev calibration : Number.Number
calibration = record { has_parent = true; msg_id = 0x56; initial_value = nan; state = nan }

abbrev chosen : Float
chosen = finite true (2 ^ 148)

setup-control_example :
    let controlled = Number.control published chosen calibration in
    let restarted =
      Number.setup published
        (Number.saved none controlled.1)
        (record calibration { state = nan }) in
    (Number.settings controlled.1 ≡ (0x56, chosen) ∷ [])
    × (controlled.0.state ≡ chosen)
    × (restarted.0.state ≡ chosen)
    × (Number.settings restarted.1 ≡ (0x56, chosen) ∷ [])
    × (Number.settings (Number.sync_to_device restarted.0) ≡ (0x56, chosen) ∷ [])
setup-control_example =
    setup-control published (λ old value. refl) calibration none chosen nan refl refl

abbrev component : Component ℕ
component = record {
  decoder = fresh;
  t1_sensor = true;
  t2_sensor = false;
  climate = none;
  numbers = calibration ∷ [];
  selects = [];
  sync_count = 0;
}

abbrev broadcast : List AnyMessage
broadcast =
    AnyMessage.temperature (record { t1 = tenths (pos 215); t2 = tenths (pos 0) })
    ∷ AnyMessage.temperature_offset (record { value = tenths (negsuc 4) })
    ∷ []

loop-send_all_example :
    (bytes : List ℕ) × (send_all broadcast ≡ some bytes)
    × (d : Aup.Decoder) × (loop published bytes component
        ≡ with_decoder published d (visit_all published (map some broadcast) component))
loop-send_all_example =
    loop-send_all published component broadcast
      (record { state_idle = refl; payload_empty = refl; read_zero = refl })
      (
        (
          record { wire = 215; fits = omega arith; is_wire = refl },
          record { wire = 0; fits = omega arith; is_wire = refl },
        ),
        (record { wire = negsuc 4; fits = omega arith; is_wire = refl }, tt),
      )

-- A sensor and the calibration setting, and a thirteenth period
abbrev calls : List (Setter ℕ)
calls = t1_sensor ∷ number calibration ∷ []

ticks-setup_example :
    let c = configure calls (new_component fresh) in
    (ticks 13 (setup c) ≡ (
      record { component = record c { sync_count = 12 }; interval = none },
      (rounds 12 c).1 ++ [] ∷ [],
    ))
    × (map cancels (rounds 12 c).1 ≡ replicate 11 false ++ true ∷ [])
    × ((setup c).interval ≡ some 5000)
ticks-setup_example = ticks-setup ℕ fresh calls 1
