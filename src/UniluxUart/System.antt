-- ===== src/UniluxUart/System.antt =====
-- esphome/components/unilux_uart/unilux_uart.cpp: the component, the UART, and a device at the other
-- end that runs the same decoders on what it receives.
pub mod Effect
pub mod Transcript
pub mod Settings
pub mod Control
pub mod Entity
pub mod Display
pub mod Report
pub mod Answers
pub mod Sync
pub mod Heal
pub mod InStep
pub mod Panel
pub mod Boot
mod Tests
use unilux_uart.Common.{ℕ, zero, suc, Option, none, some, List, [], ◌∷◌, ◌++◌, map, ◌>>=◌}
use unilux_uart.Float.{Float}
use unilux_uart.Aup
use unilux_uart.Aup.{consume_all}
use unilux_uart.Messages.{AnyMessage}
use unilux_uart.UniluxUart.Send.{
  send_message, send_temperature_setting, send_byte_setting, send_all,
}
use unilux_uart.UniluxUart.Send.Device.{typed_message}
use unilux_uart.UniluxUart.Climate
use unilux_uart.UniluxUart.Climate.Mirror.{Device, receive}
use unilux_uart.UniluxUart.Number
use unilux_uart.UniluxUart.Select
use unilux_uart.UniluxUart.Component.{
  Component, Event, climate_event, number_event, select_event, on_climate, loop, sync_iteration,
}

-- The device: its decoder, and what the climate's messages have set
pub record Peer : Type 0 where
  pub decoder : Aup.Decoder
  pub device : Device

abbrev pub receive_typed : List (Option AnyMessage) → Device → Device
receive_typed [] d = d
receive_typed (none ∷ ms) d = receive_typed ms d
receive_typed (some m ∷ ms) d = receive_typed ms (receive d m)

-- The device after bytes from the component
unfoldable pub deliver : List ℕ → Peer → Peer
deliver bytes p =
    let (decoder, frames) = consume_all p.decoder bytes in
    record { decoder = decoder; device = receive_typed (map typed_message frames) p.device }

-- The bytes that a call writes to the UART; `none` is an undefined cast.
abbrev pub written : {Name : Type 0} → Event Name → Option (List ℕ)
written (climate_event (Climate.send m)) = send_message m
written (number_event id (Number.setting msg_id value)) = send_temperature_setting msg_id value
written (select_event id (Select.setting msg_id value)) = send_byte_setting msg_id value
written _ = some []

-- Bytes behind bytes
abbrev pub written_both : Option (List ℕ) → Option (List ℕ) → Option (List ℕ)
written_both out more = do xs ← out; ys ← more; some (xs ++ ys)

unfoldable pub written_all : {Name : Type 0} → List (Event Name) → Option (List ℕ)
written_all [] = some []
written_all (e ∷ es) = written_both (written e) (written_all es)

-- What Home Assistant shows of the climate entity after calls: what was published last
abbrev pub display :
    {Name : Type 0} → List (Event Name) → Option Climate.Climate → Option Climate.Climate
display [] shown = shown
display (climate_event (Climate.publish c) ∷ es) shown = display es (some c)
display (climate_event (Climate.publish_restored c) ∷ es) shown = display es (some c)
display (_ ∷ es) shown = display es shown

pub record System (Name : Type 0) : Type 0 where
  pub component : Component Name
  pub peer : Peer
  pub frontend : Option Climate.Climate

-- A call from Home Assistant on the climate entity, on the number or the select entity at a place of
-- its list, a change at the device that it reports, or a round of the timer
pub data Action (Name : Type 0) : Type 0 where
  control_climate : Climate.ClimateCall → Action Name
  control_number : ℕ → Float → Action Name
  control_select : ℕ → Name → Action Name
  report : AnyMessage → Action Name
  sync : Action Name

module _ {Name : Type 0} (published : Float → Float → Float) where
  unfoldable pub control_number_at :
      ℕ → Float → List Number.Number → List Number.Number × List (Event Name)
  control_number_at k value [] = ([], [])
  control_number_at zero value (n ∷ ns) =
      let (n1, es) = Number.control published value n in (n1 ∷ ns, map (number_event n.msg_id) es)
  control_number_at (suc k) value (n ∷ ns) =
      let (ns1, es) = control_number_at k value ns in (n ∷ ns1, es)

  unfoldable pub control_select_at :
      ℕ
      → Name
      → List (Select.SelectApi Name × Select.Select)
      → List (Select.SelectApi Name × Select.Select) × List (Event Name)
  control_select_at k value [] = ([], [])
  control_select_at zero value ((api, s) ∷ ss) =
      let (s1, es) = Select.control api value s in ((api, s1) ∷ ss, map (select_event s.msg_id) es)
  control_select_at (suc k) value ((api, s) ∷ ss) =
      let (ss1, es) = control_select_at k value ss in ((api, s) ∷ ss1, es)

  -- What the component does
  unfoldable pub respond :
      Action Name → Component Name → Option (Component Name × List (Event Name))
  unfolding control_number_at control_select_at
  respond (control_climate call) c = some (on_climate published (Climate.control call) c)
  respond (control_number k value) c =
      let (ns, es) = control_number_at k value c.numbers in some (record c { numbers = ns }, es)
  respond (control_select k value) c =
      let (ss, es) = control_select_at k value c.selects in some (record c { selects = ss }, es)
  respond (report m) c = do bytes ← send_all (m ∷ []); some (loop published bytes c)
  respond sync c = some (sync_iteration c)

  -- What the device does by itself
  abbrev pub change : Action Name → Peer → Peer
  change (report m) p = record p { device = receive p.device m }
  change _ p = p

  -- An action, and the delivery of what the component then writes
  unfoldable pub act : Action Name → System Name → Option (System Name)
  act a s = do
    (c, es) ← respond a s.component
    bytes ← written_all es
    some (record {
      component = c;
      peer = deliver bytes (change a s.peer);
      frontend = display es s.frontend;
    })

  unfoldable pub run : List (Action Name) → System Name → Option (System Name)
  run [] s = some s
  run (a ∷ rest) s = do s1 ← act a s; run rest s1
