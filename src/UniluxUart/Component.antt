-- ===== src/UniluxUart/Component.antt =====
-- esphome/components/unilux_uart/unilux_uart.cpp: class UniluxUartComponent, which decodes what the
-- UART delivers, publishes it to the entities, and rebroadcasts their values after the start.
pub mod Receive
pub mod Sync
pub mod Setup
mod Tests
use unilux_uart.Common.{
  ℕ, zero, suc, ◌+◌, ◌≡◌, Bool, true, false, Option, none, some, List, [], ◌∷◌, ◌++◌, map,
  if◌then◌else◌, leb, ◌==◌,
}
use unilux_uart.Float.{Float}
use unilux_uart.Aup
use unilux_uart.Aup.{consume}
use unilux_uart.Messages.{AnyMessage, id_of}
use unilux_uart.UniluxUart.Send.Device.{typed_message}
use unilux_uart.UniluxUart.Climate
use unilux_uart.UniluxUart.Climate.Mirror.{reflect}
use unilux_uart.UniluxUart.Number
use unilux_uart.UniluxUart.Select

-- SYNC_REPEAT_COUNT
abbrev pub sync_repeat_count : ℕ
sync_repeat_count = 12

-- The fields of class UniluxUartComponent that change or are tested: a sensor is there or not, and
-- each select entity has its own options.
pub record Component (Name : Type 0) : Type 0 where
  pub decoder : Aup.Decoder
  pub t1_sensor : Bool
  pub t2_sensor : Bool
  pub climate : Option Climate.Climate
  pub numbers : List Number.Number
  pub selects : List (Select.SelectApi Name × Select.Select)
  pub sync_count : ℕ

-- What the component does: a sensor's `publish_state`, the calls of an entity, and the cancelling of
-- the timer
pub data Event (Name : Type 0) : Type 0 where
  publish_t1 publish_t2 : Float → Event Name
  climate_event : Climate.Event → Event Name
  number_event : ℕ → Number.Event → Event Name
  select_event : ℕ → Select.Event Name → Event Name
  cancel_interval : Event Name

-- `published` is what ESPHome's `Number::publish_state` makes of the old state and the value.
module _ {Name : Type 0} (published : Float → Float → Float) where
  -- void publish_number_(uint8_t msg_id, float value): the loop over `numbers_`
  unfoldable pub publish_number :
      ℕ → Float → List Number.Number → List Number.Number × List (Event Name)
  publish_number msg_id value [] = ([], [])
  publish_number msg_id value (n ∷ ns) =
      let (ns1, es) = publish_number msg_id value ns in
      if n.msg_id == msg_id
      then (
        Number.publish_state published value n ∷ ns1,
        number_event msg_id (Number.publish value) ∷ es,
      )
      else (n ∷ ns1, es)

  -- void publish_select_(uint8_t msg_id, uint8_t value): the loop over `selects_`
  unfoldable pub publish_select :
      ℕ
      → ℕ
      → List (Select.SelectApi Name × Select.Select)
      → List (Select.SelectApi Name × Select.Select) × List (Event Name)
  publish_select msg_id value [] = ([], [])
  publish_select msg_id value ((api, s) ∷ ss) =
      let (ss1, es) = publish_select msg_id value ss in
      let (s1, es1) = Select.publish_byte api value s in
      if s.msg_id == msg_id
      then ((api, s1) ∷ ss1, map (select_event msg_id) es1 ++ es)
      else ((api, s) ∷ ss1, es)

  -- A call on the climate entity, if there is one
  abbrev pub on_climate : Climate.Handler → Component Name → Component Name × List (Event Name)
  on_climate f c = elim c.climate [
    | none ↦ (c, [])
    | some entity ↦ (record c { climate = some (f entity).0 }, map climate_event (f entity).1)
  ]

  abbrev pub on_numbers : ℕ → Float → Component Name → Component Name × List (Event Name)
  on_numbers msg_id value c =
      let (ns, es) = publish_number msg_id value c.numbers in (record c { numbers = ns }, es)

  abbrev pub on_selects : ℕ → ℕ → Component Name → Component Name × List (Event Name)
  on_selects msg_id value c =
      let (ss, es) = publish_select msg_id value c.selects in (record c { selects = ss }, es)

  abbrev pub sensors : Float → Float → Component Name → List (Event Name)
  sensors t1 t2 c =
      (if c.t1_sensor then publish_t1 t1 ∷ [] else [])
      ++ (if c.t2_sensor then publish_t2 t2 ∷ [] else [])

  -- The visitor of `log_frame_`, without its log lines
  unfoldable pub visit : AnyMessage → Component Name → Component Name × List (Event Name)
  unfolding publish_number publish_select
  visit (AnyMessage.temperature m) c =
      let (c1, es) = on_climate (reflect (AnyMessage.temperature m)) c in
      (c1, sensors m.t1 m.t2 c ++ es)
  visit (AnyMessage.target_temperature m) c =
      on_climate (reflect (AnyMessage.target_temperature m)) c
  visit (AnyMessage.mode m) c = on_climate (reflect (AnyMessage.mode m)) c
  visit (AnyMessage.power m) c = on_climate (reflect (AnyMessage.power m)) c
  visit (AnyMessage.fan_speed m) c = on_climate (reflect (AnyMessage.fan_speed m)) c
  visit (AnyMessage.all_config m) c = (c, [])
  visit (AnyMessage.schedule m) c = (c, [])
  visit (AnyMessage.temperature_offset m) c =
      on_numbers (id_of (AnyMessage.temperature_offset m)) m.value c
  visit (AnyMessage.switching_diff_heat m) c =
      on_numbers (id_of (AnyMessage.switching_diff_heat m)) m.value c
  visit (AnyMessage.switching_diff_cool m) c =
      on_numbers (id_of (AnyMessage.switching_diff_cool m)) m.value c
  visit (AnyMessage.changeover_heat m) c =
      on_numbers (id_of (AnyMessage.changeover_heat m)) m.value c
  visit (AnyMessage.changeover_cool m) c =
      on_numbers (id_of (AnyMessage.changeover_cool m)) m.value c
  visit (AnyMessage.system_mode m) c = on_selects (id_of (AnyMessage.system_mode m)) m.value c
  visit (AnyMessage.display_unit m) c = on_selects (id_of (AnyMessage.display_unit m)) m.value c

  abbrev pub visit_typed : Option AnyMessage → Component Name → Component Name × List (Event Name)
  visit_typed none c = (c, [])
  visit_typed (some m) c = visit m c

  -- void log_frame_(const unilux::aup::Frame &frame)
  unfoldable pub log_frame : Aup.Frame → Component Name → Component Name × List (Event Name)
  log_frame frame c = visit_typed (typed_message frame) c

  abbrev pub log_completed : Option Aup.Frame → Component Name → Component Name × List (Event Name)
  log_completed none c = (c, [])
  log_completed (some frame) c = log_frame frame c

  -- void loop(), over the bytes that `available` and `read_byte` deliver
  unfoldable pub loop : List ℕ → Component Name → Component Name × List (Event Name)
  loop [] c = (c, [])
  loop (byte ∷ bytes) c =
      let (decoder, frame) = consume c.decoder byte in
      let (c1, es) = log_completed frame (record c { decoder = decoder }) in
      let (c2, es2) = loop bytes c1 in (c2, es ++ es2)

-- The calls of `sync_to_device` in `sync_iteration_`
module _ {Name : Type 0} where
  abbrev pub sync_numbers : List Number.Number → List (Event Name)
  sync_numbers [] = []
  sync_numbers (n ∷ ns) = map (number_event n.msg_id) (Number.sync_to_device n) ++ sync_numbers ns

  abbrev pub sync_selects : List (Select.SelectApi Name × Select.Select) → List (Event Name)
  sync_selects [] = []
  sync_selects ((api, s) ∷ ss) =
      map (select_event s.msg_id) (Select.sync_to_device api s) ++ sync_selects ss

  abbrev pub sync_climate : Option Climate.Climate → List (Event Name)
  sync_climate none = []
  sync_climate (some entity) = map climate_event (Climate.sync_to_device entity).1

  -- void sync_iteration_()
  unfoldable pub sync_iteration : Component Name → Component Name × List (Event Name)
  sync_iteration c =
      let count = c.sync_count + 1 in
      (
        record c { sync_count = count },
        sync_numbers c.numbers
            ++ sync_selects c.selects
            ++ sync_climate c.climate
            ++ (if leb sync_repeat_count count then cancel_interval ∷ [] else []),
      )
