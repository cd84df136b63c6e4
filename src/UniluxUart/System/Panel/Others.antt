-- ===== src/UniluxUart/System/Panel/Others.antt =====
-- esphome/components/unilux_uart/unilux_uart.cpp: what has nothing to do with the scalar settings of the
-- device.
use unilux_uart.Common.{
  ℕ, zero, suc, ◌≡◌, refl, ap, ◌∙◌, arith, Bool, true, false, Bool-cases, inl, inr, Option, none,
  some, List, [], ◌∷◌, ◌++◌, map, All, All-append, if◌then◌else◌, ◌==◌,
}
use unilux_uart.Float.{Float}
use unilux_uart.Message.SystemMode
use unilux_uart.Message.DisplayUnit
use unilux_uart.Messages.{AnyMessage}
use unilux_uart.UniluxUart.Send.Settings.{scalar_of}
use unilux_uart.UniluxUart.Modes.{ClimateMode, ClimateFanMode}
use unilux_uart.UniluxUart.Climate
use unilux_uart.UniluxUart.Climate.{
  Climate, Handler, ◌>>◌, ClimateCall, control, control_target, control_mode, control_power,
  control_fan, publish_state, sync_to_device, publish_current_temperature,
  publish_target_temperature, publish_mode, publish_power, publish_fan_speed,
}
use unilux_uart.UniluxUart.Climate.Mirror.{reflect, IsQuiet}
use unilux_uart.UniluxUart.Select
use unilux_uart.UniluxUart.Component.{
  Component, climate_event, select_event, publish_t1, publish_t2, publish_select, on_climate,
  sync_selects, sync_climate, sensors,
}
use unilux_uart.UniluxUart.System.{control_select_at}
use unilux_uart.UniluxUart.System.Transcript.{byte_messages, messages_all}
use unilux_uart.UniluxUart.System.Panel.{Panel, receive_settings, receive_settings-append}
use unilux_uart.UniluxUart.System.Panel.Numbers.{after, after-append}

-- A call that sends no scalar setting
abbrev pub IsPlain : Climate.Event → Type 0
IsPlain (Climate.send m) = scalar_of m ≡ none
IsPlain (Climate.publish c) = Unit
IsPlain (Climate.publish_restored c) = Unit

abbrev Plain : Handler → Type 0
Plain f = (c : Climate) → All IsPlain (f c).1

Plain->> : (f g : Handler) → Plain f → Plain g → Plain (f >> g)
Plain->> f g hf hg c = All-append IsPlain (f c).1 (g (f c).0).1 (hf c) (hg (f c).0)

control_target-Plain : (t : Option Float) → Plain (control_target t)
unfolding control_target
control_target-Plain t c = ground arith

control_mode-Plain : (mode : Option ClimateMode) → Plain (control_mode mode)
unfolding control_mode control_power
control_mode-Plain mode c = ground arith

control_fan-Plain : (mode : Option ClimateFanMode) → Plain (control_fan mode)
unfolding control_fan
control_fan-Plain mode c = ground arith

pub control-Plain : (call : ClimateCall) (c : Climate) → All IsPlain (control call c).1
unfolding control
control-Plain call =
    let t = call.target_temperature in
    let m = call.mode in
    let f = call.fan_mode in
    let fan = Plain->> (control_fan f) publish_state (control_fan-Plain f) (λ c. (tt, tt)) in
    let mode =
      Plain->> (control_mode m) (control_fan f >> publish_state) (control_mode-Plain m) fan in
    Plain->> (control_target t) (control_mode m >> control_fan f >> publish_state)
      (control_target-Plain t) mode

pub sync_to_device-Plain : (c : Climate) → All IsPlain (sync_to_device c).1
unfolding sync_to_device
sync_to_device-Plain c = ground arith

pub reflect-IsQuiet : (m : AnyMessage) (c : Climate) → IsQuiet (reflect m c).1
unfolding publish_mode publish_power publish_fan_speed publish_target_temperature
    publish_current_temperature
reflect-IsQuiet (AnyMessage.mode m) c = ground arith
reflect-IsQuiet (AnyMessage.fan_speed m) c = ground arith
reflect-IsQuiet (AnyMessage.temperature m) c = tt
reflect-IsQuiet (AnyMessage.target_temperature m) c = tt
reflect-IsQuiet (AnyMessage.power m) c = tt
reflect-IsQuiet _ c = tt

receive-byte_messages : (id b : ℕ) (p : Panel) → receive_settings (byte_messages id b) p ≡ p
unfolding byte_messages
receive-byte_messages id b p = elim (Bool-cases (id == SystemMode.id)) [
  | inl mode ↦ rw mode refl
  | inr other ↦ elim (Bool-cases (id == DisplayUnit.id)) [
    | inl unit ↦ rw (other, unit) refl
    | inr unknown ↦ rw (other, unknown) refl
  ]
]

module _ (Name : Type 0) where
  pub after_climate :
      (es : List Climate.Event) (p : Panel)
      → All IsPlain es
      → after Name (map climate_event es) p ≡ p
  after_climate [] p h = refl
  after_climate (Climate.send m ∷ es) p (h, hs) = rw h (after_climate es p hs)
  after_climate (Climate.publish c ∷ es) p (h, hs) = after_climate es p hs
  after_climate (Climate.publish_restored c ∷ es) p (h, hs) = after_climate es p hs

  pub IsQuiet-IsPlain : (es : List Climate.Event) → IsQuiet es → All IsPlain es
  IsQuiet-IsPlain [] h = tt
  IsQuiet-IsPlain (Climate.send m ∷ es) h = absurd h
  IsQuiet-IsPlain (Climate.publish c ∷ es) h = (tt, IsQuiet-IsPlain es h)
  IsQuiet-IsPlain (Climate.publish_restored c ∷ es) h = (tt, IsQuiet-IsPlain es h)

  -- A select entity sends bytes.
  pub after_select :
      (id : ℕ) (es : List (Select.Event Name)) (p : Panel)
      → after Name (map (select_event id) es) p ≡ p
  after_select id [] p = refl
  after_select id (Select.setting msg_id b ∷ es) p =
      receive_settings-append (byte_messages msg_id b)
        (messages_all {Name = Name} (map (select_event id) es)) p
      ∙ ap (after Name (map (select_event id) es)) (receive-byte_messages msg_id b p)
      ∙ after_select id es p
  after_select id (Select.publish_at i ∷ es) p = after_select id es p
  after_select id (Select.publish name ∷ es) p = after_select id es p
  after_select id (Select.save i ∷ es) p = after_select id es p

  pub after-sync_selects :
      (ss : List (Select.SelectApi Name × Select.Select)) (p : Panel)
      → after Name (sync_selects ss) p ≡ p
  after-sync_selects [] p = refl
  after-sync_selects ((api, s) ∷ ss) p =
      let es = Select.sync_to_device api s in
      after-append Name (map (select_event s.msg_id) es) (sync_selects ss) p
      ∙ ap (after Name (sync_selects ss)) (after_select s.msg_id es p)
      ∙ after-sync_selects ss p

  pub after-sync_climate : (o : Option Climate) (p : Panel) → after Name (sync_climate o) p ≡ p
  after-sync_climate none p = refl
  after-sync_climate (some entity) p =
      after_climate (sync_to_device entity).1 p (sync_to_device-Plain entity)

module _ (Name : Type 0) (published : Float → Float → Float) where
  pub after-control_select :
      (k : ℕ) (name : Name) (ss : List (Select.SelectApi Name × Select.Select)) (p : Panel)
      → after Name (control_select_at published k name ss).1 p ≡ p
  unfolding control_select_at
  after-control_select k name [] p = refl
  after-control_select zero name ((api, s) ∷ ss) p =
      after_select Name s.msg_id (Select.control api name s).1 p
  after-control_select (suc k) name ((api, s) ∷ ss) p = after-control_select k name ss p

  pub after-publish_select :
      (id value : ℕ) (ss : List (Select.SelectApi Name × Select.Select)) (p : Panel)
      → after Name (publish_select published id value ss).1 p ≡ p
  unfolding publish_select
  after-publish_select id value [] p = refl
  after-publish_select id value ((api, s) ∷ ss) p =
      let es = (Select.publish_byte api value s).1 in
      let more = (publish_select published id value ss).1 in
      elim (Bool-cases (s.msg_id == id)) [
        | inl own ↦ rw own (
            after-append Name (map (select_event id) es) more p
            ∙ ap (after Name more) (after_select Name id es p)
            ∙ after-publish_select id value ss p)
        | inr other ↦ rw other (after-publish_select id value ss p)
      ]

  -- A report for the climate entity, and the sensors
  pub after-on_climate :
      (m : AnyMessage) (c : Component Name) (p : Panel)
      → ((on_climate published (reflect m) c).0.numbers ≡ c.numbers)
        × (after Name (on_climate published (reflect m) c).1 p ≡ p)
  after-on_climate m c p = by_entity c.climate refl
    where
      by_entity :
          (o : Option Climate)
          → c.climate ≡ o
          → ((on_climate published (reflect m) c).0.numbers ≡ c.numbers)
            × (after Name (on_climate published (reflect m) c).1 p ≡ p)
      by_entity none e = rw e (refl, refl)
      by_entity (some entity) e =
          let es = (reflect m entity).1 in
          rw e (refl, after_climate Name es p (IsQuiet-IsPlain Name es (reflect-IsQuiet m entity)))

  pub after-sensors :
      (x y : Float) (c : Component Name) (p : Panel) → after Name (sensors published x y c) p ≡ p
  after-sensors x y c p = by_tests c.t1_sensor c.t2_sensor
    where
      by_tests :
          (s t : Bool)
          → after Name
              ((if s then publish_t1 x ∷ [] else []) ++ (if t then publish_t2 y ∷ [] else []))
              p
            ≡ p
      by_tests true true = refl
      by_tests true false = refl
      by_tests false true = refl
      by_tests false false = refl
