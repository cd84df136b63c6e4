-- ===== src/UniluxUart/System/Panel/Steps.antt =====
-- esphome/components/unilux_uart/unilux_uart.cpp: through calls, reports and rebroadcasts the number
-- entities show the scalar settings of the device.
use unilux_uart.Common.{
  ℕ, ◌+◌, ◌≡◌, refl, ap, ◌∙◌, Bool, true, false, Option, none, some, List, [], ◌∷◌, ◌++◌, map, All,
  if◌then◌else◌, leb,
}
use unilux_uart.Float.{Float}
use unilux_uart.Aup.{IsIdle}
use unilux_uart.UniluxUart.Number
use unilux_uart.Message.TemperatureOffset
use unilux_uart.Message.SwitchingDiffHeat
use unilux_uart.Message.SwitchingDiffCool
use unilux_uart.Message.ChangeoverHeat
use unilux_uart.Message.ChangeoverCool
use unilux_uart.Message.SystemMode
use unilux_uart.Message.DisplayUnit
use unilux_uart.Messages.{AnyMessage}
use unilux_uart.Messages.RoundTrip.{IsOnWire}
use unilux_uart.UniluxUart.Climate
use unilux_uart.UniluxUart.Climate.Mirror.{reflect}
use unilux_uart.UniluxUart.Component.{
  Component, Event, on_climate, on_numbers, sensors, visit, publish_number, climate_event,
  cancel_interval, sync_numbers, sync_selects, sync_climate, sync_iteration, sync_repeat_count,
}
use unilux_uart.UniluxUart.Component.Receive.{loop_lem, visit_all}
use unilux_uart.UniluxUart.Send.Device.{IsIdle-send_all}
use unilux_uart.UniluxUart.System.{Action, control_climate, report, sync, respond}
use unilux_uart.UniluxUart.System.Panel.{
  Panel, put, Shows, AreWired, receive_setting, receive_settings,
}
use unilux_uart.UniluxUart.System.Panel.Numbers.{after, after-append, sync_numbers-Shows}
use unilux_uart.UniluxUart.System.Panel.Calls.{publish-AreWired, publish-Shows, publish-nothing}
use unilux_uart.UniluxUart.System.Panel.Others.{
  control-Plain, after_climate, after-sync_selects, after-sync_climate, after-publish_select,
  after-on_climate, after-sensors,
}

-- The device changes a setting by itself when it reports it.
abbrev pub report_setting : {Name : Type 0} → Action Name → Panel → Panel
report_setting (report m) p = receive_setting m p
report_setting _ p = p

module _ (Name : Type 0) (published : Float → Float → Float)
    (law : (old value : Float) → published old value ≡ value) where
  -- The number entities have different ids and show the settings.
  abbrev pub Good : Panel → List Number.Number → Type 0
  Good p ns = AreWired ns × All (Shows p) ns

  pub Good-same :
      (p q : Panel) (ns ms : List Number.Number) → q ≡ p → ms ≡ ns → Good p ns → Good q ms
  Good-same p q ns ms e f h = rw (e, f) h

  -- A report that is for the climate entity alone, and one of a scalar setting
  unmoved :
      (m : AnyMessage) (c : Component Name) (p : Panel)
      → Good p c.numbers
      → let r = on_climate published (reflect m) c in Good (after Name r.1 p) r.0.numbers
  unmoved m c p h =
      let (same_numbers, same_settings) = after-on_climate Name published m c p in
      Good-same p _ c.numbers _ same_settings same_numbers h

  shown :
      (id : ℕ) (v : Float) (c : Component Name) (p : Panel)
      → Good p c.numbers
      → let r = on_numbers published id v c in Good (after Name r.1 (put id (some v) p)) r.0.numbers
  shown id v c p (wired, h) =
      let ns = c.numbers in
      let q = put id (some v) p in
      Good-same q _ (publish_number {Name = Name} published id v ns).0 _
        (ap (λ ms. receive_settings ms q) (publish-nothing Name published law id v ns)) refl
        (
          publish-AreWired Name published law id v ns wired,
          publish-Shows Name published law id v ns p h,
        )

  visit-Good :
      (m : AnyMessage) (c : Component Name) (p : Panel)
      → Good p c.numbers
      → let r = visit published m c in Good (after Name r.1 (receive_setting m p)) r.0.numbers
  unfolding visit
  visit-Good (AnyMessage.temperature m) c p h =
      let r = on_climate published (reflect (AnyMessage.temperature m)) c in
      let (same_numbers, same_settings) =
        after-on_climate Name published (AnyMessage.temperature m) c p in
      Good-same p _ c.numbers _
        (after-append Name (sensors published m.t1 m.t2 c) r.1 p
          ∙ ap (after Name r.1) (after-sensors Name published m.t1 m.t2 c p)
          ∙ same_settings)
        same_numbers h
  visit-Good (AnyMessage.target_temperature m) c p h =
      unmoved (AnyMessage.target_temperature m) c p h
  visit-Good (AnyMessage.mode m) c p h = unmoved (AnyMessage.mode m) c p h
  visit-Good (AnyMessage.power m) c p h = unmoved (AnyMessage.power m) c p h
  visit-Good (AnyMessage.fan_speed m) c p h = unmoved (AnyMessage.fan_speed m) c p h
  visit-Good (AnyMessage.all_config m) c p h = h
  visit-Good (AnyMessage.schedule m) c p h = h
  visit-Good (AnyMessage.temperature_offset m) c p h = shown TemperatureOffset.id m.value c p h
  visit-Good (AnyMessage.switching_diff_heat m) c p h = shown SwitchingDiffHeat.id m.value c p h
  visit-Good (AnyMessage.switching_diff_cool m) c p h = shown SwitchingDiffCool.id m.value c p h
  visit-Good (AnyMessage.changeover_heat m) c p h = shown ChangeoverHeat.id m.value c p h
  visit-Good (AnyMessage.changeover_cool m) c p h = shown ChangeoverCool.id m.value c p h
  visit-Good (AnyMessage.system_mode m) c p h =
      Good-same p _ c.numbers c.numbers
        (after-publish_select Name published SystemMode.id m.value c.selects p) refl h
  visit-Good (AnyMessage.display_unit m) c p h =
      Good-same p _ c.numbers c.numbers
        (after-publish_select Name published DisplayUnit.id m.value c.selects p) refl h

  -- What the component answers to an action
  abbrev pub Keeps : Action Name → Component Name → Panel → Type 0
  Keeps a c p =
      (c1 : Component Name) × (es : List (Event Name)) × (respond published a c ≡ some (c1, es))
      × IsIdle c1.decoder
      × Good (after Name es (report_setting a p)) c1.numbers

  pub control_climate-Keeps :
      (call : Climate.ClimateCall) (c : Component Name) (p : Panel)
      → IsIdle c.decoder
      → Good p c.numbers
      → Keeps (control_climate call) c p
  unfolding respond
  control_climate-Keeps call c p idle h = by_entity c.climate refl
    where
      by_entity : (o : Option Climate.Climate) → c.climate ≡ o → Keeps (control_climate call) c p
      by_entity none e = (c, [], rw e refl, idle, h)
      by_entity (some entity) e =
          let (entity1, es) = Climate.control call entity in
          (
            record c { climate = some entity1 },
            map climate_event es,
            rw e refl,
            idle,
            Good-same p _ c.numbers c.numbers (after_climate Name es p (control-Plain call entity))
                refl h,
          )

  after_end :
      (last : Bool) (p : Panel) → after Name (if last then cancel_interval ∷ [] else []) p ≡ p
  after_end true p = refl
  after_end false p = refl

  pub sync-Keeps :
      (c : Component Name) (p : Panel) → IsIdle c.decoder → Good p c.numbers → Keeps sync c p
  unfolding respond sync_iteration
  sync-Keeps c p idle (wired, h) =
      let last = leb sync_repeat_count (c.sync_count + 1) in
      let numbers = sync_numbers c.numbers in
      let selects = sync_selects c.selects in
      let entity = sync_climate {Name = Name} c.climate in
      let end = if last then cancel_interval ∷ [] else [] in
      let q = after Name numbers p in
      let all : after Name (numbers ++ selects ++ entity ++ end) p ≡ q =
        after-append Name (numbers ++ selects ++ entity) end p
        ∙ after_end last _
        ∙ after-append Name (numbers ++ selects) entity p
        ∙ after-sync_climate Name c.climate _
        ∙ after-append Name numbers selects p
        ∙ after-sync_selects Name c.selects q in
      (
        record c { sync_count = c.sync_count + 1 },
        numbers ++ selects ++ entity ++ end,
        refl,
        idle,
        Good-same q _ c.numbers c.numbers all refl
            (wired, sync_numbers-Shows Name c.numbers p wired),
      )

  pub report-Keeps :
      (m : AnyMessage) (c : Component Name) (p : Panel)
      → IsOnWire m
      → IsIdle c.decoder
      → Good p c.numbers
      → Keeps (report m) c p
  unfolding respond
  report-Keeps m c p wire idle h =
      let (bytes, fs, e, written, consumed, idle_again, typed) =
        IsIdle-send_all c.decoder (m ∷ []) idle (wire, tt) in
      let (c1, es) = visit published m c in
      (
        record c1 { decoder = e },
        es ++ [],
        rw (written, loop_lem published bytes c, consumed, typed) (unfold visit_all in refl),
        idle_again,
        Good-same (after Name es (receive_setting m p)) _ c1.numbers c1.numbers
            (after-append Name es [] (receive_setting m p)) refl (visit-Good m c p h),
      )
