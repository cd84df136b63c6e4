-- ===== src/UniluxUart/System/Display.antt =====
-- esphome/components/unilux_uart/unilux_uart.cpp: what Home Assistant shows of the climate entity.
use unilux_uart.Common.{
  ℕ, zero, suc, ◌≡◌, refl, ap, ◌∙◌, Bool, true, false, Bool-cases, inl, inr, Option, some, List, [],
  ◌∷◌, ◌++◌, map, All, All-append, if◌then◌else◌, ◌==◌, arith,
}
use unilux_uart.Float.{Float}
use unilux_uart.Messages.{AnyMessage}
use unilux_uart.UniluxUart.Climate
use unilux_uart.UniluxUart.Climate.{Climate, Event as ClimateEvent, Handler, sync_to_device}
use unilux_uart.UniluxUart.Climate.Mirror.{reflect, EndsPublished, Displays}
use unilux_uart.UniluxUart.Number
use unilux_uart.UniluxUart.Select
use unilux_uart.UniluxUart.Component.{
  Component, Event, climate_event, number_event, select_event, publish_t1, publish_t2,
  cancel_interval, publish_number, publish_select, sensors, visit, sync_numbers, sync_selects,
}
use unilux_uart.UniluxUart.System.{display, control_number_at, control_select_at}

-- A call that publishes nothing of the climate entity
abbrev pub IsUnseen : {Name : Type 0} → Event Name → Type 0
IsUnseen (climate_event (Climate.publish c)) = ⊥
IsUnseen (climate_event (Climate.publish_restored c)) = ⊥
IsUnseen _ = Unit

module _ (Name : Type 0) where
  pub display-IsUnseen :
      (es : List (Event Name)) (shown : Option Climate) → All IsUnseen es → display es shown ≡ shown
  display-IsUnseen [] shown h = refl
  display-IsUnseen (climate_event (Climate.send m) ∷ es) shown (h, hs) =
      display-IsUnseen es shown hs
  display-IsUnseen (climate_event (Climate.publish c) ∷ es) shown (h, hs) = absurd h
  display-IsUnseen (climate_event (Climate.publish_restored c) ∷ es) shown (h, hs) = absurd h
  display-IsUnseen (number_event id e ∷ es) shown (h, hs) = display-IsUnseen es shown hs
  display-IsUnseen (select_event id e ∷ es) shown (h, hs) = display-IsUnseen es shown hs
  display-IsUnseen (publish_t1 x ∷ es) shown (h, hs) = display-IsUnseen es shown hs
  display-IsUnseen (publish_t2 x ∷ es) shown (h, hs) = display-IsUnseen es shown hs
  display-IsUnseen (cancel_interval ∷ es) shown (h, hs) = display-IsUnseen es shown hs

  pub display-append :
      (es fs : List (Event Name)) (shown : Option Climate)
      → display (es ++ fs) shown ≡ display fs (display es shown)
  display-append [] fs shown = refl
  display-append (climate_event (Climate.send m) ∷ es) fs shown = display-append es fs shown
  display-append (climate_event (Climate.publish c) ∷ es) fs shown = display-append es fs (some c)
  display-append (climate_event (Climate.publish_restored c) ∷ es) fs shown =
      display-append es fs (some c)
  display-append (number_event id e ∷ es) fs shown = display-append es fs shown
  display-append (select_event id e ∷ es) fs shown = display-append es fs shown
  display-append (publish_t1 x ∷ es) fs shown = display-append es fs shown
  display-append (publish_t2 x ∷ es) fs shown = display-append es fs shown
  display-append (cancel_interval ∷ es) fs shown = display-append es fs shown

  -- The last publication counts.
  pub display-last :
      (es : List ClimateEvent) (c : Climate) (shown : Option Climate)
      → display {Name = Name} (map climate_event (es ++ ClimateEvent.publish c ∷ [])) shown ≡ some c
  display-last [] c shown = refl
  display-last (ClimateEvent.send m ∷ es) c shown = display-last es c shown
  display-last (ClimateEvent.publish e ∷ es) c shown = display-last es c (some e)
  display-last (ClimateEvent.publish_restored e ∷ es) c shown = display-last es c (some e)

  pub display-EndsPublished :
      (r : Climate × List ClimateEvent) (shown : Option Climate)
      → EndsPublished r
      → display {Name = Name} (map climate_event r.1) shown ≡ some r.0
  display-EndsPublished r shown (start, e) =
      ap (λ es. display {Name = Name} (map climate_event es) shown) e ∙ display-last start r.0 shown

  -- The entity's answer to a message from the device
  pub display-reflect :
      (m : AnyMessage) (entity : Climate)
      → Displays m entity (reflect m entity)
      → display {Name = Name} (map climate_event (reflect m entity).1) (some entity)
        ≡ some (reflect m entity).0
  display-reflect (AnyMessage.temperature m) entity h = rw h.1 refl
  display-reflect (AnyMessage.target_temperature m) entity h = rw h refl
  display-reflect (AnyMessage.mode m) entity h = rw h refl
  display-reflect (AnyMessage.power m) entity h = rw h refl
  display-reflect (AnyMessage.fan_speed m) entity h = rw h refl
  display-reflect _ entity h = refl

  pub numbers-IsUnseen :
      (id : ℕ) (es : List Number.Event) → All (IsUnseen {Name = Name}) (map (number_event id) es)
  numbers-IsUnseen id [] = tt
  numbers-IsUnseen id (e ∷ es) = (tt, numbers-IsUnseen id es)

  pub selects-IsUnseen :
      (id : ℕ) (es : List (Select.Event Name)) → All IsUnseen (map (select_event id) es)
  selects-IsUnseen id [] = tt
  selects-IsUnseen id (e ∷ es) = (tt, selects-IsUnseen id es)

  pub sync_numbers-IsUnseen :
      (ns : List Number.Number) → All IsUnseen (sync_numbers {Name = Name} ns)
  sync_numbers-IsUnseen [] = tt
  sync_numbers-IsUnseen (n ∷ ns) =
      let es = Number.sync_to_device n in
      All-append IsUnseen (map (number_event n.msg_id) es) (sync_numbers ns)
        (numbers-IsUnseen n.msg_id es) (sync_numbers-IsUnseen ns)

  pub sync_selects-IsUnseen :
      (ss : List (Select.SelectApi Name × Select.Select)) → All IsUnseen (sync_selects ss)
  sync_selects-IsUnseen [] = tt
  sync_selects-IsUnseen ((api, s) ∷ ss) =
      let es = Select.sync_to_device api s in
      All-append IsUnseen (map (select_event s.msg_id) es) (sync_selects ss)
        (selects-IsUnseen s.msg_id es) (sync_selects-IsUnseen ss)

  pub sync_to_device-IsUnseen :
      (entity : Climate)
      → All (IsUnseen {Name = Name}) (map climate_event (sync_to_device entity).1)
  unfolding sync_to_device
  sync_to_device-IsUnseen entity = ground arith

module _ (Name : Type 0) (published : Float → Float → Float) where
  pub control_number_at-IsUnseen :
      (k : ℕ) (v : Float) (ns : List Number.Number)
      → All IsUnseen (control_number_at {Name = Name} published k v ns).1
  unfolding control_number_at
  control_number_at-IsUnseen k v [] = tt
  control_number_at-IsUnseen zero v (n ∷ ns) =
      numbers-IsUnseen Name n.msg_id (Number.control published v n).1
  control_number_at-IsUnseen (suc k) v (n ∷ ns) = control_number_at-IsUnseen k v ns

  pub control_select_at-IsUnseen :
      (k : ℕ) (name : Name) (ss : List (Select.SelectApi Name × Select.Select))
      → All IsUnseen (control_select_at published k name ss).1
  unfolding control_select_at
  control_select_at-IsUnseen k name [] = tt
  control_select_at-IsUnseen zero name ((api, s) ∷ ss) =
      selects-IsUnseen Name s.msg_id (Select.control api name s).1
  control_select_at-IsUnseen (suc k) name ((api, s) ∷ ss) = control_select_at-IsUnseen k name ss

  publish_number-IsUnseen :
      (id : ℕ) (v : Float) (ns : List Number.Number)
      → All IsUnseen (publish_number {Name = Name} published id v ns).1
  unfolding publish_number
  publish_number-IsUnseen id v [] = tt
  publish_number-IsUnseen id v (n ∷ ns) = elim (Bool-cases (n.msg_id == id)) [
    | inl own ↦ rw own (tt, publish_number-IsUnseen id v ns)
    | inr other ↦ rw other (publish_number-IsUnseen id v ns)
  ]

  publish_select-IsUnseen :
      (id value : ℕ) (ss : List (Select.SelectApi Name × Select.Select))
      → All IsUnseen (publish_select published id value ss).1
  unfolding publish_select
  publish_select-IsUnseen id value [] = tt
  publish_select-IsUnseen id value ((api, s) ∷ ss) =
      let es = (Select.publish_byte api value s).1 in
      let rest = publish_select-IsUnseen id value ss in
      elim (Bool-cases (s.msg_id == id)) [
        | inl own ↦ rw own (
            All-append IsUnseen (map (select_event id) es) (publish_select published id value ss).1
              (selects-IsUnseen Name id es) rest)
        | inr other ↦ rw other rest
      ]

  sensors-IsUnseen : (x y : Float) (c : Component Name) → All IsUnseen (sensors published x y c)
  sensors-IsUnseen x y c = by_tests c.t1_sensor c.t2_sensor
    where
      by_tests :
          (s t : Bool)
          → All
              (IsUnseen {Name = Name})
              ((if s then publish_t1 x ∷ [] else []) ++ (if t then publish_t2 y ∷ [] else []))
      by_tests true true = (tt, (tt, tt))
      by_tests true false = (tt, tt)
      by_tests false true = (tt, tt)
      by_tests false false = tt

  -- Home Assistant shows the entity after a report, if it did before.
  pub display-visit :
      (m : AnyMessage) (c : Component Name) (entity : Climate)
      → c.climate ≡ some entity
      → Displays m entity (reflect m entity)
      → display (visit published m c).1 (some entity) ≡ some (reflect m entity).0
  unfolding visit
  display-visit (AnyMessage.temperature m) c entity here h =
      let es = map climate_event (reflect (AnyMessage.temperature m) entity).1 in
      let first = sensors published m.t1 m.t2 c in
      rw here (
        display-append Name first es (some entity)
        ∙ ap (display es) (display-IsUnseen Name first (some entity) (sensors-IsUnseen m.t1 m.t2 c))
        ∙ display-reflect Name (AnyMessage.temperature m) entity h)
  display-visit (AnyMessage.target_temperature m) c entity here h =
      rw here (display-reflect Name (AnyMessage.target_temperature m) entity h)
  display-visit (AnyMessage.mode m) c entity here h =
      rw here (display-reflect Name (AnyMessage.mode m) entity h)
  display-visit (AnyMessage.power m) c entity here h =
      rw here (display-reflect Name (AnyMessage.power m) entity h)
  display-visit (AnyMessage.fan_speed m) c entity here h =
      rw here (display-reflect Name (AnyMessage.fan_speed m) entity h)
  display-visit (AnyMessage.all_config m) c entity here h = refl
  display-visit (AnyMessage.schedule m) c entity here h = refl
  display-visit (AnyMessage.temperature_offset m) c entity here h =
      display-IsUnseen Name _ (some entity) (publish_number-IsUnseen _ m.value c.numbers)
  display-visit (AnyMessage.switching_diff_heat m) c entity here h =
      display-IsUnseen Name _ (some entity) (publish_number-IsUnseen _ m.value c.numbers)
  display-visit (AnyMessage.switching_diff_cool m) c entity here h =
      display-IsUnseen Name _ (some entity) (publish_number-IsUnseen _ m.value c.numbers)
  display-visit (AnyMessage.changeover_heat m) c entity here h =
      display-IsUnseen Name _ (some entity) (publish_number-IsUnseen _ m.value c.numbers)
  display-visit (AnyMessage.changeover_cool m) c entity here h =
      display-IsUnseen Name _ (some entity) (publish_number-IsUnseen _ m.value c.numbers)
  display-visit (AnyMessage.system_mode m) c entity here h =
      display-IsUnseen Name _ (some entity) (publish_select-IsUnseen _ m.value c.selects)
  display-visit (AnyMessage.display_unit m) c entity here h =
      display-IsUnseen Name _ (some entity) (publish_select-IsUnseen _ m.value c.selects)
