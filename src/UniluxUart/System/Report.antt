-- ===== src/UniluxUart/System/Report.antt =====
-- esphome/components/unilux_uart/unilux_uart.cpp: the component visits a message that the device
-- reports. It writes nothing, and what its entities hold stays on the wire.
use unilux_uart.Common.{
  ℕ, ◌+◌, ◌≡◌, refl, Bool, true, false, inl, inr, Bool-cases, Option, none, some, List, [], ◌∷◌,
  map, All, if◌then◌else◌, ◌==◌,
}
use unilux_uart.Float.{Float}
use unilux_uart.Messages.{AnyMessage}
use unilux_uart.Messages.RoundTrip.{IsOnWire, IsSigned}
use unilux_uart.UniluxUart.Climate
use unilux_uart.UniluxUart.Climate.{Climate, Handler}
use unilux_uart.UniluxUart.Climate.Mirror.{reflect, IsQuiet}
use unilux_uart.UniluxUart.Number
use unilux_uart.UniluxUart.Select
use unilux_uart.UniluxUart.Component.{
  Component, Event, publish_t1, publish_t2, climate_event, number_event, select_event,
  publish_number, publish_select, on_climate, on_numbers, on_selects, sensors, visit,
}
use unilux_uart.UniluxUart.System.Effect.{
  Does-nothing, Effect, Effect-nil, Effect-cons, Effect-append,
}
use unilux_uart.UniluxUart.System.Settings.{same, NumberFits, SelectFits}

module _ (Name : Type 0) where
  Effect-quiet : (es : List Climate.Event) → IsQuiet es → Effect Name (map climate_event es) same
  Effect-quiet [] h = Effect-nil Name
  Effect-quiet (Climate.send m ∷ es) h = absurd h
  Effect-quiet (Climate.publish c ∷ es) h =
      Effect-cons Name same same (climate_event (Climate.publish c)) (map climate_event es)
        Does-nothing (Effect-quiet es h)
  Effect-quiet (Climate.publish_restored c ∷ es) h =
      Effect-cons Name same same (climate_event (Climate.publish_restored c)) (map climate_event es)
        Does-nothing (Effect-quiet es h)

  Effect-t1 : (t : Bool) (x : Float) → Effect Name (if t then publish_t1 x ∷ [] else []) same
  Effect-t1 true x = Effect-cons Name same same (publish_t1 x) [] Does-nothing (Effect-nil Name)
  Effect-t1 false x = Effect-nil Name

  Effect-t2 : (t : Bool) (x : Float) → Effect Name (if t then publish_t2 x ∷ [] else []) same
  Effect-t2 true x = Effect-cons Name same same (publish_t2 x) [] Does-nothing (Effect-nil Name)
  Effect-t2 false x = Effect-nil Name

module _ (Name : Type 0) (published : Float → Float → Float)
    (law : (old value : Float) → published old value ≡ value) where
  Effect-sensors : (x y : Float) (c : Component Name) → Effect Name (sensors published x y c) same
  Effect-sensors x y c =
      Effect-append Name same same (if c.t1_sensor then publish_t1 x ∷ [] else [])
        (if c.t2_sensor then publish_t2 y ∷ [] else []) (Effect-t1 Name c.t1_sensor x)
        (Effect-t2 Name c.t2_sensor y)

  publish_number-Fits :
      (id : ℕ) (v : Float) (ns : List Number.Number)
      → IsSigned v
      → All NumberFits ns
      → let r = publish_number {Name = Name} published id v ns in
        All NumberFits r.0 × Effect Name r.1 same
  unfolding publish_number
  publish_number-Fits id v [] h fits = (tt, Effect-nil Name)
  publish_number-Fits id v (n ∷ ns) h (fit, fits) =
      let (rest, effect) = publish_number-Fits id v ns h fits in
      elim (Bool-cases (n.msg_id == id)) [
        | inl own ↦ rw own (
          (rw (law n.state v) (inr h), rest),
          Effect-cons Name same same (number_event id (Number.publish v)) _ Does-nothing effect,
        )
        | inr other ↦ rw other ((fit, rest), effect)
      ]

  -- A select entity that publishes writes nothing.
  option_quiet :
      (id : ℕ) (api : Select.SelectApi Name) (option : Option Name) (s : Select.Select)
      → SelectFits (api, s)
      → let r = Select.publish_option api option s in
        SelectFits (api, r.0) × Effect Name (map (select_event id) r.1) same
  option_quiet id api none s fit = (fit, Effect-nil Name)
  option_quiet id api (some name) s fit = (
    fit,
    Effect-cons Name same same (select_event id (Select.publish name)) [] Does-nothing
        (Effect-nil Name),
  )

  select_quiet :
      (bytes : List ℕ) (id : ℕ) (api : Select.SelectApi Name) (i value : ℕ) (s : Select.Select)
      → SelectFits (api, s)
      → let r = Select.publish_from api bytes i value s in
        SelectFits (api, r.0) × Effect Name (map (select_event id) r.1) same
  unfolding Select.publish_from
  select_quiet [] id api i value s fit = (fit, Effect-nil Name)
  select_quiet (byte ∷ bytes) id api i value s fit = elim (Bool-cases (byte == value)) [
    | inl hit ↦ rw hit (option_quiet id api (api.at i) s fit)
    | inr miss ↦ rw miss (select_quiet bytes id api (i + 1) value s fit)
  ]

  publish_select-Fits :
      (id value : ℕ) (ss : List (Select.SelectApi Name × Select.Select))
      → All SelectFits ss
      → let r = publish_select published id value ss in All SelectFits r.0 × Effect Name r.1 same
  unfolding publish_select Select.publish_byte
  publish_select-Fits id value [] fits = (tt, Effect-nil Name)
  publish_select-Fits id value ((api, s) ∷ ss) (fit, fits) =
      let (rest, effect) = publish_select-Fits id value ss fits in
      let (kept, quiet) = select_quiet s.option_bytes id api 0 value s fit in
      let (s1, es) = Select.publish_from api s.option_bytes 0 value s in
      elim (Bool-cases (s.msg_id == id)) [
        | inl own ↦ rw own (
          (kept, rest),
          Effect-append Name same same (map (select_event id) es)
              (publish_select published id value ss).1 quiet effect,
        )
        | inr other ↦ rw other ((fit, rest), effect)
      ]

  -- After a visit the climate entity is `entity`, nothing is written, and the settings fit.
  pub record Visited (r : Component Name × List (Event Name)) (entity : Climate) : Type 0 where
    pub here : r.0.climate ≡ some entity
    pub silent : Effect Name r.1 same
    pub numbers : All NumberFits r.0.numbers
    pub selects : All SelectFits r.0.selects

  module _ (c : Component Name) (entity : Climate) (here : c.climate ≡ some entity)
      (numbers : All NumberFits c.numbers) (selects : All SelectFits c.selects) where
    -- A message for the climate entity
    climate-Visited :
        (f : Handler) → IsQuiet (f entity).1 → Visited (on_climate published f c) (f entity).0
    climate-Visited f quiet = record {
      here = rw here refl;
      silent = rw here (Effect-quiet Name (f entity).1 quiet);
      numbers = rw here numbers;
      selects = rw here selects;
    }

    number-Visited :
        (id : ℕ) (v : Float) → IsSigned v → Visited (on_numbers published id v c) entity
    number-Visited id v h =
        let (fit, effect) = publish_number-Fits id v c.numbers h numbers in
        record { here = here; silent = effect; numbers = fit; selects = selects }

    select-Visited : (id v : ℕ) → Visited (on_selects published id v c) entity
    select-Visited id v =
        let (fit, effect) = publish_select-Fits id v c.selects selects in
        record { here = here; silent = effect; numbers = numbers; selects = fit }

    pub visit-Visited :
        (m : AnyMessage)
        → IsOnWire m
        → IsQuiet (reflect m entity).1
        → Visited (visit published m c) (reflect m entity).0
    unfolding visit
    visit-Visited (AnyMessage.temperature m) wire quiet =
        let r = climate-Visited (reflect (AnyMessage.temperature m)) quiet in
        record {
          here = r.here;
          silent =
              Effect-append Name same same (sensors published m.t1 m.t2 c) _
                (Effect-sensors m.t1 m.t2 c) r.silent;
          numbers = r.numbers;
          selects = r.selects;
        }
    visit-Visited (AnyMessage.target_temperature m) wire quiet =
        climate-Visited (reflect (AnyMessage.target_temperature m)) quiet
    visit-Visited (AnyMessage.mode m) wire quiet =
        climate-Visited (reflect (AnyMessage.mode m)) quiet
    visit-Visited (AnyMessage.power m) wire quiet =
        climate-Visited (reflect (AnyMessage.power m)) quiet
    visit-Visited (AnyMessage.fan_speed m) wire quiet =
        climate-Visited (reflect (AnyMessage.fan_speed m)) quiet
    visit-Visited (AnyMessage.all_config m) wire quiet = record {
      here = here;
      silent = Effect-nil Name;
      numbers = numbers;
      selects = selects;
    }
    visit-Visited (AnyMessage.schedule m) wire quiet = record {
      here = here;
      silent = Effect-nil Name;
      numbers = numbers;
      selects = selects;
    }
    visit-Visited (AnyMessage.temperature_offset m) wire quiet = number-Visited _ m.value wire
    visit-Visited (AnyMessage.switching_diff_heat m) wire quiet = number-Visited _ m.value wire
    visit-Visited (AnyMessage.switching_diff_cool m) wire quiet = number-Visited _ m.value wire
    visit-Visited (AnyMessage.changeover_heat m) wire quiet = number-Visited _ m.value wire
    visit-Visited (AnyMessage.changeover_cool m) wire quiet = number-Visited _ m.value wire
    visit-Visited (AnyMessage.system_mode m) wire quiet = select-Visited _ m.value
    visit-Visited (AnyMessage.display_unit m) wire quiet = select-Visited _ m.value
