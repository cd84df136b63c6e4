-- ===== src/UniluxUart/System/Answers.antt =====
-- esphome/components/unilux_uart/unilux_uart.cpp: what the component writes in answer to an action
-- brings the device in step with it.
use unilux_uart.Common.{ap, sym, ℕ, ◌≡◌, refl, ◌∙◌, true, some, List, [], ◌∷◌, ◌++◌, map, All}
use unilux_uart.Float.{Float}
use unilux_uart.Aup.{IsIdle}
use unilux_uart.Messages.{AnyMessage}
use unilux_uart.Messages.RoundTrip.{IsOnWire, IsSigned, IsUnsigned}
use unilux_uart.UniluxUart.Send.Device.{IsIdle-send_all}
use unilux_uart.UniluxUart.Climate
use unilux_uart.UniluxUart.Climate.{Climate, ClimateCall}
use unilux_uart.UniluxUart.Climate.Mirror.{
  Device, receive, receive_all, IsMirror, IsKnown, reflect, control-Mirrors, control-parent,
  reflect-parent, reflect-Mirrors,
}
use unilux_uart.UniluxUart.Component.{Component, Event, visit, climate_event}
use unilux_uart.UniluxUart.Component.Receive.{loop_lem, visit_all}
use unilux_uart.UniluxUart.System.Display.{
  display-EndsPublished, display-IsUnseen, control_number_at-IsUnseen, control_select_at-IsUnseen,
  display-append, display-visit,
}
use unilux_uart.UniluxUart.System.{
  display, Action, control_climate, control_number, control_select, report, control_number_at,
  control_select_at, respond,
}
use unilux_uart.UniluxUart.System.Effect.{Effect, Effect-nil, Effect-append, Effect-climate}
use unilux_uart.UniluxUart.System.Settings.{same, NumberFits, SelectFits}
use unilux_uart.UniluxUart.System.Control.{control_number_at-Fits, control_select_at-Fits}
use unilux_uart.UniluxUart.System.Entity.{TargetFits, control-Fits, reflect-Fits}
use unilux_uart.UniluxUart.System.Report.{visit-Visited}

-- The device is to a connected climate entity as `Is` says, the decoder waits for a frame, and what the
-- entities hold is on the wire.
pub record Holds (Name : Type 0) (Is : Device → Climate → Type 0) (c : Component Name) (d : Device)
    : Type 0 where
  pub entity : Climate
  pub here : c.climate ≡ some entity
  pub connected : entity.has_parent ≡ true
  pub target : IsUnsigned entity.target_temperature
  pub mirror : Is d entity
  pub numbers : All NumberFits c.numbers
  pub selects : All SelectFits c.selects
  pub listening : IsIdle c.decoder

module _ (Name : Type 0) (published : Float → Float → Float)
    (law : (old value : Float) → published old value ≡ value) where
  -- The component answers, holds what the device then is, and if Home Assistant showed its climate
  -- entity before, it does after.
  abbrev pub Answers : (Device → Climate → Type 0) → Action Name → Component Name → Device → Type 0
  Answers Is a c d =
      (c1 : Component Name) × (es : List (Event Name)) × (f : Device → Device) × (respond published
          a c
        ≡ some (c1, es))
      × Effect Name es f
      × Holds Name Is c1 (f d)
      × (display es c.climate ≡ c1.climate)

  pub Answers-control :
      (call : ClimateCall) (c : Component Name) (d : Device)
      → TargetFits call.target_temperature
      → Holds Name IsMirror c d
      → Answers IsMirror (control_climate call) c d
  unfolding respond
  Answers-control call c d fine h =
      let entity = Climate.control call h.entity in
      let (target, fits) = control-Fits call fine h.entity h.target in
      (
        record c { climate = some entity.0 },
        map climate_event entity.1,
        λ e. receive_all e entity.1,
        rw h.here refl,
        Effect-climate Name entity.1 fits,
        record {
          entity = entity.0;
          here = refl;
          connected = control-parent call d h.entity h.connected h.mirror;
          target = target;
          mirror = (control-Mirrors call d h.entity h.connected h.mirror).0;
          numbers = h.numbers;
          selects = h.selects;
          listening = h.listening;
        },
        display-EndsPublished Name entity c.climate
            (control-Mirrors call d h.entity h.connected h.mirror).1,
      )

  pub Answers-number :
      (k : ℕ) (v : Float) (c : Component Name) (d : Device)
      → IsSigned v
      → Holds Name IsMirror c d
      → Answers IsMirror (control_number k v) c d
  unfolding respond
  Answers-number k v c d fine h =
      let (effect, fits) = control_number_at-Fits Name published law k v c.numbers fine h.numbers in
      let (ns, es) = control_number_at published k v c.numbers in
      (
        record c { numbers = ns },
        es,
        same,
        refl,
        effect,
        record {
          entity = h.entity;
          here = h.here;
          connected = h.connected;
          target = h.target;
          mirror = h.mirror;
          numbers = fits;
          selects = h.selects;
          listening = h.listening;
        },
        display-IsUnseen Name es c.climate
            (control_number_at-IsUnseen Name published k v c.numbers),
      )

  pub Answers-select :
      (k : ℕ) (name : Name) (c : Component Name) (d : Device)
      → Holds Name IsMirror c d
      → Answers IsMirror (control_select k name) c d
  unfolding respond
  Answers-select k name c d h =
      let (effect, fits) = control_select_at-Fits Name published law k name c.selects h.selects in
      let (ss, es) = control_select_at published k name c.selects in
      (
        record c { selects = ss },
        es,
        same,
        refl,
        effect,
        record {
          entity = h.entity;
          here = h.here;
          connected = h.connected;
          target = h.target;
          mirror = h.mirror;
          numbers = h.numbers;
          selects = fits;
          listening = h.listening;
        },
        display-IsUnseen Name es c.climate
            (control_select_at-IsUnseen Name published k name c.selects),
      )

  pub Answers-report :
      (m : AnyMessage) (c : Component Name) (d : Device)
      → IsOnWire m
      → IsKnown m
      → Holds Name IsMirror c d
      → (c1 : Component Name) × (es : List (Event Name)) × (f : Device → Device) × (respond
            published
            (report m)
            c
          ≡ some (c1, es))
        × Effect Name es f
        × Holds Name IsMirror c1 (f (receive d m))
        × (display es c.climate ≡ c1.climate)
  unfolding respond
  Answers-report m c d wire known h =
      let (bytes, fs, e, written, consumed, idle, typed) =
        IsIdle-send_all c.decoder (m ∷ []) h.listening (wire, tt) in
      let (mirror, quiet, displays) = reflect-Mirrors m d h.entity known h.mirror in
      let v = visit-Visited Name published law c h.entity h.here h.numbers h.selects m wire quiet in
      let (c1, es) = visit published m c in
      (
        record c1 { decoder = e },
        es ++ [],
        same,
        rw (written, loop_lem published bytes c, consumed, typed) (unfold visit_all in refl),
        Effect-append Name same same es [] v.silent (Effect-nil Name),
        record {
          entity = (reflect m h.entity).0;
          here = v.here;
          connected = reflect-parent m h.entity ∙ h.connected;
          target = reflect-Fits m h.entity wire h.target;
          mirror = mirror;
          numbers = v.numbers;
          selects = v.selects;
          listening = idle;
        },
        ap (display (es ++ [])) h.here
            ∙ display-append Name es [] (some h.entity)
            ∙ display-visit Name published m c h.entity h.here displays
            ∙ sym v.here,
      )
