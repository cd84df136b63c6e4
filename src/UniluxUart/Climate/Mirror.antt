-- ===== src/UniluxUart/Climate/Mirror.antt =====
-- esphome/components/unilux_uart/unilux_uart.cpp: the climate entity and the device stay in step. The
-- device is described by what its messages set.
use unilux_uart.Common.{
  ◌≤◌, ◌⊎◌, ◌≡◌, refl, sym, ap, ◌∙◌, subst, append_assoc, arith, Bool, true, false, Option, none,
  some, List, [], ◌∷◌, ◌++◌,
}
use unilux_uart.Float.{Float, isnan}
use unilux_uart.Message.Mode
use unilux_uart.Message.FanSpeed
use unilux_uart.Messages.{AnyMessage}
use unilux_uart.UniluxUart.Modes.{
  ClimateMode, ClimateFanMode, device_mode_to_climate, device_fan_to_climate,
  climate_mode_to_device, climate_fan_to_device,
}
use unilux_uart.UniluxUart.Climate.{
  Climate, Inherited, applied, Event, send, publish, publish_restored, combined_mode, Handler, ◌>>◌,
  ClimateCall, control, control_target, control_mode, control_power, control_fan, publish_state,
  sync_to_device, publish_current_temperature, publish_target_temperature, publish_mode,
  publish_power, publish_fan_speed,
}

-- What the climate's messages set on the device
pub record Device : Type 0 where
  pub power : Bool
  pub mode : Mode.Value
  pub target : Float
  pub fan : FanSpeed.Value

abbrev pub receive : Device → AnyMessage → Device
receive d (AnyMessage.target_temperature m) = record d { target = m.t1 }
receive d (AnyMessage.power m) = record d { power = m.on }
receive d (AnyMessage.mode m) = record d { mode = m.value }
receive d (AnyMessage.fan_speed m) = record d { fan = m.value }
receive d m = d

-- The device after the messages among the events
abbrev pub receive_event : Device → Event → Device
receive_event d (send m) = receive d m
receive_event d (publish c) = d
receive_event d (publish_restored c) = d

abbrev pub receive_all : Device → List Event → Device
receive_all d [] = d
receive_all d (e ∷ es) = receive_all (receive_event d e) es

abbrev pub FanMirrors : Option ClimateFanMode → FanSpeed.Value → Type 0
FanMirrors none fan = Unit
FanMirrors (some mode) fan = fan ≡ climate_fan_to_device mode

-- The device is in the power state and the mode that the entity remembers, with its target and fan
-- mode.
pub record Matches (d : Device) (c : Climate) : Type 0 where
  pub power : d.power ≡ c.power_on
  pub mode : d.mode ≡ climate_mode_to_device c.active_mode
  pub target : d.target ≡ c.target_temperature
  pub fan : FanMirrors c.fan_mode d.fan

-- Besides, the entity's `mode` is off, or the device's mode when that is on.
pub record IsMirror (d : Device) (c : Climate) : Type 0 where
  pub power : d.power ≡ c.power_on
  pub mode : d.mode ≡ climate_mode_to_device c.active_mode
  pub target : d.target ≡ c.target_temperature
  pub fan : FanMirrors c.fan_mode d.fan
  pub shown : c.mode ≡ combined_mode c

pub receive_all-append :
    (es fs : List Event) (d : Device) → receive_all d (es ++ fs) ≡ receive_all (receive_all d es) fs
receive_all-append [] fs d = refl
receive_all-append (e ∷ es) fs d = receive_all-append es fs (receive_event d e)

-- What the restored state publishes does not reach the device.
pub receive_all-applied :
    (restore : Option (Inherited → Inherited)) (c : Climate) (es : List Event) (d : Device)
    → receive_all d (applied restore c ++ es) ≡ receive_all d es
receive_all-applied none c es d = refl
receive_all-applied (some apply) c es d = refl

-- The last event publishes the entity as it then is.
abbrev pub EndsPublished : Climate × List Event → Type 0
EndsPublished (c, es) = (start : List Event) × (es ≡ start ++ publish c ∷ [])

EndsPublished->> :
    (f g : Handler) (c : Climate) → EndsPublished (g (f c).0) → EndsPublished ((f >> g) c)
EndsPublished->> f g c (start, e) =
    let es = (f c).1 in
    (es ++ start, ap (λ t. es ++ t) e ∙ sym (append_assoc es start (publish (g (f c).0).0 ∷ [])))

control-EndsPublished : (call : ClimateCall) (c : Climate) → EndsPublished (control call c)
unfolding control
control-EndsPublished call c =
    let t = control_target call.target_temperature in
    let m = control_mode call.mode in
    let f = control_fan call.fan_mode in
    let c1 = (t c).0 in
    EndsPublished->> t (m >> f >> publish_state) c (
      EndsPublished->> m (f >> publish_state) c1
        (EndsPublished->> f publish_state (m c1).0 ([], refl)))

-- A handler that keeps a connected entity and the device in step
abbrev Mirrors : Handler → Type 0
Mirrors f =
    (d : Device) (c : Climate)
    → c.has_parent ≡ true
    → IsMirror d c
    → ((f c).0.has_parent ≡ true) × IsMirror (receive_all d (f c).1) (f c).0

Mirrors->> : (f g : Handler) → Mirrors f → Mirrors g → Mirrors (f >> g)
Mirrors->> f g hf hg d c p h =
    let (p1, h1) = hf d c p h in
    let (p2, h2) = hg (receive_all d (f c).1) (f c).0 p1 h1 in
    (
      p2,
      subst (λ (e : Device). IsMirror e (g (f c).0).0)
          (sym (receive_all-append (f c).1 (g (f c).0).1 d)) h2,
    )

control_target-Mirrors : (t : Option Float) → Mirrors (control_target t)
unfolding control_target
control_target-Mirrors t d c p h = ground (arith, h.power, h.mode, h.target, h.fan, h.shown)

control_mode-Mirrors : (mode : Option ClimateMode) → Mirrors (control_mode mode)
unfolding control_mode control_power
control_mode-Mirrors mode d c p h = ground (arith, h.power, h.mode, h.target, h.fan, h.shown)

control_fan-Mirrors : (mode : Option ClimateFanMode) → Mirrors (control_fan mode)
unfolding control_fan
control_fan-Mirrors mode d c p h = ground (arith, h.power, h.mode, h.target, h.fan, h.shown)

publish_state-Mirrors : Mirrors publish_state
publish_state-Mirrors d c p h = (p, h)

control-Mirrors_both : (call : ClimateCall) → Mirrors (control call)
unfolding control
control-Mirrors_both call =
    let t = call.target_temperature in
    let m = call.mode in
    let f = call.fan_mode in
    let fan =
      Mirrors->> (control_fan f) publish_state (control_fan-Mirrors f) publish_state-Mirrors in
    let mode =
      Mirrors->> (control_mode m) (control_fan f >> publish_state) (control_mode-Mirrors m) fan in
    Mirrors->> (control_target t) (control_mode m >> control_fan f >> publish_state)
      (control_target-Mirrors t) mode

-- If a connected entity and the device are in step, a call from Home Assistant sends the device what
-- makes it match the entity afterwards in power state, active mode, target temperature and fan speed.
-- The entity's `mode` is then off or the device's mode by the power state, and the last thing that the
-- call does is to publish the entity as it then is.
pub control-Mirrors :
    (call : ClimateCall) (d : Device) (c : Climate)
    → c.has_parent ≡ true
    → IsMirror d c
    → IsMirror (receive_all d (control call c).1) (control call c).0
      × EndsPublished (control call c)
control-Mirrors call d c p h = ((control-Mirrors_both call d c p h).1, control-EndsPublished call c)

pub control-parent :
    (call : ClimateCall) (d : Device) (c : Climate)
    → c.has_parent ≡ true
    → IsMirror d c
    → (control call c).0.has_parent ≡ true
control-parent call d c p h = (control-Mirrors_both call d c p h).0

-- What `log_frame_` calls on the climate entity for a message from the device
abbrev pub reflect : AnyMessage → Handler
reflect (AnyMessage.temperature m) = publish_current_temperature m.t1
reflect (AnyMessage.target_temperature m) = publish_target_temperature m.t1
reflect (AnyMessage.mode m) = publish_mode m.value
reflect (AnyMessage.power m) = publish_power m.on
reflect (AnyMessage.fan_speed m) = publish_fan_speed m.value
reflect m = λ c. (c, [])

pub reflect-parent : (m : AnyMessage) (c : Climate) → (reflect m c).0.has_parent ≡ c.has_parent
unfolding publish_mode publish_power publish_fan_speed publish_target_temperature
    publish_current_temperature
reflect-parent (AnyMessage.mode m) c = ground arith
reflect-parent (AnyMessage.fan_speed m) c = ground arith
reflect-parent (AnyMessage.temperature m) c = refl
reflect-parent (AnyMessage.target_temperature m) c = refl
reflect-parent (AnyMessage.power m) c = refl
reflect-parent _ c = refl

-- The modes and fan speeds that have a name
abbrev pub IsKnown : AnyMessage → Type 0
IsKnown (AnyMessage.mode m) = m.value ≤ Mode.auto
IsKnown (AnyMessage.fan_speed m) = m.value ≤ FanSpeed.off
IsKnown m = Unit

-- Nothing is sent.
abbrev pub IsQuiet : List Event → Type 0
IsQuiet [] = Unit
IsQuiet (send m ∷ es) = ⊥
IsQuiet (publish c ∷ es) = IsQuiet es
IsQuiet (publish_restored c ∷ es) = IsQuiet es

-- A message for the climate entity makes it publish once, as it then is. Another does nothing.
abbrev pub Displays : AnyMessage → Climate → Climate × List Event → Type 0
Displays (AnyMessage.temperature m) c (c1, es) =
    (c1.current_temperature ≡ m.t1) × (es ≡ publish c1 ∷ [])
Displays (AnyMessage.target_temperature m) c (c1, es) = es ≡ publish c1 ∷ []
Displays (AnyMessage.mode m) c (c1, es) = es ≡ publish c1 ∷ []
Displays (AnyMessage.power m) c (c1, es) = es ≡ publish c1 ∷ []
Displays (AnyMessage.fan_speed m) c (c1, es) = es ≡ publish c1 ∷ []
Displays m c (c1, es) = (c1 ≡ c) × (es ≡ [])

-- If a device that is in step with the entity changes and reports it, with a mode or fan speed that
-- has a name if it reports one, they are in step again, the entity's `mode` included, and the entity
-- sends nothing. It publishes itself once, as it then is, a room temperature with the reported value;
-- for a message that is not for the climate entity it does not change and does not publish.
pub reflect-Mirrors :
    (m : AnyMessage) (d : Device) (c : Climate)
    → IsKnown m
    → IsMirror d c
    → IsMirror (receive d m) (reflect m c).0 × IsQuiet (reflect m c).1 × Displays m c (reflect m c)
unfolding publish_mode publish_power publish_fan_speed publish_target_temperature
    publish_current_temperature device_mode_to_climate device_fan_to_climate
reflect-Mirrors (AnyMessage.mode m) d c k h =
    ground (arith, h.power, h.mode, h.target, h.fan, h.shown)
reflect-Mirrors (AnyMessage.fan_speed m) d c k h =
    ground (arith, h.power, h.mode, h.target, h.fan, h.shown)
reflect-Mirrors (AnyMessage.power m) d c k h =
    ground (arith, h.power, h.mode, h.target, h.fan, h.shown)
reflect-Mirrors (AnyMessage.temperature m) d c k h =
    ground (arith, h.power, h.mode, h.target, h.fan, h.shown)
reflect-Mirrors (AnyMessage.target_temperature m) d c k h =
    ground (arith, h.power, h.mode, h.target, h.fan, h.shown)
reflect-Mirrors _ d c k h = (h, tt, (refl, refl))

-- `sync_to_device` brings a device in any state to the power state, target temperature and fan speed
-- of a connected entity with a target, and to its mode when it is on. An entity without a parent or
-- without a target sends nothing. The entity does not change.
pub sync_to_device-Mirrors :
    (d : Device) (c : Climate)
    → ((sync_to_device c).0 ≡ c)
      × (let e = receive_all d (sync_to_device c).1 in
          ((c.has_parent ≡ true)
            × (isnan c.target_temperature ≡ false)
            × (e.power ≡ c.power_on)
            × (e.target ≡ c.target_temperature)
            × FanMirrors c.fan_mode e.fan
            × (c.power_on ≡ true → e.mode ≡ climate_mode_to_device c.active_mode)
            × (c.power_on ≡ false → e.mode ≡ d.mode))
          ⊎ (((c.has_parent ≡ false) ⊎ (isnan c.target_temperature ≡ true))
              × ((sync_to_device c).1 ≡ [])))
unfolding sync_to_device
sync_to_device-Mirrors d c = ground arith
