-- ===== src/UniluxUart/Climate/Run.antt =====
-- esphome/components/unilux_uart/unilux_uart.cpp: whatever calls the climate entity gets, what it
-- publishes is consistent.
use unilux_uart.Common.{
  ◌≡◌, refl, ◌∙◌, subst, arith, Bool, true, Option, none, some, List, ◌++◌, All, All-append,
}
use unilux_uart.Float.{Float}
use unilux_uart.Message.Mode
use unilux_uart.Message.FanSpeed
use unilux_uart.UniluxUart.Modes.{
  ClimateMode, ClimateFanMode, device_mode_to_climate, is_active_mode,
}
use unilux_uart.UniluxUart.Climate.{
  Climate, Inherited, initial, Event, send, publish, publish_restored, Handler, applied, ◌>>◌,
  combined_mode, ClimateCall, setup, resolve, control, control_target, control_mode, control_power,
  control_fan, publish_state, sync_to_device, publish_current_temperature,
  publish_target_temperature, publish_mode, publish_power, publish_fan_speed,
}

abbrev HasFan : Option ClimateFanMode → Type 0
HasFan none = ⊥
HasFan (some mode) = Unit

-- The published mode is off, or else the active mode, which the device has; and there is a fan mode.
pub record IsConsistent (c : Climate) : Type 0 where
  pub combined : c.mode ≡ combined_mode c
  pub active : is_active_mode c.active_mode ≡ true
  pub has_fan : HasFan c.fan_mode

-- Nothing is sent without a parent, and the entity publishes itself only when it is consistent. What
-- the `apply` of a restored state publishes is the restored state, whatever that is.
abbrev pub IsFine : Bool → Event → Type 0
IsFine has_parent (send m) = has_parent ≡ true
IsFine has_parent (publish c) = IsConsistent c
IsFine has_parent (publish_restored c) = Unit

-- A handler that keeps all this
abbrev Keeps : Handler → Type 0
Keeps f =
    (c : Climate)
    → IsConsistent c
    → IsConsistent (f c).0 × ((f c).0.has_parent ≡ c.has_parent) × All (IsFine c.has_parent) (f c).1

Keeps->> : (f g : Handler) → Keeps f → Keeps g → Keeps (f >> g)
Keeps->> f g hf hg c h =
    let (h1, p1, e1) = hf c h in
    let (h2, p2, e2) = hg (f c).0 h1 in
    (
      h2,
      p2 ∙ p1,
      All-append (IsFine c.has_parent) (f c).1 (g (f c).0).1 e1
          (subst (λ (p : Bool). All (IsFine p) (g (f c).0).1) p1 e2),
    )

control_target-Keeps : (t : Option Float) → Keeps (control_target t)
unfolding control_target
control_target-Keeps t c h = ground (arith, h.combined, h.active, h.has_fan)

control_mode-Keeps : (mode : Option ClimateMode) → Keeps (control_mode mode)
unfolding control_mode control_power
control_mode-Keeps mode c h = ground (arith, h.combined, h.active, h.has_fan)

control_fan-Keeps : (mode : Option ClimateFanMode) → Keeps (control_fan mode)
unfolding control_fan
control_fan-Keeps mode c h = ground (arith, h.combined, h.active, h.has_fan)

publish_state-Keeps : Keeps publish_state
publish_state-Keeps c h = (h, refl, (h, tt))

control-Keeps : (call : ClimateCall) → Keeps (control call)
unfolding control
control-Keeps call =
    let t = call.target_temperature in
    let m = call.mode in
    let f = call.fan_mode in
    let fan = Keeps->> (control_fan f) publish_state (control_fan-Keeps f) publish_state-Keeps in
    let mode =
      Keeps->> (control_mode m) (control_fan f >> publish_state) (control_mode-Keeps m) fan in
    Keeps->> (control_target t) (control_mode m >> control_fan f >> publish_state)
      (control_target-Keeps t) mode

sync_to_device-Keeps : Keeps sync_to_device
unfolding sync_to_device
sync_to_device-Keeps c h = ground (arith, h.combined, h.active, h.has_fan)

publish_mode-Keeps : (value : Mode.Value) → Keeps (publish_mode value)
unfolding publish_mode device_mode_to_climate
publish_mode-Keeps value c h = ground (arith, h.combined, h.active, h.has_fan)

publish_fan_speed-Keeps : (value : FanSpeed.Value) → Keeps (publish_fan_speed value)
unfolding publish_fan_speed
publish_fan_speed-Keeps value c h = ground (arith, h.combined, h.active, h.has_fan)

resolve-IsConsistent :
    (restore : Option (Inherited → Inherited)) (has_parent : Bool) (i : Inherited)
    → IsConsistent (resolve restore (initial has_parent i))
      × ((resolve restore (initial has_parent i)).has_parent ≡ has_parent)
unfolding resolve
resolve-IsConsistent none has_parent i = ground arith
resolve-IsConsistent (some apply) has_parent i = ground arith

-- A call that the entity gets once it is set up
pub data Call : Type 0 where
  control_call : ClimateCall → Call
  current_temperature_call : Float → Call
  target_temperature_call : Float → Call
  mode_call : Mode.Value → Call
  power_call : Bool → Call
  fan_speed_call : FanSpeed.Value → Call
  sync_call : Call

abbrev pub handler : Call → Handler
handler (control_call call) = control call
handler (current_temperature_call t) = publish_current_temperature t
handler (target_temperature_call t) = publish_target_temperature t
handler (mode_call value) = publish_mode value
handler (power_call on) = publish_power on
handler (fan_speed_call value) = publish_fan_speed value
handler sync_call = sync_to_device

-- The entities that a constructed one becomes, each with all it has sent and published.
pub data Run (has_parent : Bool) : Climate → List Event → Type 0 where
  started :
      (restore : Option (Inherited → Inherited)) (i : Inherited)
      → Run has_parent
          (setup restore (initial has_parent i)).0
          (setup restore (initial has_parent i)).1
  called :
      {c : Climate} {es : List Event} (call : Call)
      → Run has_parent c es
      → Run has_parent (handler call c).0 (es ++ (handler call c).1)

handler-Keeps : (call : Call) → Keeps (handler call)
unfolding publish_current_temperature publish_target_temperature publish_power
handler-Keeps (control_call call) c h = control-Keeps call c h
handler-Keeps (current_temperature_call t) c h = ground (arith, h.combined, h.active, h.has_fan)
handler-Keeps (target_temperature_call t) c h = ground (arith, h.combined, h.active, h.has_fan)
handler-Keeps (mode_call value) c h = publish_mode-Keeps value c h
handler-Keeps (power_call on) c h = ground (arith, h.combined, h.active, h.has_fan)
handler-Keeps (fan_speed_call value) c h = publish_fan_speed-Keeps value c h
handler-Keeps sync_call c h = sync_to_device-Keeps c h

applied-IsFine :
    (p : Bool) (restore : Option (Inherited → Inherited)) (c : Climate)
    → All (IsFine p) (applied restore c)
applied-IsFine p none c = tt
applied-IsFine p (some apply) c = (tt, tt)

setup-Keeps :
    (restore : Option (Inherited → Inherited)) (p : Bool) (i : Inherited)
    → let r = setup restore (initial p i) in
      IsConsistent r.0 × (r.0.has_parent ≡ p) × All (IsFine p) r.1
unfolding setup
setup-Keeps restore p i =
    let (h, same) = resolve-IsConsistent restore p i in
    let (h1, same1, fine) =
      Keeps->> sync_to_device publish_state sync_to_device-Keeps publish_state-Keeps
        (resolve restore (initial p i)) h in
    let es = ((sync_to_device >> publish_state) (resolve restore (initial p i))).1 in
    let fine_all = subst (λ (q : Bool). All (IsFine q) es) same fine in
    (
      h1,
      same1 ∙ same,
      All-append (IsFine p) (applied restore (initial p i)) es
          (applied-IsFine p restore (initial p i)) fine_all,
    )

-- Whatever was restored and whatever calls the entity gets after `setup`, its mode is off or the
-- active mode by its power state, the active mode is one that the device has, a fan mode is set, so
-- it is in all that the entity publishes on the way (the restored state's `apply` publishes that state
-- as it is), and messages are sent only when there is a parent.
pub Run-IsConsistent :
    (has_parent : Bool) (c : Climate) (es : List Event)
    → Run has_parent c es
    → IsConsistent c × (c.has_parent ≡ has_parent) × All (IsFine has_parent) es
Run-IsConsistent p _ _ (started restore i) = setup-Keeps restore p i
Run-IsConsistent p _ _ (called {c = c} {es = es} call run) =
    let (h, same, fine) = Run-IsConsistent p c es run in
    let (h1, same1, fine1) = handler-Keeps call c h in
    (
      h1,
      same1 ∙ same,
      All-append (IsFine p) es (handler call c).1 fine
          (subst (λ (q : Bool). All (IsFine q) (handler call c).1) same fine1),
    )
