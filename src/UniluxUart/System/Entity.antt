-- ===== src/UniluxUart/System/Entity.antt =====
-- esphome/components/unilux_uart/unilux_uart.cpp: what the climate entity sends is on the wire.
use unilux_uart.Common.{
  zero, suc, true, false, refl, ap, ◌≡◌, sym, subst, ◌∙◌, inl, inr, Bool-cases, arith, Option, none,
  some, List, [], ◌∷◌, All, All-append,
}
use unilux_uart.Float.Tenths.{nearest, tenths-nearest}
use unilux_uart.Float.{Float, isnan}
use unilux_uart.Common.Int.{ℤ, pos, negsuc}
use unilux_uart.Messages.{AnyMessage}
use unilux_uart.Messages.RoundTrip.{IsOnWire, IsUnsigned}
use unilux_uart.UniluxUart.Climate.Traits.{zero-IsUnsigned}
use unilux_uart.UniluxUart.Modes.{ClimateMode, ClimateFanMode, climate_mode_to_device}
use unilux_uart.UniluxUart.Climate.{
  Climate, Event, send, publish, publish_restored, combined_mode, Handler, ◌>>◌, ClimateCall,
  control, control_target, control_mode, control_power, control_fan, publish_state, sync_to_device,
  publish_current_temperature, publish_target_temperature, publish_mode, publish_power,
  publish_fan_speed,
}
use unilux_uart.UniluxUart.Climate.Mirror.{
  reflect, IsQuiet, Device, Matches, IsMirror, receive_all, sync_to_device-Mirrors,
}
use unilux_uart.UniluxUart.System.Effect.{SendFits}

-- A target that the wire carries, if there is one
abbrev pub TargetFits : Option Float → Type 0
TargetFits none = Unit
TargetFits (some t) = IsUnsigned t

-- A handler that keeps such a target and sends only what the wire carries
abbrev pub Fits : Handler → Type 0
Fits f =
    (c : Climate)
    → IsUnsigned c.target_temperature
    → IsUnsigned (f c).0.target_temperature × All SendFits (f c).1

pub Fits->> : (f g : Handler) → Fits f → Fits g → Fits (f >> g)
Fits->> f g hf hg c h =
    let (h1, s1) = hf c h in
    let (h2, s2) = hg (f c).0 h1 in (h2, All-append SendFits (f c).1 (g (f c).0).1 s1 s2)

control_target-Fits : (t : Option Float) → TargetFits t → Fits (control_target t)
unfolding control_target
control_target-Fits t fits c h = ground (arith, zero-IsUnsigned)

control_mode-Fits : (mode : Option ClimateMode) → Fits (control_mode mode)
unfolding control_mode control_power
control_mode-Fits mode c h = ground arith

control_fan-Fits : (mode : Option ClimateFanMode) → Fits (control_fan mode)
unfolding control_fan
control_fan-Fits mode c h = ground arith

pub publish_state-Fits : Fits publish_state
publish_state-Fits c h = (h, (tt, tt))

pub control-Fits : (call : ClimateCall) → TargetFits call.target_temperature → Fits (control call)
unfolding control
control-Fits call fits =
    let t = call.target_temperature in
    let m = call.mode in
    let f = call.fan_mode in
    let fan = Fits->> (control_fan f) publish_state (control_fan-Fits f) publish_state-Fits in
    let mode =
      Fits->> (control_mode m) (control_fan f >> publish_state) (control_mode-Fits m) fan in
    Fits->> (control_target t) (control_mode m >> control_fan f >> publish_state)
      (control_target-Fits t fits) mode

pub sync_to_device-Fits : Fits sync_to_device
unfolding sync_to_device
sync_to_device-Fits c h = ground (arith, zero-IsUnsigned)

-- A report only publishes, and a reported target is one that the wire carries.
pub IsQuiet-Fits : (es : List Event) → IsQuiet es → All SendFits es
IsQuiet-Fits [] h = tt
IsQuiet-Fits (send m ∷ es) h = absurd h
IsQuiet-Fits (publish c ∷ es) h = (tt, IsQuiet-Fits es h)
IsQuiet-Fits (publish_restored c ∷ es) h = (tt, IsQuiet-Fits es h)

pub reflect-Fits :
    (m : AnyMessage) (c : Climate)
    → IsOnWire m
    → IsUnsigned c.target_temperature
    → IsUnsigned (reflect m c).0.target_temperature
unfolding publish_mode publish_power publish_fan_speed publish_target_temperature
    publish_current_temperature
reflect-Fits (AnyMessage.target_temperature m) c wire h = wire.0
reflect-Fits (AnyMessage.mode m) c wire h = ground arith
reflect-Fits (AnyMessage.fan_speed m) c wire h = ground arith
reflect-Fits _ c wire h = h

-- A rebroadcast to a device that is in step leaves it so.
pub sync_to_device-IsMirror :
    (d : Device) (c : Climate) → IsMirror d c → IsMirror (receive_all d (sync_to_device c).1) c
sync_to_device-IsMirror d c h = elim (sync_to_device-Mirrors d c).1 [
  | inl (parent, number, power, target, fan, on, off) ↦ record {
    power = power;
    mode = elim (Bool-cases c.power_on) [ inl t ↦ on t | inr f ↦ off f ∙ h.mode ];
    target = target;
    fan = fan;
    shown = h.shown;
  }
  | inr (cause, nothing) ↦ subst (λ es. IsMirror (receive_all d es) c) (sym nothing) h
]

is_number : (z : ℤ) → isnan (nearest z) ≡ false
is_number (pos zero) = refl
is_number (pos (suc n)) = refl
is_number (negsuc n) = refl

pub IsUnsigned-isnan : (x : Float) → IsUnsigned x → isnan x ≡ false
IsUnsigned-isnan x h =
    ap isnan (h.is_wire ∙ tenths-nearest (pos h.wire) h.fits) ∙ is_number (pos h.wire)

-- A rebroadcast of a connected entity with a target makes the device match it, a device that is off in
-- the entity's mode already.
pub sync_to_device-shows :
    (d : Device) (c : Climate)
    → c.has_parent ≡ true
    → IsUnsigned c.target_temperature
    → (c.power_on ≡ false → d.mode ≡ climate_mode_to_device c.active_mode)
    → Matches (receive_all d (sync_to_device c).1) c
sync_to_device-shows d c parent target off_mode =
    let number = IsUnsigned-isnan c.target_temperature target in
    elim (sync_to_device-Mirrors d c).1 [
      | inl (p, n, power, goal, fan, on, off) ↦ record {
        power = power;
        mode = elim (Bool-cases c.power_on) [ inl t ↦ on t | inr f ↦ off f ∙ off_mode f ];
        target = goal;
        fan = fan;
      }
      | inr (inl no_parent, nothing) ↦ absurd (ground arith)
      | inr (inr no_number, nothing) ↦ absurd (ground arith)
    ]

pub Matches-IsMirror :
    (d : Device) (c : Climate) → Matches d c → c.mode ≡ combined_mode c → IsMirror d c
Matches-IsMirror d c h shown = record {
  power = h.power;
  mode = h.mode;
  target = h.target;
  fan = h.fan;
  shown = shown;
}
