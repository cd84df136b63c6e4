-- ===== src/UniluxUart/Climate/Boot.antt =====
-- esphome/components/unilux_uart/unilux_uart.cpp: a climate entity that is restored as off is turned
-- on.
use unilux_uart.Common.{
  ℕ, zero, suc, ◌≡◌, refl, ap, ◌∙◌, arith, true, false, none, some, [], ◌++◌, if◌then◌else◌,
}
use unilux_uart.UniluxUart.Modes.{ClimateMode, same_mode, is_active_mode, climate_mode_to_device}
use unilux_uart.UniluxUart.Climate.{
  Climate, Inherited, applied, initial, Handler, ◌>>◌, ClimateCall, setup, resolve, control,
  control_target, control_mode, control_power, control_fan, publish_state, sync_to_device,
}
use unilux_uart.UniluxUart.Climate.Mirror.{Device, receive_all, receive_all-append}

-- Rounds of the rebroadcast
abbrev pub sync_rounds : ℕ → Handler
sync_rounds zero c = (c, [])
sync_rounds (suc k) c = (sync_to_device >> sync_rounds k) c

-- A connected entity that is off and remembers no other mode than heat
record IsOff (c : Climate) : Type 0 where
  connected : c.has_parent ≡ true
  off : c.power_on ≡ false
  heat : c.active_mode ≡ ClimateMode.heat

-- A handler that keeps it so and sends no mode
StaysOff : Handler → Type 0
StaysOff f =
    (d : Device) (c : Climate) → IsOff c → IsOff (f c).0 × ((receive_all d (f c).1).mode ≡ d.mode)

StaysOff->> : (f g : Handler) → StaysOff f → StaysOff g → StaysOff (f >> g)
unfolding StaysOff
StaysOff->> f g hf hg d c h =
    let (h1, e1) = hf d c h in
    let (h2, e2) = hg (receive_all d (f c).1) (f c).0 h1 in
    (h2, ap (λ (e : Device). e.mode) (receive_all-append (f c).1 (g (f c).0).1 d) ∙ e2 ∙ e1)

sync-StaysOff : StaysOff sync_to_device
unfolding StaysOff sync_to_device
sync-StaysOff d c h = ground (arith, h.connected, h.off, h.heat)

rounds-StaysOff : (k : ℕ) → StaysOff (sync_rounds k)
unfolding StaysOff
rounds-StaysOff zero d c h = (h, refl)
rounds-StaysOff (suc k) d c h =
    StaysOff->> sync_to_device (sync_rounds k) sync-StaysOff (rounds-StaysOff k) d c h

publish_state-StaysOff : StaysOff publish_state
unfolding StaysOff
publish_state-StaysOff d c h = (h, refl)

resolve-IsOff :
    (apply : Inherited → Inherited) (i : Inherited)
    → (apply i).mode ≡ ClimateMode.off
    → IsOff (resolve (some apply) (initial true i))
unfolding resolve
resolve-IsOff apply i h = ground arith

-- A call for nothing but a mode
abbrev pub mode_call : ClimateMode → ClimateCall
mode_call requested = record { target_temperature = none; mode = some requested; fan_mode = none }

-- The device's mode after such a call, from its mode before
abbrev pub mode_sent : ClimateMode → ℕ → ℕ
mode_sent requested mode =
    if same_mode requested ClimateMode.heat then mode else climate_mode_to_device requested

turned_on :
    (requested : ClimateMode) (d : Device) (c : Climate)
    → is_active_mode requested ≡ true
    → IsOff c
    → let (c1, es) = control (mode_call requested) c in
      let e = receive_all d es in
      (c1.mode ≡ requested) × (e.power ≡ true) × (e.mode ≡ mode_sent requested d.mode)
unfolding control control_target control_mode control_power control_fan
turned_on requested d c active h = ground (arith, h.connected, h.off, h.heat)

-- When a connected climate entity is set up from a restored state that is off, and rebroadcast any
-- number of times, and Home Assistant then requests a mode of the device for it, the entity shows
-- that mode and the device is turned on. The device gets the mode, unless it is heat: for heat no
-- mode is sent, and the device goes on in the mode that it had, whatever that was.
pub setup-control_from_off :
    (apply : Inherited → Inherited) (i : Inherited) (d : Device) (k : ℕ) (requested : ClimateMode)
    → (apply i).mode ≡ ClimateMode.off
    → is_active_mode requested ≡ true
    → let (c, es) =
        (setup (some apply) >> sync_rounds k >> control (mode_call requested)) (initial true i) in
      let e = receive_all d es in
      (c.mode ≡ requested) × (e.power ≡ true) × (e.mode ≡ mode_sent requested d.mode)
unfolding setup StaysOff
setup-control_from_off apply i d k requested off active =
    let c0 = resolve (some apply) (initial true i) in
    let (c1, es1) = (sync_to_device >> publish_state) c0 in
    let (c2, es2) = sync_rounds k c1 in
    let es3 = (control (mode_call requested) c2).1 in
    let d1 = receive_all d es1 in
    let d2 = receive_all d1 es2 in
    let (h1, e1) =
      StaysOff->> sync_to_device publish_state sync-StaysOff publish_state-StaysOff d c0
        (resolve-IsOff apply i off) in
    let (h2, e2) = rounds-StaysOff k d1 c1 h1 in
    let (shown, on, sent) = turned_on requested d2 c2 active h2 in
    let es0 = applied (some apply) (initial true i) in
    let device : receive_all d ((es0 ++ es1) ++ (es2 ++ es3)) ≡ receive_all d2 es3 =
      receive_all-append (es0 ++ es1) (es2 ++ es3) d ∙ receive_all-append es2 es3 d1 in
    rw device (shown, on, sent ∙ ap (mode_sent requested) (e2 ∙ e1))
