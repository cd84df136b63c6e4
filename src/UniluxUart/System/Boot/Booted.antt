-- ===== src/UniluxUart/System/Boot/Booted.antt =====
-- esphome/components/unilux_uart/unilux_uart.cpp: after a restart the component and the device are in
-- step.
use unilux_uart.Common.{
  ℕ, false, ◌≡◌, refl, sym, ap, ◌∙◌, subst, arith, true, false, inl, inr, ◌⊎◌, Option, none, some,
  [], ◌∷◌, ◌++◌, map, All, All-append, append_assoc, if◌then◌else◌,
}
use unilux_uart.Float.{Float, isnan, of_int, rounded, round, round_even, exponent}
use unilux_uart.Float.Halves.{tenths-half_pos}
use unilux_uart.Aup.{IsIdle}
use unilux_uart.Messages.RoundTrip.{IsUnsigned}
use unilux_uart.UniluxUart.Modes.{climate_mode_to_device}
use unilux_uart.UniluxUart.Climate
use unilux_uart.UniluxUart.Climate.{
  Climate, Inherited, Event as ClimateEvent, resolve, restored, derive_active,
  default_target_temperature, publish_state, sync_to_device, combined_mode, applied,
}
use unilux_uart.UniluxUart.Climate.Mirror.{
  Device, receive_all, IsMirror, sync_to_device-Mirrors, receive_all-append, receive_all-applied,
}
use unilux_uart.UniluxUart.Number
use unilux_uart.UniluxUart.Component.{Component, climate_event}
use unilux_uart.UniluxUart.System.{display, Peer, System, deliver}
use unilux_uart.UniluxUart.System.Display.{display-EndsPublished, display-append, display-IsUnseen}
use unilux_uart.UniluxUart.System.Effect.{Does, Effect-append, Effect-climate, SendFits}
use unilux_uart.UniluxUart.System.Settings.{same, SelectFits}
use unilux_uart.UniluxUart.System.Entity.{
  IsUnsigned-isnan, sync_to_device-shows, Matches-IsMirror, Fits->>, publish_state-Fits,
  sync_to_device-Fits,
}
use unilux_uart.UniluxUart.System.InStep.{InStep}
use unilux_uart.UniluxUart.System.Boot.{Stored, setup_numbers, setup_selects, setup_all, boot}
use unilux_uart.UniluxUart.System.Boot.Kept.{
  setup_numbers-IsUnseen, setup_selects-IsUnseen, StoredFits, ValueFits, setup_numbers-Fits,
  setup_selects-Fits,
}

pub default-IsUnsigned : IsUnsigned default_target_temperature
unfolding of_int rounded round round_even exponent
default-IsUnsigned = record {
  wire = 210;
  fits = omega arith;
  is_wire = sym (tenths-half_pos 42 (omega arith));
}

-- NaN or a target that the wire carries
abbrev pub RestoredFits : Float → Type 0
RestoredFits t = (isnan t ≡ true) ⊎ IsUnsigned t

resolved_target :
    (t : Float) → RestoredFits t → IsUnsigned (if isnan t then default_target_temperature else t)
resolved_target t (inl nan) = rw nan default-IsUnsigned
resolved_target t (inr h) = rw (IsUnsigned-isnan t h) h

module _ (restore : Option (Inherited → Inherited)) (c : Climate) where
  resolve-parent : (resolve restore c).has_parent ≡ c.has_parent
  unfolding resolve
  resolve-parent = elim restore [ none ↦ ground arith | some apply ↦ ground arith ]

  resolve-target :
      RestoredFits (restored restore c).target_temperature
      → IsUnsigned (resolve restore c).target_temperature
  unfolding resolve
  resolve-target h =
      rw (derived (restored restore c)) (resolved_target (restored restore c).target_temperature h)
    where
      derived : (e : Climate) → (derive_active e).target_temperature ≡ e.target_temperature
      derived e = ground arith

resolve-shown :
    (restore : Option (Inherited → Inherited)) (c : Climate)
    → (resolve restore c).mode ≡ combined_mode (resolve restore c)
unfolding resolve
resolve-shown restore c = refl

applied-SendFits :
    (restore : Option (Inherited → Inherited)) (c : Climate) → All SendFits (applied restore c)
applied-SendFits none c = tt
applied-SendFits (some apply) c = (tt, tt)

-- A connected entity set up
setup-IsMirror :
    (Name : Type 0) (restore : Option (Inherited → Inherited)) (c : Climate) (d : Device)
    → c.has_parent ≡ true
    → RestoredFits (restored restore c).target_temperature
    → ((resolve restore c).power_on ≡ false
        → d.mode ≡ climate_mode_to_device (resolve restore c).active_mode)
    → let (c1, es) = Climate.setup restore c in
      (c1.has_parent ≡ true)
      × IsUnsigned c1.target_temperature
      × All SendFits es
      × IsMirror (receive_all d es) c1
      × ((shown : Option Climate) → display {Name = Name} (map climate_event es) shown ≡ some c1)
unfolding Climate.setup
setup-IsMirror Name restore c d connected fits off_mode =
    let c0 = resolve restore c in
    let (c1, es) = sync_to_device c0 in
    let parent : c0.has_parent ≡ true = resolve-parent restore c ∙ connected in
    let target = resolve-target restore c fits in
    let same_entity = (sync_to_device-Mirrors d c0).0 in
    let (kept, sends) =
      Fits->> sync_to_device publish_state sync_to_device-Fits publish_state-Fits c0 target in
    let shown =
      Matches-IsMirror (receive_all d es) c0 (sync_to_device-shows d c0 parent target off_mode)
        (resolve-shown restore c) in
    let published = es ++ ClimateEvent.publish c1 ∷ [] in
    let first = applied restore c in
    let all : receive_all d (first ++ published) ≡ receive_all d es =
      receive_all-applied restore c published d
      ∙ receive_all-append es (ClimateEvent.publish c1 ∷ []) d in
    (
      ap (λ (e : Climate). e.has_parent) same_entity ∙ parent,
      kept,
      All-append SendFits first published (applied-SendFits restore c) sends,
      rw all (subst (λ e. IsMirror (receive_all d es) e) (sym same_entity) shown),
      λ o.
          display-EndsPublished Name (c1, first ++ published) o
            (first ++ es, sym (append_assoc first es (ClimateEvent.publish c1 ∷ []))),
    )

-- If ESPHome's `Number::publish_state` stores what it is given, a component with a connected climate
-- entity is set up without an undefined cast, and is in step with a device that gets all that is
-- written, whatever power state, target temperature and fan speed the device had. The conditions: both
-- decoders wait for a frame; the restored target is NaN or one that the wire carries; if the restored
-- state is off, the device is in the mode that the entity remembers; the stored numbers are such as
-- the wire carries, the initial values, too, or NaN; the select entities' bytes are bytes.
pub boot-InStep :
    (Name : Type 0) (published : Float → Float → Float)
    → ((old value : Float) → published old value ≡ value)
    → (stored : Stored) (c : Component Name) (entity : Climate) (p : Peer) → c.climate ≡ some entity
    → entity.has_parent ≡ true
    → RestoredFits (restored stored.climate entity).target_temperature
    → ((resolve stored.climate entity).power_on ≡ false
        → p.device.mode ≡ climate_mode_to_device (resolve stored.climate entity).active_mode)
    → ((id : ℕ) → StoredFits (stored.number id))
    → All (λ (n : Number.Number). ValueFits n.initial_value) c.numbers
    → All SelectFits c.selects
    → IsIdle c.decoder
    → IsIdle p.decoder
    → (s : System Name) × (boot published stored c p ≡ some s) × InStep Name s
unfolding boot setup_all Does
boot-InStep Name published law stored c entity p here connected fits off_mode kept initial bytes
      listening hearing =
    let e1 = Climate.setup stored.climate entity in
    let r2 = setup_numbers {Name = Name} published stored.number c.numbers in
    let r3 = setup_selects published stored.select c.selects in
    let (parent, target, sends, mirror, shown) =
      setup-IsMirror Name stored.climate entity p.device connected fits off_mode in
    let (number_effect, numbers) =
      setup_numbers-Fits Name published law stored.number c.numbers kept initial in
    let (select_effect, selects) =
      setup_selects-Fits Name published law stored.select c.selects bytes in
    let f = λ (d : Device). receive_all d e1.1 in
    let start = map climate_event e1.1 in
    let both =
      Effect-append Name f same start r2.1 (Effect-climate Name e1.1 sends) number_effect in
    let (out, written, reaches) =
      Effect-append Name f same (start ++ r2.1) r3.1 both select_effect in
    let (idle, changed) = reaches p hearing in
    (
      record {
        component = record c { climate = some e1.0; numbers = r2.0; selects = r3.0 };
        peer = deliver out p;
        frontend = display (start ++ r2.1 ++ r3.1) none;
      },
      rw here (rw written refl),
      record {
        linked = record {
          holds = record {
            entity = e1.0;
            here = refl;
            connected = parent;
            target = target;
            mirror = rw changed mirror;
            numbers = numbers;
            selects = selects;
            listening = listening;
          };
          hearing = idle;
        };
        displayed =
            display-append Name (start ++ r2.1) r3.1 none
            ∙ display-IsUnseen Name r3.1 _
                (setup_selects-IsUnseen Name published stored.select c.selects)
            ∙ display-append Name start r2.1 none
            ∙ display-IsUnseen Name r2.1 _
                (setup_numbers-IsUnseen Name published stored.number c.numbers)
            ∙ shown none;
      },
    )
