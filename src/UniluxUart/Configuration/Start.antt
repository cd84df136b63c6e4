-- ===== src/UniluxUart/Configuration/Start.antt =====
-- esphome/components/unilux_uart/: a component that was configured by __init__.py and starts.
use unilux_uart.Common.{
  ℕ, ◌<◌, ◌≡◌, refl, sym, ap, ◌∙◌, subst, arith, Bool, true, false, Bool-cases, inl, inr, Option,
  none, some, List, [], ◌∷◌, ◌&◌, All,
}
use unilux_uart.Common.Int.{pos}
use unilux_uart.Common.Bytes.{bytes_lem}
use unilux_uart.Float.{Float}
use unilux_uart.Aup
use unilux_uart.Aup.{IsIdle}
use unilux_uart.Message.Mode
use unilux_uart.UniluxUart.Modes.{ClimateMode, climate_mode_to_device}
use unilux_uart.UniluxUart.Climate.{Inherited, initial, resolve, restored}
use unilux_uart.UniluxUart.Number
use unilux_uart.UniluxUart.Component.Setup.{configure, new_component}
use unilux_uart.UniluxUart.System.{Peer, System, Action, run}
use unilux_uart.UniluxUart.System.Settings.{SelectFits}
use unilux_uart.UniluxUart.System.InStep.{InStep, IsFine, run-InStep}
use unilux_uart.UniluxUart.System.Boot.{Stored, boot}
use unilux_uart.UniluxUart.System.Boot.Kept.{StoredFits, ValueFits}
use unilux_uart.UniluxUart.System.Boot.Booted.{RestoredFits, boot-InStep}
use unilux_uart.UniluxUart.Configuration.{
  NumberSetting, SelectSetting, number_settings, select_settings, bytes_of, Esphome, to_code,
}
use unilux_uart.UniluxUart.Configuration.Entities.{
  enabled_numbers, enabled_selects, configured, configure-to_code,
}
use unilux_uart.UniluxUart.Configuration.Ranges.{half-IsSigned}
use Prim.Native.String.{String}

module _ (esphome : Esphome) (disabled : String → Bool) where
  enabled_numbers-Fits :
      (ss : List NumberSetting)
      → All (λ (s : NumberSetting). ValueFits s.initial_value) ss
      → All (λ (n : Number.Number). ValueFits n.initial_value) (enabled_numbers esphome disabled ss)
  enabled_numbers-Fits [] h = tt
  enabled_numbers-Fits (s ∷ ss) (h, hs) = elim (Bool-cases (disabled s.key)) [
    | inl off ↦ rw off (enabled_numbers-Fits ss hs)
    | inr on ↦ rw on (h, enabled_numbers-Fits ss hs)
  ]

  enabled_selects-Fits :
      (ss : List SelectSetting)
      → All (λ (s : SelectSetting). All (λ (b : ℕ). b < 256) (bytes_of s.options)) ss
      → All SelectFits (enabled_selects esphome disabled ss)
  enabled_selects-Fits [] h = tt
  enabled_selects-Fits (s ∷ ss) (h, hs) = elim (Bool-cases (disabled s.key)) [
    | inl off ↦ rw off (enabled_selects-Fits ss hs)
    | inr on ↦ rw on (h, enabled_selects-Fits ss hs)
  ]

initial_values : All (λ (s : NumberSetting). ValueFits s.initial_value) number_settings
initial_values =
    inr (half-IsSigned (pos 0) (omega arith))
    & inr (half-IsSigned (pos 4) (omega arith))
    & inr (half-IsSigned (pos 4) (omega arith))
    & inr (half-IsSigned (pos 36) (omega arith))
    & inr (half-IsSigned (pos 46) (omega arith))
    & tt

option_bytes :
    All (λ (s : SelectSetting). All (λ (b : ℕ). b < 256) (bytes_of s.options)) select_settings
option_bytes = bytes_lem (0 ∷ 1 ∷ 2 ∷ 3 ∷ []) refl & bytes_lem (2 ∷ 3 ∷ []) refl & tt

-- An entity that is restored as off remembers heat.
off-heat :
    (restore : Option (Inherited → Inherited)) (i : Inherited)
    → (resolve restore (initial true i)).power_on ≡ false
    → (resolve restore (initial true i)).active_mode ≡ ClimateMode.heat
unfolding resolve
off-heat restore i off = elim restore [ none ↦ ground arith | some apply ↦ ground arith ]

-- A component that the configuration sets up, its climate entity not disabled and any of the sensors,
-- numbers and selects enabled, starts without an undefined cast, in step with a device that gets what
-- it writes, and goes through any sequence of actions without an undefined cast and in step with the
-- device: the fields of the climate entity are the device's power, mode, target temperature and fan
-- speed, its `mode` is off or the device's mode by the power state, and it was published last as it
-- is. The conditions: ESPHome's `Number::publish_state` stores what it is given; both decoders wait
-- for a frame; the restored target is NaN or one that the wire carries; if the restored state is off,
-- the device is in the heating mode; the stored numbers are such as the wire carries; the actions are
-- calls with values that the wire carries, reports that the wire carries, of a mode or fan speed that
-- has a name, and rounds of the rebroadcast.
pub run-boot :
    (published : Float → Float → Float)
    → ((old value : Float) → published old value ≡ value)
    → (esphome : Esphome) (disabled : String → Bool) (decoder : Aup.Decoder) (stored : Stored)
      (p : Peer) (actions : List (Action String))
    → disabled "climate" ≡ false
    → IsIdle decoder
    → IsIdle p.decoder
    → RestoredFits (restored stored.climate (initial true esphome.base)).target_temperature
    → ((resolve stored.climate (initial true esphome.base)).power_on ≡ false
        → p.device.mode ≡ Mode.heat)
    → ((id : ℕ) → StoredFits (stored.number id))
    → All IsFine actions
    → let c = configure (to_code esphome disabled) (new_component decoder) in
      (s : System String) × (s1 : System String) × (boot published stored c p ≡ some s)
      × InStep String s
      × (run published actions s ≡ some s1)
      × InStep String s1
run-boot published law esphome disabled decoder stored p actions enabled listening hearing fits
      off_mode kept fine =
    let entity = initial true esphome.base in
    let c = configured esphome disabled decoder in
    let same : c ≡ configure (to_code esphome disabled) (new_component decoder) =
      sym (configure-to_code esphome disabled decoder) in
    let here : c.climate ≡ some entity = rw enabled refl in
    let (s, booted, first) =
      boot-InStep String published law stored c entity p here refl fits
        (λ off.
          off_mode off ∙ ap climate_mode_to_device (sym (off-heat stored.climate esphome.base off)))
        kept (enabled_numbers-Fits esphome disabled number_settings initial_values)
        (enabled_selects-Fits esphome disabled select_settings option_bytes) listening hearing in
    let (s1, ran, last) = run-InStep String published law actions s fine first in
    (s, s1, subst (λ d. boot published stored d p ≡ some s) same booted, first, ran, last)
