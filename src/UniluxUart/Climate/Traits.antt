-- ===== src/UniluxUart/Climate/Traits.antt =====
-- esphome/components/unilux_uart/unilux_uart.cpp: the traits of the climate entity, and what the
-- device makes of what they offer.
use unilux_uart.Common.{
  ℕ, ◌+◌, ◌*◌, ◌^◌, ◌≤◌, ◌<◌, ◌≡◌, ◌≢◌, refl, sym, subst, arith, Bool, true, false, List, [], ◌∷◌,
  some, ◌↔◌, OneOf,
}
use unilux_uart.Common.Int.{pos}
use unilux_uart.Float.{Float, finite, unit, mul, to_uint16}
use unilux_uart.Float.Tenths.{ten, tenths}
use unilux_uart.Float.Casts.{uint16_tenths}
use unilux_uart.Float.Halves.{half, le}
use unilux_uart.Float.Error.{uint16_near}
use unilux_uart.Aup
use unilux_uart.Aup.{IsWellFormed}
use unilux_uart.Message.{encode_pair}
use unilux_uart.Message.TargetTemperature
use unilux_uart.Messages.{encode}
use unilux_uart.Messages.RoundTrip.{IsUnsigned}
use unilux_uart.Float.Tenths.{tenths-nearest}
use unilux_uart.UniluxUart.Send.{send_message}
use unilux_uart.UniluxUart.Send.Device.{typed_message, sent}
use unilux_uart.UniluxUart.Modes.{
  ClimateMode, ClimateFanMode, device_mode_to_climate, climate_mode_to_device,
  device_fan_to_climate, climate_fan_to_device,
}
use unilux_uart.UniluxUart.Climate.{Climate, target_message, float_zero, supported_modes}

-- climate::ClimateTraits, as far as `traits` sets it
pub record ClimateTraits : Type 0 where
  pub supports_current_temperature : Bool
  pub supported_modes : List ClimateMode
  pub supported_fan_modes : List ClimateFanMode
  pub visual_min_temperature : Float
  pub visual_max_temperature : Float
  pub visual_temperature_step : Float

-- climate::ClimateTraits traits(); a temperature is written by its half degrees.
abbrev pub traits : ClimateTraits
traits = record {
  supports_current_temperature = true;
  supported_modes = supported_modes;
  supported_fan_modes =
      ClimateFanMode.auto ∷ ClimateFanMode.low ∷ ClimateFanMode.medium ∷ ClimateFanMode.high
      ∷ ClimateFanMode.off ∷ [];
  visual_min_temperature = half (pos 10);
  visual_max_temperature = half (pos 80);
  visual_temperature_step = half (pos 1);
}

-- A mode or a fan speed that is read is listed and sent as it was read, and conversely.
module _ (value : ℕ) where
  listed_mode :
      (mode : ClimateMode)
      → device_mode_to_climate value ≡ some mode
      → OneOf mode traits.supported_modes
        × (mode ≢ ClimateMode.off)
        × (climate_mode_to_device mode ≡ value)
  unfolding device_mode_to_climate
  listed_mode ClimateMode.off e = ground arith
  listed_mode ClimateMode.heat_cool e = ground arith
  listed_mode ClimateMode.cool e = ground arith
  listed_mode ClimateMode.heat e = ground arith
  listed_mode (ClimateMode.other n) e = ground arith

  read_mode :
      (mode : ClimateMode)
      → OneOf mode traits.supported_modes
      → mode ≢ ClimateMode.off
      → climate_mode_to_device mode ≡ value
      → device_mode_to_climate value ≡ some mode
  unfolding device_mode_to_climate
  read_mode ClimateMode.off h on e = absurd (on refl)
  read_mode ClimateMode.heat_cool h on e = rw (← e) refl
  read_mode ClimateMode.cool h on e = rw (← e) refl
  read_mode ClimateMode.heat h on e = rw (← e) refl
  read_mode (ClimateMode.other n) h on e = ground arith

  listed_fan :
      (fan : ClimateFanMode)
      → device_fan_to_climate value ≡ some fan
      → OneOf fan traits.supported_fan_modes × (climate_fan_to_device fan ≡ value)
  unfolding device_fan_to_climate
  listed_fan fan e = ground arith

  read_fan :
      (fan : ClimateFanMode)
      → OneOf fan traits.supported_fan_modes
      → climate_fan_to_device fan ≡ value
      → device_fan_to_climate value ≡ some fan
  unfolding device_fan_to_climate
  read_fan ClimateFanMode.auto h e = rw (← e) refl
  read_fan ClimateFanMode.low h e = rw (← e) refl
  read_fan ClimateFanMode.medium h e = rw (← e) refl
  read_fan ClimateFanMode.high h e = rw (← e) refl
  read_fan ClimateFanMode.off h e = rw (← e) refl
  read_fan (ClimateFanMode.other n) h e = ground arith

-- The device's value is read as a mode exactly when the traits list the mode, it is not off, and it is
-- sent as that value; it is read as a fan speed exactly when the traits list the fan speed, and it is
-- sent as that value.
pub device_mode_to_climate-traits :
    (value : ℕ) (mode : ClimateMode) (fan : ClimateFanMode)
    → ((device_mode_to_climate value ≡ some mode) ↔ (
        OneOf mode traits.supported_modes
        × (mode ≢ ClimateMode.off)
        × (climate_mode_to_device mode ≡ value)))
      × ((device_fan_to_climate value ≡ some fan)
          ↔ (OneOf fan traits.supported_fan_modes × (climate_fan_to_device fan ≡ value)))
device_mode_to_climate-traits value mode fan = (
  (listed_mode value mode, λ h. read_mode value mode h.0 h.1 h.2),
  (listed_fan value fan, λ h. read_fan value fan h.0 h.1),
)

pub zero-IsUnsigned : IsUnsigned float_zero
zero-IsUnsigned = record {
  wire = 0;
  fits = omega arith;
  is_wire = sym (tenths-nearest (pos 0) (omega arith));
}

between :
    (x : Float)
    → le traits.visual_min_temperature x ≡ true
    → le x traits.visual_max_temperature ≡ true
    → (m : ℕ) × (x ≡ finite false m) × (m ≤ 40 * unit)
between x lo hi = ground arith

abbrev pub with_target : Float → Climate → Climate
with_target x c = record c { target_temperature = x }

-- A target that is cast to a number of tenths is encoded like that number.
encode-near :
    (x : Float) (w : ℕ) (c : Climate)
    → w < 2 ^ 16
    → to_uint16 (mul x ten) ≡ some w
    → encode (target_message (with_target x c))
      ≡ encode (target_message (with_target (tenths (pos w)) c))
unfolding encode TargetTemperature.encode encode_pair
encode-near x w c small cast = rw (cast, uint16_tenths w small) refl

-- Any target temperature that the traits allow, not only those of their step, is sent as one AUP
-- frame, whose payload decodes to a target temperature. That is the number of tenths below the target,
-- up to 2 ^ -9 of a tenth.
pub typed_message-target_message :
    (x : Float) (c : Climate)
    → le traits.visual_min_temperature x ≡ true
    → le x traits.visual_max_temperature ≡ true
    → (f : Aup.Frame) × (w : ℕ) × (m : ℕ) × (send_message (target_message (with_target x c))
        ≡ some (Aup.encode f))
      × IsWellFormed f
      × (typed_message f ≡ some (target_message (with_target (tenths (pos w)) c)))
      × (x ≡ finite false m)
      × (w * unit ≤ 10 * m + 2 ^ 140)
      × (10 * m < (w + 1) * unit + 2 ^ 140)
unfolding send_message
typed_message-target_message x c lo hi =
    let (m, is_finite, small) = between x lo hi in
    let (w, cast, fits, below, above) = uint16_near m (omega arith) in
    let cast_x = subst (λ (y : Float). to_uint16 (mul y ten) ≡ some w) (sym is_finite) cast in
    let target : IsUnsigned (tenths (pos w)) = record { wire = w; fits = fits; is_wire = refl } in
    let (f, written, good, read) =
      sent (target_message (with_target (tenths (pos w)) c)) (target, zero-IsUnsigned) in
    let sent_x : send_message (target_message (with_target x c)) ≡ some (Aup.encode f) =
      rw (encode-near x w c fits cast_x) written in
    (f, w, m, sent_x, good, read, is_finite, below, above)
