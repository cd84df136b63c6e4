-- ===== src/Message/AllConfig/RoundTrip.antt =====
-- include/messages/all_config.hpp: `decode` gives back the message that `encode` wrote, unless one
-- of its temperatures is negative.
use unilux_uart.Common.{
  ℕ, ◌*◌, ◌/◌, ◌%◌, ◌^◌, ◌<◌, ◌≡◌, refl, ◌∙◌, arith, List, [], ◌∷◌, ◌++◌, some, length, bit_or,
}
use unilux_uart.Utils.{byte_at, from_be16, to_be16, from_be32, to_be32}
use unilux_uart.Utils.RoundTrip.{be32_join}
use unilux_uart.Message.{frame_of}
use unilux_uart.Message.Signed.{IsTenths, cast_tenths, read_tenths}
use unilux_uart.Message.AllConfig.{AllConfig, id, encode, decode, read_unit}
use unilux_uart.Message.AllConfig.Units.{IsUnit, slot, write_unit-slot, read_unit-slot}

read_be32 :
    (v : ℕ)
    → v < 2 ^ 32
    → bit_or
        (bit_or
          (bit_or (v / 2 ^ 24 % 256 * 2 ^ 24) (v / 2 ^ 16 % 256 * 2 ^ 16))
          (v / 2 ^ 8 % 256 * 2 ^ 8))
        (v % 256)
      ≡ v
read_be32 v h =
    be32_join (v / 2 ^ 24 % 256) (v / 2 ^ 16 % 256) (v / 2 ^ 8 % 256) (v % 256) (omega arith)
      (omega arith) (omega arith)
    ∙ omega arith

-- A message whose fields are what the wire can carry
pub record IsOnWire (m : AllConfig) : Type 0 where
  pub setpoint : IsTenths m.setpoint
  pub switching_diff : IsTenths m.switching_diff
  pub internal_offset : IsTenths m.internal_offset
  pub floor_limited : IsTenths m.floor_limited
  pub change_over_temp_heat : IsTenths m.change_over_temp_heat
  pub change_over_temp_cool : IsTenths m.change_over_temp_cool
  pub switching_diff_cool : IsTenths m.switching_diff_cool
  pub power_fits : m.power < 2 ^ 32
  pub price_fits : m.price < 2 ^ 32
  pub power_unit : IsUnit m.power_unit
  pub currency_unit : IsUnit m.currency_unit
  pub nine_trailing : length m.trailing ≡ 9

-- The payload that such a message is written to
abbrev two : ℕ → List ℕ → List ℕ
two w rest = (w / 2 ^ 8 % 256) ∷ (w % 256) ∷ rest

abbrev word : ℕ → List ℕ → List ℕ
word v rest = (v / 2 ^ 24 % 256) ∷ (v / 2 ^ 16 % 256) ∷ (v / 2 ^ 8 % 256) ∷ (v % 256) ∷ rest

abbrev nine : List ℕ → List ℕ
nine t =
    byte_at t 0
    ∷ byte_at t 1
    ∷ byte_at t 2
    ∷ byte_at t 3
    ∷ byte_at t 4
    ∷ byte_at t 5
    ∷ byte_at t 6
    ∷ byte_at t 7
    ∷ byte_at t 8
    ∷ []

nine_lem : (t : List ℕ) → length t ≡ 9 → nine t ≡ t
nine_lem (a ∷ b ∷ c ∷ d ∷ e ∷ f ∷ g ∷ h ∷ i ∷ []) n = refl
nine_lem _ n = absurd (omega arith)

module _ (m : AllConfig) (h : IsOnWire m) where
  abbrev tail_bytes : List ℕ
  tail_bytes =
      m.vacation_hold
      ∷ m.reserved_41
      ∷ m.fan_status
      ∷ m.fan_mode
      ∷ m.force_vent
      ∷ m.change_over_mode
      ∷ two h.change_over_temp_heat.wire
          (two h.change_over_temp_cool.wire (two h.switching_diff_cool.wire (nine m.trailing)))

  abbrev middle_bytes : List ℕ
  middle_bytes =
      m.system_mode
      ∷ m.sensor_mode
      ∷ two h.internal_offset.wire (
          two h.floor_limited.wire
            (word m.power (slot m.power_unit ++ word m.price (slot m.currency_unit ++ tail_bytes))))

  abbrev bytes : List ℕ
  bytes = two h.setpoint.wire (
      m.setpoint_status
      ∷ m.ctrl_mode
      ∷ m.main_mode
      ∷ m.temp_unit
      ∷ m.time_format
      ∷ m.adaptive_ctrl
      ∷ two h.switching_diff.wire middle_bytes)

  encode_lem : encode m ≡ some (frame_of id bytes)
  unfolding encode to_be16 to_be32
  encode_lem =
      rw (cast_tenths h.setpoint, cast_tenths h.switching_diff, cast_tenths h.internal_offset)
        (rw (cast_tenths h.floor_limited, write_unit-slot _ 20 m.power_unit h.power_unit.fits)
          (rw
            (
              write_unit-slot _ 32 m.currency_unit h.currency_unit.fits,
              cast_tenths h.change_over_temp_heat,
              cast_tenths h.change_over_temp_cool,
              cast_tenths h.switching_diff_cool,
            )
            refl))

  decode_lem : decode (frame_of id bytes) ≡ some m
  unfolding decode from_be16 from_be32
  decode_lem = λ i. some (record m {
    setpoint = read_tenths h.setpoint i;
    switching_diff = read_tenths h.switching_diff i;
    internal_offset = read_tenths h.internal_offset i;
    floor_limited = read_tenths h.floor_limited i;
    power = read_be32 m.power h.power_fits i;
    power_unit = read_power_unit i;
    price = read_be32 m.price h.price_fits i;
    currency_unit = read_currency_unit i;
    change_over_temp_heat = read_tenths h.change_over_temp_heat i;
    change_over_temp_cool = read_tenths h.change_over_temp_cool i;
    switching_diff_cool = read_tenths h.switching_diff_cool i;
    trailing = nine_lem m.trailing h.nine_trailing i;
  })
    where
      read_power_unit :
          read_unit (slot m.power_unit ++ word m.price (slot m.currency_unit ++ tail_bytes))
          ≡ m.power_unit
      read_power_unit = read_unit-slot m.power_unit _ h.power_unit.fits h.power_unit.no_nul

      read_currency_unit : read_unit (slot m.currency_unit ++ tail_bytes) ≡ m.currency_unit
      read_currency_unit =
          read_unit-slot m.currency_unit _ h.currency_unit.fits h.currency_unit.no_nul

-- A message whose temperatures are tenths from 0 up, whose counts fit 32 bits and whose unit strings
-- fit their slots is encoded, and decoding the frame gives the message back.
pub decode-encode_config :
    (m : AllConfig)
    → IsOnWire m
    → (payload : List ℕ) × (encode m ≡ some (frame_of id payload))
      × (decode (frame_of id payload) ≡ some m)
decode-encode_config m h = (bytes m h, encode_lem m h, decode_lem m h)
