-- ===== src/Message/AllConfig/Tests.antt =====
-- include/messages/all_config.hpp: the payload that tests/test_all_config.cpp captured from a
-- device, and the same with an offset below zero.
use unilux_uart.Common.{ℕ, ◌≡◌, refl, ◌⊎◌, List, [], ◌∷◌, ◌++◌, none, some}
use unilux_uart.Common.Int.{pos, negsuc}
use unilux_uart.Common.Bytes.{bytes_lem}
use unilux_uart.Utils.{from_be16, from_be32}
use unilux_uart.Wmmm.{Frame}
use unilux_uart.Float.{int16_of_uint16, div, of_int, rounded, round, round_even, exponent}
use unilux_uart.Float.Tenths.{tenths}
use unilux_uart.Message.{frame_of}
use unilux_uart.Messages
use unilux_uart.Messages.{AnyMessage, decode_message}
use unilux_uart.Messages.Received.Decoded.{HasTypes, decode_message-HasTypes}
use unilux_uart.Messages.Received.Encoded.{HasNegative, encode-decode_any}
use unilux_uart.Message.AllConfig.{AllConfig, id, decode, read_unit, to_string}
use unilux_uart.Text.{codes, decimal, fixed, digits, with_point, c_str}

abbrev head : List ℕ
head = 0x00 ∷ 0xC8 ∷ 0x00 ∷ 0x01 ∷ 0x01 ∷ 0x00 ∷ 0xF3 ∷ 0x01 ∷ 0x00 ∷ 0x14 ∷ 0x00 ∷ 0x00 ∷ []

abbrev tail : List ℕ
tail =
    0x01 ∷ 0x2C ∷ 0 ∷ 0 ∷ 0 ∷ 0x6F ∷ 0x6B ∷ 0x57 ∷ 0 ∷ 0 ∷ 0 ∷ 0 ∷ 0 ∷ 0 ∷ 0 ∷ 0 ∷ 0 ∷ 0xDE ∷ 0x24
    ∷ 0 ∷ 0 ∷ 0 ∷ 0 ∷ 0 ∷ 0 ∷ 0 ∷ 0 ∷ 0 ∷ 0x03 ∷ 0 ∷ 0 ∷ 0x01 ∷ 0 ∷ 0xAA ∷ 0 ∷ 0xDC ∷ 0 ∷ 0x14
    ∷ 0x42 ∷ 0x69 ∷ 0xB4 ∷ 0 ∷ 0xC8 ∷ 0 ∷ 0x04 ∷ 0x07 ∷ 0x18 ∷ []

abbrev captured : List ℕ
captured = head ++ 0 ∷ 0 ∷ tail

-- What the captured bytes mean
abbrev pub config : AllConfig
config = record {
  setpoint = tenths (pos 200);
  setpoint_status = 0;
  ctrl_mode = 1;
  main_mode = 1;
  temp_unit = 0;
  time_format = 0xF3;
  adaptive_ctrl = 1;
  switching_diff = tenths (pos 20);
  system_mode = 0;
  sensor_mode = 0;
  internal_offset = tenths (pos 0);
  floor_limited = tenths (pos 300);
  power = 0x6F;
  power_unit = 0x6B ∷ 0x57 ∷ [];
  price = 0xDE;
  currency_unit = 0x24 ∷ [];
  vacation_hold = 0;
  fan_status = 3;
  fan_mode = 0;
  force_vent = 0;
  change_over_mode = 1;
  change_over_temp_heat = tenths (pos 170);
  change_over_temp_cool = tenths (pos 220);
  switching_diff_cool = tenths (pos 20);
  reserved_41 = 0;
  trailing = 0x42 ∷ 0x69 ∷ 0xB4 ∷ 0 ∷ 0xC8 ∷ 0 ∷ 0x04 ∷ 0x07 ∷ 0x18 ∷ [];
}

captured_run : decode (frame_of id captured) ≡ some config
unfolding decode from_be16 from_be32 read_unit int16_of_uint16
captured_run = refl

text_run :
    to_string config
    ≡ codes
        "AllConfig(setpoint=20.0, main=1, ctrl=1, fan_status=3, changeOver=1 heat=17.0 cool=22.0, power=111kW)"
unfolding to_string decimal fixed digits with_point c_str tenths div of_int rounded round round_even
    exponent
text_run = refl

-- With FF FB in place of the offset's zeros, -0.5 is read, and not written.
abbrev below_zero : Frame
below_zero = frame_of id (head ++ 0xFF ∷ 0xFB ∷ tail)

abbrev below_zero_config : AllConfig
below_zero_config = record config { internal_offset = tenths (negsuc 4) }

below_zero_run : decode below_zero ≡ some below_zero_config
unfolding decode from_be16 from_be32 read_unit int16_of_uint16
below_zero_run = refl

-- Both blocks arrive.
arrived : decode_message (frame_of id captured) ≡ some (AnyMessage.all_config config)
unfolding decode_message decode from_be16 from_be32 read_unit int16_of_uint16
arrived = refl

arrived_below_zero : decode_message below_zero ≡ some (AnyMessage.all_config below_zero_config)
unfolding decode_message decode from_be16 from_be32 read_unit int16_of_uint16
arrived_below_zero = refl

decode_message-HasTypes_example : HasTypes (AnyMessage.all_config below_zero_config)
decode_message-HasTypes_example =
    decode_message-HasTypes below_zero (AnyMessage.all_config below_zero_config)
      (bytes_lem below_zero.payload refl) arrived_below_zero

encode-decode_any_example :
    ((g : Frame) × (Messages.encode (AnyMessage.all_config config) ≡ some g)
      × (g.msg_id ≡ id)
      × (decode_message g ≡ some (AnyMessage.all_config config))
      × (¬ HasNegative (AnyMessage.all_config config)))
    ⊎ ((Messages.encode (AnyMessage.all_config config) ≡ none)
        × HasNegative (AnyMessage.all_config config))
encode-decode_any_example =
    encode-decode_any (frame_of id captured) (AnyMessage.all_config config)
      (bytes_lem captured refl) arrived
