-- ===== src/Message/AllConfig.antt =====
-- include/messages/all_config.hpp: class AllConfig, the configuration block of 61 bytes.
pub mod Units
pub mod RoundTrip
pub mod Negative
mod Tests
use unilux_uart.Common.{
  ℕ, zero, suc, ◌+◌, ◌-◌, List, [], ◌∷◌, Option, some, ltb, ◌==◌, if◌then◌else◌, length, set, take,
  drop, ◌>>=◌,
}
use unilux_uart.Utils.{byte_at, from_be16, to_be16, from_be32, to_be32}
use unilux_uart.Wmmm.{Frame}
use unilux_uart.Float.{Float, mul, to_uint16, int16_of_uint16}
use unilux_uart.Float.Tenths.{ten, tenths}
use unilux_uart.Message.{frame_of, zeros, when_size}
use unilux_uart.Text.{codes, fixed, decimal, c_str, snprintf}
use unilux_uart.Common.{join}

abbrev pub id : ℕ
id = 0x76

abbrev pub payload_size : ℕ
payload_size = 61

abbrev pub unit_len : ℕ
unit_len = 8

abbrev pub trailing_len : ℕ
trailing_len = 9

-- A std::string is the list of its bytes; `trailing` is the std::array of the last nine bytes.
pub record AllConfig : Type 0 where
  pub setpoint : Float
  pub setpoint_status : ℕ
  pub ctrl_mode : ℕ
  pub main_mode : ℕ
  pub temp_unit : ℕ
  pub time_format : ℕ
  pub adaptive_ctrl : ℕ
  pub switching_diff : Float
  pub system_mode : ℕ
  pub sensor_mode : ℕ
  pub internal_offset : Float
  pub floor_limited : Float
  pub power : ℕ
  pub power_unit : List ℕ
  pub price : ℕ
  pub currency_unit : List ℕ
  pub vacation_hold : ℕ
  pub fan_status : ℕ
  pub fan_mode : ℕ
  pub force_vent : ℕ
  pub change_over_mode : ℕ
  pub change_over_temp_heat : Float
  pub change_over_temp_cool : Float
  pub switching_diff_cool : Float
  pub reserved_41 : ℕ
  pub trailing : List ℕ

-- `while (len < UNIT_LEN && bytes[len] != 0) ++len;` with the rounds that are left
scan_unit : ℕ → ℕ → List ℕ → ℕ
scan_unit zero len bytes = len
scan_unit (suc left) len bytes =
    let rest = scan_unit left (len + 1) bytes in if byte_at bytes len == 0 then len else rest

-- static std::string read_unit(const uint8_t *bytes); the pointer is the rest of the buffer.
unfoldable pub read_unit : List ℕ → List ℕ
unfolding scan_unit
read_unit bytes = take (scan_unit unit_len 0 bytes) bytes

-- `for (size_t i = ...; i < ...; ++i) bytes[i] = value[i];` and the same with 0
unfoldable pub copy_bytes : ℕ → ℕ → List ℕ → ℕ → List ℕ → List ℕ
copy_bytes zero i p at value = p
copy_bytes (suc left) i p at value =
    copy_bytes left (i + 1) (set p (at + i) (byte_at value i)) at value

unfoldable pub clear_bytes : ℕ → ℕ → List ℕ → ℕ → List ℕ
clear_bytes zero i p at = p
clear_bytes (suc left) i p at = clear_bytes left (i + 1) (set p (at + i) 0) at

-- static void write_unit(uint8_t *bytes, const std::string &value)
unfoldable pub write_unit : List ℕ → ℕ → List ℕ → List ℕ
unfolding copy_bytes clear_bytes
write_unit p at value =
    let len = if ltb (length value) unit_len then length value else unit_len in
    clear_bytes (unit_len - len) len (copy_bytes len 0 p at value) at

-- `to_be16(p + at, static_cast<uint16_t>(x * SCALE))`
abbrev pub put_tenths : List ℕ → ℕ → Float → Option (List ℕ)
put_tenths p at x = do w ← to_uint16 (mul x ten); some (to_be16 p at w)

-- Frame encode() const; `none` is an undefined cast.
unfoldable pub encode : AllConfig → Option Frame
unfolding copy_bytes
encode m = do
  p ← put_tenths (zeros payload_size) 0 m.setpoint
  let p = set p 2 m.setpoint_status
  let p = set p 3 m.ctrl_mode
  let p = set p 4 m.main_mode
  let p = set p 5 m.temp_unit
  let p = set p 6 m.time_format
  let p = set p 7 m.adaptive_ctrl
  p ← put_tenths p 8 m.switching_diff
  let p = set p 10 m.system_mode
  let p = set p 11 m.sensor_mode
  p ← put_tenths p 12 m.internal_offset
  p ← put_tenths p 14 m.floor_limited
  let p = to_be32 p 16 m.power
  let p = write_unit p 20 m.power_unit
  let p = to_be32 p 28 m.price
  let p = write_unit p 32 m.currency_unit
  let p = set p 40 m.vacation_hold
  let p = set p 41 m.reserved_41
  let p = set p 42 m.fan_status
  let p = set p 43 m.fan_mode
  let p = set p 44 m.force_vent
  let p = set p 45 m.change_over_mode
  p ← put_tenths p 46 m.change_over_temp_heat
  p ← put_tenths p 48 m.change_over_temp_cool
  p ← put_tenths p 50 m.switching_diff_cool
  some (frame_of id (copy_bytes trailing_len 0 p 52 m.trailing))

-- `static_cast<float>(static_cast<int16_t>(from_be16(p + at))) / SCALE`
abbrev pub get_tenths : List ℕ → ℕ → Float
get_tenths p at = tenths (int16_of_uint16 (from_be16 p at))

-- static std::optional<AllConfig> decode(const Frame &frame)
unfoldable pub decode : Frame → Option AllConfig
decode frame =
    let p = frame.payload in
    when_size frame payload_size (record {
      setpoint = get_tenths p 0;
      setpoint_status = byte_at p 2;
      ctrl_mode = byte_at p 3;
      main_mode = byte_at p 4;
      temp_unit = byte_at p 5;
      time_format = byte_at p 6;
      adaptive_ctrl = byte_at p 7;
      switching_diff = get_tenths p 8;
      system_mode = byte_at p 10;
      sensor_mode = byte_at p 11;
      internal_offset = get_tenths p 12;
      floor_limited = get_tenths p 14;
      power = from_be32 p 16;
      power_unit = read_unit (drop 20 p);
      price = from_be32 p 28;
      currency_unit = read_unit (drop 32 p);
      vacation_hold = byte_at p 40;
      fan_status = byte_at p 42;
      fan_mode = byte_at p 43;
      force_vent = byte_at p 44;
      change_over_mode = byte_at p 45;
      change_over_temp_heat = get_tenths p 46;
      change_over_temp_cool = get_tenths p 48;
      switching_diff_cool = get_tenths p 50;
      reserved_41 = byte_at p 41;
      trailing = take trailing_len (drop 52 p);
    })

-- What to_string prints, before the cut
abbrev pub parts : AllConfig → List (List ℕ)
parts m =
    codes "AllConfig(setpoint="
    ∷ fixed m.setpoint
    ∷ codes ", main="
    ∷ decimal m.main_mode
    ∷ codes ", ctrl="
    ∷ decimal m.ctrl_mode
    ∷ codes ", fan_status="
    ∷ decimal m.fan_status
    ∷ codes ", changeOver="
    ∷ decimal m.change_over_mode
    ∷ codes " heat="
    ∷ fixed m.change_over_temp_heat
    ∷ codes " cool="
    ∷ fixed m.change_over_temp_cool
    ∷ codes ", power="
    ∷ decimal m.power
    ∷ c_str m.power_unit
    ∷ codes ")"
    ∷ []

abbrev pub text : AllConfig → List ℕ
text m = join (parts m)

-- std::string to_string() const
unfoldable pub to_string : AllConfig → List ℕ
unfolding snprintf
to_string m = snprintf 160 (text m)
