-- ===== src/Messages/Received/Config.antt =====
-- include/messages/all_config.hpp: the configuration block that is read from 61 bytes.
use unilux_uart.Common.{
  ℕ, zero, suc, ◌+◌, ◌^◌, ◌<◌, ◌≡◌, refl, arith, some, List, [], ◌∷◌, length, take, drop, All,
}
use unilux_uart.Wmmm.{Frame}
use unilux_uart.Message.Printed.{be32_lt}
use unilux_uart.Message.Typed.{IsByte, byte_at-IsByte}
use unilux_uart.Message.Typed.Config
use unilux_uart.Message.AllConfig.{AllConfig, read_unit, payload_size, decode}
use unilux_uart.Message.AllConfig.Units.{IsUnit, read_unit-IsUnit}
use unilux_uart.Messages.RoundTrip.{IsSigned}
use unilux_uart.Messages.Received.{IsSigned-at, when_size-hit}

-- Seven signed temperatures, bytes, two numbers of 32 bits, two unit strings, nine bytes at the end
pub record IsReceived (m : AllConfig) : Type 0 where
  pub typed : Config.IsTyped m
  pub setpoint : IsSigned m.setpoint
  pub switching_diff : IsSigned m.switching_diff
  pub internal_offset : IsSigned m.internal_offset
  pub floor_limited : IsSigned m.floor_limited
  pub change_over_temp_heat : IsSigned m.change_over_temp_heat
  pub change_over_temp_cool : IsSigned m.change_over_temp_cool
  pub switching_diff_cool : IsSigned m.switching_diff_cool
  pub power_fits : m.power < 2 ^ 32
  pub price_fits : m.price < 2 ^ 32
  pub power_unit : IsUnit m.power_unit
  pub currency_unit : IsUnit m.currency_unit
  pub nine_trailing : length m.trailing ≡ 9

All-take : (n : ℕ) (p : List ℕ) → All IsByte p → All IsByte (take n p)
All-take zero p h = tt
All-take (suc n) [] h = tt
All-take (suc n) (b ∷ p) (h, hs) = (h, All-take n p hs)

All-drop : (n : ℕ) (p : List ℕ) → All IsByte p → All IsByte (drop n p)
All-drop zero p h = h
All-drop (suc n) [] h = tt
All-drop (suc n) (b ∷ p) (h, hs) = All-drop n p hs

read_unit-bytes : (p : List ℕ) → All IsByte p → All IsByte (read_unit p)
unfolding read_unit
read_unit-bytes p h = All-take _ p h

length-take-drop : (n k : ℕ) (p : List ℕ) → length p ≡ n + k → length (take k (drop n p)) ≡ k
length-take-drop zero zero p e = refl
length-take-drop zero (suc k) [] e = absurd (omega arith)
length-take-drop zero (suc k) (b ∷ p) e = omega (arith, length-take-drop zero k p (omega arith))
length-take-drop (suc n) k [] e = absurd (omega arith)
length-take-drop (suc n) k (b ∷ p) e = length-take-drop n k p (omega arith)

-- A configuration block that is decoded from bytes
pub decode-IsReceived :
    (f : Frame) (m : AllConfig) → All IsByte f.payload → decode f ≡ some m → IsReceived m
unfolding decode
decode-IsReceived f m bytes read = when_size-hit f IsReceived payload_size _ m read (λ long.
    let p = f.payload in
    let byte = λ (i : ℕ). byte_at-IsByte p i bytes in
    let signed = λ (i : ℕ). IsSigned-at p bytes i in
    record {
      typed = record {
        setpoint_status = byte 2;
        ctrl_mode = byte 3;
        main_mode = byte 4;
        temp_unit = byte 5;
        time_format = byte 6;
        adaptive_ctrl = byte 7;
        system_mode = byte 10;
        sensor_mode = byte 11;
        power_unit = read_unit-bytes (drop 20 p) (All-drop 20 p bytes);
        currency_unit = read_unit-bytes (drop 32 p) (All-drop 32 p bytes);
        vacation_hold = byte 40;
        fan_status = byte 42;
        fan_mode = byte 43;
        force_vent = byte 44;
        change_over_mode = byte 45;
        reserved_41 = byte 41;
        trailing = All-take 9 (drop 52 p) (All-drop 52 p bytes);
      };
      setpoint = signed 0;
      switching_diff = signed 8;
      internal_offset = signed 12;
      floor_limited = signed 14;
      change_over_temp_heat = signed 46;
      change_over_temp_cool = signed 48;
      switching_diff_cool = signed 50;
      power_fits = be32_lt p bytes 16;
      price_fits = be32_lt p bytes 28;
      power_unit = read_unit-IsUnit (drop 20 p);
      currency_unit = read_unit-IsUnit (drop 32 p);
      nine_trailing = length-take-drop 52 9 p long;
    })
