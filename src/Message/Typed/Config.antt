-- ===== src/Message/Typed/Config.antt =====
-- include/messages/all_config.hpp: `encode` writes 61 bytes.
use unilux_uart.Common.{
  ℕ, zero, suc, ◌+◌, ◌-◌, refl, arith, List, length, set, All, Option, ◌>>=◌, ltb, if◌then◌else◌,
}
use unilux_uart.Float.{Float, mul, to_uint16}
use unilux_uart.Float.Tenths.{ten}
use unilux_uart.Utils.{byte_at, to_be32}
use unilux_uart.Wmmm.{Frame}
use unilux_uart.Message.{zeros}
use unilux_uart.Message.AllConfig
use unilux_uart.Message.AllConfig.{
  AllConfig, write_unit, put_tenths, copy_bytes, clear_bytes, trailing_len, unit_len, encode,
}
use unilux_uart.Message.Typed.{
  IsByte, IsBuffer, IfSome, IfSome-bind, IfSome-each, IsFrame, zeros-IsBuffer, set-IsBuffer,
  to_be16-IsBuffer, to_be32-IsBuffer, byte_at-IsByte,
}

-- The fields are of their types: bytes, and strings and an array of bytes.
pub record IsTyped (m : AllConfig) : Type 0 where
  pub setpoint_status : IsByte m.setpoint_status
  pub ctrl_mode : IsByte m.ctrl_mode
  pub main_mode : IsByte m.main_mode
  pub temp_unit : IsByte m.temp_unit
  pub time_format : IsByte m.time_format
  pub adaptive_ctrl : IsByte m.adaptive_ctrl
  pub system_mode : IsByte m.system_mode
  pub sensor_mode : IsByte m.sensor_mode
  pub power_unit : All IsByte m.power_unit
  pub currency_unit : All IsByte m.currency_unit
  pub vacation_hold : IsByte m.vacation_hold
  pub fan_status : IsByte m.fan_status
  pub fan_mode : IsByte m.fan_mode
  pub force_vent : IsByte m.force_vent
  pub change_over_mode : IsByte m.change_over_mode
  pub reserved_41 : IsByte m.reserved_41
  pub trailing : All IsByte m.trailing

abbrev Block : List ℕ → Type 0
Block = IsBuffer 61

-- What a write leaves a buffer
put : (p : List ℕ) (i v : ℕ) → IsByte v → Block p → Block (set p i v)
put p i v hv h = set-IsBuffer 61 p i v hv h

put_tenths-Block : (p : List ℕ) (i : ℕ) (x : Float) → Block p → IfSome Block (put_tenths p i x)
put_tenths-Block p i x h =
    IfSome-each Block (to_uint16 (mul x ten)) _ (λ w. to_be16-IsBuffer 61 p i w h)

copy_bytes-Block :
    (left i : ℕ) (p : List ℕ) (at : ℕ) (value : List ℕ)
    → All IsByte value
    → Block p
    → Block (copy_bytes left i p at value)
unfolding AllConfig.copy_bytes
copy_bytes-Block zero i p at value hv h = h
copy_bytes-Block (suc left) i p at value hv h =
    copy_bytes-Block left (i + 1) (set p (at + i) (byte_at value i)) at value hv
      (put p (at + i) (byte_at value i) (byte_at-IsByte value i hv) h)

clear_bytes-Block : (left i : ℕ) (p : List ℕ) (at : ℕ) → Block p → Block (clear_bytes left i p at)
unfolding AllConfig.clear_bytes
clear_bytes-Block zero i p at h = h
clear_bytes-Block (suc left) i p at h =
    clear_bytes-Block left (i + 1) (set p (at + i) 0) at (put p (at + i) 0 (omega arith) h)

write_unit-Block :
    (p : List ℕ) (at : ℕ) (value : List ℕ)
    → All IsByte value
    → Block p
    → Block (write_unit p at value)
unfolding AllConfig.write_unit
write_unit-Block p at value hv h =
    let len = if ltb (length value) unit_len then length value else unit_len in
    clear_bytes-Block (unit_len - len) len (copy_bytes len 0 p at value) at
      (copy_bytes-Block len 0 p at value hv h)

module _ (m : AllConfig) (t : IsTyped m) where
  abbrev Encoded : Option Frame → Type 0
  Encoded o = IfSome (IsFrame 0x76 61) o

  -- A temperature, and the writes behind it
  then_tenths :
      (p : List ℕ) (i : ℕ) (x : Float) (k : List ℕ → Option Frame)
      → Block p
      → ((q : List ℕ) → Block q → Encoded (k q))
      → Encoded (put_tenths p i x >>= k)
  then_tenths p i x k h step =
      IfSome-bind Block (IsFrame 0x76 61) (put_tenths p i x) k (put_tenths-Block p i x h) step

  -- The numbers and the strings in the middle of the block
  abbrev units : List ℕ → List ℕ
  units p =
      write_unit (to_be32 (write_unit (to_be32 p 16 m.power) 20 m.power_unit) 28 m.price) 32
        m.currency_unit

  pub encode-IsFrame : Encoded (encode m)
  unfolding AllConfig.encode
  encode-IsFrame = then_tenths (zeros 61) 0 m.setpoint _ (zeros-IsBuffer 61) (λ p h.
      then_tenths _ 8 m.switching_diff _ (head p h) (λ p h.
        then_tenths _ 12 m.internal_offset _
          (put _ 11 m.sensor_mode t.sensor_mode (put _ 10 m.system_mode t.system_mode h))
          (λ p h. then_tenths p 14 m.floor_limited _ h (λ p h.
            then_tenths _ 46 m.change_over_temp_heat _ (middle p h) (λ p h.
              then_tenths p 48 m.change_over_temp_cool _ h (λ p h.
                then_tenths p 50 m.switching_diff_cool _ h
                  (λ p h. (refl, refl, copy_bytes-Block 9 0 p 52 m.trailing t.trailing h))))))))
    where
      head :
          (p : List ℕ)
          → Block p
          → Block (
              set
                (set
                  (set
                    (set (set (set p 2 m.setpoint_status) 3 m.ctrl_mode) 4 m.main_mode)
                    5
                    m.temp_unit)
                  6
                  m.time_format)
                7
                m.adaptive_ctrl)
      head p h =
          let h2 = put p 2 m.setpoint_status t.setpoint_status h in
          let h3 = put _ 3 m.ctrl_mode t.ctrl_mode h2 in
          let h4 = put _ 4 m.main_mode t.main_mode h3 in
          let h5 = put _ 5 m.temp_unit t.temp_unit h4 in
          let h6 = put _ 6 m.time_format t.time_format h5 in
          put _ 7 m.adaptive_ctrl t.adaptive_ctrl h6

      middle :
          (p : List ℕ)
          → Block p
          → Block (
              set
                (set
                  (set
                    (set (set (set (units p) 40 m.vacation_hold) 41 m.reserved_41) 42 m.fan_status)
                    43
                    m.fan_mode)
                  44
                  m.force_vent)
                45
                m.change_over_mode)
      middle p h =
          let power = to_be32-IsBuffer 61 p 16 m.power h in
          let unit = write_unit-Block _ 20 m.power_unit t.power_unit power in
          let price = to_be32-IsBuffer 61 _ 28 m.price unit in
          let h39 = write_unit-Block _ 32 m.currency_unit t.currency_unit price in
          let h40 = put _ 40 m.vacation_hold t.vacation_hold h39 in
          let h41 = put _ 41 m.reserved_41 t.reserved_41 h40 in
          let h42 = put _ 42 m.fan_status t.fan_status h41 in
          let h43 = put _ 43 m.fan_mode t.fan_mode h42 in
          let h44 = put _ 44 m.force_vent t.force_vent h43 in
          put _ 45 m.change_over_mode t.change_over_mode h44
