-- ===== src/UniluxUart/Configuration/Ranges.antt =====
-- esphome/components/unilux_uart/__init__.py: what the settings offer is what the component can send.
use unilux_uart.Common.{
  ◌&◌, ℕ, zero, suc, ◌*◌, ◌+◌, ◌<◌, ◌≤◌, ◌≡◌, refl, sym, subst, arith, true, some, All, OneOf,
  All-OneOf,
}
use unilux_uart.Common.Int.{ℤ, pos, negsuc}
use unilux_uart.Float.{Float}
use unilux_uart.Float.Halves.{half, le, tenths-half_pos, tenths-half_negsuc}
use unilux_uart.Aup
use unilux_uart.Aup.{IsWellFormed}
use unilux_uart.Messages.{AnyMessage, id_of}
use unilux_uart.Messages.RoundTrip.{IsSigned, IsOnWire}
use unilux_uart.UniluxUart.Send.{send_temperature_setting}
use unilux_uart.UniluxUart.Send.Device.{typed_message}
use unilux_uart.UniluxUart.Send.Settings.{scalar_of, typed_message-send_temperature_setting}
use unilux_uart.UniluxUart.Configuration.{NumberSetting, number_settings}

-- Half degrees of at most 100 degrees
abbrev pub IsModest : ℤ → Type 0
IsModest (pos n) = n ≤ 200
IsModest (negsuc n) = n < 200

pub half-IsSigned : (z : ℤ) → IsModest z → IsSigned (half z)
half-IsSigned (pos n) h = record {
  wire = pos (5 * n);
  fits = omega arith;
  is_wire = sym (tenths-half_pos n (omega arith));
}
half-IsSigned (negsuc n) h = record {
  wire = negsuc (5 * n + 4);
  fits = omega arith;
  is_wire = sym (tenths-half_negsuc n (omega arith));
}

-- A message of a scalar setting with a value
record Scalar (id : ℕ) (x : Float) : Type 0 where
  message : AnyMessage
  own_id : id_of message ≡ id
  value : scalar_of message ≡ some x
  on_wire : IsOnWire message

module _ (x : Float) (h : IsSigned x) where
  number_messages : All (λ (s : NumberSetting). Scalar s.msg_id x) number_settings
  number_messages =
      record {
        message = AnyMessage.temperature_offset (record { value = x });
        own_id = refl;
        value = refl;
        on_wire = h;
      }
      & record {
        message = AnyMessage.switching_diff_heat (record { value = x });
        own_id = refl;
        value = refl;
        on_wire = h;
      }
      & record {
        message = AnyMessage.switching_diff_cool (record { value = x });
        own_id = refl;
        value = refl;
        on_wire = h;
      }
      & record {
        message = AnyMessage.changeover_heat (record { value = x });
        own_id = refl;
        value = refl;
        on_wire = h;
      }
      & record {
        message = AnyMessage.changeover_cool (record { value = x });
        own_id = refl;
        value = refl;
        on_wire = h;
      }
      & tt

-- The range of a setting holds half degrees of at most 100 degrees, its initial value among them.
abbrev HasRange : NumberSetting → Type 0
HasRange s =
    ((z : ℤ) → le s.min_value (half z) ≡ true → le (half z) s.max_value ≡ true → IsModest z)
    × (le s.min_value s.initial_value ≡ true)
    × (le s.initial_value s.max_value ≡ true)

IsModest-both :
    (m k : ℕ) (z : ℤ)
    → m ≤ 200
    → k < 200
    → le (half (negsuc k)) (half z) ≡ true
    → le (half z) (half (pos m)) ≡ true
    → IsModest z
IsModest-both m k (pos n) h hk lo hi = ground arith
IsModest-both m k (negsuc n) h hk lo hi = ground arith

-- A range that starts above zero
IsModest-pos :
    (m k : ℕ) (z : ℤ)
    → m ≤ 200
    → le (half (pos k)) (half z) ≡ true
    → le (half z) (half (pos m)) ≡ true
    → IsModest z
IsModest-pos m k (pos n) h lo hi = ground arith
IsModest-pos m zero (negsuc n) h lo hi = ground arith
IsModest-pos m (suc k) (negsuc n) h lo hi = ground arith

ranges : All HasRange number_settings
ranges =
    ((λ z lo hi. IsModest-both 10 9 z (omega arith) (omega arith) lo hi), refl, refl)
    & ((λ z lo hi. IsModest-pos 8 4 z (omega arith) lo hi), refl, refl)
    & ((λ z lo hi. IsModest-pos 8 4 z (omega arith) lo hi), refl, refl)
    & ((λ z lo hi. IsModest-pos 50 20 z (omega arith) lo hi), refl, refl)
    & ((λ z lo hi. IsModest-pos 80 40 z (omega arith) lo hi), refl, refl)
    & tt

-- For each number setting, and each half degree of its range, the initial value being in the range,
-- `send_temperature_setting` with the setting's id writes one AUP frame, whose payload decodes to a
-- message with that id and exactly that value.
pub typed_message-number_settings :
    (s : NumberSetting) (z : ℤ)
    → OneOf s number_settings
    → le s.min_value (half z) ≡ true
    → le (half z) s.max_value ≡ true
    → (f : Aup.Frame) × (m : AnyMessage) × (send_temperature_setting s.msg_id (half z)
        ≡ some (Aup.encode f))
      × IsWellFormed f
      × (typed_message f ≡ some m)
      × (id_of m ≡ s.msg_id)
      × (scalar_of m ≡ some (half z))
      × (le s.min_value s.initial_value ≡ true)
      × (le s.initial_value s.max_value ≡ true)
typed_message-number_settings s z known lo hi =
    let (modest_z, above, below) = All-OneOf HasRange s number_settings ranges known in
    let fits = half-IsSigned z (modest_z z lo hi) in
    let t =
      All-OneOf (λ r. Scalar r.msg_id (half z)) s number_settings (number_messages (half z) fits)
        known in
    let (f, written, good, read) =
      typed_message-send_temperature_setting t.message (half z) t.value t.on_wire in
    let here : send_temperature_setting s.msg_id (half z) ≡ some (Aup.encode f) =
      subst (λ i. send_temperature_setting i (half z) ≡ some (Aup.encode f)) t.own_id written in
    (f, t.message, here, good, read, t.own_id, t.value, above, below)
