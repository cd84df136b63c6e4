-- ===== src/Messages/Received/Encoded.antt =====
-- src/messages.cpp and include/messages/: a received message is encoded again.
use unilux_uart.Common.{
  ℕ, zero, suc, ◌<◌, ◌≡◌, ◌∙◌, arith, ◌⊎◌, inl, inr, none, some, List, [], ◌∷◌, length, get_or, All,
}
use unilux_uart.Common.Int.{ℤ, pos, negsuc}
use unilux_uart.Wmmm.{Frame}
use unilux_uart.Float.{Float}
use unilux_uart.Float.Tenths.{tenths}
use unilux_uart.Float.Casts.{IsInt16}
use unilux_uart.Message.Signed.{IsTenths, IsNegative}
use unilux_uart.Message.AllConfig.{AllConfig}
use unilux_uart.Message.AllConfig.RoundTrip.{IsOnWire as IsConfig}
use unilux_uart.Message.AllConfig.Negative.{HasNegative as HasNegativeConfig, encode_negative}
use unilux_uart.Message.Schedule.{Schedule, Entry, empty_entry}
use unilux_uart.Message.Schedule.Entries.{IsOnWire as IsEntry}
use unilux_uart.Message.Schedule.Days.{IsDay}
use unilux_uart.Message.Schedule.RoundTrip.{IsWeek}
use unilux_uart.Message.Schedule.Negative.{
  HasNegative as HasNegativeWeek, encode_negative as encode_negative_week,
}
use unilux_uart.Messages.{AnyMessage, decode_message, id_of, encode}
use unilux_uart.Messages.Dispatch.{decode_message-Agrees}
use unilux_uart.Messages.RoundTrip.{IsSigned, IsOnWire, decode_message-encode}
use unilux_uart.Messages.Received.Config.{IsReceived as IsReceivedConfig}
use unilux_uart.Messages.Received.Week.{IsDay as IsReceivedDay, IsReceived as IsReceivedWeek}
use unilux_uart.Messages.Received.Decoded.{HasTypes, decode_message-HasTypes}

-- Some temperature of a configuration block or of a weekly program is below zero.
abbrev pub HasNegative : AnyMessage → Type 0
HasNegative (AnyMessage.all_config m) = HasNegativeConfig m
HasNegative (AnyMessage.schedule m) = HasNegativeWeek m
HasNegative m = ⊥

abbrev Sign : Float → Type 0
Sign x = IsTenths x ⊎ IsNegative x

sign_of : {x : Float} (h : IsSigned x) → Sign x
sign_of {x} h = by_wire h.wire h.fits h.is_wire
  where
    by_wire : (z : ℤ) → IsInt16 z → x ≡ tenths z → Sign x
    by_wire (pos n) fits e = inl (record { wire = n; small = omega arith; is_wire = e })
    by_wire (negsuc n) fits e = inr (record { below = n; small = omega arith; is_below = e })

IsConfig-cases : (m : AllConfig) → IsReceivedConfig m → IsConfig m ⊎ HasNegativeConfig m
IsConfig-cases m h =
    by_signs (sign_of h.setpoint) (sign_of h.switching_diff) (sign_of h.internal_offset)
      (sign_of h.floor_limited) (sign_of h.change_over_temp_heat) (sign_of h.change_over_temp_cool)
      (sign_of h.switching_diff_cool)
  where
    by_signs :
        Sign m.setpoint
        → Sign m.switching_diff
        → Sign m.internal_offset
        → Sign m.floor_limited
        → Sign m.change_over_temp_heat
        → Sign m.change_over_temp_cool
        → Sign m.switching_diff_cool
        → IsConfig m ⊎ HasNegativeConfig m
    by_signs (inr n) b c d e f g = inr (inl n)
    by_signs (inl a) (inr n) c d e f g = inr (inr (inl n))
    by_signs (inl a) (inl b) (inr n) d e f g = inr (inr (inr (inl n)))
    by_signs (inl a) (inl b) (inl c) (inr n) e f g = inr (inr (inr (inr (inl n))))
    by_signs (inl a) (inl b) (inl c) (inl d) (inr n) f g = inr (inr (inr (inr (inr (inl n)))))
    by_signs (inl a) (inl b) (inl c) (inl d) (inl e) (inr n) g =
        inr (inr (inr (inr (inr (inr (inl n))))))
    by_signs (inl a) (inl b) (inl c) (inl d) (inl e) (inl f) (inr n) =
        inr (inr (inr (inr (inr (inr (inr n))))))
    by_signs (inl a) (inl b) (inl c) (inl d) (inl e) (inl f) (inl g) = inl (record {
      setpoint = a;
      switching_diff = b;
      internal_offset = c;
      floor_limited = d;
      change_over_temp_heat = e;
      change_over_temp_cool = f;
      switching_diff_cool = g;
      power_fits = h.power_fits;
      price_fits = h.price_fits;
      power_unit = h.power_unit;
      currency_unit = h.currency_unit;
      nine_trailing = h.nine_trailing;
    })

-- The entries of a day: all from zero, or one of them below
abbrev NegativeEntry : List Entry → Type 0
NegativeEntry day = (e : ℕ) × (e < length day) × IsNegative (get_or day e empty_entry).setpoint

entry_cases :
    (day : List Entry)
    → All (λ (e : Entry). IsSigned e.setpoint) day
    → All IsEntry day ⊎ NegativeEntry day
entry_cases [] h = inl tt
entry_cases (x ∷ day) (h, hs) = elim (sign_of h) [
  | inl whole ↦ elim (entry_cases day hs) [
    | inl rest ↦ inl (record { setpoint = whole }, rest)
    | inr (e, small, low) ↦ inr (suc e, omega arith, low)
  ]
  | inr low ↦ inr (zero, omega arith, low)
]

IsDay-cases :
    (days : List (List Entry))
    → All IsReceivedDay days
    → All IsDay days
      ⊎ ((d : ℕ) × (e : ℕ) × (d < length days)
          × (e < 4)
          × IsNegative (get_or (get_or days d []) e empty_entry).setpoint)
IsDay-cases [] h = inl tt
IsDay-cases (day ∷ days) (h, hs) = elim (entry_cases day h.setpoints) [
  | inl whole ↦ elim (IsDay-cases days hs) [
    | inl rest ↦ inl (record { four_entries = h.four_entries; on_wire = whole }, rest)
    | inr (d, e, hd, he, low) ↦ inr (suc d, e, omega arith, he, low)
  ]
  | inr (e, small, low) ↦ inr (zero, e, omega arith, omega (arith, h.four_entries), low)
]

IsWeek-cases : (m : Schedule) → IsReceivedWeek m → IsWeek m ⊎ HasNegativeWeek m
IsWeek-cases m h = elim (IsDay-cases m.days h.days) [
  | inl whole ↦ inl (record { seven_days = h.seven_days; days_on_wire = whole })
  | inr (d, e, hd, he, low) ↦ inr (d, e, omega (arith, h.seven_days), he, low)
]

wire_cases : (m : AnyMessage) → HasTypes m → IsOnWire m ⊎ HasNegative m
wire_cases (AnyMessage.all_config m) h = IsConfig-cases m h
wire_cases (AnyMessage.schedule m) h = IsWeek-cases m h
wire_cases (AnyMessage.temperature m) h = inl h
wire_cases (AnyMessage.target_temperature m) h = inl h
wire_cases (AnyMessage.mode m) h = inl h
wire_cases (AnyMessage.power m) h = inl h
wire_cases (AnyMessage.fan_speed m) h = inl h
wire_cases (AnyMessage.temperature_offset m) h = inl h
wire_cases (AnyMessage.switching_diff_heat m) h = inl h
wire_cases (AnyMessage.switching_diff_cool m) h = inl h
wire_cases (AnyMessage.changeover_heat m) h = inl h
wire_cases (AnyMessage.changeover_cool m) h = inl h
wire_cases (AnyMessage.system_mode m) h = inl h
wire_cases (AnyMessage.display_unit m) h = inl h

negative_none : (m : AnyMessage) → HasNegative m → encode m ≡ none
unfolding encode
negative_none (AnyMessage.all_config m) h = encode_negative m h
negative_none (AnyMessage.schedule m) h = encode_negative_week m h
negative_none _ h = absurd h

own_id : (f : Frame) (m : AnyMessage) → decode_message f ≡ some m → id_of m ≡ f.msg_id
own_id f m read = elim (decode_message-Agrees f) [
  | inl (m1, read1, own, size) ↦ cc
  | inr (refused, size) ↦ absurd (ground arith)
]

-- Every message that was decoded from a frame whose payload consists of bytes, of whatever class, is
-- encoded again to a frame with the same id that is decoded to the same message, unless it is a
-- configuration block or a weekly program with a temperature below zero: that decodes, but to encode
-- it casts a negative float to uint16_t, which is undefined.
pub encode-decode_any :
    (f : Frame) (m : AnyMessage)
    → All (λ (b : ℕ). b < 256) f.payload
    → decode_message f ≡ some m
    → ((g : Frame) × (encode m ≡ some g)
        × (g.msg_id ≡ f.msg_id)
        × (decode_message g ≡ some m)
        × (¬ HasNegative m))
      ⊎ ((encode m ≡ none) × HasNegative m)
encode-decode_any f m bytes read = elim (wire_cases m (decode_message-HasTypes f m bytes read)) [
  | inl wire ↦
      let (g, written, own, back) = decode_message-encode m wire in
      inl (
        g,
        written,
        own ∙ own_id f m read,
        back,
        λ low. let nothing = negative_none m low in absurd (ground arith),
      )
  | inr low ↦ inr (negative_none m low, low)
]
