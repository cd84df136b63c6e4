-- ===== src/Message/AllConfig/Negative.antt =====
-- include/messages/all_config.hpp: `encode` of a negative temperature casts a negative float to
-- uint16_t, which is undefined.
use unilux_uart.Common.{ℕ, ◌≤◌, ◌<◌, ◌≡◌, ◌⊎◌, inl, inr, arith, List, none, some, All, subst}
use unilux_uart.Utils.{byte_at}
use unilux_uart.Wmmm.{Frame}
use unilux_uart.Float.{Float}
use unilux_uart.Message.Signed.{IsNegative, cast_negative, IsNegative-at, reading}
use unilux_uart.Message.AllConfig.{AllConfig, encode, decode}

-- Some temperature of the message is below zero.
abbrev pub HasNegative : AllConfig → Type 0
HasNegative m =
    IsNegative m.setpoint
    ⊎ IsNegative m.switching_diff
    ⊎ IsNegative m.internal_offset
    ⊎ IsNegative m.floor_limited
    ⊎ IsNegative m.change_over_temp_heat
    ⊎ IsNegative m.change_over_temp_cool
    ⊎ IsNegative m.switching_diff_cool

pub encode_negative : (m : AllConfig) → HasNegative m → encode m ≡ none
unfolding encode
encode_negative m (inl h) = ground (arith, cast_negative h)
encode_negative m (inr (inl h)) = ground (arith, cast_negative h)
encode_negative m (inr (inr (inl h))) = ground (arith, cast_negative h)
encode_negative m (inr (inr (inr (inl h)))) = ground (arith, cast_negative h)
encode_negative m (inr (inr (inr (inr (inl h))))) = ground (arith, cast_negative h)
encode_negative m (inr (inr (inr (inr (inr (inl h)))))) = ground (arith, cast_negative h)
encode_negative m (inr (inr (inr (inr (inr (inr h)))))) = ground (arith, cast_negative h)

-- The sign bit of some temperature of a payload is set.
abbrev pub SignBit : List ℕ → Type 0
SignBit p =
    (128 ≤ byte_at p 0)
    ⊎ (128 ≤ byte_at p 8)
    ⊎ (128 ≤ byte_at p 12)
    ⊎ (128 ≤ byte_at p 14)
    ⊎ (128 ≤ byte_at p 46)
    ⊎ (128 ≤ byte_at p 48)
    ⊎ (128 ≤ byte_at p 50)

-- What `decode` puts into the temperatures
decode_readings :
    (f : Frame) (m : AllConfig)
    → decode f ≡ some m
    → let p = f.payload in
      (reading p 0 ≡ m.setpoint)
      × (reading p 8 ≡ m.switching_diff)
      × (reading p 12 ≡ m.internal_offset)
      × (reading p 14 ≡ m.floor_limited)
      × (reading p 46 ≡ m.change_over_temp_heat)
      × (reading p 48 ≡ m.change_over_temp_cool)
      × (reading p 50 ≡ m.switching_diff_cool)
unfolding decode
decode_readings f m e = ground arith

-- A frame of bytes that decodes to a configuration block, and in which one of the seven temperatures
-- has its sign bit set, decodes to a message whose encoding casts a negative float to uint16_t,
-- which is undefined.
pub encode-decode_negative :
    (f : Frame) (m : AllConfig)
    → All (λ b. b < 256) f.payload
    → decode f ≡ some m
    → SignBit f.payload
    → encode m ≡ none
encode-decode_negative f m bytes e bit = encode_negative m (below bit)
  where
    sign : {x : Float} (i : ℕ) → reading f.payload i ≡ x → 128 ≤ byte_at f.payload i → IsNegative x
    sign i r h = subst IsNegative r (IsNegative-at f.payload i bytes h)

    below : SignBit f.payload → HasNegative m
    below (inl h) = inl (sign 0 (decode_readings f m e).0 h)
    below (inr (inl h)) = inr (inl (sign 8 (decode_readings f m e).1 h))
    below (inr (inr (inl h))) = inr (inr (inl (sign 12 (decode_readings f m e).2 h)))
    below (inr (inr (inr (inl h)))) = inr (inr (inr (inl (sign 14 (decode_readings f m e).3 h))))
    below (inr (inr (inr (inr (inl h))))) =
        inr (inr (inr (inr (inl (sign 46 (decode_readings f m e).4 h)))))
    below (inr (inr (inr (inr (inr (inl h)))))) =
        inr (inr (inr (inr (inr (inl (sign 48 (decode_readings f m e).5 h))))))
    below (inr (inr (inr (inr (inr (inr (h))))))) =
        inr (inr (inr (inr (inr (inr ((sign 50 (decode_readings f m e).6 h)))))))
