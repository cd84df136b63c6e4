-- ===== src/Message/TargetTemperature.antt =====
-- include/messages/target_temperature.hpp: class TargetTemperature, two setpoints.
use unilux_uart.Common.{ℕ, Option}
use unilux_uart.Wmmm.{Frame}
use unilux_uart.Float.{Float}
use unilux_uart.Message.{when_size, encode_pair, read_pair}
use unilux_uart.Common.{List, [], ◌∷◌}
use unilux_uart.Text.{codes, fixed, snprintf}
use unilux_uart.Common.{join}

abbrev pub id : ℕ
id = 0x2A

abbrev pub payload_size : ℕ
payload_size = 4

pub record TargetTemperature : Type 0 where
  pub t1 : Float
  pub t2 : Float

-- Frame encode() const
unfoldable pub encode : TargetTemperature → Option Frame
unfolding encode_pair
encode m = encode_pair id m.t1 m.t2

-- static std::optional<TargetTemperature> decode(const Frame &frame)
unfoldable pub decode : Frame → Option TargetTemperature
unfolding read_pair
decode frame =
    when_size frame payload_size (record { t1 = (read_pair frame).0; t2 = (read_pair frame).1 })

-- What to_string prints, before the cut
abbrev pub text : TargetTemperature → List ℕ
text m =
    join (codes "TargetTemperature(t1=" ∷ fixed m.t1 ∷ codes ", t2=" ∷ fixed m.t2 ∷ codes ")" ∷ [])

-- std::string to_string() const
unfoldable pub to_string : TargetTemperature → List ℕ
unfolding snprintf
to_string m = snprintf 64 (text m)
