-- ===== src/Message/ChangeoverCool.antt =====
-- include/messages/changeover_cool.hpp: class ChangeoverCool, the cooling changeover temperature.
use unilux_uart.Common.{ℕ, Option}
use unilux_uart.Wmmm.{Frame}
use unilux_uart.Float.{Float}
use unilux_uart.Message.{when_size, encode_scalar, read_scalar}
use unilux_uart.Common.{List}
use unilux_uart.Text.{snprintf}
use unilux_uart.Message.{scalar_text}

abbrev pub id : ℕ
id = 0x5E

abbrev pub payload_size : ℕ
payload_size = 4

pub record ChangeoverCool : Type 0 where
  pub value : Float

-- Frame encode() const
unfoldable pub encode : ChangeoverCool → Option Frame
unfolding encode_scalar
encode m = encode_scalar id m.value

-- static std::optional<ChangeoverCool> decode(const Frame &frame)
unfoldable pub decode : Frame → Option ChangeoverCool
unfolding read_scalar
decode frame = when_size frame payload_size (record { value = read_scalar frame })

-- What to_string prints, before the cut
abbrev pub text : ChangeoverCool → List ℕ
text m = scalar_text "ChangeoverCool(" m.value

-- std::string to_string() const
unfoldable pub to_string : ChangeoverCool → List ℕ
unfolding snprintf
to_string m = snprintf 40 (text m)
