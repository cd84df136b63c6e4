-- ===== src/Message/SwitchingDiffHeat.antt =====
-- include/messages/switching_diff_heat.hpp: class SwitchingDiffHeat, the heating differential.
use unilux_uart.Common.{ℕ, Option}
use unilux_uart.Wmmm.{Frame}
use unilux_uart.Float.{Float}
use unilux_uart.Message.{when_size, encode_scalar, read_scalar}
use unilux_uart.Common.{List}
use unilux_uart.Text.{snprintf}
use unilux_uart.Message.{scalar_text}

abbrev pub id : ℕ
id = 0x58

abbrev pub payload_size : ℕ
payload_size = 4

pub record SwitchingDiffHeat : Type 0 where
  pub value : Float

-- Frame encode() const
unfoldable pub encode : SwitchingDiffHeat → Option Frame
unfolding encode_scalar
encode m = encode_scalar id m.value

-- static std::optional<SwitchingDiffHeat> decode(const Frame &frame)
unfoldable pub decode : Frame → Option SwitchingDiffHeat
unfolding read_scalar
decode frame = when_size frame payload_size (record { value = read_scalar frame })

-- What to_string prints, before the cut
abbrev pub text : SwitchingDiffHeat → List ℕ
text m = scalar_text "SwitchingDiffHeat(" m.value

-- std::string to_string() const
unfoldable pub to_string : SwitchingDiffHeat → List ℕ
unfolding snprintf
to_string m = snprintf 40 (text m)
