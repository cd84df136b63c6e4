-- ===== src/Message/Power.antt =====
-- include/messages/power.hpp: class Power, the power state.
use unilux_uart.Common.{ℕ, Bool, not, Option, ◌==◌, if◌then◌else◌}
use unilux_uart.Wmmm.{Frame}
use unilux_uart.Message.{when_size, encode_byte, read_byte}
use unilux_uart.Common.{List}
use unilux_uart.Text.{codes}

abbrev pub id : ℕ
id = 0x21

abbrev pub payload_size : ℕ
payload_size = 4

pub record Power : Type 0 where
  pub on : Bool

-- Frame encode() const
unfoldable pub encode : Power → Frame
unfolding encode_byte
encode m = encode_byte id (if m.on then 1 else 0)

-- static std::optional<Power> decode(const Frame &frame)
unfoldable pub decode : Frame → Option Power
unfolding read_byte
decode frame = when_size frame payload_size (record { on = not (read_byte frame == 0) })

-- std::string to_string() const
unfoldable pub to_string : Power → List ℕ
to_string m = if m.on then codes "Power(on)" else codes "Power(off)"
