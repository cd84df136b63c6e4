-- ===== src/Message/SystemMode.antt =====
-- include/messages/system_mode.hpp: class SystemMode, the plant type. Unknown bytes are kept, so a
-- `Value` is a byte.
use unilux_uart.Common.{ℕ, Option}
use unilux_uart.Wmmm.{Frame}
use unilux_uart.Message.{when_size, encode_byte, read_byte}
use unilux_uart.Common.{List, some, none, ◌==◌, if◌then◌else◌}
use unilux_uart.Text.{codes, snprintf}
use unilux_uart.Message.{get_text, byte_text}

abbrev pub id : ℕ
id = 0x23

abbrev pub payload_size : ℕ
payload_size = 4

-- enum class Value : uint8_t
abbrev pub Value : Type 0
Value = ℕ

abbrev pub two_pipe : Value
two_pipe = 0

abbrev pub four_pipe : Value
four_pipe = 1

abbrev pub two_pipe_auto : Value
two_pipe_auto = 2

abbrev pub two_pipe_heat : Value
two_pipe_heat = 3

pub record SystemMode : Type 0 where
  pub value : Value

-- Frame encode() const
unfoldable pub encode : SystemMode → Frame
unfolding encode_byte
encode m = encode_byte id m.value

-- static std::optional<SystemMode> decode(const Frame &frame)
unfoldable pub decode : Frame → Option SystemMode
unfolding read_byte
decode frame = when_size frame payload_size (record { value = read_byte frame })

-- `switch (value)` of to_string: the text of a known value
pub name_of : Value → Option (List ℕ)
name_of value =
    if value == two_pipe
    then some (codes "SystemMode(2-pipe)")
    else if value == four_pipe
    then some (codes "SystemMode(4-pipe)")
    else if value == two_pipe_auto
    then some (codes "SystemMode(2-pipe auto)")
    else if value == two_pipe_heat
    then some (codes "SystemMode(2-pipe heat)")
    else none

-- What to_string prints, before the cut
unfoldable pub text : SystemMode → List ℕ
unfolding name_of
text m = get_text (name_of m.value) (byte_text "SystemMode(0x" m.value)

-- std::string to_string() const
unfoldable pub to_string : SystemMode → List ℕ
unfolding name_of snprintf
to_string m = get_text (name_of m.value) (snprintf 24 (byte_text "SystemMode(0x" m.value))
