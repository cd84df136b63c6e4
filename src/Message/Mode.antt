-- ===== src/Message/Mode.antt =====
-- include/messages/mode.hpp: class Mode, the HVAC mode. Unknown bytes are kept, so a
-- `Value` is a byte.
use unilux_uart.Common.{ℕ, Option}
use unilux_uart.Wmmm.{Frame}
use unilux_uart.Message.{when_size, encode_byte, read_byte}
use unilux_uart.Common.{List, some, none, ◌==◌, if◌then◌else◌}
use unilux_uart.Text.{codes, snprintf}
use unilux_uart.Message.{get_text, byte_text}

abbrev pub id : ℕ
id = 0x5C

abbrev pub payload_size : ℕ
payload_size = 4

-- enum class Value : uint8_t
abbrev pub Value : Type 0
Value = ℕ

abbrev pub heat : Value
heat = 0

abbrev pub cool : Value
cool = 1

abbrev pub auto : Value
auto = 2

pub record Mode : Type 0 where
  pub value : Value

-- Frame encode() const
unfoldable pub encode : Mode → Frame
unfolding encode_byte
encode m = encode_byte id m.value

-- static std::optional<Mode> decode(const Frame &frame)
unfoldable pub decode : Frame → Option Mode
unfolding read_byte
decode frame = when_size frame payload_size (record { value = read_byte frame })

-- `switch (value)` of to_string: the text of a known value
pub name_of : Value → Option (List ℕ)
name_of value =
    if value == heat
    then some (codes "Mode(heat)")
    else if value == cool
    then some (codes "Mode(cool)")
    else if value == auto
    then some (codes "Mode(auto)")
    else none

-- What to_string prints, before the cut
unfoldable pub text : Mode → List ℕ
unfolding name_of
text m = get_text (name_of m.value) (byte_text "Mode(0x" m.value)

-- std::string to_string() const
unfoldable pub to_string : Mode → List ℕ
unfolding name_of snprintf
to_string m = get_text (name_of m.value) (snprintf 24 (byte_text "Mode(0x" m.value))
