-- ===== src/Message/DisplayUnit.antt =====
-- include/messages/display_unit.hpp: class DisplayUnit, the display unit. Unknown bytes are kept, so a
-- `Value` is a byte.
use unilux_uart.Common.{ℕ, Option}
use unilux_uart.Wmmm.{Frame}
use unilux_uart.Message.{when_size, encode_byte, read_byte}
use unilux_uart.Common.{List, some, none, ◌==◌, if◌then◌else◌}
use unilux_uart.Text.{codes, snprintf}
use unilux_uart.Message.{get_text, byte_text}

abbrev pub id : ℕ
id = 0x2C

abbrev pub payload_size : ℕ
payload_size = 4

-- enum class Value : uint8_t
abbrev pub Value : Type 0
Value = ℕ

abbrev pub celsius : Value
celsius = 2

abbrev pub fahrenheit : Value
fahrenheit = 3

pub record DisplayUnit : Type 0 where
  pub value : Value

-- Frame encode() const
unfoldable pub encode : DisplayUnit → Frame
unfolding encode_byte
encode m = encode_byte id m.value

-- static std::optional<DisplayUnit> decode(const Frame &frame)
unfoldable pub decode : Frame → Option DisplayUnit
unfolding read_byte
decode frame = when_size frame payload_size (record { value = read_byte frame })

-- `switch (value)` of to_string: the text of a known value
pub name_of : Value → Option (List ℕ)
name_of value =
    if value == celsius
    then some (codes "DisplayUnit(C)")
    else if value == fahrenheit
    then some (codes "DisplayUnit(F)")
    else none

-- What to_string prints, before the cut
unfoldable pub text : DisplayUnit → List ℕ
unfolding name_of
text m = get_text (name_of m.value) (byte_text "DisplayUnit(0x" m.value)

-- std::string to_string() const
unfoldable pub to_string : DisplayUnit → List ℕ
unfolding name_of snprintf
to_string m = get_text (name_of m.value) (snprintf 24 (byte_text "DisplayUnit(0x" m.value))
