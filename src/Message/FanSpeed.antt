-- ===== src/Message/FanSpeed.antt =====
-- include/messages/fan_speed.hpp: class FanSpeed, the fan speed. Unknown bytes are kept, so a
-- `Value` is a byte.
use unilux_uart.Common.{ℕ, Option}
use unilux_uart.Wmmm.{Frame}
use unilux_uart.Message.{when_size, encode_byte, read_byte}
use unilux_uart.Common.{List, some, none, ◌==◌, if◌then◌else◌}
use unilux_uart.Text.{codes, snprintf}
use unilux_uart.Message.{get_text, byte_text}

abbrev pub id : ℕ
id = 0x22

abbrev pub payload_size : ℕ
payload_size = 4

-- enum class Value : uint8_t
abbrev pub Value : Type 0
Value = ℕ

abbrev pub auto : Value
auto = 0

abbrev pub low : Value
low = 1

abbrev pub medium : Value
medium = 2

abbrev pub high : Value
high = 3

abbrev pub off : Value
off = 4

pub record FanSpeed : Type 0 where
  pub value : Value

-- Frame encode() const
unfoldable pub encode : FanSpeed → Frame
unfolding encode_byte
encode m = encode_byte id m.value

-- static std::optional<FanSpeed> decode(const Frame &frame)
unfoldable pub decode : Frame → Option FanSpeed
unfolding read_byte
decode frame = when_size frame payload_size (record { value = read_byte frame })

-- `switch (value)` of to_string: the text of a known value
pub name_of : Value → Option (List ℕ)
name_of value =
    if value == auto
    then some (codes "FanSpeed(auto)")
    else if value == low
    then some (codes "FanSpeed(low)")
    else if value == medium
    then some (codes "FanSpeed(medium)")
    else if value == high
    then some (codes "FanSpeed(high)")
    else if value == off
    then some (codes "FanSpeed(off)")
    else none

-- What to_string prints, before the cut
unfoldable pub text : FanSpeed → List ℕ
unfolding name_of
text m = get_text (name_of m.value) (byte_text "FanSpeed(0x" m.value)

-- std::string to_string() const
unfoldable pub to_string : FanSpeed → List ℕ
unfolding name_of snprintf
to_string m = get_text (name_of m.value) (snprintf 28 (byte_text "FanSpeed(0x" m.value))
