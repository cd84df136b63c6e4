-- ===== src/Messages/Tests.antt =====
-- src/messages.cpp: a configuration block on its way to the wire and back, and frames to dispatch.
use unilux_uart.Common.{◌≡◌, refl, arith, [], ◌∷◌, none, some}
use unilux_uart.Common.Int.{negsuc}
use unilux_uart.Float.{int16_of_uint16}
use unilux_uart.Float.Tenths.{tenths}
use unilux_uart.Utils.{from_be16}
use unilux_uart.Wmmm.{Frame}
use unilux_uart.Message.{frame_of}
use unilux_uart.Message.TemperatureOffset
use unilux_uart.Messages.{AnyMessage, decode_message, encode, to_string}
use unilux_uart.Messages.Printed.{text, to_string-decode_message}
use unilux_uart.Messages.Shown.{shown, to_string-shown}
use unilux_uart.Text.{codes, decimal, with_point}
use unilux_uart.Messages.Again.{encode-decode_message}
use unilux_uart.Common.Bytes.{bytes_lem}
use unilux_uart.Messages.Dispatch.{table, Agrees, decode_message-Agrees}
use unilux_uart.Messages.RoundTrip.{IsOnWire, RoundTrips, decode_message-encode}

abbrev offset : AnyMessage
offset = AnyMessage.temperature_offset (record { value = tenths (negsuc 14) })

offset_run : decode_message (frame_of 0x56 (0xFF ∷ 0xF1 ∷ 0 ∷ 0 ∷ [])) ≡ some offset
unfolding decode_message TemperatureOffset.decode from_be16 int16_of_uint16
offset_run = refl

unknown_run : decode_message (frame_of 0x77 (0 ∷ 0 ∷ 0 ∷ 0 ∷ [])) ≡ none
unfolding decode_message
unknown_run = refl

offset-IsOnWire : IsOnWire offset
offset-IsOnWire = record { wire = negsuc 14; fits = omega arith; is_wire = refl }

decode_message-encode_example : RoundTrips offset
decode_message-encode_example = decode_message-encode offset offset-IsOnWire

-- A known id with a payload that is too long
decode_message-Agrees_example :
    let f = frame_of 0x56 (0xFF ∷ 0xF1 ∷ 0 ∷ 0 ∷ 0 ∷ []) in Agrees table f (decode_message f)
decode_message-Agrees_example = decode_message-Agrees (frame_of 0x56 (0xFF ∷ 0xF1 ∷ 0 ∷ 0 ∷ 0 ∷ []))

-- Bytes behind the setting are lost.
abbrev padded : Frame
padded = record { msg_id = 0x56; reserved = (1, 2, 3); payload = 0xFF ∷ 0xF1 ∷ 7 ∷ 8 ∷ [] }

padded_run : decode_message padded ≡ some offset
unfolding decode_message TemperatureOffset.decode from_be16 int16_of_uint16
padded_run = refl

encode-decode_message_example : encode offset ≡ some (frame_of 0x56 (0xFF ∷ 0xF1 ∷ 0 ∷ 0 ∷ []))
encode-decode_message_example =
    encode-decode_message padded offset refl (bytes_lem padded.payload refl) padded_run

to_string-decode_message_example : to_string offset ≡ text offset
to_string-decode_message_example =
    to_string-decode_message padded offset (bytes_lem padded.payload refl) padded_run

-- A frame that reads -1.5 degrees is logged as such.
to_string-shown_example : to_string offset ≡ codes "TemperatureOffset(-1.5)"
unfolding shown with_point decimal from_be16 int16_of_uint16
to_string-shown_example = to_string-shown padded offset (bytes_lem padded.payload refl) padded_run
