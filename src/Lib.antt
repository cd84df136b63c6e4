-- ===== src/Lib.antt =====
-- A verification library for unilux-uart, the C++ library for the AUP/WMMM protocol that a thermostat
-- speaks over a UART, and its ESPHome component.
--
-- The parts, from the wire up:
--   Utils       include/utils.hpp: from_be16, to_be16, from_be32, to_be32. A buffer is a list of bytes
--               and a pointer into it an offset.
--   Aup         include/aup.hpp, src/aup.cpp: the AUP frame, Decoder::consume as a function from a
--               decoder and a byte to the decoder afterwards and perhaps a frame, Encoder::encode.
--               Aup.consume_all calls consume for each of the bytes.
--   Wmmm        include/wmmm.hpp, src/wmmm.cpp: the WMMM frame inside an AUP payload.
--   Float       the binary32 arithmetic of the message classes.
--   Text        the part of std::snprintf that to_string uses: %u, %02X, %.1f, %s and the cut at the
--               end of the buffer.
--   Message     include/message.hpp, include/messages/: one module for each of the fourteen classes,
--               with its ID, PAYLOAD_SIZE, fields, encode, decode and to_string. What several classes write
--               alike is in Message itself (encode_pair, encode_scalar, encode_byte and the reads).
--   Messages    include/messages.hpp, src/messages.cpp: the variant AnyMessage and decode_message.
--   UniluxUart  esphome/components/unilux_uart/unilux_uart.h and unilux_uart.cpp. Modes has the maps
--               between the device's modes and ESPHome's, Send the transmit path (send_message and
--               the settings), Climate, Number and Select the entities, Component the setters, the
--               receive loop (loop, log_frame_) and the rebroadcast (setup, sync_iteration_), and
--               System the component with a device at the other end of the UART, which System.Boot
--               starts. System.Panel has the scalar settings of the device, System.Transcript the
--               messages that calls stand for. Configuration has the tables and to_code of
--               esphome/components/unilux_uart/__init__.py.
--   Common      Boolean tests, lists measured by native numbers, bits, integers.
--
-- Component calls Aup, Wmmm and Messages on received bytes and then the entities. The entities call
-- send_message, which goes the way back: a message, its WMMM frame, an AUP frame, bytes. A handler of
-- an entity is a function from its fields to its fields and the list of the calls that it makes.
--
-- Bytes and the fixed-width integers are natural numbers. Where the code can wrap around the
-- remainder is written out (Decoder::read_, frame.length, the casts to uint8_t and uint16_t).
-- A decoder that was never reset has uninitialised header fields, so the theorems on idle decoders
-- leave them arbitrary.
--
-- A float is a sign and a magnitude in units of 2 ^ -149, an infinity or a NaN; `*`, `/` and the
-- conversion of an integer are computed exactly and rounded to nearest, ties to even. The scaling of
-- Float.round counts binary digits with fuel 512, which is enough since products and quotients of
-- finite floats are below 2 ^ 432. A cast of a float that does not fit its integer type is undefined
-- in C++: the casts and every `encode` that uses one return `none` there.
--
-- A text is the list of its bytes. The digits of %u are written with fuel 40, enough below 10 ^ 40,
-- which holds of every value printed: %u prints integers of at most 32 bits, and the integer part of
-- a binary32 number printed by %.1f is below 2 ^ 128. The sign of a printed NaN is not modelled.
--
-- The loops over days, entries and string bytes run over the rounds that are left, the others over a
-- list, so none needs fuel.
--
-- ESPHome itself is not in the repository. What restore_state_ and the preferences return is an
-- argument, Number::publish_state a parameter, select::Select the interface Select.SelectApi with the
-- laws Select.IsLawful, and the enumerators of ClimateMode and ClimateFanMode that the component does
-- not name are one constructor. A `publish_state` of the climate entity is an event that holds the
-- published fields. The `apply` of a restored state is a function on the fields that the base class
-- declares, and it publishes what it has set, as ESPHome documents, which is an event of its own.
--
-- The device in UniluxUart.System is not code of the repository: it runs the repository's decoders on
-- the bytes that it gets and keeps what the messages for the climate entity set. What Home Assistant
-- shows of the climate entity is the last publication (System.display). The timer of
-- Component.Setup calls sync_iteration_ once a period until the timer is cancelled, as ESPHome
-- documents set_interval and cancel_interval.
--
-- A configuration is a function that says which of its keys are disabled. What to_code generates is
-- the list of the setter calls. The validation of a configuration and the entities' names are
-- ESPHome's, and so are the limits that number::Number and the climate entity's traits set on values.
--
-- Not modelled: the log lines and dump_config, which only log, the schemas of the Python
-- configuration, which ESPHome interprets, the unit tests.
pub mod Aup
pub mod Common
pub mod Float
pub mod Message
pub mod Messages
pub mod Text
pub mod UniluxUart
pub mod Utils
pub mod Wmmm
