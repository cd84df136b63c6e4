-- ===== src/UniluxUart/Send.antt =====
-- esphome/components/unilux_uart/unilux_uart.cpp: what the component writes to the UART.
pub mod Device
pub mod Settings
pub mod Bytes
mod Tests
use unilux_uart.Common.{
  ℕ, ◌%◌, ◌^◌, List, [], ◌++◌, ◌∷◌, Option, some, ◌==◌, if◌then◌else◌, length, ◌>>=◌,
}
use unilux_uart.Float.{Float}
use unilux_uart.Aup
use unilux_uart.Wmmm
use unilux_uart.Message.TemperatureOffset
use unilux_uart.Message.SwitchingDiffHeat
use unilux_uart.Message.SwitchingDiffCool
use unilux_uart.Message.ChangeoverHeat
use unilux_uart.Message.ChangeoverCool
use unilux_uart.Message.SystemMode
use unilux_uart.Message.DisplayUnit
use unilux_uart.Messages.{AnyMessage, encode}

abbrev pub aup_tx_checksum : ℕ
aup_tx_checksum = 0x00

abbrev pub aup_tx_flag : ℕ
aup_tx_flag = 0x00

abbrev pub aup_tx_type : ℕ
aup_tx_type = 0x01

abbrev pub aup_tx_command : ℕ
aup_tx_command = 0x10

-- The AUP frame of `send_message` around the bytes of a WMMM frame
abbrev pub aup_frame : List ℕ → Aup.Frame
aup_frame wmmm_bytes = record {
  checksum = aup_tx_checksum;
  flag = aup_tx_flag;
  type = aup_tx_type;
  command = aup_tx_command;
  length = length wmmm_bytes % 2 ^ 16;
  payload = wmmm_bytes;
}

-- void send_message(const unilux::Message &msg): the bytes given to `write_array`; `none` is an
-- undefined cast.
unfoldable pub send_message : AnyMessage → Option (List ℕ)
send_message msg = do frame ← encode msg; some (Aup.encode (aup_frame (Wmmm.encode frame)))

-- void send_temperature_setting(uint8_t msg_id, float value); an unknown id writes nothing.
unfoldable pub send_temperature_setting : ℕ → Float → Option (List ℕ)
send_temperature_setting msg_id value =
    if msg_id == TemperatureOffset.id
    then send_message (AnyMessage.temperature_offset (record { value = value }))
    else if msg_id == SwitchingDiffHeat.id
    then send_message (AnyMessage.switching_diff_heat (record { value = value }))
    else if msg_id == SwitchingDiffCool.id
    then send_message (AnyMessage.switching_diff_cool (record { value = value }))
    else if msg_id == ChangeoverHeat.id
    then send_message (AnyMessage.changeover_heat (record { value = value }))
    else if msg_id == ChangeoverCool.id
    then send_message (AnyMessage.changeover_cool (record { value = value }))
    else some []

-- void send_byte_setting(uint8_t msg_id, uint8_t value)
unfoldable pub send_byte_setting : ℕ → ℕ → Option (List ℕ)
send_byte_setting msg_id value =
    if msg_id == SystemMode.id
    then send_message (AnyMessage.system_mode (record { value = value }))
    else if msg_id == DisplayUnit.id
    then send_message (AnyMessage.display_unit (record { value = value }))
    else some []

-- Calls of `send_message` in a row
unfoldable pub send_all : List AnyMessage → Option (List ℕ)
send_all [] = some []
send_all (msg ∷ msgs) = do bytes ← send_message msg; more ← send_all msgs; some (bytes ++ more)
