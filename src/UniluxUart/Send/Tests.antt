-- ===== src/UniluxUart/Send/Tests.antt =====
-- esphome/components/unilux_uart/unilux_uart.cpp: the bytes of a message.
use unilux_uart.Common.{ℕ, ◌≡◌, refl, arith, List, [], ◌∷◌, some}
use unilux_uart.Aup
use unilux_uart.Wmmm
use unilux_uart.Message.Mode
use unilux_uart.Messages.{AnyMessage, encode}
use unilux_uart.UniluxUart.Send.{send_message}
use unilux_uart.UniluxUart.Send.Bytes.{IsSent, send_message-IsSent}

abbrev cool : AnyMessage
cool = AnyMessage.mode (record { value = Mode.cool })

abbrev on_wire : List ℕ
on_wire = 0x5A ∷ 0x9E ∷ 0 ∷ 0 ∷ 0x01 ∷ 0x10 ∷ 0 ∷ 8 ∷ 0x5C ∷ 0 ∷ 0 ∷ 0 ∷ 1 ∷ 0 ∷ 0 ∷ 0 ∷ []

cool_run : send_message cool ≡ some on_wire
unfolding send_message encode Mode.encode Aup.encode Wmmm.encode
cool_run = refl

send_message-IsSent_example : IsSent 4 on_wire
send_message-IsSent_example = send_message-IsSent cool on_wire (omega arith) cool_run
