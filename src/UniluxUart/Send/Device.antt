-- ===== src/UniluxUart/Send/Device.antt =====
-- esphome/components/unilux_uart/unilux_uart.cpp: a device that runs the same decoders on what
-- `send_message` writes sees the messages.
use unilux_uart.Common.{
  ℕ, ◌≤◌, ◌≡◌, refl, ap, ◌∙◌, arith, List, [], ◌∷◌, ◌++◌, Option, some, length, All, ◌>>=◌, inl,
  inr, map,
}
use unilux_uart.Aup.{Decoder, consume_all, IsIdle, IsWellFormed}
use unilux_uart.Aup
use unilux_uart.Aup.RoundTrip.{Packet, wire, frames, IsClean, consume_all-wire, consume_all-encode}
use unilux_uart.Aup.Run.{fresh}
use unilux_uart.Wmmm
use unilux_uart.Wmmm.RoundTrip.{decode-encode}
use unilux_uart.Messages.{AnyMessage, decode_message}
use unilux_uart.Messages.Dispatch.{table, expected_size, decode_message-Agrees}
use unilux_uart.Messages.RoundTrip.{IsOnWire, decode_message-encode}
use unilux_uart.UniluxUart.Send.{aup_frame, send_message, send_all}

-- What `log_frame_` makes of a frame: the WMMM frame in its payload, as a typed message.
unfoldable pub typed_message : Aup.Frame → Option AnyMessage
typed_message frame = do wmmm ← Wmmm.decode frame.payload; decode_message wmmm

-- The sizes of the table are small.
IsSmall : List (ℕ × ℕ) → Type 0
IsSmall t = All (λ (p : ℕ × ℕ). p.1 ≤ 116) t

table-IsSmall : IsSmall table
unfolding IsSmall
table-IsSmall = ground arith

expected_size-le : (t : List (ℕ × ℕ)) (id n : ℕ) → IsSmall t → expected_size t id ≡ some n → n ≤ 116
unfolding expected_size IsSmall
expected_size-le [] id n h e = cc
expected_size-le ((known, size) ∷ rest) id n (h, hs) e =
    ground (arith, expected_size-le rest id n hs)

length-payload_le :
    (f : Wmmm.Frame) (m : AnyMessage) → decode_message f ≡ some m → length f.payload ≤ 116
length-payload_le f m e = elim (decode_message-Agrees f) [
  | inl (m1, decoded, own, size) ↦
      expected_size-le table f.msg_id (length f.payload) table-IsSmall size
  | inr (refused, wrong) ↦ cc
]

-- One message: the frame in which it is sent
pub sent :
    (m : AnyMessage)
    → IsOnWire m
    → (f : Aup.Frame) × (send_message m ≡ some (Aup.encode f))
      × IsWellFormed f
      × (typed_message f ≡ some m)
unfolding send_message typed_message
sent m h =
    let (w, written, own, read) = decode_message-encode m h in
    let (back, size) = decode-encode w in
    let small = length-payload_le w m read in
    (
      aup_frame (Wmmm.encode w),
      rw written refl,
      record { length_fits = omega arith; length_matches = omega arith },
      rw back read,
    )

-- Messages sent in a row are packets without stray bytes between them.
sent-send_all :
    (ms : List AnyMessage)
    → All IsOnWire ms
    → (ps : List Packet) × (send_all ms ≡ some (wire ps))
      × All IsClean ps
      × (map typed_message (frames ps) ≡ map some ms)
unfolding send_all
sent-send_all [] h = ([], refl, tt, refl)
sent-send_all (m ∷ ms) (h, hs) =
    let (f, written, good, read) = sent m h in
    let (ps, more, clean, rest) = sent-send_all ms hs in
    (
      record { noise = []; frame = f } ∷ ps,
      rw (written, more) refl,
      (record { no_marker = tt; well_formed = good }, clean),
      λ i. read i ∷ rest i,
    )

-- Messages whose fields are what the wire carries are all written, without an undefined cast, and an
-- idle AUP decoder that is fed the bytes returns one frame for each message, in order, whose payload
-- decodes to that message.
pub typed_message-send_all :
    (d : Decoder) (ms : List AnyMessage)
    → IsIdle d
    → All IsOnWire ms
    → (bytes : List ℕ) × (send_all ms ≡ some bytes)
      × (map typed_message (consume_all d bytes).1 ≡ map some ms)
typed_message-send_all d ms idle h =
    let (ps, written, clean, read) = sent-send_all ms h in
    (wire ps, written, ap (map typed_message) (consume_all-wire d ps idle clean) ∙ read)

pub fresh-IsIdle : IsIdle fresh
fresh-IsIdle = record { state_idle = refl; payload_empty = refl; read_zero = refl }

-- The frames that an idle decoder returns for such bytes, and the state in which it ends
pub IsIdle-send_all :
    (d : Decoder) (ms : List AnyMessage)
    → IsIdle d
    → All IsOnWire ms
    → (bytes : List ℕ) × (fs : List Aup.Frame) × (e : Decoder) × (send_all ms ≡ some bytes)
      × (consume_all d bytes ≡ (e, fs))
      × IsIdle e
      × (map typed_message fs ≡ map some ms)
unfolding send_all consume_all
IsIdle-send_all d [] idle h = ([], [], d, refl, refl, idle, refl)
IsIdle-send_all d (m ∷ ms) idle (h, hs) =
    let (f, written, good, read) = sent m h in
    let (bytes, fs, e, more, run, idle1, rest) = IsIdle-send_all fresh ms fresh-IsIdle hs in
    (
      Aup.encode f ++ bytes,
      f ∷ fs,
      e,
      rw (written, more) refl,
      consume_all-encode d f bytes (ground arith) good ∙ rw run refl,
      idle1,
      λ i. read i ∷ rest i,
    )
