-- ===== src/UniluxUart/Component/Receive.antt =====
-- esphome/components/unilux_uart/unilux_uart.cpp: the receive loop visits the messages that were sent.
use unilux_uart.Common.{ℕ, ◌≡◌, refl, ◌∙◌, Option, none, some, List, [], ◌∷◌, ◌++◌, map, arith, All}
use unilux_uart.Float.{Float}
use unilux_uart.Aup
use unilux_uart.Aup.{consume, consume_all, emit, IsIdle}
use unilux_uart.Messages.{AnyMessage}
use unilux_uart.Messages.RoundTrip.{IsOnWire}
use unilux_uart.UniluxUart.Send.{send_all}
use unilux_uart.UniluxUart.Send.Device.{typed_message, typed_message-send_all}
use unilux_uart.UniluxUart.Component.{
  Component, Event, visit, visit_typed, log_frame, log_completed, loop,
}

module _ {Name : Type 0} (published : Float → Float → Float) where
  -- Messages visited one after the other
  unfoldable pub visit_all :
      List (Option AnyMessage) → Component Name → Component Name × List (Event Name)
  visit_all [] c = (c, [])
  visit_all (m ∷ ms) c =
      let (c1, es) = visit_typed published m c in let (c2, es2) = visit_all ms c1 in (c2, es ++ es2)

  -- A component with another decoder
  abbrev pub with_decoder :
      Aup.Decoder → Component Name × List (Event Name) → Component Name × List (Event Name)
  with_decoder d (c, es) = (record c { decoder = d }, es)

  -- No message reaches the decoder.
  visit_keeps :
      (m : AnyMessage) (d : Aup.Decoder) (c : Component Name)
      → visit published m (record c { decoder = d }) ≡ with_decoder d (visit published m c)
  unfolding visit
  visit_keeps (AnyMessage.temperature m) d c = ground arith
  visit_keeps (AnyMessage.target_temperature m) d c = ground arith
  visit_keeps (AnyMessage.mode m) d c = ground arith
  visit_keeps (AnyMessage.power m) d c = ground arith
  visit_keeps (AnyMessage.fan_speed m) d c = ground arith
  visit_keeps _ d c = refl

  visit_typed_keeps :
      (m : Option AnyMessage) (d : Aup.Decoder) (c : Component Name)
      → visit_typed published m (record c { decoder = d })
        ≡ with_decoder d (visit_typed published m c)
  visit_typed_keeps none d c = refl
  visit_typed_keeps (some m) d c = visit_keeps m d c

  visit_all_keeps :
      (ms : List (Option AnyMessage)) (d : Aup.Decoder) (c : Component Name)
      → visit_all ms (record c { decoder = d }) ≡ with_decoder d (visit_all ms c)
  unfolding visit_all
  visit_all_keeps [] d c = refl
  visit_all_keeps (m ∷ ms) d c =
      rw (visit_typed_keeps m d c, visit_all_keeps ms d (visit_typed published m c).0) refl

  -- The state and the events after a byte that completed `frame`, if it did, and the bytes after it
  abbrev go_on : Option Aup.Frame → List ℕ → Component Name → Component Name × List (Event Name)
  go_on frame bytes c =
      let (c1, es) = log_completed published frame c in
      let (c2, es2) = loop published bytes c1 in (c2, es ++ es2)

  abbrev Visits : List ℕ → Component Name → Type 0
  Visits bytes c =
      loop published bytes c
      ≡ with_decoder (consume_all c.decoder bytes).0
          (visit_all (map typed_message (consume_all c.decoder bytes).1) c)

  go_on_lem :
      (frame : Option Aup.Frame) (d : Aup.Decoder) (bytes : List ℕ) (c : Component Name)
      → ((c1 : Component Name) → Visits bytes c1)
      → let r = emit frame (consume_all d bytes) in
        go_on frame bytes (record c { decoder = d })
        ≡ with_decoder r.0 (visit_all (map typed_message r.1) c)
  unfolding visit_all log_frame
  go_on_lem none d bytes c later =
      let ms = map typed_message (consume_all d bytes).1 in
      rw (later (record c { decoder = d }), visit_all_keeps ms d c) refl
  go_on_lem (some frame) d bytes c later =
      let ms = map typed_message (consume_all d bytes).1 in
      let (c1, es) = visit_typed published (typed_message frame) c in
      rw (visit_typed_keeps (typed_message frame) d c, later (record c1 { decoder = d }))
        (rw (visit_all_keeps ms d c1) refl)

  pub loop_lem : (bytes : List ℕ) (c : Component Name) → Visits bytes c
  unfolding visit_all consume_all loop
  loop_lem [] c = refl
  loop_lem (byte ∷ bytes) c =
      let (d, frame) = consume c.decoder byte in go_on_lem frame d bytes c (loop_lem bytes)

-- The bytes of messages whose fields are what the wire carries, written by `send_all`, make the
-- `loop` of a component whose decoder is idle visit exactly those messages, in order: apart from the
-- decoder, the state and the calls are those of the visits. `published` may do anything.
pub loop-send_all :
    {Name : Type 0} (published : Float → Float → Float) (c : Component Name) (ms : List AnyMessage)
    → IsIdle c.decoder
    → All IsOnWire ms
    → (bytes : List ℕ) × (send_all ms ≡ some bytes)
      × (d : Aup.Decoder) × (loop published bytes c
          ≡ with_decoder published d (visit_all published (map some ms) c))
loop-send_all published c ms idle h =
    let (bytes, written, read) = typed_message-send_all c.decoder ms idle h in
    (bytes, written, (consume_all c.decoder bytes).0, loop_lem published bytes c ∙ rw read refl)
