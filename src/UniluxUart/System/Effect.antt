-- ===== src/UniluxUart/System/Effect.antt =====
-- esphome/components/unilux_uart/unilux_uart.cpp: what the bytes that the component writes do to the
-- device that receives them.
use unilux_uart.Common.{
  ℕ, ◌≡◌, refl, sym, ap, ◌∙◌, Option, none, some, List, [], ◌∷◌, ◌++◌, map, All, append_assoc,
}
use unilux_uart.Aup.{consume_all, IsIdle}
use unilux_uart.Aup.Resync.{consume_all-append}
use unilux_uart.Messages.{AnyMessage}
use unilux_uart.Messages.RoundTrip.{IsOnWire}
use unilux_uart.UniluxUart.Send.{send_message}
use unilux_uart.UniluxUart.Send.Device.{typed_message}
use unilux_uart.UniluxUart.Climate
use unilux_uart.UniluxUart.Climate.Mirror.{Device, receive, receive_all}
use unilux_uart.UniluxUart.Component.{Event, climate_event}
use unilux_uart.UniluxUart.System.Transcript.{Transcript, Transcript-message, typed-append}
use unilux_uart.UniluxUart.System.{Peer, receive_typed, deliver, written, written_all, written_both}

receive_typed-append :
    (ms ns : List (Option AnyMessage)) (d : Device)
    → receive_typed (ms ++ ns) d ≡ receive_typed ns (receive_typed ms d)
receive_typed-append [] ns d = refl
receive_typed-append (none ∷ ms) ns d = receive_typed-append ms ns d
receive_typed-append (some m ∷ ms) ns d = receive_typed-append ms ns (receive d m)

deliver-append : (xs ys : List ℕ) (p : Peer) → deliver (xs ++ ys) p ≡ deliver ys (deliver xs p)
unfolding deliver
deliver-append xs ys p =
    let (d1, fs) = consume_all p.decoder xs in
    let (d2, gs) = consume_all d1 ys in
    rw (consume_all-append p.decoder xs ys) (
      rw
        (
          typed-append fs gs,
          receive_typed-append (map typed_message fs) (map typed_message gs) p.device,
        )
        refl)

-- Bytes are written, and a device whose decoder is idle is changed by `f`.
unfoldable pub Does : Option (List ℕ) → (Device → Device) → Type 0
Does out f =
    (bytes : List ℕ) × (out ≡ some bytes)
    × ((p : Peer)
        → IsIdle p.decoder
        → IsIdle (deliver bytes p).decoder × ((deliver bytes p).device ≡ f p.device))

pub Does-nothing : Does (some []) (λ d. d)
unfolding Does deliver consume_all
Does-nothing = ([], refl, λ p idle. (idle, refl))

-- Messages in the bytes change the device one after the other.
pub Does-Transcript :
    (f : Device → Device) (out : Option (List ℕ)) (ms : List AnyMessage)
    → Transcript out ms
    → ((d : Device) → receive_typed (map some ms) d ≡ f d)
    → Does out f
unfolding Does Transcript deliver
Does-Transcript f out ms (bytes, written, reaches) same = (
  bytes,
  written,
  λ p idle.
      let (idle_again, read) = reaches p.decoder idle in
      (idle_again, ap (λ t. receive_typed t p.device) read ∙ same p.device),
)

pub Does-send_message : (m : AnyMessage) → IsOnWire m → Does (send_message m) (λ d. receive d m)
Does-send_message m h =
    Does-Transcript (λ d. receive d m) (send_message m) (m ∷ []) (Transcript-message m h)
      (λ d. refl)

Does-both :
    (f g : Device → Device) (out more : Option (List ℕ))
    → Does out f
    → Does more g
    → Does (written_both out more) (λ d. g (f d))
unfolding Does
Does-both f g out more (xs, wx, ex) (ys, wy, ey) = (
  xs ++ ys,
  rw (wx, wy) refl,
  λ p idle.
      let (idle1, first) = ex p idle in
      let (idle2, second) = ey (deliver xs p) idle1 in
      rw (deliver-append xs ys p) (idle2, second ∙ ap g first),
)

both_nothing : (out : Option (List ℕ)) → written_both (some []) out ≡ out
both_nothing none = refl
both_nothing (some ys) = refl

both_assoc :
    (a b c : Option (List ℕ))
    → written_both a (written_both b c) ≡ written_both (written_both a b) c
both_assoc none b c = refl
both_assoc (some xs) none c = refl
both_assoc (some xs) (some ys) none = refl
both_assoc (some xs) (some ys) (some zs) = ap some (sym (append_assoc xs ys zs))

-- The messages that the climate entity sends are on the wire.
abbrev pub SendFits : Climate.Event → Type 0
SendFits (Climate.send m) = IsOnWire m
SendFits (Climate.publish c) = Unit
SendFits (Climate.publish_restored c) = Unit

module _ (Name : Type 0) where
  -- What calls do to the device
  abbrev pub Effect : List (Event Name) → (Device → Device) → Type 0
  Effect es f = Does (written_all es) f

  pub Effect-nil : Effect [] (λ d. d)
  unfolding written_all
  Effect-nil = Does-nothing

  pub Effect-cons :
      (f g : Device → Device) (e : Event Name) (es : List (Event Name))
      → Does (written e) f
      → Effect es g
      → Effect (e ∷ es) (λ d. g (f d))
  unfolding written_all
  Effect-cons f g e es he hes = Does-both f g (written e) (written_all es) he hes

  written_all-append :
      (es fs : List (Event Name))
      → written_all (es ++ fs) ≡ written_both (written_all es) (written_all fs)
  unfolding written_all
  written_all-append [] fs = sym (both_nothing (written_all fs))
  written_all-append (e ∷ es) fs =
      ap (written_both (written e)) (written_all-append es fs)
      ∙ both_assoc (written e) (written_all es) (written_all fs)

  pub Effect-append :
      (f g : Device → Device) (es fs : List (Event Name))
      → Effect es f
      → Effect fs g
      → Effect (es ++ fs) (λ d. g (f d))
  Effect-append f g es fs he hf =
      rw (written_all-append es fs) (Does-both f g (written_all es) (written_all fs) he hf)

  pub Effect-climate :
      (es : List Climate.Event)
      → All SendFits es
      → Effect (map climate_event es) (λ d. receive_all d es)
  Effect-climate [] h = Effect-nil
  Effect-climate (Climate.send m ∷ es) (h, hs) =
      Effect-cons (λ d. receive d m) (λ d. receive_all d es) (climate_event (Climate.send m))
        (map climate_event es) (Does-send_message m h) (Effect-climate es hs)
  Effect-climate (Climate.publish c ∷ es) (h, hs) =
      Effect-cons (λ d. d) (λ d. receive_all d es) (climate_event (Climate.publish c))
        (map climate_event es) Does-nothing (Effect-climate es hs)
  Effect-climate (Climate.publish_restored c ∷ es) (h, hs) =
      Effect-cons (λ d. d) (λ d. receive_all d es) (climate_event (Climate.publish_restored c))
        (map climate_event es) Does-nothing (Effect-climate es hs)
