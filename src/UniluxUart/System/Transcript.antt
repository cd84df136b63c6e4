-- ===== src/UniluxUart/System/Transcript.antt =====
-- esphome/components/unilux_uart/unilux_uart.cpp: the bytes that calls write are a channel of messages.
use unilux_uart.Common.{
  ℕ, ◌<◌, ◌≡◌, refl, sym, ap, ◌∙◌, subst, arith, Bool, true, false, if◌then◌else◌, Option, some,
  List, [], ◌∷◌, ◌++◌, map, All, ◌==◌, append-nil,
}
use unilux_uart.Float.{Float}
use unilux_uart.Aup
use unilux_uart.Aup.{consume_all, IsIdle}
use unilux_uart.Aup.Run.{fresh}
use unilux_uart.Aup.Resync.{consume_all-append}
use unilux_uart.Aup.RoundTrip.{consume_all-encode}
use unilux_uart.Message.TemperatureOffset
use unilux_uart.Message.SwitchingDiffHeat
use unilux_uart.Message.SwitchingDiffCool
use unilux_uart.Message.ChangeoverHeat
use unilux_uart.Message.ChangeoverCool
use unilux_uart.Message.SystemMode
use unilux_uart.Message.DisplayUnit
use unilux_uart.Messages.{AnyMessage}
use unilux_uart.Messages.RoundTrip.{IsOnWire, IsSigned}
use unilux_uart.UniluxUart.Send.{send_message, send_temperature_setting, send_byte_setting}
use unilux_uart.UniluxUart.Send.Device.{typed_message, sent, fresh-IsIdle}
use unilux_uart.UniluxUart.Climate
use unilux_uart.UniluxUart.Number
use unilux_uart.UniluxUart.Select
use unilux_uart.UniluxUart.Component.{Event, climate_event, number_event, select_event}
use unilux_uart.UniluxUart.System.{written, written_all, written_both}

-- The messages of a setting, of which there is one or, for an unknown id, none
unfoldable pub scalar_messages : ℕ → Float → List AnyMessage
scalar_messages id v =
    if id == TemperatureOffset.id
    then AnyMessage.temperature_offset (record { value = v }) ∷ []
    else if id == SwitchingDiffHeat.id
    then AnyMessage.switching_diff_heat (record { value = v }) ∷ []
    else if id == SwitchingDiffCool.id
    then AnyMessage.switching_diff_cool (record { value = v }) ∷ []
    else if id == ChangeoverHeat.id
    then AnyMessage.changeover_heat (record { value = v }) ∷ []
    else if id == ChangeoverCool.id
    then AnyMessage.changeover_cool (record { value = v }) ∷ []
    else []

unfoldable pub byte_messages : ℕ → ℕ → List AnyMessage
byte_messages id b =
    if id == SystemMode.id
    then AnyMessage.system_mode (record { value = b }) ∷ []
    else if id == DisplayUnit.id
    then AnyMessage.display_unit (record { value = b }) ∷ []
    else []

module _ {Name : Type 0} where
  -- The messages that a call stands for
  abbrev pub messages_of : Event Name → List AnyMessage
  messages_of (climate_event (Climate.send m)) = m ∷ []
  messages_of (number_event id (Number.setting msg_id value)) = scalar_messages msg_id value
  messages_of (select_event id (Select.setting msg_id value)) = byte_messages msg_id value
  messages_of _ = []

  abbrev pub messages_all : List (Event Name) → List AnyMessage
  messages_all [] = []
  messages_all (e ∷ es) = messages_of e ++ messages_all es

  -- A call whose values the wire carries
  abbrev pub EventFits : Event Name → Type 0
  EventFits (climate_event (Climate.send m)) = IsOnWire m
  EventFits (number_event id (Number.setting msg_id value)) = IsSigned value
  EventFits (select_event id (Select.setting msg_id value)) = value < 256
  EventFits _ = Unit

-- Bytes are written, and an idle decoder finds the messages in them and is idle again.
unfoldable pub Transcript : Option (List ℕ) → List AnyMessage → Type 0
Transcript out ms =
    (bytes : List ℕ) × (out ≡ some bytes)
    × ((d : Aup.Decoder)
        → IsIdle d
        → IsIdle (consume_all d bytes).0
          × (map typed_message (consume_all d bytes).1 ≡ map some ms))

pub typed-append :
    (fs gs : List Aup.Frame)
    → map typed_message (fs ++ gs) ≡ map typed_message fs ++ map typed_message gs
typed-append [] gs = refl
typed-append (f ∷ fs) gs = ap (λ t. typed_message f ∷ t) (typed-append fs gs)

Transcript-nothing : Transcript (some []) []
unfolding Transcript consume_all
Transcript-nothing = ([], refl, λ d idle. (idle, refl))

pub Transcript-message : (m : AnyMessage) → IsOnWire m → Transcript (send_message m) (m ∷ [])
unfolding Transcript
Transcript-message m h =
    let (f, bytes, good, read) = sent m h in
    (
      Aup.encode f,
      bytes,
      λ d idle.
          let run : consume_all d (Aup.encode f) ≡ (fresh, f ∷ []) =
            subst (λ t. consume_all d t ≡ (fresh, f ∷ [])) (append-nil (Aup.encode f))
              (consume_all-encode d f [] (ground arith) good ∙ (unfold consume_all in refl)) in
          rw run (fresh-IsIdle, rw read refl),
    )

some-append :
    (ms ns : List AnyMessage)
    → map {B = Option AnyMessage} some (ms ++ ns) ≡ map some ms ++ map some ns
some-append [] ns = refl
some-append (m ∷ ms) ns = ap (λ t. some m ∷ t) (some-append ms ns)

Transcript-both :
    (out more : Option (List ℕ)) (ms ns : List AnyMessage)
    → Transcript out ms
    → Transcript more ns
    → Transcript (written_both out more) (ms ++ ns)
unfolding Transcript
Transcript-both out more ms ns (xs, wx, ex) (ys, wy, ey) = (
  xs ++ ys,
  rw (wx, wy) refl,
  λ d idle.
      let (idle1, first) = ex d idle in
      let (idle2, second) = ey (consume_all d xs).0 idle1 in
      let fs = (consume_all d xs).1 in
      let gs = (consume_all (consume_all d xs).0 ys).1 in
      let all : map typed_message (fs ++ gs) ≡ map some (ms ++ ns) =
        typed-append fs gs ∙ rw (first, second) (sym (some-append ms ns)) in
      rw (consume_all-append d xs ys) (idle2, all),
)

Transcript-if :
    (t : Bool) (a b : Option (List ℕ)) (ms ns : List AnyMessage)
    → Transcript a ms
    → Transcript b ns
    → Transcript (if t then a else b) (if t then ms else ns)
Transcript-if true a b ms ns ha hb = ha
Transcript-if false a b ms ns ha hb = hb

pub Transcript-scalar :
    (id : ℕ) (v : Float)
    → IsSigned v
    → Transcript (send_temperature_setting id v) (scalar_messages id v)
unfolding send_temperature_setting scalar_messages
Transcript-scalar id v h =
    let offset = Transcript-message (AnyMessage.temperature_offset (record { value = v })) h in
    let diff_heat = Transcript-message (AnyMessage.switching_diff_heat (record { value = v })) h in
    let diff_cool = Transcript-message (AnyMessage.switching_diff_cool (record { value = v })) h in
    let heat = Transcript-message (AnyMessage.changeover_heat (record { value = v })) h in
    let cool = Transcript-message (AnyMessage.changeover_cool (record { value = v })) h in
    Transcript-if (id == TemperatureOffset.id) _ _ _ _ offset (
      Transcript-if (id == SwitchingDiffHeat.id) _ _ _ _ diff_heat (
        Transcript-if (id == SwitchingDiffCool.id) _ _ _ _ diff_cool (
          Transcript-if (id == ChangeoverHeat.id) _ _ _ _ heat
            (Transcript-if (id == ChangeoverCool.id) _ _ _ _ cool Transcript-nothing))))

pub Transcript-byte :
    (id b : ℕ) → b < 256 → Transcript (send_byte_setting id b) (byte_messages id b)
unfolding send_byte_setting byte_messages
Transcript-byte id b h =
    let mode = Transcript-message (AnyMessage.system_mode (record { value = b })) h in
    let unit = Transcript-message (AnyMessage.display_unit (record { value = b })) h in
    Transcript-if (id == SystemMode.id) _ _ _ _ mode
      (Transcript-if (id == DisplayUnit.id) _ _ _ _ unit Transcript-nothing)

module _ (Name : Type 0) where
  Transcript-event : (e : Event Name) → EventFits e → Transcript (written e) (messages_of e)
  Transcript-event (climate_event (Climate.send m)) h = Transcript-message m h
  Transcript-event (number_event id (Number.setting msg_id v)) h = Transcript-scalar msg_id v h
  Transcript-event (select_event id (Select.setting msg_id b)) h = Transcript-byte msg_id b h
  Transcript-event _ h = Transcript-nothing

  pub Transcript-all :
      (es : List (Event Name)) → All EventFits es → Transcript (written_all es) (messages_all es)
  unfolding written_all
  Transcript-all [] h = Transcript-nothing
  Transcript-all (e ∷ es) (h, hs) =
      Transcript-both (written e) (written_all es) (messages_of e) (messages_all es)
        (Transcript-event e h) (Transcript-all es hs)

-- The calls that the entities make write bytes in which an idle decoder finds exactly the messages
-- that the calls stand for, in their order, and is idle again, if the wire carries the values of the
-- calls: a message of the climate entity, a scalar setting or a setting of one byte by its id, nothing
-- for an unknown id, a publication, or the cancelling of the timer.
pub consume_all-written_all :
    (Name : Type 0) (es : List (Event Name)) (d : Aup.Decoder)
    → All EventFits es
    → IsIdle d
    → (bytes : List ℕ) × (written_all es ≡ some bytes)
      × IsIdle (consume_all d bytes).0
      × (map typed_message (consume_all d bytes).1 ≡ map some (messages_all es))
unfolding Transcript
consume_all-written_all Name es d fits idle =
    let (bytes, written_bytes, reaches) = Transcript-all Name es fits in
    let (idle_again, read) = reaches d idle in (bytes, written_bytes, idle_again, read)
