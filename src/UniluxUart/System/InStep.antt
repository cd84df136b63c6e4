-- ===== src/UniluxUart/System/InStep.antt =====
-- esphome/components/unilux_uart/unilux_uart.cpp: the component and the device stay in step.
use unilux_uart.Common.{◌≡◌, refl, sym, ap, ◌∙◌, subst, some, List, [], ◌∷◌, All}
use unilux_uart.Float.{Float}
use unilux_uart.Aup.{IsIdle}
use unilux_uart.Messages.RoundTrip.{IsOnWire, IsSigned}
use unilux_uart.UniluxUart.Climate.{Climate}
use unilux_uart.UniluxUart.Climate.Mirror.{Device, IsMirror, IsKnown}
use unilux_uart.UniluxUart.Component.{Component, Event}
use unilux_uart.UniluxUart.System.{
  Peer, System, Action, control_climate, control_number, control_select, report, sync, deliver,
  respond, change, act, run, display,
}
use unilux_uart.UniluxUart.System.Effect.{Does, Effect}
use unilux_uart.UniluxUart.System.Entity.{TargetFits}
use unilux_uart.UniluxUart.System.Answers.{
  Holds, Answers-control, Answers-number, Answers-select, Answers-report,
}
use unilux_uart.UniluxUart.System.Sync.{Answers-sync}

-- The component holds what the device is, and the device's decoder waits for a frame, too.
pub record IsLinked (Name : Type 0) (Is : Device → Climate → Type 0) (s : System Name)
    : Type 0 where
  pub holds : Holds Name Is s.component s.peer.device
  pub hearing : IsIdle s.peer.decoder

-- The climate entity's fields are the device's, its `mode` included, and Home Assistant got the entity
-- as it is with the last publication.
pub record InStep (Name : Type 0) (s : System Name) : Type 0 where
  pub linked : IsLinked Name IsMirror s
  pub displayed : s.frontend ≡ s.component.climate

-- A target or a value that the wire carries; a report that the wire carries, of a mode or fan speed
-- that has a name
abbrev pub IsFine : {Name : Type 0} → Action Name → Type 0
IsFine (control_climate call) = TargetFits call.target_temperature
IsFine (control_number k value) = IsSigned value
IsFine (control_select k name) = Unit
IsFine (report m) = IsOnWire m × IsKnown m
IsFine sync = Unit

module _ (Name : Type 0) (published : Float → Float → Float)
    (law : (old value : Float) → published old value ≡ value) where
  answers :
      (a : Action Name) (c : Component Name) (p : Peer)
      → IsFine a
      → Holds Name IsMirror c p.device
      → (c1 : Component Name) × (es : List (Event Name)) × (f : Device → Device) × (respond
            published a c
          ≡ some (c1, es))
        × Effect Name es f
        × Holds Name IsMirror c1 (f (change published a p).device)
        × (display es c.climate ≡ c1.climate)
  answers (control_climate call) c p fine h =
      Answers-control Name published law call c p.device fine h
  answers (control_number k v) c p fine h = Answers-number Name published law k v c p.device fine h
  answers (control_select k name) c p fine h = Answers-select Name published law k name c p.device h
  answers (report m) c p fine h = Answers-report Name published law m c p.device fine.0 fine.1 h
  answers sync c p fine h = Answers-sync Name published law c p.device h

  change-decoder : (a : Action Name) (p : Peer) → (change published a p).decoder ≡ p.decoder
  change-decoder (report m) p = refl
  change-decoder (control_climate call) p = refl
  change-decoder (control_number k v) p = refl
  change-decoder (control_select k name) p = refl
  change-decoder sync p = refl

  act-InStep :
      (a : Action Name) (s : System Name)
      → IsFine a
      → InStep Name s
      → (s1 : System Name) × (act published a s ≡ some s1) × InStep Name s1
  unfolding act Does
  act-InStep a s fine h =
      let p = change published a s.peer in
      let (c1, es, f, responded, (bytes, written, reaches), holds, shown) =
        answers a s.component s.peer fine h.linked.holds in
      let idle : IsIdle p.decoder = rw (change-decoder a s.peer) h.linked.hearing in
      let (hearing, changed) = reaches p idle in
      (
        record { component = c1; peer = deliver bytes p; frontend = display es s.frontend },
        rw (responded, written) refl,
        record {
          linked = record {
            holds = subst (Holds Name IsMirror c1) (sym changed) holds;
            hearing = hearing;
          };
          displayed = ap (display es) h.displayed ∙ shown;
        },
      )

-- If ESPHome's `Number::publish_state` stores what it is given, a component and a device that are in
-- step go through any sequence of actions without an undefined cast and are in step after it. In step
-- means: the fields of a connected climate entity are the device's power, mode, target temperature and
-- fan speed, its `mode` is off or the device's mode by the power state, it was published last as it
-- is, both decoders wait for a frame, and the entities hold values that the wire carries. The actions are calls from
-- Home Assistant on the climate, number and select entities, the target temperature and the number
-- such that the wire carries them, changes that the device reports in a message that the wire carries,
-- a mode or fan speed being one that has a name, and rounds of the rebroadcast. All bytes that an
-- action makes either end write are delivered before the next action.
pub run-InStep :
    (Name : Type 0) (published : Float → Float → Float)
    → ((old value : Float) → published old value ≡ value)
    → (actions : List (Action Name)) (s : System Name) → All IsFine actions
    → InStep Name s
    → (s1 : System Name) × (run published actions s ≡ some s1) × InStep Name s1
unfolding run
run-InStep Name published law [] s fine h = (s, refl, h)
run-InStep Name published law (a ∷ actions) s (fine, fines) h =
    let (s1, first, h1) = act-InStep Name published law a s fine h in
    let (s2, rest, h2) = run-InStep Name published law actions s1 fines h1 in
    (s2, rw first rest, h2)
