-- ===== src/UniluxUart/System/Heal.antt =====
-- esphome/components/unilux_uart/unilux_uart.cpp: a round of the rebroadcast brings the device back in
-- step.
use unilux_uart.Common.{
  ◌+◌, ap, none, Option, List, [], ◌≡◌, refl, arith, true, some, sym, subst, All,
}
use unilux_uart.Float.{Float}
use unilux_uart.Aup.{IsIdle}
use unilux_uart.Messages.RoundTrip.{IsUnsigned}
use unilux_uart.UniluxUart.Climate.{Climate}
use unilux_uart.UniluxUart.Climate.Mirror.{Matches}
use unilux_uart.UniluxUart.Component.{Component, Event, sync_iteration}
use unilux_uart.UniluxUart.System.{System, sync, deliver, act, respond, display}
use unilux_uart.UniluxUart.System.Display.{IsUnseen, display-IsUnseen}
use unilux_uart.UniluxUart.System.Effect.{Does}
use unilux_uart.UniluxUart.System.Settings.{NumberFits, SelectFits}
use unilux_uart.UniluxUart.System.Entity.{sync_to_device-shows}
use unilux_uart.UniluxUart.System.Answers.{Holds}
use unilux_uart.UniluxUart.System.Sync.{Answers-sync_shown, sync_iteration-IsUnseen}
use unilux_uart.UniluxUart.System.InStep.{IsLinked}

-- A round of the rebroadcast only counts, and publishes nothing of the climate entity.
after-sync :
    (Name : Type 0) (published : Float → Float → Float) (c c1 : Component Name)
    (es : List (Event Name))
    → respond published sync c ≡ some (c1, es)
    → (c1 ≡ record c { sync_count = c.sync_count + 1 }) × All IsUnseen es
unfolding respond sync_iteration
after-sync Name published c c1 es e =
    let Answer = Component Name × List (Event Name) in
    (
      ap (λ (o : Option Answer). elim o [ none ↦ c | some r ↦ r.0 ]) (sym e),
      subst (All IsUnseen) (ap (λ (o : Option Answer). elim o [ none ↦ [] | some r ↦ r.1 ]) e)
          (sync_iteration-IsUnseen Name c),
    )

-- If ESPHome's `Number::publish_state` stores what it is given, one round of the rebroadcast brings a
-- device to the entity's power state, active mode, target temperature and fan speed, whatever the
-- device had come to, and no cast in it is undefined. Of the component only the count of the rounds
-- changes, and the climate entity is not published. The conditions: the climate entity is connected,
-- on, and has a target that the wire carries; the numbers are NaN or such as the wire carries; the
-- select entities' bytes are bytes; both decoders wait for a frame.
pub act-sync :
    (Name : Type 0) (published : Float → Float → Float)
    → ((old value : Float) → published old value ≡ value)
    → (s : System Name) (entity : Climate) → s.component.climate ≡ some entity
    → entity.has_parent ≡ true
    → entity.power_on ≡ true
    → IsUnsigned entity.target_temperature
    → All NumberFits s.component.numbers
    → All SelectFits s.component.selects
    → IsIdle s.component.decoder
    → IsIdle s.peer.decoder
    → (s1 : System Name) × (act published sync s ≡ some s1)
      × IsLinked Name Matches s1
      × (s1.component ≡ record s.component { sync_count = s.component.sync_count + 1 })
      × (s1.frontend ≡ s.frontend)
unfolding act Does
act-sync Name published law s entity here connected on goal numbers selects listening hearing =
    let c = s.component in
    let d = s.peer.device in
    let shown = sync_to_device-shows d entity connected goal (λ off. absurd (ground arith)) in
    let (c1, es, f, responded, (bytes, written, reaches), holds, shown) =
      Answers-sync_shown Name published law Matches c d entity here connected goal shown numbers
        selects listening in
    let (counted, unseen) = after-sync Name published c c1 es responded in
    let (idle, changed) = reaches s.peer hearing in
    (
      record { component = c1; peer = deliver bytes s.peer; frontend = display es s.frontend },
      rw (responded, written) refl,
      record { holds = subst (Holds Name Matches c1) (sym changed) holds; hearing = idle },
      counted,
      display-IsUnseen Name es s.frontend unseen,
    )
