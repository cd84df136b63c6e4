-- ===== src/UniluxUart/System/Sync.antt =====
-- esphome/components/unilux_uart/unilux_uart.cpp: a round of the rebroadcast.
use unilux_uart.Common.{
  ◌≡◌, refl, Bool, true, false, if◌then◌else◌, leb, ◌+◌, some, [], ◌∷◌, ◌++◌, Option, none, All,
  All-append,
}
use unilux_uart.Float.{Float}
use unilux_uart.Aup.{IsIdle}
use unilux_uart.Messages.RoundTrip.{IsUnsigned}
use unilux_uart.UniluxUart.Climate
use unilux_uart.UniluxUart.Climate.{Climate, ClimateCall}
use unilux_uart.UniluxUart.Climate.Mirror.{Device, receive_all, IsMirror}
use unilux_uart.UniluxUart.Component.{
  Component, cancel_interval, sync_iteration, sync_numbers, sync_selects, sync_climate,
  sync_repeat_count,
}
use unilux_uart.UniluxUart.System.Display.{
  IsUnseen, display-IsUnseen, sync_numbers-IsUnseen, sync_selects-IsUnseen, sync_to_device-IsUnseen,
}
use unilux_uart.UniluxUart.System.{sync, respond}
use unilux_uart.UniluxUart.System.Effect.{
  Does-nothing, Effect, Effect-nil, Effect-cons, Effect-append, Effect-climate,
}
use unilux_uart.UniluxUart.System.Settings.{
  same, NumberFits, SelectFits, Effect-sync_numbers, Effect-sync_selects,
}
use unilux_uart.UniluxUart.System.Entity.{sync_to_device-Fits, sync_to_device-IsMirror}
use unilux_uart.UniluxUart.System.Answers.{Holds, Answers}

Effect-end :
    (Name : Type 0) (last : Bool) → Effect Name (if last then cancel_interval ∷ [] else []) same
Effect-end Name true = Effect-cons Name same same cancel_interval [] Does-nothing (Effect-nil Name)
Effect-end Name false = Effect-nil Name

end-IsUnseen :
    (Name : Type 0) (last : Bool)
    → All (IsUnseen {Name = Name}) (if last then cancel_interval ∷ [] else [])
end-IsUnseen Name true = (tt, tt)
end-IsUnseen Name false = tt

climate-IsUnseen :
    (Name : Type 0) (o : Option Climate) → All (IsUnseen {Name = Name}) (sync_climate o)
climate-IsUnseen Name none = tt
climate-IsUnseen Name (some entity) = sync_to_device-IsUnseen Name entity

-- A rebroadcast publishes nothing of the climate entity.
pub sync_iteration-IsUnseen :
    (Name : Type 0) (c : Component Name) → All IsUnseen (sync_iteration c).1
unfolding sync_iteration
sync_iteration-IsUnseen Name c =
    let numbers = sync_numbers {Name = Name} c.numbers in
    let selects = sync_selects c.selects in
    let entity = sync_climate {Name = Name} c.climate in
    let last = leb sync_repeat_count (c.sync_count + 1) in
    All-append IsUnseen (numbers ++ selects ++ entity) (if last then cancel_interval ∷ [] else [])
      (All-append IsUnseen (numbers ++ selects) entity
        (All-append IsUnseen numbers selects (sync_numbers-IsUnseen Name c.numbers)
          (sync_selects-IsUnseen Name c.selects))
        (climate-IsUnseen Name c.climate))
      (end-IsUnseen Name last)

module _ (Name : Type 0) (published : Float → Float → Float)
    (law : (old value : Float) → published old value ≡ value) where
  -- A rebroadcast, whatever the device was before
  pub Answers-sync_shown :
      (Is : Device → Climate → Type 0) (c : Component Name) (d : Device) (entity : Climate)
      → c.climate ≡ some entity
      → entity.has_parent ≡ true
      → IsUnsigned entity.target_temperature
      → Is (receive_all d (Climate.sync_to_device entity).1) entity
      → All NumberFits c.numbers
      → All SelectFits c.selects
      → IsIdle c.decoder
      → Answers Name published law Is sync c d
  unfolding respond sync_iteration
  Answers-sync_shown Is c d entity here connected goal shown numbers_fit selects_fit listening =
      let calls = Climate.sync_to_device entity in
      let settings = sync_numbers c.numbers ++ sync_selects c.selects in
      let entity_calls = sync_climate {Name = Name} c.climate in
      let last = leb sync_repeat_count (c.sync_count + 1) in
      let numbers = Effect-sync_numbers Name c.numbers numbers_fit in
      let selects = Effect-sync_selects Name c.selects selects_fit in
      let fits = (sync_to_device-Fits entity goal).1 in
      let entity_effect : Effect Name entity_calls (λ e. receive_all e calls.1) =
        rw here (Effect-climate Name calls.1 fits) in
      let both = Effect-append Name same same _ _ numbers selects in
      let all =
        Effect-append Name same (λ e. receive_all e calls.1) settings entity_calls both
          entity_effect in
      (
        record c { sync_count = c.sync_count + 1 },
        settings ++ entity_calls ++ (if last then cancel_interval ∷ [] else []),
        λ e. receive_all e calls.1,
        refl,
        Effect-append Name (λ e. receive_all e calls.1) same (settings ++ entity_calls) _ all
            (Effect-end Name last),
        record {
          entity = entity;
          here = here;
          connected = connected;
          target = goal;
          mirror = shown;
          numbers = numbers_fit;
          selects = selects_fit;
          listening = listening;
        },
        display-IsUnseen Name _ c.climate (sync_iteration-IsUnseen Name c),
      )

  pub Answers-sync :
      (c : Component Name) (d : Device)
      → Holds Name IsMirror c d
      → Answers Name published law IsMirror sync c d
  Answers-sync c d h =
      Answers-sync_shown IsMirror c d h.entity h.here h.connected h.target
        (sync_to_device-IsMirror d h.entity h.mirror) h.numbers h.selects h.listening
