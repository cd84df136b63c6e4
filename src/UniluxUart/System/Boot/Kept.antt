-- ===== src/UniluxUart/System/Boot/Kept.antt =====
-- esphome/components/unilux_uart/unilux_uart.cpp: the number and select entities after a restart.
use unilux_uart.Common.{
  All-append, map, ℕ, ◌≡◌, true, Bool-cases, inl, inr, ◌⊎◌, Option, none, some, List, [], ◌∷◌, All,
}
use unilux_uart.Float.{Float, isnan}
use unilux_uart.Messages.RoundTrip.{IsSigned}
use unilux_uart.UniluxUart.Number
use unilux_uart.UniluxUart.Select
use unilux_uart.UniluxUart.Component.{number_event, select_event}
use unilux_uart.UniluxUart.System.Display.{IsUnseen, numbers-IsUnseen, selects-IsUnseen}
use unilux_uart.UniluxUart.System.Effect.{
  Does-nothing, Effect, Effect-nil, Effect-cons, Effect-append,
}
use unilux_uart.UniluxUart.System.Settings.{
  same, NumberFits, SelectFits, number_calls, select_calls, Effect-sync_number, Effect-sync_select,
}
use unilux_uart.UniluxUart.System.Boot.{setup_numbers, setup_selects}

-- A stored number that the wire carries, if there is one
abbrev pub StoredFits : Option Float → Type 0
StoredFits none = Unit
StoredFits (some v) = IsSigned v

-- NaN or a value that the wire carries
abbrev pub ValueFits : Float → Type 0
ValueFits v = (isnan v ≡ true) ⊎ IsSigned v

loaded-Fits :
    (o : Option Float) (v : Float) → StoredFits o → ValueFits v → ValueFits (Number.loaded o v)
loaded-Fits none v h hv = hv
loaded-Fits (some x) v h hv = inr h

module _ (Name : Type 0) (published : Float → Float → Float)
    (law : (old value : Float) → published old value ≡ value) where
  pub setup_numbers-Fits :
      (stored : ℕ → Option Float) (ns : List Number.Number)
      → ((id : ℕ) → StoredFits (stored id))
      → All (λ (n : Number.Number). ValueFits n.initial_value) ns
      → let r = setup_numbers {Name = Name} published stored ns in
        Effect Name r.1 same × All NumberFits r.0
  unfolding setup_numbers Number.setup number_calls
  setup_numbers-Fits stored [] kept h = (Effect-nil Name, tt)
  setup_numbers-Fits stored (n ∷ ns) kept (h, hs) =
      let value = Number.loaded (stored n.msg_id) n.initial_value in
      let n1 = Number.publish_state published value n in
      let fits : NumberFits n1 =
        rw (law n.state value) (loaded-Fits (stored n.msg_id) n.initial_value (kept n.msg_id) h) in
      let (effect, rest) = setup_numbers-Fits stored ns kept hs in
      let first =
        Effect-cons Name same same (number_event n.msg_id (Number.publish value))
          (number_calls Name n.msg_id (Number.sync_to_device n1)) Does-nothing
          (Effect-sync_number Name n1 fits) in
      (Effect-append Name same same _ _ first effect, (fits, rest))

  pub setup_selects-Fits :
      (stored : ℕ → Option ℕ) (ss : List (Select.SelectApi Name × Select.Select))
      → All SelectFits ss
      → let r = setup_selects published stored ss in Effect Name r.1 same × All SelectFits r.0
  unfolding setup_selects Select.setup select_calls
  setup_selects-Fits stored [] h = (Effect-nil Name, tt)
  setup_selects-Fits stored ((api, s) ∷ ss) (h, hs) =
      let (effect, rest) = setup_selects-Fits stored ss hs in
      elim (Bool-cases s.restore) [
        | inl restoring ↦
            let index = Select.loaded api (stored s.msg_id) s.initial_index in
            let s1 = record s { active_index = api.publish_index s.active_index index } in
            let first =
              Effect-cons Name same same (select_event s.msg_id (Select.publish_at index))
                (select_calls Name s.msg_id (Select.sync_to_device api s1)) Does-nothing
                (Effect-sync_select Name api s1 h) in
            rw restoring (Effect-append Name same same _ _ first effect, (h, rest))
        | inr plain ↦ rw plain (effect, (h, rest))
      ]

module _ (Name : Type 0) (published : Float → Float → Float) where
  -- Nothing of the climate entity is published.
  pub setup_numbers-IsUnseen :
      (stored : ℕ → Option Float) (ns : List Number.Number)
      → All IsUnseen (setup_numbers {Name = Name} published stored ns).1
  unfolding setup_numbers
  setup_numbers-IsUnseen stored [] = tt
  setup_numbers-IsUnseen stored (n ∷ ns) =
      let es = (Number.setup published (stored n.msg_id) n).1 in
      All-append IsUnseen (map (number_event n.msg_id) es) (setup_numbers published stored ns).1
        (numbers-IsUnseen Name n.msg_id es) (setup_numbers-IsUnseen stored ns)

  pub setup_selects-IsUnseen :
      (stored : ℕ → Option ℕ) (ss : List (Select.SelectApi Name × Select.Select))
      → All IsUnseen (setup_selects published stored ss).1
  unfolding setup_selects
  setup_selects-IsUnseen stored [] = tt
  setup_selects-IsUnseen stored ((api, s) ∷ ss) =
      let es = (Select.setup api (stored s.msg_id) s).1 in
      All-append IsUnseen (map (select_event s.msg_id) es) (setup_selects published stored ss).1
        (selects-IsUnseen Name s.msg_id es) (setup_selects-IsUnseen stored ss)
