-- ===== src/UniluxUart/System/Boot.antt =====
-- esphome/components/unilux_uart/unilux_uart.cpp: the entities of the component are set up after a
-- restart, and a device receives what they write.
pub mod Kept
pub mod Booted
use unilux_uart.Common.{none, ℕ, Option, some, List, [], ◌∷◌, ◌++◌, map, ◌>>=◌}
use unilux_uart.Float.{Float}
use unilux_uart.UniluxUart.Climate
use unilux_uart.UniluxUart.Climate.{Inherited}
use unilux_uart.UniluxUart.Number
use unilux_uart.UniluxUart.Select
use unilux_uart.UniluxUart.Component.{Component, Event, number_event, select_event, on_climate}
use unilux_uart.UniluxUart.System.{display, Peer, System, written_all, deliver}

-- What is stored over a restart: what `restore_state_` finds, and what the preference of a number or
-- a select with an id holds
pub record Stored : Type 0 where
  pub climate : Option (Inherited → Inherited)
  pub number : ℕ → Option Float
  pub select : ℕ → Option ℕ

module _ {Name : Type 0} (published : Float → Float → Float) where
  -- The calls of `setup` of the entities, in the order in which they are registered
  unfoldable pub setup_numbers :
      (ℕ → Option Float) → List Number.Number → List Number.Number × List (Event Name)
  setup_numbers stored [] = ([], [])
  setup_numbers stored (n ∷ ns) =
      let (n1, es) = Number.setup published (stored n.msg_id) n in
      let (ns1, more) = setup_numbers stored ns in
      (n1 ∷ ns1, map (number_event n.msg_id) es ++ more)

  unfoldable pub setup_selects :
      (ℕ → Option ℕ)
      → List (Select.SelectApi Name × Select.Select)
      → List (Select.SelectApi Name × Select.Select) × List (Event Name)
  setup_selects stored [] = ([], [])
  setup_selects stored ((api, s) ∷ ss) =
      let (s1, es) = Select.setup api (stored s.msg_id) s in
      let (ss1, more) = setup_selects stored ss in
      ((api, s1) ∷ ss1, map (select_event s.msg_id) es ++ more)

  unfoldable pub setup_all : Stored → Component Name → Component Name × List (Event Name)
  unfolding setup_numbers setup_selects
  setup_all stored c =
      let (c1, es) = on_climate published (Climate.setup stored.climate) c in
      let (ns, more) = setup_numbers stored.number c.numbers in
      let (ss, rest) = setup_selects stored.select c.selects in
      (record c1 { numbers = ns; selects = ss }, es ++ more ++ rest)

  -- The component set up, and the device after what that writes; `none` is an undefined cast.
  unfoldable pub boot : Stored → Component Name → Peer → Option (System Name)
  boot stored c p = do
    bytes ← written_all (setup_all stored c).1
    some (record {
      component = (setup_all stored c).0;
      peer = deliver bytes p;
      frontend = display (setup_all stored c).1 none;
    })
