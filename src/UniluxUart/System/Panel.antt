-- ===== src/UniluxUart/System/Panel.antt =====
-- esphome/components/unilux_uart/unilux_uart.cpp: the number entities and the scalar settings of the
-- device.
pub mod Numbers
pub mod Calls
pub mod Others
pub mod Steps
pub mod Run
pub mod Start
use unilux_uart.Common.{
  ℕ, zero, suc, ◌≡◌, ◌≢◌, refl, sym, ap, ◌∙◌, subst, arith, Bool, true, false, Bool-cases, inl, inr,
  ◌⊎◌, ◌||◌, Option, none, some, List, [], ◌∷◌, ◌++◌, map, All, if◌then◌else◌, ◌==◌, not, ◌&&◌,
}
use unilux_uart.Float.{Float, isnan}
use unilux_uart.Message.TemperatureOffset
use unilux_uart.Message.SwitchingDiffHeat
use unilux_uart.Message.SwitchingDiffCool
use unilux_uart.Message.ChangeoverHeat
use unilux_uart.Message.ChangeoverCool
use unilux_uart.Messages.{AnyMessage, id_of}
use unilux_uart.UniluxUart.Send.Settings.{scalar_of}
use unilux_uart.UniluxUart.Number
use unilux_uart.UniluxUart.Component.{Event, number_event, publish_number, sync_numbers}
use unilux_uart.UniluxUart.System.{control_number_at}
use unilux_uart.UniluxUart.System.Transcript.{scalar_messages, messages_all}

-- The scalar settings of a device, by their ids
abbrev pub Panel : Type 0
Panel = ℕ → Float

abbrev pub put : ℕ → Option Float → Panel → Panel
put id none p = p
put id (some v) p = λ i. if i == id then v else p i

abbrev pub receive_setting : AnyMessage → Panel → Panel
receive_setting m = put (id_of m) (scalar_of m)

abbrev pub receive_settings : List AnyMessage → Panel → Panel
receive_settings [] p = p
receive_settings (m ∷ ms) p = receive_settings ms (receive_setting m p)

-- A number entity shows the setting of the device, or no number yet.
abbrev pub Shows : Panel → Number.Number → Type 0
Shows p n = (isnan n.state ≡ true) ⊎ (p n.msg_id ≡ n.state)

abbrev pub is_scalar : ℕ → Bool
is_scalar id =
    (id == TemperatureOffset.id)
    || (id == SwitchingDiffHeat.id)
    || (id == SwitchingDiffCool.id)
    || (id == ChangeoverHeat.id)
    || (id == ChangeoverCool.id)

abbrev pub Lacks : ℕ → List Number.Number → Type 0
Lacks id ns = All (λ (n : Number.Number). n.msg_id ≢ id) ns

-- Connected entities with different ids of scalar settings
abbrev pub AreWired : List Number.Number → Type 0
AreWired [] = Unit
AreWired (n ∷ ns) =
    (n.has_parent ≡ true) × (is_scalar n.msg_id ≡ true) × Lacks n.msg_id ns × AreWired ns

pub receive_settings-append :
    (ms ns : List AnyMessage) (p : Panel)
    → receive_settings (ms ++ ns) p ≡ receive_settings ns (receive_settings ms p)
receive_settings-append [] ns p = refl
receive_settings-append (m ∷ ms) ns p = receive_settings-append ms ns (receive_setting m p)

-- A scalar setting puts its value.
pub receive-scalar_messages :
    (id : ℕ) (v : Float) (p : Panel)
    → is_scalar id ≡ true
    → receive_settings (scalar_messages id v) p ≡ put id (some v) p
unfolding scalar_messages
receive-scalar_messages id v p known = ground arith

pub put-here : (id : ℕ) (v : Float) (p : Panel) → put id (some v) p id ≡ v
put-here id v p = ground arith

pub put-other : (id i : ℕ) (v : Float) (p : Panel) → i ≢ id → put id (some v) p i ≡ p i
put-other id i v p other = ground arith

pub put-Shows :
    (id : ℕ) (v : Float) (p : Panel) (ns : List Number.Number)
    → Lacks id ns
    → All (Shows p) ns
    → All (Shows (put id (some v) p)) ns
put-Shows id v p [] lacks h = tt
put-Shows id v p (n ∷ ns) (lack, lacks) (inl nan, hs) = (inl nan, put-Shows id v p ns lacks hs)
put-Shows id v p (n ∷ ns) (lack, lacks) (inr e, hs) =
    (inr (put-other id n.msg_id v p lack ∙ e), put-Shows id v p ns lacks hs)
