-- ===== src/Messages/Dispatch.antt =====
-- src/messages.cpp: which frames `decode_message` accepts, and what it makes of them.
use unilux_uart.Common.{
  ◌&◌, ℕ, ◌≡◌, ◌≢◌, refl, sym, arith, List, [], ◌∷◌, true, false, Bool-cases, Option, none, some,
  length, ◌==◌, if◌then◌else◌, ◌⊎◌, inl, inr, subst,
}
use unilux_uart.Wmmm.{Frame}
use unilux_uart.Message.Temperature
use unilux_uart.Message.TargetTemperature
use unilux_uart.Message.Mode
use unilux_uart.Message.Power
use unilux_uart.Message.FanSpeed
use unilux_uart.Message.AllConfig
use unilux_uart.Message.Schedule
use unilux_uart.Message.TemperatureOffset
use unilux_uart.Message.SwitchingDiffHeat
use unilux_uart.Message.SwitchingDiffCool
use unilux_uart.Message.ChangeoverHeat
use unilux_uart.Message.ChangeoverCool
use unilux_uart.Message.SystemMode
use unilux_uart.Message.DisplayUnit
use unilux_uart.Message.{when_size}
use unilux_uart.Messages.{
  wrap, AnyMessage, Alternative, alternatives, decode_variant, decode_message, id_of,
}

-- The ids of the protocol, each with the length of its payload
abbrev pub table : List (ℕ × ℕ)
table =
    (0x02, 4)
    ∷ (0x2A, 4)
    ∷ (0x5C, 4)
    ∷ (0x21, 4)
    ∷ (0x22, 4)
    ∷ (0x76, 61)
    ∷ (0x78, 116)
    ∷ (0x56, 4)
    ∷ (0x58, 4)
    ∷ (0x59, 4)
    ∷ (0x5D, 4)
    ∷ (0x5E, 4)
    ∷ (0x23, 4)
    ∷ (0x2C, 4)
    ∷ []

unfoldable pub expected_size : List (ℕ × ℕ) → ℕ → Option ℕ
expected_size [] id = none
expected_size ((known, size) ∷ rest) id = if id == known then some size else expected_size rest id

-- A frame becomes a message of its own id exactly when its payload has the length that the table
-- lays down for the id.
abbrev pub Agrees : List (ℕ × ℕ) → Frame → Option AnyMessage → Type 0
Agrees t f result =
    ((m : AnyMessage) × (result ≡ some m)
      × (id_of m ≡ f.msg_id)
      × (expected_size t f.msg_id ≡ some (length f.payload)))
    ⊎ ((result ≡ none) × (expected_size t f.msg_id ≢ some (length f.payload)))

-- An alternative accepts exactly the payloads of one length.
abbrev Accepts : Alternative → ℕ × ℕ → Type 0
Accepts M (id, size) =
    (M.id ≡ id)
    × ((f : Frame)
        → ((m : AnyMessage) × (M.decode f ≡ some m) × (id_of m ≡ id) × (length f.payload ≡ size))
          ⊎ ((M.decode f ≡ none) × (length f.payload ≢ size)))

abbrev Fits : List Alternative → List (ℕ × ℕ) → Type 0
Fits [] [] = Unit
Fits (M ∷ Ms) (p ∷ ps) = Accepts M p × Fits Ms ps
Fits _ _ = ⊥

module _ (M : Alternative) (Ms : List Alternative) (f : Frame) where
  pub decode_hit : (f.msg_id == M.id) ≡ true → decode_variant (M ∷ Ms) f none ≡ M.decode f
  unfolding decode_variant
  decode_hit e = ground arith

  pub decode_miss :
      (f.msg_id == M.id) ≡ false → decode_variant (M ∷ Ms) f none ≡ decode_variant Ms f none
  unfolding decode_variant
  decode_miss e = ground arith

module _ (M : Alternative) (id size : ℕ) (t : List (ℕ × ℕ)) (f : Frame)
    (accepts : Accepts M (id, size)) where
  hit-Agrees : (f.msg_id == M.id) ≡ true → Agrees ((id, size) ∷ t) f (M.decode f)
  unfolding expected_size
  hit-Agrees e = elim (accepts.1 f) [
    | inl (m, decoded, own_id, fits) ↦ inl (m, decoded, ground arith, ground arith)
    | inr (refused, wrong) ↦ inr (refused, λ same. ground arith)
  ]

  miss-Agrees :
      {r : Option AnyMessage}
      → (f.msg_id == M.id) ≡ false
      → Agrees t f r
      → Agrees ((id, size) ∷ t) f r
  unfolding expected_size
  miss-Agrees e (inl (m, decoded, own_id, fits)) = inl (m, decoded, own_id, ground arith)
  miss-Agrees e (inr (refused, wrong)) = inr (refused, ground arith)

decode_variant-Agrees :
    (Ms : List Alternative) (t : List (ℕ × ℕ)) (f : Frame)
    → Fits Ms t
    → Agrees t f (decode_variant Ms f none)
unfolding decode_variant expected_size
decode_variant-Agrees [] [] f h = inr (refl, λ e. cc)
decode_variant-Agrees [] (p ∷ ps) f h = absurd h
decode_variant-Agrees (M ∷ Ms) [] f h = absurd h
decode_variant-Agrees (M ∷ Ms) ((id, size) ∷ t) f (accepts, fits) =
    elim (Bool-cases (f.msg_id == M.id)) [
      | inl hit ↦
          subst (Agrees ((id, size) ∷ t) f) (sym (decode_hit M Ms f hit))
            (hit-Agrees M id size t f accepts hit)
      | inr miss ↦
          subst (Agrees ((id, size) ∷ t) f) (sym (decode_miss M Ms f miss))
            (miss-Agrees M id size t f accepts miss (decode_variant-Agrees Ms t f fits))
    ]

-- Every `decode` begins with the test of the length.
sized :
    {A : Type 0} (inject : A → AnyMessage) (id size : ℕ) (f : Frame) (a : A)
    → id_of (inject a) ≡ id
    → ((m : AnyMessage) × (wrap inject (when_size f size a) ≡ some m)
        × (id_of m ≡ id)
        × (length f.payload ≡ size))
      ⊎ ((wrap inject (when_size f size a) ≡ none) × (length f.payload ≢ size))
sized inject id size f a own = elim (Bool-cases (length f.payload == size)) [
  | inl e ↦ inl (inject a, rw e refl, own, ground arith)
  | inr e ↦ inr (rw e refl, ground arith)
]

alternatives-Fits : Fits alternatives table
unfolding Temperature.decode TargetTemperature.decode Mode.decode Power.decode FanSpeed.decode
    AllConfig.decode Schedule.decode TemperatureOffset.decode SwitchingDiffHeat.decode
    SwitchingDiffCool.decode ChangeoverHeat.decode ChangeoverCool.decode SystemMode.decode
    DisplayUnit.decode
alternatives-Fits =
    (refl, λ f. sized _ _ _ f _ refl)
    & (refl, λ f. sized _ _ _ f _ refl)
    & (refl, λ f. sized _ _ _ f _ refl)
    & (refl, λ f. sized _ _ _ f _ refl)
    & (refl, λ f. sized _ _ _ f _ refl)
    & (refl, λ f. sized _ _ _ f _ refl)
    & (refl, λ f. sized _ _ _ f _ refl)
    & (refl, λ f. sized _ _ _ f _ refl)
    & (refl, λ f. sized _ _ _ f _ refl)
    & (refl, λ f. sized _ _ _ f _ refl)
    & (refl, λ f. sized _ _ _ f _ refl)
    & (refl, λ f. sized _ _ _ f _ refl)
    & (refl, λ f. sized _ _ _ f _ refl)
    & (refl, λ f. sized _ _ _ f _ refl)
    & tt

-- A frame is decoded exactly when its id is known and its payload has the length of that id, and
-- then to a message of the class with that id.
pub decode_message-Agrees : (f : Frame) → Agrees table f (decode_message f)
unfolding decode_message
decode_message-Agrees f = decode_variant-Agrees alternatives table f alternatives-Fits
