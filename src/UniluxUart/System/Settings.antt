-- ===== src/UniluxUart/System/Settings.antt =====
-- esphome/components/unilux_uart/unilux_uart.cpp: what the number and select entities write is on the
-- wire, and leaves what the climate entity shows as it is.
use unilux_uart.Common.{
  ℕ, zero, suc, ◌<◌, ◌≡◌, refl, arith, Bool, true, false, not, ◌&&◌, inl, inr, ◌⊎◌, Option, none,
  some, List, [], ◌∷◌, map, All, if◌then◌else◌, ltb, length, get_or,
}
use unilux_uart.Float.{Float, isnan}
use unilux_uart.Messages.RoundTrip.{IsSigned}
use unilux_uart.UniluxUart.Send.{send_temperature_setting, send_byte_setting}
use unilux_uart.UniluxUart.Climate.Mirror.{Device}
use unilux_uart.UniluxUart.Number
use unilux_uart.UniluxUart.Select
use unilux_uart.UniluxUart.Component.{Event, number_event, select_event, sync_numbers, sync_selects}
use unilux_uart.UniluxUart.System.Transcript.{
  scalar_messages, byte_messages, Transcript-scalar, Transcript-byte,
}
use unilux_uart.UniluxUart.System.Effect.{
  Does-Transcript, Does, Effect, Effect-nil, Effect-cons, Effect-append,
}

abbrev pub same : Device → Device
same d = d

-- A setting, of whatever id
Does-scalar : (id : ℕ) (v : Float) → IsSigned v → Does (send_temperature_setting id v) same
Does-scalar id v h =
    Does-Transcript same (send_temperature_setting id v) (scalar_messages id v)
      (Transcript-scalar id v h) (λ d. unfold scalar_messages in ground arith)

Does-byte : (id b : ℕ) → b < 256 → Does (send_byte_setting id b) same
Does-byte id b h =
    Does-Transcript same (send_byte_setting id b) (byte_messages id b) (Transcript-byte id b h)
      (λ d. unfold byte_messages in ground arith)

-- A number entity holds NaN or a value that the wire carries, and a select entity's bytes are bytes.
abbrev pub NumberFits : Number.Number → Type 0
NumberFits n = (isnan n.state ≡ true) ⊎ IsSigned n.state

abbrev pub SelectFits : {Name : Type 0} → Select.SelectApi Name × Select.Select → Type 0
SelectFits (api, s) = All (λ (b : ℕ). b < 256) s.option_bytes

get_or-lt : (bs : List ℕ) (i : ℕ) → All (λ (b : ℕ). b < 256) bs → get_or bs i 0 < 256
get_or-lt [] i h = omega arith
get_or-lt (b ∷ bs) zero (h, hs) = h
get_or-lt (b ∷ bs) (suc i) (h, hs) = get_or-lt bs i hs

module _ (Name : Type 0) where
  unfoldable pub number_calls : ℕ → List Number.Event → List (Event Name)
  number_calls id es = map (number_event id) es

  unfoldable pub select_calls : ℕ → List (Select.Event Name) → List (Event Name)
  select_calls id es = map (select_event id) es

  -- Calls after a test
  number_if :
      (id : ℕ) (t : Bool) (es : List Number.Event)
      → (t ≡ true → Effect Name (number_calls id es) same)
      → Effect Name (number_calls id (if t then es else [])) same
  unfolding number_calls
  number_if id true es h = h refl
  number_if id false es h = Effect-nil Name

  select_if :
      (id : ℕ) (t : Bool) (es : List (Select.Event Name))
      → Effect Name (select_calls id es) same
      → Effect Name (select_calls id (if t then es else [])) same
  unfolding select_calls
  select_if id true es h = h
  select_if id false es h = Effect-nil Name

  pub one_number :
      (id msg_id : ℕ) (v : Float)
      → IsSigned v
      → Effect Name (number_calls id (Number.setting msg_id v ∷ [])) same
  unfolding number_calls
  one_number id msg_id v h =
      Effect-cons Name same same (number_event id (Number.setting msg_id v)) []
        (Does-scalar msg_id v h) (Effect-nil Name)

  pub Effect-sync_number :
      (n : Number.Number)
      → NumberFits n
      → Effect Name (number_calls n.msg_id (Number.sync_to_device n)) same
  unfolding Number.sync_to_device
  Effect-sync_number n h =
      number_if n.msg_id (n.has_parent && not (isnan n.state))
        (Number.setting n.msg_id n.state ∷ [])
        (λ test. one_number n.msg_id n.msg_id n.state (value test h))
    where
      value : n.has_parent && not (isnan n.state) ≡ true → NumberFits n → IsSigned n.state
      value test (inl nan) = absurd (ground arith)
      value test (inr wire) = wire

  pub Effect-sync_numbers :
      (ns : List Number.Number) → All NumberFits ns → Effect Name (sync_numbers ns) same
  unfolding number_calls
  Effect-sync_numbers [] h = Effect-nil Name
  Effect-sync_numbers (n ∷ ns) (h, hs) =
      Effect-append Name same same (number_calls n.msg_id (Number.sync_to_device n))
        (sync_numbers ns) (Effect-sync_number n h) (Effect-sync_numbers ns hs)

  -- `send_byte_setting` of an option's byte
  pub Effect-byte_setting :
      (api : Select.SelectApi Name) (s : Select.Select) (i id : ℕ)
      → SelectFits (api, s)
      → Effect Name (select_calls id (Select.byte_setting api s i)) same
  unfolding select_calls
  Effect-byte_setting api s i id h =
      select_if id s.has_parent (Select.setting s.msg_id (get_or s.option_bytes i 0) ∷ []) (
        Effect-cons Name same same
          (select_event id (Select.setting s.msg_id (get_or s.option_bytes i 0))) []
          (Does-byte s.msg_id (get_or s.option_bytes i 0) (get_or-lt s.option_bytes i h))
          (Effect-nil Name))

  pub Effect-sync_select :
      (api : Select.SelectApi Name) (s : Select.Select)
      → SelectFits (api, s)
      → Effect Name (select_calls s.msg_id (Select.sync_to_device api s)) same
  unfolding Select.sync_to_device
  Effect-sync_select api s h = by_index s.active_index refl
    where
      by_index :
          (o : Option ℕ)
          → s.active_index ≡ o
          → Effect Name (select_calls s.msg_id (Select.sync_to_device api s)) same
      by_index none e = unfold select_calls in rw e (Effect-nil Name)
      by_index (some i) e = rw e (
          select_if s.msg_id (ltb i (length s.option_bytes)) (Select.byte_setting api s i)
            (Effect-byte_setting api s i s.msg_id h))

  pub Effect-sync_selects :
      (ss : List (Select.SelectApi Name × Select.Select))
      → All SelectFits ss
      → Effect Name (sync_selects ss) same
  unfolding select_calls
  Effect-sync_selects [] h = Effect-nil Name
  Effect-sync_selects ((api, s) ∷ ss) (h, hs) =
      Effect-append Name same same (select_calls s.msg_id (Select.sync_to_device api s))
        (sync_selects ss) (Effect-sync_select api s h) (Effect-sync_selects ss hs)
