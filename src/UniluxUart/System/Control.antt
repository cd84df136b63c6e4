-- ===== src/UniluxUart/System/Control.antt =====
-- esphome/components/unilux_uart/unilux_uart.cpp: a call from Home Assistant on a number or a select
-- entity of the component.
use unilux_uart.Common.{
  ℕ, zero, suc, ◌≡◌, refl, ap, Bool, true, false, inl, inr, Bool-cases, Option, none, some, List,
  [], ◌∷◌, ◌++◌, All, if◌then◌else◌, ltb, length,
}
use unilux_uart.Float.{Float}
use unilux_uart.Messages.RoundTrip.{IsSigned}
use unilux_uart.UniluxUart.Number
use unilux_uart.UniluxUart.Select
use unilux_uart.UniluxUart.Component.{number_event, select_event}
use unilux_uart.UniluxUart.System.{control_number_at, control_select_at}
use unilux_uart.UniluxUart.System.Effect.{
  Does-nothing, Effect, Effect-nil, Effect-cons, Effect-append,
}
use unilux_uart.UniluxUart.System.Settings.{
  same, NumberFits, SelectFits, number_calls, select_calls, one_number, Effect-byte_setting,
}

module _ (Name : Type 0) (published : Float → Float → Float)
    (law : (old value : Float) → published old value ≡ value) where
  number_end :
      (id : ℕ) (v : Float)
      → Effect Name (number_calls Name id (Number.publish v ∷ Number.save v ∷ [])) same
  unfolding number_calls
  number_end id v = Effect-cons Name same same (number_event id (Number.publish v)) _ Does-nothing (
      Effect-cons Name same same (number_event id (Number.save v)) [] Does-nothing
        (Effect-nil Name))

  number_sent :
      (t : Bool) (id msg_id : ℕ) (v : Float)
      → IsSigned v
      → Effect Name
          (number_calls Name id (
            (if t then Number.setting msg_id v ∷ [] else [])
            ++ Number.publish v ∷ Number.save v ∷ []))
          same
  unfolding number_calls
  number_sent true id msg_id v h =
      Effect-append Name same same (number_calls Name id (Number.setting msg_id v ∷ [])) _
        (one_number Name id msg_id v h) (number_end id v)
  number_sent false id msg_id v h = number_end id v

  -- A value that the wire carries
  pub control_number_at-Fits :
      (k : ℕ) (v : Float) (ns : List Number.Number)
      → IsSigned v
      → All NumberFits ns
      → let r = control_number_at published k v ns in Effect Name r.1 same × All NumberFits r.0
  unfolding control_number_at Number.control number_calls
  control_number_at-Fits k v [] h fits = (Effect-nil Name, tt)
  control_number_at-Fits zero v (n ∷ ns) h (fit, fits) =
      (number_sent n.has_parent n.msg_id n.msg_id v h, (rw (law n.state v) (inr h), fits))
  control_number_at-Fits (suc k) v (n ∷ ns) h (fit, fits) =
      let (effect, rest) = control_number_at-Fits k v ns h fits in (effect, (fit, rest))

  select_end :
      (id : ℕ) (name : Name) (t : Bool) (i : ℕ)
      → Effect Name
          (select_calls Name id (Select.publish name ∷ (if t then Select.save i ∷ [] else [])))
          same
  unfolding select_calls
  select_end id name true i =
      Effect-cons Name same same (select_event id (Select.publish name)) _ Does-nothing (
        Effect-cons Name same same (select_event id (Select.save i)) [] Does-nothing
          (Effect-nil Name))
  select_end id name false i =
      Effect-cons Name same same (select_event id (Select.publish name)) [] Does-nothing
        (Effect-nil Name)

  map-append :
      (id : ℕ) (es fs : List (Select.Event Name))
      → select_calls Name id (es ++ fs) ≡ select_calls Name id es ++ select_calls Name id fs
  unfolding select_calls
  map-append id [] fs = refl
  map-append id (e ∷ es) fs = ap (λ t. select_event id e ∷ t) (map-append id es fs)

  choose-Fits :
      (api : Select.SelectApi Name) (s : Select.Select) (name : Name) (index : Option ℕ)
      → SelectFits (api, s)
      → let r = Select.choose api index name s in
        Effect Name (select_calls Name s.msg_id r.1) same × SelectFits (api, r.0)
  choose-Fits api s name none h = unfold select_calls in (Effect-nil Name, h)
  choose-Fits api s name (some i) h = elim (Bool-cases (ltb i (length s.option_bytes))) [
    | inl small ↦
        let start = Select.byte_setting api s i in
        let end = Select.publish name ∷ (if s.restore then Select.save i ∷ [] else []) in
        rw small (
          rw (map-append s.msg_id start end) (
              Effect-append Name same same (select_calls Name s.msg_id start)
                (select_calls Name s.msg_id end) (Effect-byte_setting Name api s i s.msg_id h)
                (select_end s.msg_id name s.restore i)),
          h,
        )
    | inr large ↦ rw large (unfold select_calls in (Effect-nil Name, h))
  ]

  pub control_select_at-Fits :
      (k : ℕ) (name : Name) (ss : List (Select.SelectApi Name × Select.Select))
      → All SelectFits ss
      → let r = control_select_at published k name ss in Effect Name r.1 same × All SelectFits r.0
  unfolding control_select_at Select.control select_calls
  control_select_at-Fits k name [] fits = (Effect-nil Name, tt)
  control_select_at-Fits zero name ((api, s) ∷ ss) (fit, fits) =
      let (effect, kept) = choose-Fits api s name (api.index_of name) fit in (effect, (kept, fits))
  control_select_at-Fits (suc k) name ((api, s) ∷ ss) (fit, fits) =
      let (effect, rest) = control_select_at-Fits k name ss fits in (effect, (fit, rest))
