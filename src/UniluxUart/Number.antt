-- ===== src/UniluxUart/Number.antt =====
-- esphome/components/unilux_uart/unilux_uart.cpp: class UniluxNumber, a setting shown as a number.
use unilux_uart.Common.{
  ℕ, ◌≡◌, refl, Bool, true, false, not, ◌&&◌, Option, none, some, List, [], ◌∷◌, ◌++◌,
  if◌then◌else◌,
}
use unilux_uart.Float.{Float, isnan}

-- The fields of class UniluxNumber, and the inherited `state`
pub record Number : Type 0 where
  pub has_parent : Bool
  pub msg_id : ℕ
  pub initial_value : Float
  pub state : Float

-- A call of `send_temperature_setting` of the parent, of the inherited `publish_state`, or of `save`
-- of the preference
pub data Event : Type 0 where
  setting : ℕ → Float → Event
  publish : Float → Event
  save : Float → Event

-- The initial value where the preference holds none
abbrev pub loaded : Option Float → Float → Float
loaded none initial_value = initial_value
loaded (some value) initial_value = value

-- void sync_to_device()
unfoldable pub sync_to_device : Number → List Event
sync_to_device n = if n.has_parent && not (isnan n.state) then setting n.msg_id n.state ∷ [] else []

-- ESPHome's `Number::publish_state` gives the field `state` a value from the old and the published.
module _ (published : Float → Float → Float) where
  abbrev pub publish_state : Float → Number → Number
  publish_state value n = record n { state = published n.state value }

  -- void setup(), where the preference holds `stored`
  unfoldable pub setup : Option Float → Number → Number × List Event
  unfolding sync_to_device
  setup stored n =
      let value = loaded stored n.initial_value in
      let n1 = publish_state value n in (n1, publish value ∷ sync_to_device n1)

  -- void control(float value)
  unfoldable pub control : Float → Number → Number × List Event
  control value n =
      let sent = if n.has_parent then setting n.msg_id value ∷ [] else [] in
      (publish_state value n, sent ++ publish value ∷ save value ∷ [])

-- The last value that was saved, or else what the preference held before
abbrev pub saved : Option Float → List Event → Option Float
saved stored [] = stored
saved stored (save value ∷ es) = saved (some value) es
saved stored (_ ∷ es) = saved stored es

-- Settings are calls with the value and nothing else.
abbrev pub settings : List Event → List (ℕ × Float)
settings [] = []
settings (setting id value ∷ es) = (id, value) ∷ settings es
settings (_ ∷ es) = settings es

-- If ESPHome's `publish_state` stores the published value, then a connected entity sends and shows a
-- value chosen by the user that is not NaN, and after a restart, whatever its state was before,
-- `setup` shows the value and sends it again, and so does every later `sync_to_device`.
pub setup-control :
    (published : Float → Float → Float)
    → ((old value : Float) → published old value ≡ value)
    → (n : Number) (stored : Option Float) (value old : Float) → n.has_parent ≡ true
    → isnan value ≡ false
    → let controlled = control published value n in
      let restarted = setup published (saved stored controlled.1) (record n { state = old }) in
      (settings controlled.1 ≡ (n.msg_id, value) ∷ [])
      × (controlled.0.state ≡ value)
      × (restarted.0.state ≡ value)
      × (settings restarted.1 ≡ (n.msg_id, value) ∷ [])
      × (settings (sync_to_device restarted.0) ≡ (n.msg_id, value) ∷ [])
unfolding control setup sync_to_device
setup-control published law n stored value old parent number =
    rw parent (rw (law n.state value, law old value) (rw number (refl, refl, refl, refl, refl)))
