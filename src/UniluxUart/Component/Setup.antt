-- ===== src/UniluxUart/Component/Setup.antt =====
-- esphome/components/unilux_uart/unilux_uart.h and unilux_uart.cpp: the component is constructed,
-- configured by its setters, and started.
use unilux_uart.Common.{
  ℕ, zero, suc, ◌+◌, ◌≡◌, refl, ap, ◌∙◌, arith, Bool, true, false, Option, none, some, List, [],
  ◌∷◌, ◌++◌, map, replicate, if◌then◌else◌,
}
use unilux_uart.Float.{Float, nan}
use unilux_uart.Aup
use unilux_uart.UniluxUart.Climate
use unilux_uart.UniluxUart.Number
use unilux_uart.UniluxUart.Select
use unilux_uart.UniluxUart.Component.{Component, Event, sync_iteration}
use unilux_uart.UniluxUart.Component.Sync.{cancels, rounds, rounds_window}

-- SYNC_INTERVAL_MS
abbrev pub sync_interval_ms : ℕ
sync_interval_ms = 5000

-- The setters of class UniluxNumber, and a constructed entity; `state` is what ESPHome gives it.
abbrev pub new_number : Float → Number.Number
new_number state = record { has_parent = false; msg_id = 0; initial_value = nan; state = state }

-- A constructed select entity
abbrev pub new_select : Option ℕ → Select.Select
new_select active_index = record {
  has_parent = false;
  msg_id = 0;
  option_bytes = [];
  restore = false;
  initial_index = 0;
  active_index = active_index;
}

-- A call of a setter of an entity, before the entity is added to the component
pub data NumberSetter : Type 0 where
  set_parent : NumberSetter
  set_msg_id : ℕ → NumberSetter
  set_initial_value : Float → NumberSetter

abbrev pub set_number : NumberSetter → Number.Number → Number.Number
set_number NumberSetter.set_parent n = record n { has_parent = true }
set_number (NumberSetter.set_msg_id id) n = record n { msg_id = id }
set_number (NumberSetter.set_initial_value value) n = record n { initial_value = value }

pub data SelectSetter : Type 0 where
  set_parent : SelectSetter
  set_msg_id : ℕ → SelectSetter
  set_option_bytes : List ℕ → SelectSetter
  set_restore : Bool → SelectSetter
  set_initial_index : ℕ → SelectSetter

abbrev pub set_select : SelectSetter → Select.Select → Select.Select
set_select SelectSetter.set_parent s = record s { has_parent = true }
set_select (SelectSetter.set_msg_id id) s = record s { msg_id = id }
set_select (SelectSetter.set_option_bytes bytes) s = record s { option_bytes = bytes }
set_select (SelectSetter.set_restore restore) s = record s { restore = restore }
set_select (SelectSetter.set_initial_index index) s = record s { initial_index = index }

module _ {Name : Type 0} where
  -- A constructed component; the decoder's header fields are not initialised.
  abbrev pub new_component : Aup.Decoder → Component Name
  new_component decoder = record {
    decoder = decoder;
    t1_sensor = false;
    t2_sensor = false;
    climate = none;
    numbers = [];
    selects = [];
    sync_count = 0;
  }

  abbrev pub set_t1_sensor : Component Name → Component Name
  set_t1_sensor c = record c { t1_sensor = true }

  abbrev pub set_t2_sensor : Component Name → Component Name
  set_t2_sensor c = record c { t2_sensor = true }

  abbrev pub set_climate : Climate.Climate → Component Name → Component Name
  set_climate climate c = record c { climate = some climate }

  abbrev pub add_number : Number.Number → Component Name → Component Name
  add_number number c = record c { numbers = c.numbers ++ number ∷ [] }

  abbrev pub add_select : Select.SelectApi Name × Select.Select → Component Name → Component Name
  add_select select c = record c { selects = c.selects ++ select ∷ [] }

-- A call of a setter of the component, as the generated configuration makes it
pub data Setter (Name : Type 0) : Type 0 where
  t1_sensor t2_sensor : Setter Name
  climate : Climate.Climate → Setter Name
  number : Number.Number → Setter Name
  select : Select.SelectApi Name × Select.Select → Setter Name

abbrev pub configure : {Name : Type 0} → List (Setter Name) → Component Name → Component Name
configure [] c = c
configure (t1_sensor ∷ calls) c = configure calls (set_t1_sensor c)
configure (t2_sensor ∷ calls) c = configure calls (set_t2_sensor c)
configure (climate entity ∷ calls) c = configure calls (set_climate entity c)
configure (number entity ∷ calls) c = configure calls (add_number entity c)
configure (select entity ∷ calls) c = configure calls (add_select entity c)

-- The component and the period of its interval timer, while that runs
pub record Running (Name : Type 0) : Type 0 where
  pub component : Component Name
  pub interval : Option ℕ

-- void setup()
abbrev pub setup : {Name : Type 0} → Component Name → Running Name
setup c = record { component = c; interval = some sync_interval_ms }

-- A period of the timer: ESPHome calls the function that was given to `set_interval`, until
-- `cancel_interval` is called.
abbrev pub after_round :
    {Name : Type 0} → ℕ → Component Name × List (Event Name) → Running Name × List (Event Name)
after_round period (c, es) =
    (record { component = c; interval = if cancels es then none else some period }, es)

abbrev pub tick : {Name : Type 0} → Running Name → Option ℕ → Running Name × List (Event Name)
tick r none = (r, [])
tick r (some period) = after_round period (sync_iteration r.component)

unfoldable pub ticks : {Name : Type 0} → ℕ → Running Name → Running Name × List (List (Event Name))
ticks zero r = (r, [])
ticks (suc k) r = let (r1, es) = tick r r.interval in let (r2, ess) = ticks k r1 in (r2, es ∷ ess)

configure-sync_count :
    {Name : Type 0} (calls : List (Setter Name)) (c : Component Name)
    → (configure calls c).sync_count ≡ c.sync_count
configure-sync_count [] c = refl
configure-sync_count (t1_sensor ∷ calls) c = configure-sync_count calls (set_t1_sensor c)
configure-sync_count (t2_sensor ∷ calls) c = configure-sync_count calls (set_t2_sensor c)
configure-sync_count (climate entity ∷ calls) c = configure-sync_count calls (set_climate entity c)
configure-sync_count (number entity ∷ calls) c = configure-sync_count calls (add_number entity c)
configure-sync_count (select entity ∷ calls) c = configure-sync_count calls (add_select entity c)

module _ (Name : Type 0) where
  stopped :
      (k : ℕ) (c : Component Name)
      → ticks k (record { component = c; interval = none })
        ≡ (record { component = c; interval = none }, replicate k [])
  unfolding ticks
  stopped zero c = refl
  stopped (suc k) c = rw (stopped k c) refl

  abbrev prepend :
      List (Event Name)
      → Running Name × List (List (Event Name))
      → Running Name × List (List (Event Name))
  prepend es (r, ess) = (r, es ∷ ess)

  one_period :
      (last : Bool) (n period : ℕ) (c : Component Name)
      → cancels (sync_iteration c).1 ≡ last
      → ticks (suc n) (record { component = c; interval = some period })
        ≡ prepend (sync_iteration c).1 (
            ticks n (record {
              component = (sync_iteration c).0;
              interval = if last then none else some period;
            }))
  unfolding ticks
  one_period last n period c h = rw h refl

  -- Rounds of which the last one cancels, and periods without a round
  until_cancelled :
      (j k period : ℕ) (c : Component Name)
      → map cancels (rounds (suc j) c).1 ≡ replicate j false ++ true ∷ []
      → ticks (suc (k + j)) (record { component = c; interval = some period }) ≡ (
        record { component = (rounds (suc j) c).0; interval = none },
        (rounds (suc j) c).1 ++ replicate k [],
      )
  unfolding rounds
  until_cancelled zero k period c h =
      let last : cancels (sync_iteration c).1 ≡ true = ground arith in
      let none_left : k + 0 ≡ k = omega arith in
      one_period true (k + 0) period c last ∙ rw (none_left, stopped k (sync_iteration c).0) refl
  until_cancelled (suc j) k period c h =
      let more : cancels (sync_iteration c).1 ≡ false = ground arith in
      let one_left : k + suc j ≡ suc (k + j) = omega arith in
      one_period false (k + suc j) period c more
      ∙ rw (one_left, until_cancelled j k period (sync_iteration c).0 (ground arith)) refl

-- However its setters are called, a constructed component that is set up runs exactly twelve rounds
-- of the rebroadcast: the first eleven periods of the timer, of five seconds each, run a round each
-- and leave the timer on, the twelfth runs the last round and cancels it, and no later period runs
-- one. Nothing of the component changes but the count.
pub ticks-setup :
    (Name : Type 0) (decoder : Aup.Decoder) (calls : List (Setter Name)) (k : ℕ)
    → let c = configure calls (new_component decoder) in
      (ticks (k + 12) (setup c) ≡ (
        record { component = record c { sync_count = 12 }; interval = none },
        (rounds 12 c).1 ++ replicate k [],
      ))
      × (map cancels (rounds 12 c).1 ≡ replicate 11 false ++ true ∷ [])
      × ((setup c).interval ≡ some 5000)
ticks-setup Name decoder calls k =
    let c = configure calls (new_component decoder) in
    let (flags, counted) = rounds_window c (configure-sync_count calls (new_component decoder)) in
    (
      ap (λ (n : ℕ). ticks n (setup c)) (omega arith)
          ∙ until_cancelled Name 11 k sync_interval_ms c flags
          ∙ ap
              (λ (d : Component Name).
                (record { component = d; interval = none }, (rounds 12 c).1 ++ replicate k []))
              counted,
      flags,
      refl,
    )
