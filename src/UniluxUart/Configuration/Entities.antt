-- ===== src/UniluxUart/Configuration/Entities.antt =====
-- esphome/components/unilux_uart/__init__.py: the entities of a configured component.
use unilux_uart.Common.{
  ◌≡◌, refl, ap, sym, ◌∙◌, arith, Bool, true, not, Bool-cases, inl, inr, none, some, List, [], ◌∷◌,
  ◌++◌, append_assoc, append-nil, if◌then◌else◌,
}
use unilux_uart.Aup
use unilux_uart.UniluxUart.Climate
use unilux_uart.UniluxUart.Number
use unilux_uart.UniluxUart.Select
use unilux_uart.UniluxUart.Component.{Component}
use unilux_uart.UniluxUart.Component.Setup.{
  Setter, t1_sensor, t2_sensor, climate, number, select, configure, new_component,
}
use unilux_uart.UniluxUart.Configuration.{
  NumberSetting, SelectSetting, number_settings, select_settings, Esphome, labels, bytes_of,
  channel_calls, climate_calls, number_calls, select_calls, to_code,
}
use Prim.Native.String.{String}

configure-append :
    (xs ys : List (Setter String)) (c : Component String)
    → configure (xs ++ ys) c ≡ configure ys (configure xs c)
configure-append [] ys c = refl
configure-append (t1_sensor ∷ xs) ys c = configure-append xs ys _
configure-append (t2_sensor ∷ xs) ys c = configure-append xs ys _
configure-append (climate entity ∷ xs) ys c = configure-append xs ys _
configure-append (number entity ∷ xs) ys c = configure-append xs ys _
configure-append (select entity ∷ xs) ys c = configure-append xs ys _

-- The entity that a row of the settings describes, field by field
abbrev expected_number : Esphome → NumberSetting → Number.Number
expected_number esphome s = record {
  has_parent = true;
  msg_id = s.msg_id;
  initial_value = s.initial_value;
  state = esphome.state;
}

abbrev expected_select : Esphome → SelectSetting → Select.SelectApi String × Select.Select
expected_select esphome s = (
  esphome.options (labels s.options),
  record {
    has_parent = true;
    msg_id = s.msg_id;
    option_bytes = bytes_of s.options;
    restore = s.restore;
    initial_index = s.initial_index;
    active_index = esphome.active_index;
  },
)

module _ (esphome : Esphome) (disabled : String → Bool) where
  -- The settings that are not disabled, as entities
  abbrev pub enabled_numbers : List NumberSetting → List Number.Number
  enabled_numbers [] = []
  enabled_numbers (s ∷ ss) =
      (if disabled s.key then [] else expected_number esphome s ∷ []) ++ enabled_numbers ss

  abbrev pub enabled_selects : List SelectSetting → List (Select.SelectApi String × Select.Select)
  enabled_selects [] = []
  enabled_selects (s ∷ ss) =
      (if disabled s.key then [] else expected_select esphome s ∷ []) ++ enabled_selects ss

  configure-number_calls :
      (ss : List NumberSetting) (c : Component String)
      → configure (number_calls esphome disabled ss) c
        ≡ record c { numbers = c.numbers ++ enabled_numbers ss }
  configure-number_calls [] c = ap (λ ns. record c { numbers = ns }) (sym (append-nil c.numbers))
  configure-number_calls (s ∷ ss) c = elim (Bool-cases (disabled s.key)) [
    | inl off ↦ rw off (configure-number_calls ss c)
    | inr on ↦
        let n = expected_number esphome s in
        rw on (
          configure-number_calls ss (record c { numbers = c.numbers ++ n ∷ [] })
          ∙ ap (λ ns. record c { numbers = ns })
              (append_assoc c.numbers (n ∷ []) (enabled_numbers ss)))
  ]

  configure-select_calls :
      (ss : List SelectSetting) (c : Component String)
      → configure (select_calls esphome disabled ss) c
        ≡ record c { selects = c.selects ++ enabled_selects ss }
  configure-select_calls [] c = ap (λ ns. record c { selects = ns }) (sym (append-nil c.selects))
  configure-select_calls (s ∷ ss) c = elim (Bool-cases (disabled s.key)) [
    | inl off ↦ rw off (configure-select_calls ss c)
    | inr on ↦
        let n = expected_select esphome s in
        rw on (
          configure-select_calls ss (record c { selects = c.selects ++ n ∷ [] })
          ∙ ap (λ ns. record c { selects = ns })
              (append_assoc c.selects (n ∷ []) (enabled_selects ss)))
  ]

  -- The component that a configuration describes
  abbrev pub configured : Aup.Decoder → Component String
  configured decoder = record {
    decoder = decoder;
    t1_sensor = not (disabled "t1");
    t2_sensor = not (disabled "t2");
    climate = if disabled "climate" then none else some (Climate.initial true esphome.base);
    numbers = enabled_numbers number_settings;
    selects = enabled_selects select_settings;
    sync_count = 0;
  }

  abbrev after_climate : Aup.Decoder → Component String
  after_climate decoder = record (configured decoder) { numbers = []; selects = [] }

  first_calls :
      (decoder : Aup.Decoder)
      → configure
          (channel_calls esphome disabled ++ climate_calls esphome disabled)
          (new_component decoder)
        ≡ after_climate decoder
  first_calls decoder = ground arith

  -- The setter calls that a configuration is turned into give a constructed component exactly the
  -- sensors and entities that are not disabled: the climate entity connected, each number and each
  -- select once, in the order of the settings, connected and with the settings' id, initial value,
  -- bytes, restoring and initial index.
  pub configure-to_code :
      (decoder : Aup.Decoder)
      → configure (to_code esphome disabled) (new_component decoder) ≡ configured decoder
  unfolding to_code
  configure-to_code decoder =
      let start = channel_calls esphome disabled ++ climate_calls esphome disabled in
      let numbers = number_calls esphome disabled number_settings in
      let selects = select_calls esphome disabled select_settings in
      configure-append (start ++ numbers) selects (new_component decoder)
      ∙ ap (configure selects) (
          configure-append start numbers (new_component decoder)
          ∙ ap (configure numbers) (first_calls decoder)
          ∙ configure-number_calls number_settings (after_climate decoder))
      ∙ configure-select_calls select_settings
          (record (after_climate decoder) { numbers = enabled_numbers number_settings })
