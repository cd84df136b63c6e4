-- ===== src/UniluxUart/Select/Tests.antt =====
-- esphome/components/unilux_uart/unilux_uart.cpp: a select entity with three options.
use unilux_uart.Common.{
  ℕ, zero, suc, ◌<◌, ◌≡◌, refl, arith, true, Option, none, some, [], ◌∷◌, if◌then◌else◌, ltb, ◌==◌,
  length,
}
use unilux_uart.UniluxUart.Select.{
  Select, SelectApi, IsLawful, sync_to_device, setup, control, publish_byte,
}
use unilux_uart.UniluxUart.Select.Laws.{
  settings, saved, setup-control_select, sync_to_device-publish_byte,
}

-- Options whose texts are numbers
abbrev index_of : ℕ → Option ℕ
index_of name =
    if name == 10
    then some 0
    else if name == 20
    then some 1
    else if name == 30
    then some 2
    else none

abbrev option_at : ℕ → Option ℕ
option_at i =
    if i == 0 then some 10 else if i == 1 then some 20 else if i == 2 then some 30 else none

abbrev or_active : Option ℕ → Option ℕ → Option ℕ
or_active active none = active
or_active active (some i) = some i

abbrev pub options : SelectApi ℕ
options = record {
  has_index = λ i. ltb i 3;
  index_of = index_of;
  at = option_at;
  publish_index = λ active i. if ltb i 3 then some i else active;
  publish_name = λ active name. or_active active (index_of name);
}

options-IsLawful : IsLawful options
options-IsLawful = record {
  publish_index_lem = λ active i h. ground arith;
  publish_name_lem = λ active name i h. ground arith;
  index_of-at = λ i name h. ground arith;
  has_index-index_of = λ name i h. ground arith;
}

abbrev pub system_mode : Select
system_mode = record {
  has_parent = true;
  msg_id = 0x23;
  option_bytes = 0 ∷ 3 ∷ 1 ∷ [];
  restore = true;
  initial_index = 0;
  active_index = none;
}

setup-control_select_example :
    let controlled = control options 20 system_mode in
    let restarted =
      setup options (saved none controlled.1) (record system_mode { active_index = some 2 }) in
    (settings controlled.1 ≡ (0x23, 3) ∷ [])
    × (controlled.0.active_index ≡ some 1)
    × (restarted.0.active_index ≡ some 1)
    × (settings restarted.1 ≡ (0x23, 3) ∷ [])
setup-control_select_example =
    setup-control_select options options-IsLawful system_mode 20 1 none (some 2) refl refl refl
      (omega arith)

system_mode_options :
    (k : ℕ) → k < length system_mode.option_bytes → (name : ℕ) × (options.at k ≡ some name)
system_mode_options zero h = (10, refl)
system_mode_options (suc zero) h = (20, refl)
system_mode_options (suc (suc zero)) h = (30, refl)
system_mode_options (suc (suc (suc k))) h = absurd (omega arith)

sync_to_device-publish_byte_example :
    settings (sync_to_device options (publish_byte options 1 system_mode).0) ≡ (0x23, 1) ∷ []
sync_to_device-publish_byte_example =
    sync_to_device-publish_byte options options-IsLawful system_mode 1 2 refl system_mode_options
      (omega arith) refl
