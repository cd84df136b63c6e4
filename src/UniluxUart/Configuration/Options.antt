-- ===== src/UniluxUart/Configuration/Options.antt =====
-- esphome/components/unilux_uart/__init__.py: the options of the select settings are what the component
-- can send.
use unilux_uart.Common.{◌&◌, ℕ, ◌<◌, ◌≡◌, refl, subst, arith, some, All, OneOf, All-OneOf, length}
use unilux_uart.Aup
use unilux_uart.Aup.{IsWellFormed}
use unilux_uart.Messages.{AnyMessage, id_of}
use unilux_uart.Messages.RoundTrip.{IsOnWire}
use unilux_uart.UniluxUart.Send.{send_byte_setting}
use unilux_uart.UniluxUart.Send.Device.{typed_message}
use unilux_uart.UniluxUart.Send.Settings.{byte_of, typed_message-send_byte_setting}
use unilux_uart.UniluxUart.Configuration.{SelectSetting, select_settings}
use Prim.Native.String.{String}

-- A message of a setting of one byte with a value
record Enum (id b : ℕ) : Type 0 where
  message : AnyMessage
  own_id : id_of message ≡ id
  value : byte_of message ≡ some b
  on_wire : IsOnWire message

-- Each option of a select setting is a message, and the initial index is that of an option.
abbrev HasOptions : SelectSetting → Type 0
HasOptions s =
    All (λ (o : String × ℕ). Enum s.msg_id o.1) s.options × (s.initial_index < length s.options)

mode_option : (b : ℕ) → b < 256 → Enum 0x23 b
mode_option b h = record {
  message = AnyMessage.system_mode (record { value = b });
  own_id = refl;
  value = refl;
  on_wire = h;
}

unit_option : (b : ℕ) → b < 256 → Enum 0x2C b
unit_option b h = record {
  message = AnyMessage.display_unit (record { value = b });
  own_id = refl;
  value = refl;
  on_wire = h;
}

options : All HasOptions select_settings
options =
    (
      mode_option 0 (omega arith)
          & mode_option 1 (omega arith)
          & mode_option 2 (omega arith)
          & mode_option 3 (omega arith)
          & tt,
      omega arith,
    )
    & (unit_option 2 (omega arith) & unit_option 3 (omega arith) & tt, omega arith)
    & tt

-- For each option of each select setting, the initial index being one of an option,
-- `send_byte_setting` with the setting's id writes one AUP frame, whose payload decodes to a message
-- with that id and the option's byte.
pub typed_message-select_settings :
    (s : SelectSetting) (option : String × ℕ)
    → OneOf s select_settings
    → OneOf option s.options
    → (f : Aup.Frame) × (m : AnyMessage) × (send_byte_setting s.msg_id option.1
        ≡ some (Aup.encode f))
      × IsWellFormed f
      × (typed_message f ≡ some m)
      × (id_of m ≡ s.msg_id)
      × (byte_of m ≡ some option.1)
      × (s.initial_index < length s.options)
typed_message-select_settings s option known here =
    let (all_options, initial) = All-OneOf HasOptions s select_settings options known in
    let t = All-OneOf (λ (o : String × ℕ). Enum s.msg_id o.1) option s.options all_options here in
    let (f, written, good, read) =
      typed_message-send_byte_setting t.message option.1 t.value t.on_wire in
    let there : send_byte_setting s.msg_id option.1 ≡ some (Aup.encode f) =
      subst (λ i. send_byte_setting i option.1 ≡ some (Aup.encode f)) t.own_id written in
    (f, t.message, there, good, read, t.own_id, t.value, initial)
