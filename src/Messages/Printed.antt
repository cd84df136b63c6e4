-- ===== src/Messages/Printed.antt =====
-- src/messages.cpp and include/messages/: the log texts of received messages.
use unilux_uart.Common.{
  ◌&◌, ℕ, ◌<◌, ◌≤◌, ◌≡◌, refl, subst, arith, List, [], ◌∷◌, Bool-cases, inl, inr, none, some,
  length, drop, All, ◌==◌,
}
use unilux_uart.Utils.{byte_at}
use unilux_uart.Wmmm.{Frame}
use unilux_uart.Text.{codes, decimal, fixed}
use unilux_uart.Text.Decimal.{length-c_str_le}
use unilux_uart.Message.{when_size, read_scalar, read_pair, read_byte}
use unilux_uart.Message.Printed.{
  parts_whole, scalar_whole, byte_whole, unsigned_le, signed_le, byte_le, word_le,
}
use unilux_uart.Message.AllConfig.Units.{unit_le}
use unilux_uart.Message.Temperature
use unilux_uart.Message.TargetTemperature
use unilux_uart.Message.Mode
use unilux_uart.Message.Power
use unilux_uart.Message.FanSpeed
use unilux_uart.Message.AllConfig
use unilux_uart.Message.Schedule
use unilux_uart.Message.TemperatureOffset
use unilux_uart.Message.SwitchingDiffHeat
use unilux_uart.Message.SwitchingDiffCool
use unilux_uart.Message.ChangeoverHeat
use unilux_uart.Message.ChangeoverCool
use unilux_uart.Message.SystemMode
use unilux_uart.Message.DisplayUnit
use unilux_uart.Messages.{AnyMessage, alternatives, wrap, decode_message, to_string}
use unilux_uart.Messages.Again.{Ensures, decode_variant-Ensures}

-- The text of a message, of any length
unfoldable pub text : AnyMessage → List ℕ
text (AnyMessage.temperature m) = Temperature.text m
text (AnyMessage.target_temperature m) = TargetTemperature.text m
text (AnyMessage.mode m) = Mode.text m
text (AnyMessage.power m) = Power.to_string m
text (AnyMessage.fan_speed m) = FanSpeed.text m
text (AnyMessage.all_config m) = AllConfig.text m
text (AnyMessage.schedule m) = Schedule.text m
text (AnyMessage.temperature_offset m) = TemperatureOffset.text m
text (AnyMessage.switching_diff_heat m) = SwitchingDiffHeat.text m
text (AnyMessage.switching_diff_cool m) = SwitchingDiffCool.text m
text (AnyMessage.changeover_heat m) = ChangeoverHeat.text m
text (AnyMessage.changeover_cool m) = ChangeoverCool.text m
text (AnyMessage.system_mode m) = SystemMode.text m
text (AnyMessage.display_unit m) = DisplayUnit.text m

module _ (f : Frame) (P : AnyMessage → Type 0) where
  -- An accepted payload has the size of its class.
  pub of_sized :
      {A : Type 0} (inject : A → AnyMessage) (a : A) (m : AnyMessage) (size : ℕ)
      → wrap inject (when_size f size a) ≡ some m
      → P (inject a)
      → P m
  of_sized inject a m size e h = elim (Bool-cases (length f.payload == size)) [
    | inl hit ↦ let same : some (inject a) ≡ some m = rw (← e, hit) refl in subst P (ground arith) h
    | inr miss ↦ let nothing : none ≡ some m = rw (← e, miss) refl in absurd (ground arith)
  ]

abbrev IsWhole : AnyMessage → Type 0
IsWhole m = to_string m ≡ text m

config_whole :
    (m : AllConfig.AllConfig)
    → length (fixed m.setpoint) ≤ 7
    → length (decimal m.main_mode) ≤ 3
    → length (decimal m.ctrl_mode) ≤ 3
    → length (decimal m.fan_status) ≤ 3
    → length (decimal m.change_over_mode) ≤ 3
    → length (fixed m.change_over_temp_heat) ≤ 7
    → length (fixed m.change_over_temp_cool) ≤ 7
    → length (decimal m.power) ≤ 10
    → length m.power_unit ≤ 8
    → AllConfig.to_string m ≡ AllConfig.text m
unfolding AllConfig.to_string
config_whole m a b c d e f g h i =
    parts_whole 160 (AllConfig.parts m) (omega (arith, length-c_str_le m.power_unit))

module _ (f : Frame) (bytes : All (λ (b : ℕ). b < 256) f.payload) where
  All-IsWhole : All (Ensures f IsWhole) alternatives
  unfolding to_string text read_scalar read_pair read_byte Temperature.decode Temperature.to_string
      TargetTemperature.decode TargetTemperature.to_string Mode.decode Mode.to_string Power.decode
      Power.to_string FanSpeed.decode FanSpeed.to_string AllConfig.decode Schedule.decode
      Schedule.to_string TemperatureOffset.decode TemperatureOffset.to_string
      SwitchingDiffHeat.decode SwitchingDiffHeat.to_string SwitchingDiffCool.decode
      SwitchingDiffCool.to_string ChangeoverHeat.decode ChangeoverHeat.to_string
      ChangeoverCool.decode ChangeoverCool.to_string SystemMode.decode SystemMode.to_string
      DisplayUnit.decode DisplayUnit.to_string Mode.text FanSpeed.text SystemMode.text
      DisplayUnit.text
  All-IsWhole =
      (λ own m read. of_sized f IsWhole AnyMessage.temperature _ m Temperature.payload_size read (
        let lo = unsigned_le f.payload bytes 0 in
        let hi = unsigned_le f.payload bytes 2 in
        parts_whole 64
          (codes "Temperature(t1="
            ∷ fixed (read_pair f).0
            ∷ codes ", t2="
            ∷ fixed (read_pair f).1
            ∷ codes ")"
            ∷ [])
          (omega arith)))
      & (λ own m read.
          of_sized f IsWhole AnyMessage.target_temperature _ m TargetTemperature.payload_size read (
            let lo = unsigned_le f.payload bytes 0 in
            let hi = unsigned_le f.payload bytes 2 in
            parts_whole 64
              (codes "TargetTemperature(t1="
                ∷ fixed (read_pair f).0
                ∷ codes ", t2="
                ∷ fixed (read_pair f).1
                ∷ codes ")"
                ∷ [])
              (omega arith)))
      & (λ own m read.
          of_sized f IsWhole AnyMessage.mode _ m Mode.payload_size read
            (byte_whole 24 (Mode.name_of (read_byte f)) "Mode(0x" (read_byte f) (omega arith)))
      & (λ own m read. of_sized f IsWhole AnyMessage.power _ m Power.payload_size read refl)
      & (λ own m read. of_sized f IsWhole AnyMessage.fan_speed _ m FanSpeed.payload_size read (
          byte_whole 28 (FanSpeed.name_of (read_byte f)) "FanSpeed(0x" (read_byte f) (omega arith)))
      & (λ own m read. of_sized f IsWhole AnyMessage.all_config _ m AllConfig.payload_size read (
          let p = f.payload in
          config_whole _ (signed_le p bytes 0) (byte_le p bytes 4) (byte_le p bytes 3)
            (byte_le p bytes 42) (byte_le p bytes 45) (signed_le p bytes 46) (signed_le p bytes 48)
            (word_le p bytes 16) (unit_le (drop 20 p))))
      & (λ own m read. of_sized f IsWhole AnyMessage.schedule _ m Schedule.payload_size read (
          let lo = byte_le f.payload bytes 0 in
          parts_whole 64
            (codes "Schedule(prgMode="
              ∷ decimal (byte_at f.payload 0)
              ∷ codes ", "
              ∷ decimal 7
              ∷ codes " days x "
              ∷ decimal 4
              ∷ codes " entries)"
              ∷ [])
            (unfold decimal in omega arith)))
      & (λ own m read.
          of_sized f IsWhole AnyMessage.temperature_offset _ m TemperatureOffset.payload_size read (
            scalar_whole "TemperatureOffset(" (read_scalar f) (omega arith)
              (signed_le f.payload bytes 0)))
      & (λ own m read.
          of_sized f IsWhole AnyMessage.switching_diff_heat _ m SwitchingDiffHeat.payload_size read
            (scalar_whole "SwitchingDiffHeat(" (read_scalar f) (omega arith)
              (signed_le f.payload bytes 0)))
      & (λ own m read.
          of_sized f IsWhole AnyMessage.switching_diff_cool _ m SwitchingDiffCool.payload_size read
            (scalar_whole "SwitchingDiffCool(" (read_scalar f) (omega arith)
              (signed_le f.payload bytes 0)))
      & (λ own m read.
          of_sized f IsWhole AnyMessage.changeover_heat _ m ChangeoverHeat.payload_size read (
            scalar_whole "ChangeoverHeat(" (read_scalar f) (omega arith)
              (signed_le f.payload bytes 0)))
      & (λ own m read.
          of_sized f IsWhole AnyMessage.changeover_cool _ m ChangeoverCool.payload_size read (
            scalar_whole "ChangeoverCool(" (read_scalar f) (omega arith)
              (signed_le f.payload bytes 0)))
      & (λ own m read. of_sized f IsWhole AnyMessage.system_mode _ m SystemMode.payload_size read (
          byte_whole 24 (SystemMode.name_of (read_byte f)) "SystemMode(0x" (read_byte f)
            (omega arith)))
      & (λ own m read.
          of_sized f IsWhole AnyMessage.display_unit _ m DisplayUnit.payload_size read (
            byte_whole 24 (DisplayUnit.name_of (read_byte f)) "DisplayUnit(0x" (read_byte f)
              (omega arith)))
      & tt

-- The log text of a message that was decoded from a frame whose payload consists of bytes fits its
-- buffer: to_string returns all of what is printed, never a cut text.
pub to_string-decode_message :
    (f : Frame) (m : AnyMessage)
    → All (λ (b : ℕ). b < 256) f.payload
    → decode_message f ≡ some m
    → to_string m ≡ text m
unfolding decode_message
to_string-decode_message f m bytes read =
    decode_variant-Ensures f IsWhole alternatives m (All-IsWhole f bytes) read
