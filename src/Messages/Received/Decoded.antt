-- ===== src/Messages/Received/Decoded.antt =====
-- src/messages.cpp and include/messages/: the types of a message that `decode_message` returns.
use unilux_uart.Common.{◌&◌, ℕ, ◌<◌, ◌≡◌, Option, none, some, List, All, arith, subst}
use unilux_uart.Wmmm.{Frame}
use unilux_uart.Message.{read_scalar, read_pair, read_byte}
use unilux_uart.Message.Typed.{byte_at-IsByte}
use unilux_uart.Message.Temperature
use unilux_uart.Message.TargetTemperature
use unilux_uart.Message.Mode
use unilux_uart.Message.Power
use unilux_uart.Message.FanSpeed
use unilux_uart.Message.TemperatureOffset
use unilux_uart.Message.SwitchingDiffHeat
use unilux_uart.Message.SwitchingDiffCool
use unilux_uart.Message.ChangeoverHeat
use unilux_uart.Message.ChangeoverCool
use unilux_uart.Message.SystemMode
use unilux_uart.Message.DisplayUnit
use unilux_uart.Message.AllConfig
use unilux_uart.Message.Schedule
use unilux_uart.Messages.{AnyMessage, alternatives, wrap, decode_message}
use unilux_uart.Messages.Again.{Ensures, decode_variant-Ensures}
use unilux_uart.Messages.RoundTrip.{IsOnWire}
use unilux_uart.Messages.Received.{IsUnsigned-at, IsSigned-at, when_size-hit}
use unilux_uart.Messages.Received.Config
use unilux_uart.Messages.Received.Week

-- The fields of a message are of their types. The temperatures of the configuration block and of the
-- weekly program may be negative; all other messages are such as the wire carries.
abbrev pub HasTypes : AnyMessage → Type 0
HasTypes (AnyMessage.all_config m) = Config.IsReceived m
HasTypes (AnyMessage.schedule m) = Week.IsReceived m
HasTypes m = IsOnWire m

of_wrap :
    {A : Type 0} (inject : A → AnyMessage) (o : Option A) (m : AnyMessage)
    → wrap inject o ≡ some m
    → ((a : A) → o ≡ some a → HasTypes (inject a))
    → HasTypes m
of_wrap inject none m e h = absurd (ground arith)
of_wrap inject (some a) m e h = subst HasTypes (ground arith) (h a (λ i. some a))

module _ (f : Frame) (bytes : All (λ (b : ℕ). b < 256) f.payload) where
  abbrev p : List ℕ
  p = f.payload

  All-HasTypes : All (Ensures f HasTypes) alternatives
  unfolding read_scalar read_pair read_byte Temperature.decode TargetTemperature.decode Mode.decode
      Power.decode FanSpeed.decode TemperatureOffset.decode SwitchingDiffHeat.decode
      SwitchingDiffCool.decode ChangeoverHeat.decode ChangeoverCool.decode SystemMode.decode
      DisplayUnit.decode
  All-HasTypes =
      (λ own m read. of_wrap AnyMessage.temperature (Temperature.decode f) m read (λ a e.
        when_size-hit f (λ x. HasTypes (AnyMessage.temperature x)) Temperature.payload_size _ a e
          (λ long. (IsUnsigned-at p bytes 0, IsUnsigned-at p bytes 2))))
      & (λ own m read.
          of_wrap AnyMessage.target_temperature (TargetTemperature.decode f) m read (λ a e.
            when_size-hit f (λ x. HasTypes (AnyMessage.target_temperature x))
              TargetTemperature.payload_size _ a e
              (λ long. (IsUnsigned-at p bytes 0, IsUnsigned-at p bytes 2))))
      & (λ own m read. of_wrap AnyMessage.mode (Mode.decode f) m read (λ a e.
          when_size-hit f (λ x. HasTypes (AnyMessage.mode x)) Mode.payload_size _ a e
            (λ long. (byte_at-IsByte p 0 bytes))))
      & (λ own m read. of_wrap AnyMessage.power (Power.decode f) m read (λ a e.
          when_size-hit f (λ x. HasTypes (AnyMessage.power x)) Power.payload_size _ a e
            (λ long. tt)))
      & (λ own m read. of_wrap AnyMessage.fan_speed (FanSpeed.decode f) m read (λ a e.
          when_size-hit f (λ x. HasTypes (AnyMessage.fan_speed x)) FanSpeed.payload_size _ a e
            (λ long. (byte_at-IsByte p 0 bytes))))
      & (λ own m read.
          of_wrap AnyMessage.all_config (AllConfig.decode f) m read
            (λ a e. Config.decode-IsReceived f a bytes e))
      & (λ own m read.
          of_wrap AnyMessage.schedule (Schedule.decode f) m read
            (λ a e. Week.decode-IsReceived f a bytes e))
      & (λ own m read.
          of_wrap AnyMessage.temperature_offset (TemperatureOffset.decode f) m read (λ a e.
            when_size-hit f (λ x. HasTypes (AnyMessage.temperature_offset x))
              TemperatureOffset.payload_size _ a e (λ long. (IsSigned-at p bytes 0))))
      & (λ own m read.
          of_wrap AnyMessage.switching_diff_heat (SwitchingDiffHeat.decode f) m read (λ a e.
            when_size-hit f (λ x. HasTypes (AnyMessage.switching_diff_heat x))
              SwitchingDiffHeat.payload_size _ a e (λ long. (IsSigned-at p bytes 0))))
      & (λ own m read.
          of_wrap AnyMessage.switching_diff_cool (SwitchingDiffCool.decode f) m read (λ a e.
            when_size-hit f (λ x. HasTypes (AnyMessage.switching_diff_cool x))
              SwitchingDiffCool.payload_size _ a e (λ long. (IsSigned-at p bytes 0))))
      & (λ own m read. of_wrap AnyMessage.changeover_heat (ChangeoverHeat.decode f) m read (λ a e.
          when_size-hit f (λ x. HasTypes (AnyMessage.changeover_heat x)) ChangeoverHeat.payload_size
            _ a e (λ long. (IsSigned-at p bytes 0))))
      & (λ own m read. of_wrap AnyMessage.changeover_cool (ChangeoverCool.decode f) m read (λ a e.
          when_size-hit f (λ x. HasTypes (AnyMessage.changeover_cool x)) ChangeoverCool.payload_size
            _ a e (λ long. (IsSigned-at p bytes 0))))
      & (λ own m read. of_wrap AnyMessage.system_mode (SystemMode.decode f) m read (λ a e.
          when_size-hit f (λ x. HasTypes (AnyMessage.system_mode x)) SystemMode.payload_size _ a e
            (λ long. (byte_at-IsByte p 0 bytes))))
      & (λ own m read. of_wrap AnyMessage.display_unit (DisplayUnit.decode f) m read (λ a e.
          when_size-hit f (λ x. HasTypes (AnyMessage.display_unit x)) DisplayUnit.payload_size _ a e
            (λ long. (byte_at-IsByte p 0 bytes))))
      & tt

-- The fields of a message that was decoded from a frame whose payload consists of bytes are of their
-- types: a temperature is an unsigned or a signed 16-bit number of tenths as its class reads it, an
-- enumeration is a byte; a configuration block holds bytes, counts of 32 bits, unit strings of at most
-- eight bytes without NUL and nine trailing bytes, a weekly program seven days of four entries.
pub decode_message-HasTypes :
    (f : Frame) (m : AnyMessage)
    → All (λ (b : ℕ). b < 256) f.payload
    → decode_message f ≡ some m
    → HasTypes m
unfolding decode_message
decode_message-HasTypes f m bytes read =
    decode_variant-Ensures f HasTypes alternatives m (All-HasTypes f bytes) read
