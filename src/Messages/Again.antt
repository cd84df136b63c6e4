-- ===== src/Messages/Again.antt =====
-- src/messages.cpp and include/messages/: what is left of a received frame of four payload bytes when
-- its message is encoded again.
use unilux_uart.Common.{
  ◌&◌, ℕ, ◌<◌, ◌≡◌, refl, sym, ap, subst, ◌∙◌, arith, List, [], ◌∷◌, ◌++◌, Bool, true, false, not,
  Bool-cases, inl, inr, none, some, length, take, All, ◌==◌, if◌then◌else◌,
}
use unilux_uart.Utils.{byte_at}
use unilux_uart.Wmmm.{Frame}
use unilux_uart.Message.{
  frame_of, when_size, encode_pair, read_pair, encode_scalar, read_scalar, read_byte, encode_byte,
}
use unilux_uart.Message.Laws.{
  four, of_length_four, encode-read_scalar, encode-read_pair, encode-read_byte,
}
use unilux_uart.Message.Temperature
use unilux_uart.Message.TargetTemperature
use unilux_uart.Message.Mode
use unilux_uart.Message.Power
use unilux_uart.Message.FanSpeed
use unilux_uart.Message.AllConfig
use unilux_uart.Message.Schedule
use unilux_uart.Message.TemperatureOffset
use unilux_uart.Message.SwitchingDiffHeat
use unilux_uart.Message.SwitchingDiffCool
use unilux_uart.Message.ChangeoverHeat
use unilux_uart.Message.ChangeoverCool
use unilux_uart.Message.SystemMode
use unilux_uart.Message.DisplayUnit
use unilux_uart.Messages.{
  AnyMessage, Alternative, alternatives, wrap, decode_variant, decode_message, encode,
}
use unilux_uart.Messages.Dispatch.{decode_hit, decode_miss}

-- The bytes that survive: two temperatures whole, of a scalar setting the first two bytes, of an
-- enumeration the first one, and of the power state whether it is zero.
abbrev pub kept : AnyMessage → List ℕ → List ℕ
kept (AnyMessage.temperature m) p = p
kept (AnyMessage.target_temperature m) p = p
kept (AnyMessage.temperature_offset m) p = take 2 p ++ 0 ∷ 0 ∷ []
kept (AnyMessage.switching_diff_heat m) p = take 2 p ++ 0 ∷ 0 ∷ []
kept (AnyMessage.switching_diff_cool m) p = take 2 p ++ 0 ∷ 0 ∷ []
kept (AnyMessage.changeover_heat m) p = take 2 p ++ 0 ∷ 0 ∷ []
kept (AnyMessage.changeover_cool m) p = take 2 p ++ 0 ∷ 0 ∷ []
kept (AnyMessage.mode m) p = take 1 p ++ 0 ∷ 0 ∷ 0 ∷ []
kept (AnyMessage.fan_speed m) p = take 1 p ++ 0 ∷ 0 ∷ 0 ∷ []
kept (AnyMessage.system_mode m) p = take 1 p ++ 0 ∷ 0 ∷ 0 ∷ []
kept (AnyMessage.display_unit m) p = take 1 p ++ 0 ∷ 0 ∷ 0 ∷ []
kept (AnyMessage.power m) p = (if byte_at p 0 == 0 then 0 else 1) ∷ 0 ∷ 0 ∷ 0 ∷ []
kept _ p = p

module _ (f : Frame) (P : AnyMessage → Type 0) where
  -- The alternative with the frame's id decides.
  abbrev pub Ensures : Alternative → Type 0
  Ensures M = f.msg_id ≡ M.id → (m : AnyMessage) → M.decode f ≡ some m → P m

  pub decode_variant-Ensures :
      (Ms : List Alternative) (m : AnyMessage)
      → All Ensures Ms
      → decode_variant Ms f none ≡ some m
      → P m
  decode_variant-Ensures [] m h e = unfold decode_variant in cc
  decode_variant-Ensures (M ∷ Ms) m (h, hs) e = elim (Bool-cases (f.msg_id == M.id)) [
    | inl hit ↦ h (ground arith) m (sym (decode_hit M Ms f hit) ∙ e)
    | inr miss ↦ decode_variant-Ensures Ms m hs (sym (decode_miss M Ms f miss) ∙ e)
  ]

  -- A payload of four bytes is decoded by a class of that size, and by no other.
  of_four :
      {A : Type 0} (inject : A → AnyMessage) (a : A) (m : AnyMessage)
      → length f.payload ≡ 4
      → wrap inject (when_size f 4 a) ≡ some m
      → P (inject a)
      → P m
  of_four inject a m size e h =
      let same : some (inject a) ≡ some m = rw (← e, size) refl in subst P (ground arith) h

  not_four :
      {A : Type 0} (inject : A → AnyMessage) (a : A) (m : AnyMessage) (size : ℕ)
      → length f.payload ≡ 4
      → (4 == size) ≡ false
      → wrap inject (when_size f size a) ≡ some m
      → P m
  not_four inject a m size four_bytes other e =
      let nothing : none ≡ some m = rw (← e, four_bytes, other) refl in absurd (ground arith)

one_if : Bool → ℕ
one_if t = if t then 1 else 0

flip : (t : Bool) → one_if (not t) ≡ (if t then 0 else 1)
unfolding one_if
flip true = refl
flip false = refl

module _ (f : Frame) (a b c d : ℕ) (ha : a < 256) (hb : b < 256) (hc : c < 256) (hd : d < 256)
    (e : f.payload ≡ four a b c d) where
  abbrev IsBack : AnyMessage → Type 0
  IsBack m = encode m ≡ some (frame_of f.msg_id (kept m f.payload))

  size : length f.payload ≡ 4
  size = rw e refl

  pair_back :
      (id : ℕ)
      → f.msg_id ≡ id
      → encode_pair id (read_pair f).0 (read_pair f).1 ≡ some (frame_of f.msg_id f.payload)
  pair_back id own =
      encode-read_pair id a b c d ha hb f e hc hd ∙ λ i. some (frame_of (sym own i) (sym e i))

  scalar_back :
      (id : ℕ)
      → f.msg_id ≡ id
      → encode_scalar id (read_scalar f) ≡ some (frame_of f.msg_id (take 2 f.payload ++ 0 ∷ 0 ∷ []))
  scalar_back id own = encode-read_scalar id a b c d ha hb f e ∙ λ i.
      some (frame_of (sym own i) (take 2 (sym e i) ++ 0 ∷ 0 ∷ []))

  byte_back :
      (id : ℕ)
      → f.msg_id ≡ id
      → some (encode_byte id (read_byte f))
        ≡ some (frame_of f.msg_id (take 1 f.payload ++ 0 ∷ 0 ∷ 0 ∷ []))
  byte_back id own = ap some (encode-read_byte id a b c d f e) ∙ λ i.
      some (frame_of (sym own i) (take 1 (sym e i) ++ 0 ∷ 0 ∷ 0 ∷ []))

  power_back :
      (id : ℕ)
      → f.msg_id ≡ id
      → some (encode_byte id (if not (read_byte f == 0) then 1 else 0))
        ≡ some (frame_of f.msg_id ((if byte_at f.payload 0 == 0 then 0 else 1) ∷ 0 ∷ 0 ∷ 0 ∷ []))
  unfolding encode_byte read_byte one_if
  power_back id own =
      λ i. some (frame_of (sym own i) (flip (byte_at f.payload 0 == 0) i ∷ 0 ∷ 0 ∷ 0 ∷ []))

  All-IsBack : All (Ensures f IsBack) alternatives
  unfolding encode Temperature.decode TargetTemperature.decode Mode.decode Power.decode
      FanSpeed.decode AllConfig.decode Schedule.decode TemperatureOffset.decode
      SwitchingDiffHeat.decode SwitchingDiffCool.decode ChangeoverHeat.decode ChangeoverCool.decode
      SystemMode.decode DisplayUnit.decode Temperature.encode TargetTemperature.encode Mode.encode
      Power.encode FanSpeed.encode TemperatureOffset.encode SwitchingDiffHeat.encode
      SwitchingDiffCool.encode ChangeoverHeat.encode ChangeoverCool.encode SystemMode.encode
      DisplayUnit.encode
  All-IsBack =
      (λ own m read.
        of_four f IsBack AnyMessage.temperature _ m size read (pair_back Temperature.id own))
      & (λ own m read.
          of_four f IsBack AnyMessage.target_temperature _ m size read
            (pair_back TargetTemperature.id own))
      & (λ own m read. of_four f IsBack AnyMessage.mode _ m size read (byte_back Mode.id own))
      & (λ own m read. of_four f IsBack AnyMessage.power _ m size read (power_back Power.id own))
      & (λ own m read.
          of_four f IsBack AnyMessage.fan_speed _ m size read (byte_back FanSpeed.id own))
      & (λ own m read.
          not_four f IsBack AnyMessage.all_config _ m AllConfig.payload_size size refl read)
      & (λ own m read.
          not_four f IsBack AnyMessage.schedule _ m Schedule.payload_size size refl read)
      & (λ own m read.
          of_four f IsBack AnyMessage.temperature_offset _ m size read
            (scalar_back TemperatureOffset.id own))
      & (λ own m read.
          of_four f IsBack AnyMessage.switching_diff_heat _ m size read
            (scalar_back SwitchingDiffHeat.id own))
      & (λ own m read.
          of_four f IsBack AnyMessage.switching_diff_cool _ m size read
            (scalar_back SwitchingDiffCool.id own))
      & (λ own m read.
          of_four f IsBack AnyMessage.changeover_heat _ m size read
            (scalar_back ChangeoverHeat.id own))
      & (λ own m read.
          of_four f IsBack AnyMessage.changeover_cool _ m size read
            (scalar_back ChangeoverCool.id own))
      & (λ own m read.
          of_four f IsBack AnyMessage.system_mode _ m size read (byte_back SystemMode.id own))
      & (λ own m read.
          of_four f IsBack AnyMessage.display_unit _ m size read (byte_back DisplayUnit.id own))
      & tt

-- A frame of four payload bytes that decodes to a message is encoded again as a frame with its id,
-- zero reserved bytes, and those bytes of its payload that the message holds, the others zero; the
-- encoding is never an undefined cast.
pub encode-decode_message :
    (f : Frame) (m : AnyMessage)
    → length f.payload ≡ 4
    → All (λ (b : ℕ). b < 256) f.payload
    → decode_message f ≡ some m
    → encode m ≡ some (frame_of f.msg_id (kept m f.payload))
unfolding decode_message
encode-decode_message f m long bytes read =
    let (a, b, c, d, e) = of_length_four f.payload long in
    let (ha, (hb, (hc, (hd, _)))) = subst (All (λ (x : ℕ). x < 256)) e bytes in
    decode_variant-Ensures f (IsBack f a b c d ha hb hc hd e) alternatives m
      (All-IsBack f a b c d ha hb hc hd e) read
