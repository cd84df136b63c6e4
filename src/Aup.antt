-- ===== src/Aup.antt =====
-- include/aup.hpp and src/aup.cpp: the AUP frame, the byte-at-a-time `Decoder` and the `Encoder`.
pub mod Run
pub mod RoundTrip
pub mod Sound
pub mod Resync
pub mod Reference
mod Tests
use unilux_uart.Common.{
  ℕ, ◌+◌, ◌*◌, ◌/◌, ◌%◌, ◌^◌, ◌<◌, ◌≡◌, bit_or, List, [], ◌∷◌, ◌++◌, Option, none, some, ◌==◌, ltb,
  leb, if◌then◌else◌, length,
}

abbrev pub aup_magic1 : ℕ
aup_magic1 = 0x5A

abbrev pub aup_magic2 : ℕ
aup_magic2 = 0x9E

-- struct Frame
pub record Frame : Type 0 where
  pub checksum : ℕ
  pub flag : ℕ
  pub type : ℕ
  pub command : ℕ
  pub length : ℕ
  pub payload : List ℕ

-- enum class State
pub data State : Type 0 where
  magic1 magic2 checksum flag type command length1 length2 payload : State

-- The fields of class Decoder.
pub record Decoder : Type 0 where
  pub state : State
  pub frame : Frame
  pub read : ℕ

-- `Frame{}`
abbrev pub empty_frame : Frame
empty_frame = record { checksum = 0; flag = 0; type = 0; command = 0; length = 0; payload = [] }

-- void reset(): every field is given its initial value.
abbrev pub reset : Decoder → Decoder
reset d = record d { state = State.magic1; frame = empty_frame; read = 0 }

-- A byte read while the start marker is looked for.
consume_magic1 : Decoder → ℕ → Decoder × Option Frame
consume_magic1 d byte =
    if byte == aup_magic1 then (record d { state = State.magic2 }, none) else (reset d, none)

consume_magic2 : Decoder → ℕ → Decoder × Option Frame
consume_magic2 d byte =
    if byte == aup_magic2
    then (record d { state = State.checksum }, none)
    else if byte == aup_magic1
    then (record d { state = State.magic2 }, none)
    else (reset d, none)

-- A header byte goes into its field of the frame.
abbrev header : Decoder → Frame → State → Decoder × Option Frame
header d frame state = (record d { frame = frame; state = state }, none)

-- The second length byte. `reserve` changes no value.
consume_length2 : Decoder → ℕ → Decoder × Option Frame
consume_length2 d byte =
    let frame = record d.frame { length = bit_or d.frame.length byte } in
    if ltb 0 frame.length
    then (record d { frame = frame; state = State.payload }, none)
    else (reset d, some frame)

-- `read_` is a uint16_t.
consume_payload : Decoder → ℕ → Decoder × Option Frame
consume_payload d byte =
    let frame = record d.frame { payload = d.frame.payload ++ byte ∷ [] } in
    let read = (d.read + 1) % 2 ^ 16 in
    if leb frame.length read
    then (reset d, some frame)
    else (record d { frame = frame; read = read }, none)

-- The switch over `state_`.
consume_in : State → Decoder → ℕ → Decoder × Option Frame
unfolding consume_magic1 consume_magic2 consume_length2 consume_payload
consume_in State.magic1 d byte = consume_magic1 d byte
consume_in State.magic2 d byte = consume_magic2 d byte
consume_in State.checksum d byte = header d (record d.frame { checksum = byte }) State.flag
consume_in State.flag d byte = header d (record d.frame { flag = byte }) State.type
consume_in State.type d byte = header d (record d.frame { type = byte }) State.command
consume_in State.command d byte = header d (record d.frame { command = byte }) State.length1
consume_in State.length1 d byte =
    header d (record d.frame { length = byte * 2 ^ 8 % 2 ^ 16 }) State.length2
consume_in State.length2 d byte = consume_length2 d byte
consume_in State.payload d byte = consume_payload d byte

-- std::optional<Frame> Decoder::consume(uint8_t byte)
unfoldable pub consume : Decoder → ℕ → Decoder × Option Frame
unfolding consume_in
consume d byte = consume_in d.state d byte

-- std::vector<uint8_t> Encoder::encode(const Frame &frame); `frame.length & 0xFF` is the remainder.
unfoldable pub encode : Frame → List ℕ
encode frame =
    aup_magic1
    ∷ aup_magic2
    ∷ frame.checksum
    ∷ frame.flag
    ∷ frame.type
    ∷ frame.command
    ∷ (frame.length / 2 ^ 8 % 256)
    ∷ (frame.length % 256)
    ∷ frame.payload

-- What one call of `consume` adds to the frames that the later calls return.
abbrev pub emit : Option Frame → Decoder × List Frame → Decoder × List Frame
emit none (d, frames) = (d, frames)
emit (some frame) (d, frames) = (d, frame ∷ frames)

-- The frames that calls of `consume` over received bytes return, in order, and the state after them.
unfoldable pub consume_all : Decoder → List ℕ → Decoder × List Frame
consume_all d [] = (d, [])
consume_all d (byte ∷ bytes) =
    let result = consume d byte in emit result.1 (consume_all result.0 bytes)

-- A decoder between frames: what the constructor and `reset` leave. The header fields of a decoder
-- that was never reset are not initialised, so they may hold anything.
pub record IsIdle (d : Decoder) : Type 0 where
  pub state_idle : d.state ≡ State.magic1
  pub payload_empty : d.frame.payload ≡ []
  pub read_zero : d.read ≡ 0

-- A frame whose fields are what the C++ types hold and whose length is that of its payload.
pub record IsWellFormed (f : Frame) : Type 0 where
  pub length_fits : f.length < 2 ^ 16
  pub length_matches : f.length ≡ length f.payload

abbrev pub IsByte : ℕ → Type 0
IsByte b = b < 256
