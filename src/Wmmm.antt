-- ===== src/Wmmm.antt =====
-- include/wmmm.hpp and src/wmmm.cpp: the WMMM frame with its four-byte header.
pub mod RoundTrip
mod Tests
use unilux_uart.Common.{
  ℕ, ◌≡◌, List, ◌∷◌, ◌++◌, [], Option, none, some, ltb, if◌then◌else◌, length, drop,
}
use unilux_uart.Utils.{byte_at}

-- struct Frame; `uint8_t reserved[3]` is a triple.
pub record Frame : Type 0 where
  pub msg_id : ℕ
  pub reserved : ℕ × ℕ × ℕ
  pub payload : List ℕ

-- std::optional<Frame> Decoder::decode(const std::vector<uint8_t> &data)
unfoldable pub decode : List ℕ → Option Frame
decode bytes =
    if ltb (length bytes) 4
    then none
    else some (record {
      msg_id = byte_at bytes 0;
      reserved = (byte_at bytes 1, byte_at bytes 2, byte_at bytes 3);
      payload = drop 4 bytes;
    })

-- std::vector<uint8_t> Encoder::encode(const Frame &frame)
unfoldable pub encode : Frame → List ℕ
encode frame = frame.msg_id ∷ frame.reserved.0 ∷ frame.reserved.1 ∷ frame.reserved.2 ∷ frame.payload
