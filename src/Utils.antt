-- ===== src/Utils.antt =====
-- include/utils.hpp: the big-endian byte-order helpers. A buffer is a list of bytes, a pointer into
-- it an offset; a write goes to the buffer in place.
pub mod RoundTrip
mod Tests
use unilux_uart.Common.{ℕ, ◌+◌, ◌*◌, ◌/◌, ◌%◌, ◌^◌, bit_or, List, get_or, set}

-- `bytes[i]`
abbrev pub byte_at : List ℕ → ℕ → ℕ
byte_at bytes i = get_or bytes i 0

-- uint16_t from_be16(const uint8_t *bytes)
unfoldable pub from_be16 : List ℕ → ℕ → ℕ
from_be16 bytes at = bit_or (byte_at bytes at * 2 ^ 8) (byte_at bytes (at + 1))

-- void to_be16(uint8_t *bytes, uint16_t value)
unfoldable pub to_be16 : List ℕ → ℕ → ℕ → List ℕ
to_be16 bytes at value =
    let bytes1 = set bytes at (value / 2 ^ 8 % 256) in set bytes1 (at + 1) (value % 256)

-- uint32_t from_be32(const uint8_t *bytes)
unfoldable pub from_be32 : List ℕ → ℕ → ℕ
from_be32 bytes at =
    bit_or
      (bit_or (bit_or (byte_at bytes at * 2 ^ 24) (byte_at bytes (at + 1) * 2 ^ 16))
        (byte_at bytes (at + 2) * 2 ^ 8))
      (byte_at bytes (at + 3))

-- void to_be32(uint8_t *bytes, uint32_t value)
unfoldable pub to_be32 : List ℕ → ℕ → ℕ → List ℕ
to_be32 bytes at value =
    let bytes1 = set bytes at (value / 2 ^ 24 % 256) in
    let bytes2 = set bytes1 (at + 1) (value / 2 ^ 16 % 256) in
    let bytes3 = set bytes2 (at + 2) (value / 2 ^ 8 % 256) in set bytes3 (at + 3) (value % 256)
