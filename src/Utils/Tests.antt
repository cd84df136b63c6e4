-- ===== src/Utils/Tests.antt =====
-- include/utils.hpp: a value written into a small buffer.
use unilux_uart.Common.{ℕ, ◌≡◌, ◌≢◌, refl, arith, List, [], ◌∷◌, length}
use unilux_uart.Utils.{byte_at, from_be16, to_be16, from_be32, to_be32}
use unilux_uart.Utils.RoundTrip.{from_be16-to_be16, from_be32-to_be32}

abbrev buffer : List ℕ
buffer = 1 ∷ 2 ∷ 3 ∷ 4 ∷ 5 ∷ 6 ∷ []

to_be16_run : to_be16 buffer 1 0x12AB ≡ 1 ∷ 0x12 ∷ 0xAB ∷ 4 ∷ 5 ∷ 6 ∷ []
unfolding to_be16
to_be16_run = refl

from_be32_run : from_be32 (0 ∷ 0x01 ∷ 0x02 ∷ 0x03 ∷ 0x04 ∷ []) 1 ≡ 0x01020304
unfolding from_be32
from_be32_run = refl

from_be16-to_be16_example :
    (from_be16 (to_be16 buffer 1 0x12AB) 1 ≡ 0x12AB)
    × (length (to_be16 buffer 1 0x12AB) ≡ 6)
    × ((j : ℕ) → 1 ≢ j → 2 ≢ j → byte_at (to_be16 buffer 1 0x12AB) j ≡ byte_at buffer j)
from_be16-to_be16_example = from_be16-to_be16 buffer 1 0x12AB (omega arith) (omega arith)

from_be32-to_be32_example :
    (from_be32 (to_be32 buffer 1 0xDEADBEEF) 1 ≡ 0xDEADBEEF)
    × (length (to_be32 buffer 1 0xDEADBEEF) ≡ 6)
    × ((j : ℕ)
        → 1 ≢ j
        → 2 ≢ j
        → 3 ≢ j
        → 4 ≢ j
        → byte_at (to_be32 buffer 1 0xDEADBEEF) j ≡ byte_at buffer j)
from_be32-to_be32_example = from_be32-to_be32 buffer 1 0xDEADBEEF (omega arith) (omega arith)
