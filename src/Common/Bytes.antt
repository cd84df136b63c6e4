-- ===== src/Common/Bytes.antt =====
-- A list of numbers is tested for bytes.
use unilux_uart.Common.{
  ℕ, ◌<◌, ◌≡◌, Bool, true, false, List, [], ◌∷◌, ltb, if◌then◌else◌, All, arith,
}

abbrev pub all_bytes : List ℕ → Bool
all_bytes [] = true
all_bytes (b ∷ bs) = let rest = all_bytes bs in if ltb b 256 then rest else false

pub bytes_lem : (bs : List ℕ) → all_bytes bs ≡ true → All (λ b. b < 256) bs
bytes_lem [] e = tt
bytes_lem (b ∷ bs) e = (ground arith, bytes_lem bs (ground arith))
