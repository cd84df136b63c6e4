-- ===== src/Wmmm/RoundTrip.antt =====
-- src/wmmm.cpp: `decode` and `encode` are inverse to one another.
use unilux_uart.Common.{
  ℕ, ◌+◌, ◌≤◌, ◌<◌, ◌≡◌, ◌⊎◌, inl, inr, refl, List, [], ◌∷◌, none, some, arith, length,
}
use unilux_uart.Wmmm.{Frame, decode, encode}

-- Every frame is decoded from its own encoding, which is four bytes longer than the payload.
pub decode-encode :
    (f : Frame) → (decode (encode f) ≡ some f) × (length (encode f) ≡ 4 + length f.payload)
unfolding decode encode
decode-encode f = (ground arith, omega arith)

-- Any bytes are refused when they are fewer than four; otherwise they decode to a frame whose
-- encoding is those bytes.
pub decode_cases :
    (bytes : List ℕ)
    → ((length bytes < 4) × (decode bytes ≡ none))
      ⊎ ((4 ≤ length bytes) × (f : Frame) × (decode bytes ≡ some f) × (encode f ≡ bytes))
unfolding decode encode
decode_cases [] = inl (omega arith, refl)
decode_cases (a ∷ []) = inl (omega arith, refl)
decode_cases (a ∷ b ∷ []) = inl (omega arith, refl)
decode_cases (a ∷ b ∷ c ∷ []) = inl (omega arith, refl)
decode_cases (a ∷ b ∷ c ∷ d ∷ rest) =
    inr
      (omega arith, record { msg_id = a; reserved = (b, c, d); payload = rest }, ground arith, refl)
