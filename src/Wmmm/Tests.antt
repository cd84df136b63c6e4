-- ===== src/Wmmm/Tests.antt =====
-- src/wmmm.cpp: a message of tests/test_wmmm.cpp's shape, and a buffer that is too short.
use unilux_uart.Common.{ℕ, ◌≤◌, ◌<◌, ◌≡◌, ◌⊎◌, List, [], ◌∷◌, none, some, length}
use unilux_uart.Wmmm.{Frame, decode, encode}
use unilux_uart.Wmmm.RoundTrip.{decode-encode, decode_cases}

abbrev sample : Frame
sample = record { msg_id = 0x5C; reserved = (1, 2, 3); payload = 0x00 ∷ 0xC8 ∷ [] }

decode-encode_example : (decode (encode sample) ≡ some sample) × (length (encode sample) ≡ 6)
decode-encode_example = decode-encode sample

abbrev short : List ℕ
short = 1 ∷ 2 ∷ 3 ∷ []

decode_cases_example :
    ((length short < 4) × (decode short ≡ none))
    ⊎ ((4 ≤ length short) × (f : Frame) × (decode short ≡ some f) × (encode f ≡ short))
decode_cases_example = decode_cases short
