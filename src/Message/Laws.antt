-- ===== src/Message/Laws.antt =====
-- include/messages/: what the shared parts of `encode` and `decode` do to values and payloads.
use unilux_uart.Common.{
  ℕ, ◌+◌, ◌*◌, ◌/◌, ◌%◌, ◌^◌, ◌<◌, ◌≡◌, refl, ◌∙◌, arith, some, List, [], ◌∷◌, length, bit_or,
}
use unilux_uart.Common.Int.{ℤ, pos, negsuc}
use unilux_uart.Utils.{from_be16, to_be16}
use unilux_uart.Utils.RoundTrip.{be16_join}
use unilux_uart.Wmmm.{Frame}
use unilux_uart.Float.{int16_of_uint16, uint16_of_int16}
use unilux_uart.Float.Tenths.{tenths}
use unilux_uart.Float.Casts.{
  uint16_tenths, int16_tenths, uint16-int16, IsInt16, int16_of_uint16-IsInt16,
}
use unilux_uart.Message.{
  frame_of, encode_pair, read_pair, encode_scalar, read_scalar, encode_byte, read_byte,
}

-- A 16-bit value written to a payload and read from it.
be16_bytes : (w : ℕ) → w < 2 ^ 16 → bit_or (w / 2 ^ 8 % 256 * 2 ^ 8) (w % 256) ≡ w
be16_bytes w h = be16_join (w / 2 ^ 8 % 256) (w % 256) (omega arith) ∙ omega arith

-- The payload that `encode_pair` writes
abbrev pub pair_payload : ℕ → ℕ → List ℕ
pair_payload w1 w2 = (w1 / 2 ^ 8 % 256) ∷ (w1 % 256) ∷ (w2 / 2 ^ 8 % 256) ∷ (w2 % 256) ∷ []

module _ (id w1 w2 : ℕ) (h1 : w1 < 2 ^ 16) (h2 : w2 < 2 ^ 16) where
  pub encode_pair_lem :
      encode_pair id (tenths (pos w1)) (tenths (pos w2)) ≡ some (frame_of id (pair_payload w1 w2))
  unfolding encode_pair to_be16
  encode_pair_lem = rw (uint16_tenths w1 h1, uint16_tenths w2 h2) refl

  pub read-encode_pair :
      read_pair (frame_of id (pair_payload w1 w2)) ≡ (tenths (pos w1), tenths (pos w2))
  unfolding read_pair from_be16
  read-encode_pair = rw (be16_bytes w1 h1, be16_bytes w2 h2) refl

-- A payload of four bytes
abbrev pub four : ℕ → ℕ → ℕ → ℕ → List ℕ
four a b c d = a ∷ b ∷ c ∷ d ∷ []

pub of_length_four :
    (bytes : List ℕ)
    → length bytes ≡ 4
    → (a : ℕ) × (b : ℕ) × (c : ℕ) × (d : ℕ) × (bytes ≡ four a b c d)
of_length_four [] e = absurd (omega arith)
of_length_four (a ∷ []) e = absurd (omega arith)
of_length_four (a ∷ b ∷ []) e = absurd (omega arith)
of_length_four (a ∷ b ∷ c ∷ []) e = absurd (omega arith)
of_length_four (a ∷ b ∷ c ∷ d ∷ []) e = (a, b, c, d, refl)
of_length_four (a ∷ b ∷ c ∷ d ∷ x ∷ rest) e = absurd (omega arith)

-- The payload that `encode_scalar` writes
abbrev pub scalar_payload : ℕ → List ℕ
scalar_payload w = four (w / 2 ^ 8 % 256) (w % 256) 0 0

pub encode_scalar_lem :
    (id : ℕ) (z : ℤ)
    → IsInt16 z
    → encode_scalar id (tenths z) ≡ some (frame_of id (scalar_payload (uint16_of_int16 z)))
unfolding encode_scalar to_be16
encode_scalar_lem id z h = rw (int16_tenths z h) refl

pub read-encode_scalar :
    (id w : ℕ)
    → w < 2 ^ 16
    → read_scalar (frame_of id (scalar_payload w)) ≡ tenths (int16_of_uint16 w)
unfolding read_scalar from_be16
read-encode_scalar id w h = rw (be16_bytes w h) refl

pub int16-uint16 : (z : ℤ) → IsInt16 z → int16_of_uint16 (uint16_of_int16 z) ≡ z
unfolding int16_of_uint16 uint16_of_int16
int16-uint16 (pos n) h = ground arith
int16-uint16 (negsuc n) h = ground arith

pub uint16_of_int16-lt : (z : ℤ) → IsInt16 z → uint16_of_int16 z < 2 ^ 16
unfolding uint16_of_int16
uint16_of_int16-lt (pos n) h = omega arith
uint16_of_int16-lt (negsuc n) h = omega arith

-- The two bytes of a number
split_be16 :
    (a b : ℕ) → a < 256 → b < 256 → ((a * 256 + b) / 2 ^ 8 % 256 ≡ a) × ((a * 256 + b) % 256 ≡ b)
split_be16 a b ha hb = omega arith

module _ (id a b c d : ℕ) (ha : a < 256) (hb : b < 256) (f : Frame)
    (e : f.payload ≡ four a b c d) where
  -- A scalar payload is written as it was read, up to the two bytes that are not read.
  pub encode-read_scalar : encode_scalar id (read_scalar f) ≡ some (frame_of id (four a b 0 0))
  unfolding read_scalar from_be16
  encode-read_scalar =
      let w = a * 256 + b in
      let (hi, lo) = split_be16 a b ha hb in
      rw (e, be16_join a b hb)
        (encode_scalar_lem id (int16_of_uint16 w) (int16_of_uint16-IsInt16 w (omega arith))
          ∙ rw (uint16-int16 w (omega arith), hi, lo) refl)

  -- A pair is written as it was read.
  pub encode-read_pair :
      c < 256
      → d < 256
      → encode_pair id (read_pair f).0 (read_pair f).1 ≡ some (frame_of id (four a b c d))
  unfolding read_pair from_be16
  encode-read_pair hc hd =
      let (hi1, lo1) = split_be16 a b ha hb in
      let (hi2, lo2) = split_be16 c d hc hd in
      rw (e, be16_join a b hb, be16_join c d hd)
        (encode_pair_lem id (a * 256 + b) (c * 256 + d) (omega arith) (omega arith)
          ∙ rw (hi1, lo1, hi2, lo2) refl)

-- A one-byte payload keeps its byte and loses the three reserved ones.
pub encode-read_byte :
    (id a b c d : ℕ) (f : Frame)
    → f.payload ≡ four a b c d
    → encode_byte id (read_byte f) ≡ frame_of id (four a 0 0 0)
unfolding encode_byte read_byte
encode-read_byte id a b c d f e = rw e refl

pub read-encode_byte : (id v : ℕ) → read_byte (encode_byte id v) ≡ v
unfolding encode_byte read_byte
read-encode_byte id v = refl
