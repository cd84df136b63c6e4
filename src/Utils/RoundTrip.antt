-- ===== src/Utils/RoundTrip.antt =====
-- include/utils.hpp: what is written big-endian is read back, at any place of any buffer.
use unilux_uart.Common.{
  ℕ, zero, suc, ◌+◌, ◌*◌, ◌/◌, ◌%◌, ◌^◌, ◌≤◌, ◌<◌, ◌≡◌, ◌≢◌, refl, ap, ◌∙◌, arith, List, [], ◌∷◌,
  set, length, length-set, bit_or,
}
use unilux_uart.Common.Bits.{bit_or_shifted}
use unilux_uart.Utils.{byte_at, from_be16, to_be16, from_be32, to_be32}

byte_at-set_self : (xs : List ℕ) (i v : ℕ) → i < length xs → byte_at (set xs i v) i ≡ v
byte_at-set_self [] i v h = elim h [ ]
byte_at-set_self (x ∷ xs) zero v h = refl
byte_at-set_self (x ∷ xs) (suc i) v h = byte_at-set_self xs i v (omega arith)

byte_at-set_ne : (xs : List ℕ) (i j v : ℕ) → i ≢ j → byte_at (set xs i v) j ≡ byte_at xs j
byte_at-set_ne [] i j v h = refl
byte_at-set_ne (x ∷ xs) zero zero v h = absurd (h refl)
byte_at-set_ne (x ∷ xs) zero (suc j) v h = refl
byte_at-set_ne (x ∷ xs) (suc i) zero v h = refl
byte_at-set_ne (x ∷ xs) (suc i) (suc j) v h = byte_at-set_ne xs i j v (λ e. h (ap suc e))

-- The bytes of a number joined by `<<` and `|` are its base-256 digits added up.
pub be16_join : (hi lo : ℕ) → lo < 256 → bit_or (hi * 2 ^ 8) lo ≡ hi * 256 + lo
be16_join hi lo h = bit_or_shifted 8 hi lo h

pub be32_join :
    (a b c d : ℕ)
    → b < 256
    → c < 256
    → d < 256
    → bit_or (bit_or (bit_or (a * 2 ^ 24) (b * 2 ^ 16)) (c * 2 ^ 8)) d
      ≡ a * 2 ^ 24 + b * 2 ^ 16 + c * 2 ^ 8 + d
be32_join a b c d hb hc hd =
    let two : a * 2 ^ 24 + b * 2 ^ 16 ≡ (a * 256 + b) * 2 ^ 16 = omega arith in
    let three : (a * 256 + b) * 2 ^ 16 + c * 2 ^ 8 ≡ (a * 65536 + b * 256 + c) * 2 ^ 8 =
      omega arith in
    rw (bit_or_shifted 24 a (b * 2 ^ 16) (omega arith), two)
      (rw (bit_or_shifted 16 (a * 256 + b) (c * 2 ^ 8) (omega arith), three)
        (bit_or_shifted 8 (a * 65536 + b * 256 + c) d hd))

pub length-to_be16 : (bytes : List ℕ) (i v : ℕ) → length (to_be16 bytes i v) ≡ length bytes
unfolding to_be16
length-to_be16 bytes i v = length-set (set bytes i _) (i + 1) _ ∙ length-set bytes i _

module _ (bytes : List ℕ) (i v : ℕ) where
  to_be16_hi : i + 2 ≤ length bytes → byte_at (to_be16 bytes i v) i ≡ v / 2 ^ 8 % 256
  unfolding to_be16
  to_be16_hi h =
      byte_at-set_ne (set bytes i _) (i + 1) i _ (omega arith)
      ∙ byte_at-set_self bytes i _ (omega arith)

  to_be16_lo : i + 2 ≤ length bytes → byte_at (to_be16 bytes i v) (i + 1) ≡ v % 256
  unfolding to_be16
  to_be16_lo h =
      byte_at-set_self (set bytes i _) (i + 1) _
        (omega (arith, length-set bytes i (v / 2 ^ 8 % 256)))

  -- A 16-bit value that `to_be16` wrote inside the buffer is read back by `from_be16`, the buffer
  -- keeps its length, and no byte but the two changes.
  pub from_be16-to_be16 :
      i + 2 ≤ length bytes
      → v < 2 ^ 16
      → (from_be16 (to_be16 bytes i v) i ≡ v)
        × (length (to_be16 bytes i v) ≡ length bytes)
        × ((j : ℕ) → i ≢ j → i + 1 ≢ j → byte_at (to_be16 bytes i v) j ≡ byte_at bytes j)
  from_be16-to_be16 h hv = (
    unfold from_be16 in
        rw (to_be16_hi h, to_be16_lo h, be16_join (v / 2 ^ 8 % 256) (v % 256) (omega arith))
          (omega arith),
    length-to_be16 bytes i v,
    λ j p q.
        unfold to_be16 in
        byte_at-set_ne (set bytes i _) (i + 1) j _ q ∙ byte_at-set_ne bytes i j _ p,
  )

pub length-to_be32 : (bytes : List ℕ) (i v : ℕ) → length (to_be32 bytes i v) ≡ length bytes
unfolding to_be32
length-to_be32 bytes i v =
    length-set (set (set (set bytes i _) (i + 1) _) (i + 2) _) (i + 3) _
    ∙ length-set (set (set bytes i _) (i + 1) _) (i + 2) _
    ∙ length-set (set bytes i _) (i + 1) _
    ∙ length-set bytes i _

-- A buffer after four writes in a row
abbrev four_sets : List ℕ → ℕ → ℕ → ℕ → ℕ → ℕ → List ℕ
four_sets bytes i a b c d = set (set (set (set bytes i a) (i + 1) b) (i + 2) c) (i + 3) d

module _ (bytes : List ℕ) (i a b c d : ℕ) where
  four_sets_keep :
      (j : ℕ)
      → i ≢ j
      → i + 1 ≢ j
      → i + 2 ≢ j
      → i + 3 ≢ j
      → byte_at (four_sets bytes i a b c d) j ≡ byte_at bytes j
  four_sets_keep j p q r s =
      byte_at-set_ne (set (set (set bytes i a) (i + 1) b) (i + 2) c) (i + 3) j d s
      ∙ byte_at-set_ne (set (set bytes i a) (i + 1) b) (i + 2) j c r
      ∙ byte_at-set_ne (set bytes i a) (i + 1) j b q
      ∙ byte_at-set_ne bytes i j a p

  four_sets_hit :
      i + 4 ≤ length bytes
      → let p = four_sets bytes i a b c d in
        (byte_at p i ≡ a)
        × (byte_at p (i + 1) ≡ b)
        × (byte_at p (i + 2) ≡ c)
        × (byte_at p (i + 3) ≡ d)
  four_sets_hit h =
      let p1 = set bytes i a in
      let p2 = set p1 (i + 1) b in
      let p3 = set p2 (i + 2) c in
      let l1 = length-set bytes i a in
      let l2 = length-set p1 (i + 1) b in
      let l3 = length-set p2 (i + 2) c in
      (
        byte_at-set_ne p3 (i + 3) i d (omega arith)
            ∙ byte_at-set_ne p2 (i + 2) i c (omega arith)
            ∙ byte_at-set_ne p1 (i + 1) i b (omega arith)
            ∙ byte_at-set_self bytes i a (omega arith),
        byte_at-set_ne p3 (i + 3) (i + 1) d (omega arith)
            ∙ byte_at-set_ne p2 (i + 2) (i + 1) c (omega arith)
            ∙ byte_at-set_self p1 (i + 1) b (omega arith),
        byte_at-set_ne p3 (i + 3) (i + 2) d (omega arith)
            ∙ byte_at-set_self p2 (i + 2) c (omega arith),
        byte_at-set_self p3 (i + 3) d (omega arith),
      )

-- A 32-bit value that `to_be32` wrote inside the buffer is read back by `from_be32`, the buffer keeps
-- its length, and no byte but the four changes.
pub from_be32-to_be32 :
    (bytes : List ℕ) (i v : ℕ)
    → i + 4 ≤ length bytes
    → v < 2 ^ 32
    → (from_be32 (to_be32 bytes i v) i ≡ v)
      × (length (to_be32 bytes i v) ≡ length bytes)
      × ((j : ℕ)
          → i ≢ j
          → i + 1 ≢ j
          → i + 2 ≢ j
          → i + 3 ≢ j
          → byte_at (to_be32 bytes i v) j ≡ byte_at bytes j)
unfolding from_be32 to_be32
from_be32-to_be32 bytes i v h hv =
    let a = v / 2 ^ 24 % 256 in
    let b = v / 2 ^ 16 % 256 in
    let c = v / 2 ^ 8 % 256 in
    let d = v % 256 in
    let (at0, at1, at2, at3) = four_sets_hit bytes i a b c d h in
    (
      rw (at0, at1, at2, at3, be32_join a b c d (omega arith) (omega arith) (omega arith))
          (omega arith),
      length-to_be32 bytes i v,
      four_sets_keep bytes i a b c d,
    )
