-- ===== src/Message/Signed.antt =====
-- include/messages/all_config.hpp and schedule.hpp: temperatures that are read as signed numbers of
-- tenths and written through a cast to uint16_t.
use unilux_uart.Common.{
  ℕ, zero, suc, ◌+◌, ◌-◌, ◌*◌, ◌/◌, ◌%◌, ◌^◌, ◌≤◌, ◌<◌, ◌≡◌, refl, arith, List, [], ◌∷◌, none, some,
  All, sym, false, ltb, lt→ltb, bit_or,
}
use unilux_uart.Common.Int.{pos, negsuc}
use unilux_uart.Utils.{byte_at, from_be16}
use unilux_uart.Utils.RoundTrip.{be16_join}
use unilux_uart.Float.{Float, mul, to_uint16, int16_of_uint16}
use unilux_uart.Float.Tenths.{ten, tenths}
use unilux_uart.Float.Casts.{uint16_tenths, uint16_negative}

-- A temperature that is a number of tenths from 0 to 32767
pub record IsTenths (x : Float) : Type 0 where
  pub wire : ℕ
  pub small : wire < 2 ^ 15
  pub is_wire : x ≡ tenths (pos wire)

pub cast_tenths : {x : Float} (h : IsTenths x) → to_uint16 (mul x ten) ≡ some h.wire
cast_tenths h = rw h.is_wire (uint16_tenths h.wire (omega (arith, h.small)))

-- The two bytes of such a temperature, read as a signed number
pub read_tenths :
    {x : Float} (h : IsTenths x)
    → tenths (int16_of_uint16 (bit_or (h.wire / 2 ^ 8 % 256 * 2 ^ 8) (h.wire % 256))) ≡ x
unfolding int16_of_uint16
read_tenths h =
    let join = be16_join (h.wire / 2 ^ 8 % 256) (h.wire % 256) (omega arith) in
    let whole : h.wire / 2 ^ 8 % 256 * 256 + h.wire % 256 ≡ h.wire = omega (arith, h.small) in
    rw (join, whole) (rw (lt→ltb _ _ h.small) (sym h.is_wire))

-- A temperature below zero
pub record IsNegative (x : Float) : Type 0 where
  pub below : ℕ
  pub small : below < 2 ^ 15
  pub is_below : x ≡ tenths (negsuc below)

pub cast_negative : {x : Float} → IsNegative x → to_uint16 (mul x ten) ≡ none
cast_negative h = rw h.is_below (uint16_negative h.below (omega (arith, h.small)))

abbrev pub reading : List ℕ → ℕ → Float
reading p i = tenths (int16_of_uint16 (from_be16 p i))

pub byte_at-lt : (p : List ℕ) (i : ℕ) → All (λ b. b < 256) p → byte_at p i < 256
byte_at-lt [] i h = omega arith
byte_at-lt (b ∷ p) zero h = h.0
byte_at-lt (b ∷ p) (suc i) h = byte_at-lt p i h.1

-- A temperature whose top bit is set
pub IsNegative-at :
    (p : List ℕ) (i : ℕ)
    → All (λ b. b < 256) p
    → 128 ≤ byte_at p i
    → IsNegative (tenths (int16_of_uint16 (from_be16 p i)))
unfolding from_be16 int16_of_uint16
IsNegative-at p i bytes h =
    let hi = byte_at-lt p i bytes in
    let lo = byte_at-lt p (i + 1) bytes in
    let w = byte_at p i * 256 + byte_at p (i + 1) in
    let large : ltb w (2 ^ 15) ≡ false = ground arith in
    record {
      below = 2 ^ 16 - 1 - w;
      small = omega arith;
      is_below = rw (be16_join (byte_at p i) (byte_at p (i + 1)) lo) (rw large refl);
    }
