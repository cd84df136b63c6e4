-- ===== src/Message/Schedule/RoundTrip.antt =====
-- include/messages/schedule.hpp: `decode` gives back the program that `encode` wrote.
use unilux_uart.Common.{ℕ, ◌≡◌, refl, arith, List, [], ◌∷◌, ◌++◌, some, length, All, subst}
use unilux_uart.Utils.{byte_at}
use unilux_uart.Message.{frame_of, zeros}
use unilux_uart.Message.Schedule.{Schedule, id, write_days, encode, read_days, decode}
use unilux_uart.Message.Schedule.Days.{
  IsDay, flat_days, write_days_lem, read_days_lem, length-flat_days, blank_week,
}

-- A week of well-formed days
pub record IsWeek (m : Schedule) : Type 0 where
  pub seven_days : length m.days ≡ 7
  pub days_on_wire : All IsDay m.days

-- The bytes before the entries
head_bytes : Schedule → List ℕ
head_bytes m = m.prg_mode ∷ m.reserved.0 ∷ m.reserved.1 ∷ m.reserved.2 ∷ []

module _ (m : Schedule) (h : IsWeek m) where
  payload : List ℕ
  payload = head_bytes m ++ flat_days m.days h.days_on_wire []

  write_week : write_days 7 0 m.days (head_bytes m ++ zeros 112) ≡ some payload
  unfolding payload head_bytes
  write_week =
      subst (λ n. write_days n 0 m.days (head_bytes m ++ zeros 112) ≡ some payload) h.seven_days
        (subst (λ t. write_days (length m.days) 0 m.days (head_bytes m ++ t) ≡ some payload)
          (blank_week m.days h.seven_days h.days_on_wire)
          (write_days_lem m.days m.days h.days_on_wire 0 (head_bytes m) [] refl refl))

  read_week : read_days 7 0 payload ≡ m.days
  unfolding payload head_bytes
  read_week =
      subst (λ n. read_days n 0 payload ≡ m.days) h.seven_days
        (read_days_lem m.days h.days_on_wire 0 (head_bytes m) [] refl)

  length-payload : length payload ≡ 116
  unfolding payload head_bytes
  length-payload = omega (arith, length-flat_days m.days h.days_on_wire, h.seven_days)

  encode_lem : encode m ≡ some (frame_of id payload)
  unfolding encode head_bytes
  encode_lem = rw write_week refl

  decode_lem : decode (frame_of id payload) ≡ some m
  unfolding decode
  decode_lem = rw length-payload (λ i. some (record m {
    prg_mode = first i;
    reserved = (second i, third i, fourth i);
    days = read_week i;
  }))
    where
      first : byte_at payload 0 ≡ m.prg_mode
      first = unfold payload head_bytes in refl

      second : byte_at payload 1 ≡ m.reserved.0
      second = unfold payload head_bytes in refl

      third : byte_at payload 2 ≡ m.reserved.1
      third = unfold payload head_bytes in refl

      fourth : byte_at payload 3 ≡ m.reserved.2
      fourth = unfold payload head_bytes in refl

-- A program of seven days with four entries each, whose setpoints are tenths from 0 up, is encoded,
-- and decoding the frame gives the program back.
pub decode-encode_schedule :
    (m : Schedule)
    → IsWeek m
    → (bytes : List ℕ) × (encode m ≡ some (frame_of id bytes))
      × (decode (frame_of id bytes) ≡ some m)
decode-encode_schedule m h = (payload m h, encode_lem m h, decode_lem m h)
