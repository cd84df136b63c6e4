-- ===== src/Messages/Received/Week.antt =====
-- include/messages/schedule.hpp: the weekly program that is read from 116 bytes.
use unilux_uart.Common.{ℕ, zero, suc, ◌+◌, ◌≡◌, refl, ap, some, List, length, All}
use unilux_uart.Wmmm.{Frame}
use unilux_uart.Message.Typed.{IsByte, byte_at-IsByte}
use unilux_uart.Message.Typed.Week
use unilux_uart.Message.Schedule.{
  Schedule, Entry, offset, payload_size, read_entry, read_entries, read_days, decode,
}
use unilux_uart.Messages.RoundTrip.{IsSigned}
use unilux_uart.Messages.Received.{IsSigned-at, when_size-hit}

-- Four entries with signed setpoints
pub record IsDay (day : List Entry) : Type 0 where
  pub four_entries : length day ≡ 4
  pub setpoints : All (λ (e : Entry). IsSigned e.setpoint) day

pub record IsReceived (m : Schedule) : Type 0 where
  pub typed : Week.IsTyped m
  pub seven_days : length m.days ≡ 7
  pub days : All IsDay m.days

module _ (p : List ℕ) (bytes : All IsByte p) where
  setpoints-read :
      (left e d : ℕ) → All (λ (x : Entry). IsSigned x.setpoint) (read_entries left e d p)
  unfolding read_entries read_entry
  setpoints-read zero e d = tt
  setpoints-read (suc left) e d =
      (IsSigned-at p bytes (offset d e + 2), setpoints-read left (e + 1) d)

  times-read : (left e d : ℕ) → All Week.IsTime (read_entries left e d p)
  unfolding read_entries read_entry
  times-read zero e d = tt
  times-read (suc left) e d =
      let at = offset d e in
      ((byte_at-IsByte p at bytes, byte_at-IsByte p (at + 1) bytes), times-read left (e + 1) d)

  length-read_entries : (left e d : ℕ) → length (read_entries left e d p) ≡ left
  unfolding read_entries
  length-read_entries zero e d = refl
  length-read_entries (suc left) e d = ap suc (length-read_entries left (e + 1) d)

  days-read : (left d : ℕ) → All IsDay (read_days left d p)
  unfolding read_days
  days-read zero d = tt
  days-read (suc left) d = (
    record { four_entries = length-read_entries 4 0 d; setpoints = setpoints-read 4 0 d },
    days-read left (d + 1),
  )

  week_times : (left d : ℕ) → All (All Week.IsTime) (read_days left d p)
  unfolding read_days
  week_times zero d = tt
  week_times (suc left) d = (times-read 4 0 d, week_times left (d + 1))

  length-read_days : (left d : ℕ) → length (read_days left d p) ≡ left
  unfolding read_days
  length-read_days zero d = refl
  length-read_days (suc left) d = ap suc (length-read_days left (d + 1))

-- A weekly program that is decoded from bytes
pub decode-IsReceived :
    (f : Frame) (m : Schedule) → All IsByte f.payload → decode f ≡ some m → IsReceived m
unfolding decode
decode-IsReceived f m bytes read = when_size-hit f IsReceived payload_size _ m read (λ long.
    let p = f.payload in
    record {
      typed = record {
        prg_mode = byte_at-IsByte p 0 bytes;
        reserved_0 = byte_at-IsByte p 1 bytes;
        reserved_1 = byte_at-IsByte p 2 bytes;
        reserved_2 = byte_at-IsByte p 3 bytes;
        times = week_times p bytes 7 0;
      };
      seven_days = length-read_days p bytes 7 0;
      days = days-read p bytes 7 0;
    })
