-- ===== src/Message/Schedule.antt =====
-- include/messages/schedule.hpp: class Schedule, the weekly program of 116 bytes.
pub mod Entries
pub mod Days
pub mod RoundTrip
pub mod Negative
mod Tests
use unilux_uart.Common.{ℕ, zero, suc, ◌+◌, ◌*◌, List, [], ◌∷◌, Option, some, get_or, set, ◌>>=◌}
use unilux_uart.Common.Int.{pos}
use unilux_uart.Utils.{byte_at, from_be16, to_be16}
use unilux_uart.Wmmm.{Frame}
use unilux_uart.Float.{Float, finite, mul, to_uint16, int16_of_uint16}
use unilux_uart.Float.Tenths.{ten, tenths}
use unilux_uart.Message.{frame_of, zeros, when_size}
use mathlib.Core.Bool.{false}
use unilux_uart.Text.{codes, decimal, snprintf}
use unilux_uart.Common.{join}

abbrev pub id : ℕ
id = 0x78

abbrev pub days_per_week : ℕ
days_per_week = 7

abbrev pub entries_per_day : ℕ
entries_per_day = 4

abbrev pub entry_size : ℕ
entry_size = 4

abbrev pub payload_size : ℕ
payload_size = 4 + days_per_week * entries_per_day * entry_size

-- struct Entry
pub record Entry : Type 0 where
  pub hour : ℕ
  pub minute : ℕ
  pub setpoint : Float

-- The arrays are lists, of seven days with four entries each.
pub record Schedule : Type 0 where
  pub prg_mode : ℕ
  pub reserved : ℕ × ℕ × ℕ
  pub days : List (List Entry)

-- `Entry{}`
abbrev pub empty_entry : Entry
empty_entry = record { hour = 0; minute = 0; setpoint = finite false 0 }

-- `days[d][e]`
abbrev pub entry_at : List (List Entry) → ℕ → ℕ → Entry
entry_at days d e = get_or (get_or days d []) e empty_entry

-- `4 + (d * ENTRIES_PER_DAY + e) * ENTRY_SIZE`
abbrev pub offset : ℕ → ℕ → ℕ
offset d e = 4 + (d * entries_per_day + e) * entry_size

-- The body of the inner loop of `encode`; `none` is an undefined cast.
unfoldable pub write_entry : List ℕ → ℕ → Entry → Option (List ℕ)
write_entry p at src = do
  let p = set p at src.hour
  let p = set p (at + 1) src.minute
  w ← to_uint16 (mul src.setpoint ten)
  some (to_be16 p (at + 2) w)

-- The loops over `e` and `d`, by the rounds that are left
unfoldable pub write_entries : ℕ → ℕ → ℕ → List (List Entry) → List ℕ → Option (List ℕ)
write_entries zero e d days p = some p
write_entries (suc left) e d days p = do
  p ← write_entry p (offset d e) (entry_at days d e)
  write_entries left (e + 1) d days p

unfoldable pub write_days : ℕ → ℕ → List (List Entry) → List ℕ → Option (List ℕ)
unfolding write_entries write_entry
write_days zero d days p = some p
write_days (suc left) d days p = do
  p ← write_entries entries_per_day 0 d days p
  write_days left (d + 1) days p

-- Frame encode() const
unfoldable pub encode : Schedule → Option Frame
encode m = do
  let p = set (zeros payload_size) 0 m.prg_mode
  let p = set p 1 m.reserved.0
  let p = set p 2 m.reserved.1
  let p = set p 3 m.reserved.2
  p ← write_days days_per_week 0 m.days p
  some (frame_of id p)

-- The body of the inner loop of `decode`, and the loops
unfoldable pub read_entry : List ℕ → ℕ → Entry
read_entry p at = record {
  hour = byte_at p at;
  minute = byte_at p (at + 1);
  setpoint = tenths (int16_of_uint16 (from_be16 p (at + 2)));
}

unfoldable pub read_entries : ℕ → ℕ → ℕ → List ℕ → List Entry
read_entries zero e d p = []
read_entries (suc left) e d p = read_entry p (offset d e) ∷ read_entries left (e + 1) d p

unfoldable pub read_days : ℕ → ℕ → List ℕ → List (List Entry)
unfolding read_entries read_entry
read_days zero d p = []
read_days (suc left) d p = read_entries entries_per_day 0 d p ∷ read_days left (d + 1) p

-- static std::optional<Schedule> decode(const Frame &frame)
unfoldable pub decode : Frame → Option Schedule
decode frame =
    let p = frame.payload in
    when_size frame payload_size (record {
      prg_mode = byte_at p 0;
      reserved = (byte_at p 1, byte_at p 2, byte_at p 3);
      days = read_days days_per_week 0 p;
    })

-- What to_string prints, before the cut
abbrev pub text : Schedule → List ℕ
text m = join (
    codes "Schedule(prgMode="
    ∷ decimal m.prg_mode
    ∷ codes ", "
    ∷ decimal days_per_week
    ∷ codes " days x "
    ∷ decimal entries_per_day
    ∷ codes " entries)"
    ∷ [])

-- std::string to_string() const
unfoldable pub to_string : Schedule → List ℕ
unfolding snprintf
to_string m = snprintf 64 (text m)
