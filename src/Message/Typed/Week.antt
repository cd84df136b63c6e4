-- ===== src/Message/Typed/Week.antt =====
-- include/messages/schedule.hpp: `encode` writes 116 bytes.
use unilux_uart.Common.{ℕ, zero, suc, ◌+◌, refl, arith, List, [], ◌∷◌, set, get_or, All}
use unilux_uart.Float.{mul, to_uint16}
use unilux_uart.Float.Tenths.{ten}
use unilux_uart.Message.{zeros}
use unilux_uart.Message.Schedule
use unilux_uart.Message.Schedule.{
  Schedule, Entry, empty_entry, entry_at, offset, write_entry, write_entries, write_days, encode,
}
use unilux_uart.Message.Typed.{
  IsByte, IsBuffer, IfSome, IfSome-bind, IfSome-each, IsFrame, zeros-IsBuffer, set-IsBuffer,
  to_be16-IsBuffer,
}

-- The fields are of their types.
abbrev pub IsTime : Entry → Type 0
IsTime e = IsByte e.hour × IsByte e.minute

pub record IsTyped (m : Schedule) : Type 0 where
  pub prg_mode : IsByte m.prg_mode
  pub reserved_0 : IsByte m.reserved.0
  pub reserved_1 : IsByte m.reserved.1
  pub reserved_2 : IsByte m.reserved.2
  pub times : All (All IsTime) m.days

entry-IsTime : (day : List Entry) (e : ℕ) → All IsTime day → IsTime (get_or day e empty_entry)
entry-IsTime [] e h = (omega arith, omega arith)
entry-IsTime (x ∷ day) zero (h, hs) = h
entry-IsTime (x ∷ day) (suc e) (h, hs) = entry-IsTime day e hs

day-All : (days : List (List Entry)) (d : ℕ) → All (All IsTime) days → All IsTime (get_or days d [])
day-All [] d h = tt
day-All (day ∷ days) zero (h, hs) = h
day-All (day ∷ days) (suc d) (h, hs) = day-All days d hs

abbrev Week : List ℕ → Type 0
Week = IsBuffer 116

write_entry-Week :
    (p : List ℕ) (at : ℕ) (e : Entry) → IsTime e → Week p → IfSome Week (write_entry p at e)
unfolding Schedule.write_entry
write_entry-Week p at e (hour, minute) h = IfSome-each Week (to_uint16 (mul e.setpoint ten)) _ (λ w.
    to_be16-IsBuffer 116 _ (at + 2) w
      (set-IsBuffer 116 _ (at + 1) e.minute minute (set-IsBuffer 116 p at e.hour hour h)))

module _ (days : List (List Entry)) (times : All (All IsTime) days) where
  write_entries-Week :
      (left e d : ℕ) (p : List ℕ) → Week p → IfSome Week (write_entries left e d days p)
  unfolding Schedule.write_entries
  write_entries-Week zero e d p h = h
  write_entries-Week (suc left) e d p h =
      let time = entry-IsTime (get_or days d []) e (day-All days d times) in
      IfSome-bind Week Week (write_entry p (offset d e) (entry_at days d e)) _
        (write_entry-Week p (offset d e) (entry_at days d e) time h)
        (λ q hq. write_entries-Week left (e + 1) d q hq)

  write_days-Week : (left d : ℕ) (p : List ℕ) → Week p → IfSome Week (write_days left d days p)
  unfolding Schedule.write_days
  write_days-Week zero d p h = h
  write_days-Week (suc left) d p h =
      IfSome-bind Week Week (write_entries 4 0 d days p) _ (write_entries-Week 4 0 d p h)
        (λ q hq. write_days-Week left (d + 1) q hq)

pub encode-IsFrame : (m : Schedule) → IsTyped m → IfSome (IsFrame 0x78 116) (encode m)
unfolding Schedule.encode
encode-IsFrame m t =
    let p0 = set (zeros 116) 0 m.prg_mode in
    let p1 = set p0 1 m.reserved.0 in
    let p2 = set p1 2 m.reserved.1 in
    let h0 = set-IsBuffer 116 (zeros 116) 0 m.prg_mode t.prg_mode (zeros-IsBuffer 116) in
    let h1 = set-IsBuffer 116 p0 1 m.reserved.0 t.reserved_0 h0 in
    let h2 = set-IsBuffer 116 p1 2 m.reserved.1 t.reserved_1 h1 in
    let h3 = set-IsBuffer 116 p2 3 m.reserved.2 t.reserved_2 h2 in
    let p3 = set p2 3 m.reserved.2 in
    IfSome-bind Week (IsFrame 0x78 116) (write_days 7 0 m.days p3) _
      (write_days-Week m.days t.times 7 0 p3 h3) (λ p h. (refl, refl, h))
