-- ===== src/Message/Schedule/Tests.antt =====
-- include/messages/schedule.hpp: a weekly program with a setpoint below zero.
use unilux_uart.Common.{ℕ, ◌≡◌, refl, List, some, replicate, set}
use unilux_uart.Message.{frame_of}
use unilux_uart.Message.Schedule.{Schedule, id, decode, read_days}

-- -0.1 degrees on the first day, in the second entry
abbrev payload : List ℕ
payload = set (set (replicate 116 0) 10 0xFF) 11 0xFF

abbrev frosty : Schedule
frosty = record { prg_mode = 0; reserved = (0, 0, 0); days = read_days 7 0 payload }

frosty_run : decode (frame_of id payload) ≡ some frosty
unfolding decode
frosty_run = refl
