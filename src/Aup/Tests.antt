-- ===== src/Aup/Tests.antt =====
-- src/aup.cpp: runs on concrete bytes, among them those of tests/test_aup.cpp.
use unilux_uart.Common.{
  ℕ, ◌≡◌, refl, arith, List, [], ◌∷◌, ◌++◌, All, length, replicate, length-replicate, zero, suc,
}
use unilux_uart.Common.Bytes.{bytes_lem}
use unilux_uart.Aup.{
  Frame, State, Decoder, consume, consume_all, encode, empty_frame, IsIdle, IsWellFormed,
}
use unilux_uart.Aup.Run.{fresh}
use unilux_uart.Aup.RoundTrip.{length-encode, Packet, wire, IsClean, consume_all-wire}
use unilux_uart.Aup.Resync.{IsQuiet, consume_all-append, consume_all-encode_after_quiet, go_on}
use unilux_uart.Aup.Reference.{frames_in}
use unilux_uart.Aup.Reference.Equivalence.{consume_all-frames_in}
use unilux_uart.Aup.Sound.{Stream, partial, consume_all-Stream}

-- A WMMM temperature message, and a frame without a payload
abbrev reading : Frame
reading = record {
  checksum = 0x11;
  flag = 0x22;
  type = 0x33;
  command = 0x44;
  length = 8;
  payload = 0x02 ∷ 0 ∷ 0 ∷ 0 ∷ 0x00 ∷ 0xD7 ∷ 0x5A ∷ 0x9E ∷ [];
}

abbrev no_payload : Frame
no_payload = record {
  checksum = 0xAA;
  flag = 0xBB;
  type = 0xCC;
  command = 0xDD;
  length = 0;
  payload = [];
}

-- A decoder whose header fields were never initialised
abbrev uninitialised : Decoder
uninitialised = record {
  state = State.magic1;
  frame = record { checksum = 7; flag = 8; type = 9; command = 10; length = 11; payload = [] };
  read = 0;
}

uninitialised-IsIdle : IsIdle uninitialised
uninitialised-IsIdle = record { state_idle = refl; payload_empty = refl; read_zero = refl }

abbrev packets : List Packet
packets =
    record { noise = 0x00 ∷ 0x5A ∷ 0x5A ∷ []; frame = reading }
    ∷ record { noise = []; frame = no_payload }
    ∷ record { noise = 0x9E ∷ 0x5A ∷ 0x01 ∷ []; frame = reading }
    ∷ []

reading-IsWellFormed : IsWellFormed reading
reading-IsWellFormed = record { length_fits = omega arith; length_matches = refl }

packets-IsClean : All IsClean packets
packets-IsClean = (
  record { no_marker = ground arith; well_formed = reading-IsWellFormed },
  (
    record {
      no_marker = tt;
      well_formed = record { length_fits = omega arith; length_matches = refl };
    },
    (record { no_marker = ground arith; well_formed = reading-IsWellFormed }, tt),
  ),
)

consume_all-wire_example :
    (consume_all uninitialised (wire packets)).1 ≡ reading ∷ no_payload ∷ reading ∷ []
consume_all-wire_example =
    consume_all-wire uninitialised packets uninitialised-IsIdle packets-IsClean

-- Two stray bytes, a frame, and the beginning of another
abbrev received : List ℕ
received = 0x01 ∷ 0x9E ∷ 0x5A ∷ 0x9E ∷ 1 ∷ 2 ∷ 3 ∷ 4 ∷ 0 ∷ 2 ∷ 0x10 ∷ 0x20 ∷ 0x5A ∷ 0x9E ∷ 9 ∷ []

received_run : consume_all fresh received ≡ (
  record { state = State.flag; frame = record empty_frame { checksum = 9 }; read = 0 },
  record { checksum = 1; flag = 2; type = 3; command = 4; length = 2; payload = 0x10 ∷ 0x20 ∷ [] }
      ∷ [],
)
unfolding consume_all consume
received_run = refl

consume_all-Stream_example : let r = consume_all fresh received in Stream received r.1 (partial r.0)
consume_all-Stream_example =
    consume_all-Stream fresh received
      (record { state_idle = refl; payload_empty = refl; read_zero = refl })
      (bytes_lem received refl)

length-encode_example : length (encode reading) ≡ 16
length-encode_example = length-encode reading

consume_all-append_example :
    consume_all fresh (received ++ 0xFF ∷ []) ≡ go_on (consume_all fresh received) (0xFF ∷ [])
consume_all-append_example = consume_all-append fresh received (0xFF ∷ [])

zeros-IsQuiet : (n : ℕ) → All IsQuiet (replicate n 0)
zeros-IsQuiet zero = tt
zeros-IsQuiet (suc n) = ((omega arith, ground arith), zeros-IsQuiet n)

-- The partial frame at the end of `received` is given up.
consume_all-encode_after_quiet_example :
    consume_all fresh (received ++ replicate 65542 0 ++ encode reading ++ []) ≡ (
      (consume_all fresh []).0,
      (consume_all fresh (received ++ replicate 65542 0)).1 ++ reading ∷ [],
    )
unfolding consume_all
consume_all-encode_after_quiet_example =
    consume_all-encode_after_quiet fresh received (replicate 65542 0) [] reading
      (record { state_idle = refl; payload_empty = refl; read_zero = refl })
      (bytes_lem received refl) (zeros-IsQuiet 65542)
      (omega (arith, length-replicate {A = ℕ} 65542 0)) reading-IsWellFormed

consume_all-frames_in_example : (consume_all fresh received).1 ≡ frames_in 15 received
consume_all-frames_in_example =
    consume_all-frames_in fresh received
      (record { state_idle = refl; payload_empty = refl; read_zero = refl })
      (bytes_lem received refl)
