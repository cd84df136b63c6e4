-- ===== src/Aup/Reference.antt =====
-- src/aup.cpp: a parser of the whole input, to which the byte-at-a-time decoder is compared.
pub mod Pieces
pub mod Equivalence
use unilux_uart.Common.{
  ◌&◌, ℕ, zero, suc, ◌+◌, ◌-◌, ◌*◌, ◌/◌, ◌%◌, ◌^◌, ◌≤◌, ◌<◌, ◌≡◌, ◌≢◌, refl, sym, ap, subst, ◌∙◌,
  arith, Bool, true, false, ◌&&◌, Bool-cases, inl, inr, List, [], ◌∷◌, ◌++◌, Option, some, none,
  length, take, drop, All, bit_or, ltb, ◌==◌, if◌then◌else◌,
}
use unilux_uart.Aup.{
  Frame, State, Decoder, emit, consume, consume_all, encode, aup_magic1, aup_magic2, IsWellFormed,
  IsIdle, IsByte, empty_frame,
}
use unilux_uart.Utils.RoundTrip.{be16_join}
use unilux_uart.Aup.Run.{IsHunting, fresh, prepend, consume_all_step}
use unilux_uart.Aup.RoundTrip.{consume_all-encode}

-- What stands at the start of an input: no marker, a marker without a whole frame behind it, or a
-- frame, and the bytes behind it
pub data Next : Type 0 where
  no_marker incomplete : Next
  found : Frame → List ℕ → Next

-- Behind a marker: the header, and as many bytes of payload as it says
abbrev pub frame_at : List ℕ → Next
frame_at (checksum ∷ flag ∷ type ∷ command ∷ high ∷ low ∷ rest) =
    let size = high * 256 + low in
    if ltb (length rest) size
    then incomplete
    else found
        (record {
          checksum = checksum;
          flag = flag;
          type = type;
          command = command;
          length = size;
          payload = take size rest;
        })
        (drop size rest)
frame_at _ = incomplete

abbrev pub next : List ℕ → Next
next (a ∷ b ∷ rest) = if a == aup_magic1 && b == aup_magic2 then frame_at rest else no_marker
next _ = no_marker

abbrev pub go_on : Next → List Frame → (List ℕ → List Frame) → List Frame
go_on no_marker skipped parse = skipped
go_on incomplete skipped parse = []
go_on (found f rest) skipped parse = f ∷ parse rest

-- The frames of an input, by a count that is at least its length. Where no marker stands a byte is
-- dropped; behind a marker without a whole frame nothing more is looked for.
unfoldable pub frames_in : ℕ → List ℕ → List Frame
frames_in zero bytes = []
frames_in (suc n) bytes = go_on (next bytes) (frames_in n (drop 1 bytes)) (frames_in n)
