-- ===== src/Aup/Run.antt =====
-- src/aup.cpp: runs of `Decoder::consume` over a list of bytes, one byte and many bytes at a time.
use unilux_uart.Common.{
  ℕ, ◌*◌, ◌/◌, ◌%◌, ◌^◌, ◌<◌, ◌≡◌, Option, ◌⊎◌, refl, List, [], ◌∷◌, none, some, arith, ap, bit_or,
  ◌∙◌,
}
use unilux_uart.Utils.RoundTrip.{be16_join}
use unilux_uart.Aup.{
  emit, Frame, State, Decoder, empty_frame, consume, consume_all, encode, aup_magic1, IsWellFormed,
}

-- The state after `reset`.
abbrev pub fresh : Decoder
fresh = record { state = State.magic1; frame = empty_frame; read = 0 }

-- A frame returned before the rest of a run.
abbrev pub prepend : Frame → Decoder × List Frame → Decoder × List Frame
prepend f (d, fs) = (d, f ∷ fs)

abbrev continue : List ℕ → Decoder × Option Frame → Decoder × List Frame
continue bs result = emit result.1 (consume_all result.0 bs)

pub consume_all_step :
    (d : Decoder) (b : ℕ) (bs : List ℕ) {r : Decoder × Option Frame}
    → consume d b ≡ r
    → consume_all d (b ∷ bs) ≡ emit r.1 (consume_all r.0 bs)
unfolding consume_all
consume_all_step d b bs h = ap (continue bs) h

-- Looking for a start marker, with nothing read of a frame.
pub record IsHunting (d : Decoder) : Type 0 where
  pub hunting : (d.state ≡ State.magic1) ⊎ (d.state ≡ State.magic2)
  pub payload_empty : d.frame.payload ≡ []
  pub read_zero : d.read ≡ 0

-- The decoder after a whole header.
abbrev pub at_payload : Decoder → Frame → Decoder
at_payload d f = record { state = State.payload; frame = record f { payload = [] }; read = 0 }

marker1 :
    (d : Decoder) → IsHunting d → consume d aup_magic1 ≡ (record d { state = State.magic2 }, none)
unfolding consume
marker1 d h = ground arith

-- The decoder that waits for the second length byte, after the other header bytes of `f`.
abbrev pub at_length2 : Decoder → Frame → Decoder
at_length2 d f = record {
  state = State.length2;
  frame = record f { length = f.length / 2 ^ 8 % 256 * 2 ^ 8 % 2 ^ 16; payload = d.frame.payload };
  read = d.read;
}

-- From either hunting state the bytes up to the first length byte are taken into the frame.
pub to_length2 :
    (d : Decoder) (f : Frame) (bs : List ℕ)
    → IsHunting d
    → consume_all d (encode (record f { payload = bs }))
      ≡ consume_all (at_length2 d f) ((f.length % 256) ∷ bs)
unfolding encode
to_length2 d f bs h =
    consume_all_step d aup_magic1 _ (marker1 d h) ∙ (unfold consume consume_all in refl)

join_length : (n : ℕ) → n < 2 ^ 16 → bit_or (n / 2 ^ 8 % 256 * 2 ^ 8 % 2 ^ 16) (n % 256) ≡ n
join_length n h =
    let small : n / 2 ^ 8 % 256 * 2 ^ 8 % 2 ^ 16 ≡ n / 2 ^ 8 % 256 * 2 ^ 8 = omega arith in
    rw small (be16_join (n / 2 ^ 8 % 256) (n % 256) (omega arith) ∙ omega arith)

pub at_length2_more :
    (d : Decoder) (f : Frame)
    → IsHunting d
    → f.length < 2 ^ 16
    → 0 < f.length
    → consume (at_length2 d f) (f.length % 256) ≡ (at_payload d f, none)
unfolding consume
at_length2_more d f h fits pos = ground (arith, join_length f.length fits)

pub at_length2_done :
    (d : Decoder) (f : Frame)
    → IsHunting d
    → IsWellFormed f
    → f.length ≡ 0
    → consume (at_length2 d f) (f.length % 256) ≡ (fresh, some f)
unfolding consume
at_length2_done d f h w none_left = ground (arith, join_length f.length w.length_fits)
