-- ===== src/Aup/Resync.antt =====
-- src/aup.cpp: a decoder that is anywhere in a frame, of bytes that were never a frame perhaps, comes
-- back to look for a marker.
use unilux_uart.Common.{
  ℕ, ◌+◌, ◌-◌, ◌*◌, ◌/◌, ◌^◌, ◌≤◌, ◌<◌, ◌≡◌, ◌≢◌, refl, sym, subst, List, [], ◌∷◌, ◌++◌, Option,
  some, none, arith, ap, ◌∙◌, length, All, bit_or, append_assoc,
}
use unilux_uart.Utils.RoundTrip.{be16_join}
use unilux_uart.Aup.{
  Frame, State, Decoder, emit, consume_in, consume, consume_all, encode, aup_magic1, IsWellFormed,
  IsIdle, IsByte,
}
use unilux_uart.Aup.Run.{IsHunting, fresh}
use unilux_uart.Aup.RoundTrip.{consume_all-encode}
use unilux_uart.Aup.Sound.{Consistent, Inv, consume-Inv, IsIdle-Inv}

-- How many more bytes, none of them 5A, the decoder may take before it looks for a marker: what is
-- left of the header, and of the longest payload, or of the payload that the header announces.
abbrev pub patience_in : State → Frame → ℕ → ℕ
patience_in State.magic1 f read = 0
patience_in State.magic2 f read = 65542
patience_in State.checksum f read = 65541
patience_in State.flag f read = 65540
patience_in State.type f read = 65539
patience_in State.command f read = 65538
patience_in State.length1 f read = 65537
patience_in State.length2 f read = 65536
patience_in State.payload f read = f.length - read

abbrev pub patience : Decoder → ℕ
patience d = patience_in d.state d.frame d.read

-- Every byte but 5A uses some of it up.
abbrev UsesUp : ℕ → Decoder → Type 0
UsesUp left d = patience d ≤ left - 1

length2-UsesUp :
    (d : Decoder) (byte : ℕ)
    → Consistent State.length2 d.frame d.read
    → byte < 256
    → UsesUp 65536 (consume_in State.length2 d byte).0
unfolding consume_in
length2-UsesUp d byte c b =
    let whole : d.frame.length ≡ d.frame.length / 2 ^ 8 * 2 ^ 8 = omega (arith, c.3) in
    let joined : bit_or d.frame.length byte ≡ d.frame.length / 2 ^ 8 * 256 + byte =
      ap (λ (t : ℕ). bit_or t byte) whole ∙ be16_join (d.frame.length / 2 ^ 8) byte b in
    ground (arith, joined)

consume_in-UsesUp :
    (s : State) (d : Decoder) (byte : ℕ)
    → Consistent s d.frame d.read
    → d.state ≡ s
    → byte < 256
    → byte ≢ aup_magic1
    → UsesUp (patience_in s d.frame d.read) (consume_in s d byte).0
unfolding consume_in
consume_in-UsesUp State.length2 d byte c e b n = length2-UsesUp d byte c b
consume_in-UsesUp _ d byte c e b n = ground arith

consume-UsesUp :
    (d : Decoder) (byte : ℕ)
    → Inv d
    → byte < 256
    → byte ≢ aup_magic1
    → UsesUp (patience d) (consume d byte).0
unfolding consume
consume-UsesUp d byte inv b n = consume_in-UsesUp d.state d byte inv refl b n

-- A run over some bytes and then others
abbrev pub go_on : Decoder × List Frame → List ℕ → Decoder × List Frame
go_on (d, fs) bytes = let (d1, gs) = consume_all d bytes in (d1, fs ++ gs)

emit-go_on :
    (out : Option Frame) (r : Decoder × List Frame) (bytes : List ℕ)
    → emit out (go_on r bytes) ≡ go_on (emit out r) bytes
emit-go_on none r bytes = refl
emit-go_on (some f) r bytes = refl

-- Whatever the bytes are and wherever they are cut in two, the calls of `consume` over all of them
-- return the frames of the first part and then those of the second, and end in the state that the
-- second part leaves.
pub consume_all-append :
    (d : Decoder) (xs ys : List ℕ) → consume_all d (xs ++ ys) ≡ go_on (consume_all d xs) ys
unfolding consume_all
consume_all-append d [] ys = refl
consume_all-append d (x ∷ xs) ys =
    let r = consume d x in
    ap (emit r.1) (consume_all-append r.0 xs ys) ∙ emit-go_on r.1 (consume_all r.0 xs) ys

emit-state : (out : Option Frame) (r : Decoder × List Frame) → (emit out r).0 ≡ r.0
emit-state none r = refl
emit-state (some f) r = refl

consume_all-Inv :
    (d : Decoder) (bytes : List ℕ) → Inv d → All IsByte bytes → Inv (consume_all d bytes).0
unfolding consume_all
consume_all-Inv d [] inv b = inv
consume_all-Inv d (byte ∷ bytes) inv (b, bs) =
    let r = consume d byte in
    subst Inv (sym (emit-state r.1 (consume_all r.0 bytes)))
      (consume_all-Inv r.0 bytes (consume-Inv d byte inv b) bs)

-- A byte that is not the first of a marker
abbrev pub IsQuiet : ℕ → Type 0
IsQuiet b = (b < 256) × (b ≢ aup_magic1)

wait :
    (bytes : List ℕ) (d : Decoder)
    → Inv d
    → All IsQuiet bytes
    → patience d ≤ length bytes
    → let d1 = (consume_all d bytes).0 in Inv d1 × (patience d1 ≡ 0)
unfolding consume_all
wait [] d inv q long = (inv, omega arith)
wait (byte ∷ bytes) d inv ((b, n), qs) long =
    let r = consume d byte in
    let used = consume-UsesUp d byte inv b n in
    subst (λ d1. Inv d1 × (patience d1 ≡ 0)) (sym (emit-state r.1 (consume_all r.0 bytes)))
      (wait bytes r.0 (consume-Inv d byte inv b) qs (omega arith))

patience_le : (d : Decoder) → Inv d → patience d ≤ 65542
patience_le d inv = ground arith

patience-IsHunting : (d : Decoder) → Inv d → patience d ≡ 0 → IsHunting d
patience-IsHunting d inv done = ground arith

resync :
    (d : Decoder) (received quiet : List ℕ)
    → Inv d
    → All IsByte received
    → All IsQuiet quiet
    → 65542 ≤ length quiet
    → IsHunting (consume_all d (received ++ quiet)).0
resync d received quiet inv b q long =
    let d1 = (consume_all d received).0 in
    let inv1 = consume_all-Inv d received inv b in
    let (inv2, done) = wait quiet d1 inv1 q (omega (arith, patience_le d1 inv1)) in
    rw (consume_all-append d received quiet) (patience-IsHunting (consume_all d1 quiet).0 inv2 done)

-- Whatever bytes an idle decoder has received, once 65542 more have come of which none is 5A, the next
-- encoded well-formed frame is returned, behind the frames returned so far, and the decoder is reset:
-- a broken header or a wrong length holds it up for no longer.
pub consume_all-encode_after_quiet :
    (d : Decoder) (received quiet rest : List ℕ) (f : Frame)
    → IsIdle d
    → All IsByte received
    → All IsQuiet quiet
    → 65542 ≤ length quiet
    → IsWellFormed f
    → consume_all d (received ++ quiet ++ encode f ++ rest) ≡ (
        let earlier = consume_all d (received ++ quiet) in
        let later = consume_all fresh rest in (later.0, earlier.1 ++ f ∷ later.1))
consume_all-encode_after_quiet d received quiet rest f idle b q long w =
    let before = received ++ quiet in
    let hunting = resync d received quiet (IsIdle-Inv d idle) b q long in
    rw (append_assoc before (encode f) rest, consume_all-append d before (encode f ++ rest))
      (rw (consume_all-encode (consume_all d before).0 f rest hunting w) refl)
