-- ===== src/Aup/RoundTrip.antt =====
-- src/aup.cpp: what `Encoder::encode` writes, `Decoder::consume` returns, also among stray bytes.
use unilux_uart.Common.{
  ℕ, ◌+◌, ◌%◌, ◌≡◌, ◌≢◌, ◌⊎◌, refl, sym, List, [], ◌∷◌, ◌++◌, some, none, arith, ap, ◌∙◌, length,
  length-append, append_assoc, All,
}
use unilux_uart.Aup.{
  Frame, State, Decoder, consume, consume_all, encode, aup_magic1, aup_magic2, IsWellFormed, IsIdle,
}
use unilux_uart.Aup.Run.{
  IsHunting, fresh, prepend, at_length2, consume_all_step, to_length2, at_length2_more,
  at_length2_done,
}

-- In the middle of the payload: `front` is read, and `x ∷ back` is still to come.
abbrev inside : Frame → List ℕ → Decoder
inside f front = record {
  state = State.payload;
  frame = record f { payload = front };
  read = length front;
}

last_byte :
    (f : Frame) (front : List ℕ) (x : ℕ)
    → IsWellFormed f
    → f.payload ≡ front ++ x ∷ []
    → consume (inside f front) x ≡ (fresh, some f)
unfolding consume
last_byte f front x w e =
    ground (arith, w.length_fits, w.length_matches, ap length e, length-append front (x ∷ []))

inner_byte :
    (f : Frame) (front : List ℕ) (x y : ℕ) (back : List ℕ)
    → IsWellFormed f
    → f.payload ≡ front ++ x ∷ y ∷ back
    → consume (inside f front) x ≡ (inside f (front ++ x ∷ []), none)
unfolding consume
inner_byte f front x y back w e = ground (
  arith,
  w.length_fits,
  w.length_matches,
  ap length e,
  length-append front (x ∷ y ∷ back),
  length-append front (x ∷ []),
)

payload_loop :
    (back : List ℕ) (f : Frame) (front : List ℕ) (x : ℕ) (rest : List ℕ)
    → IsWellFormed f
    → f.payload ≡ front ++ x ∷ back
    → consume_all (inside f front) (x ∷ back ++ rest) ≡ prepend f (consume_all fresh rest)
payload_loop [] f front x rest w e = consume_all_step _ x rest (last_byte f front x w e)
payload_loop (y ∷ back) f front x rest w e =
    consume_all_step _ x (y ∷ back ++ rest) (inner_byte f front x y back w e)
    ∙ payload_loop back f (front ++ x ∷ []) y rest w
        (e ∙ sym (append_assoc front (x ∷ []) (y ∷ back)))

after_header :
    (d : Decoder) (f : Frame) (rest payload : List ℕ)
    → IsHunting d
    → IsWellFormed f
    → f.payload ≡ payload
    → consume_all (at_length2 d f) ((f.length % 256) ∷ payload ++ rest)
      ≡ prepend f (consume_all fresh rest)
after_header d f rest [] h w e =
    consume_all_step _ _ rest (at_length2_done d f h w (w.length_matches ∙ ap length e))
after_header d f rest (x ∷ back) h w e =
    consume_all_step _ _ (x ∷ back ++ rest)
      (at_length2_more d f h w.length_fits (omega (arith, w.length_matches, ap length e)))
    ∙ payload_loop back f [] x rest w e

-- A decoder that looks for a marker, fed the encoding of a well-formed frame and then `rest`,
-- returns that frame first and goes on with `rest` from the reset state.
pub consume_all-encode :
    (d : Decoder) (f : Frame) (rest : List ℕ)
    → IsHunting d
    → IsWellFormed f
    → consume_all d (encode f ++ rest) ≡ prepend f (consume_all fresh rest)
unfolding encode
consume_all-encode d f rest h w =
    to_length2 d f (f.payload ++ rest) h ∙ after_header d f rest f.payload h w refl

-- The encoding is eight bytes longer than the payload.
pub length-encode : (f : Frame) → length (encode f) ≡ 8 + length f.payload
unfolding encode
length-encode f = omega arith

-- Stray bytes in which no marker stands; `prev` is the byte before them.
abbrev pub NoMarker : ℕ → List ℕ → Type 0
NoMarker prev [] = Unit
NoMarker prev (b ∷ bs) = (prev ≡ aup_magic1 → b ≢ aup_magic2) × NoMarker b bs

-- The state of the hunt agrees with the byte before.
abbrev pub Hunts : ℕ → Decoder → Type 0
Hunts prev d =
    ((d.state ≡ State.magic1) × (prev ≢ aup_magic1)
      ⊎ (d.state ≡ State.magic2) × (prev ≡ aup_magic1))
    × (d.frame.payload ≡ [])
    × (d.read ≡ 0)

stray_byte :
    (prev b : ℕ) (d : Decoder)
    → Hunts prev d
    → (prev ≡ aup_magic1 → b ≢ aup_magic2)
    → (Hunts b (consume d b).0) × ((consume d b).1 ≡ none)
unfolding consume
stray_byte prev b d h n = ground arith

Hunts-IsHunting : (prev : ℕ) (d : Decoder) → Hunts prev d → IsHunting d
Hunts-IsHunting prev d h = ground arith

-- Stray bytes return nothing, and leave the decoder looking for a marker.
stray_bytes :
    (noise : List ℕ) (prev : ℕ) (d : Decoder) (bs : List ℕ)
    → Hunts prev d
    → NoMarker prev noise
    → (e : Decoder) × IsHunting e × (consume_all d (noise ++ bs) ≡ consume_all e bs)
stray_bytes [] prev d bs h n = (d, Hunts-IsHunting prev d h, refl)
stray_bytes (b ∷ noise) prev d bs h n =
    let (h1, quiet) = stray_byte prev b d h n.0 in
    let (e, hunting, same) = stray_bytes noise b (consume d b).0 bs h1 n.1 in
    (e, hunting, consume_all_step d b (noise ++ bs) (λ i. ((consume d b).0, quiet i)) ∙ same)

-- A frame on the wire with the stray bytes before it.
pub record Packet : Type 0 where
  pub noise : List ℕ
  pub frame : Frame

abbrev pub wire : List Packet → List ℕ
wire [] = []
wire (p ∷ ps) = p.noise ++ encode p.frame ++ wire ps

abbrev pub frames : List Packet → List Frame
frames [] = []
frames (p ∷ ps) = p.frame ∷ frames ps

-- No marker in the stray bytes, and a well-formed frame. Nothing is asked of the payload.
pub record IsClean (p : Packet) : Type 0 where
  pub no_marker : NoMarker 0 p.noise
  pub well_formed : IsWellFormed p.frame

wire_from :
    (ps : List Packet) (d : Decoder)
    → Hunts 0 d
    → All IsClean ps
    → (consume_all d (wire ps)).1 ≡ frames ps
wire_from [] d h c = unfold consume_all in refl
wire_from (p ∷ ps) d h (c, cs) =
    let (e, hunting, same) = stray_bytes p.noise 0 d (encode p.frame ++ wire ps) h c.no_marker in
    rw (append_assoc p.noise (encode p.frame) (wire ps)) (
      rw (same, consume_all-encode e p.frame (wire ps) hunting c.well_formed)
        (ap (λ (t : List Frame). p.frame ∷ t) (wire_from ps fresh (ground arith) cs)))

-- From an idle decoder a stream of encoded well-formed frames, each after any stray bytes in which
-- no marker 5A 9E stands (repeated 5A included), gives exactly those frames, in order.
pub consume_all-wire :
    (d : Decoder) (ps : List Packet)
    → IsIdle d
    → All IsClean ps
    → (consume_all d (wire ps)).1 ≡ frames ps
consume_all-wire d ps idle c = wire_from ps d (ground arith) c
