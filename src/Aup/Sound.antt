-- ===== src/Aup/Sound.antt =====
-- src/aup.cpp: every frame that `Decoder::consume` returns stands in the received bytes, in its
-- encoded form, and the frames do not overlap.
use unilux_uart.Common.{
  ℕ, ◌+◌, ◌*◌, ◌/◌, ◌%◌, ◌^◌, ◌<◌, ◌≡◌, refl, sym, List, [], ◌∷◌, ◌++◌, Option, some, none, arith,
  ap, ◌∙◌, length, length-append, append_assoc, append-nil, All, bit_or, subst, if◌then◌else◌, ◌==◌,
}
use unilux_uart.Utils.RoundTrip.{be16_join}
use unilux_uart.Aup.{
  Frame, State, Decoder, emit, consume_in, consume, consume_all, encode, aup_magic1, aup_magic2,
  IsWellFormed, IsIdle, IsByte,
}

-- The bytes of the frame that is being assembled, as they were received.
abbrev pub partial_in : State → Frame → List ℕ
partial_in State.magic1 f = []
partial_in State.magic2 f = aup_magic1 ∷ []
partial_in State.checksum f = aup_magic1 ∷ aup_magic2 ∷ []
partial_in State.flag f = aup_magic1 ∷ aup_magic2 ∷ f.checksum ∷ []
partial_in State.type f = aup_magic1 ∷ aup_magic2 ∷ f.checksum ∷ f.flag ∷ []
partial_in State.command f = aup_magic1 ∷ aup_magic2 ∷ f.checksum ∷ f.flag ∷ f.type ∷ []
partial_in State.length1 f = aup_magic1 ∷ aup_magic2 ∷ f.checksum ∷ f.flag ∷ f.type ∷ f.command ∷ []
partial_in State.length2 f =
    aup_magic1 ∷ aup_magic2 ∷ f.checksum ∷ f.flag ∷ f.type ∷ f.command ∷ (f.length / 2 ^ 8) ∷ []
partial_in State.payload f =
    aup_magic1
    ∷ aup_magic2
    ∷ f.checksum
    ∷ f.flag
    ∷ f.type
    ∷ f.command
    ∷ (f.length / 2 ^ 8 % 256)
    ∷ (f.length % 256)
    ∷ f.payload

abbrev pub partial : Decoder → List ℕ
partial d = partial_in d.state d.frame

-- What the length and the payload counter hold in each state.
abbrev pub Consistent : State → Frame → ℕ → Type 0
Consistent State.length2 f read =
    (f.payload ≡ []) × (read ≡ 0) × (f.length < 2 ^ 16) × (f.length % 256 ≡ 0)
Consistent State.payload f read =
    (read ≡ length f.payload) × (read < f.length) × (f.length < 2 ^ 16)
Consistent _ f read = (f.payload ≡ []) × (read ≡ 0)

abbrev pub Inv : Decoder → Type 0
Inv d = Consistent d.state d.frame d.read

-- The bytes that a call's result stands for.
abbrev pub encoded : Option Frame → List ℕ
encoded none = []
encoded (some f) = encode f

abbrev pub WellFormed : Option Frame → Type 0
WellFormed none = Unit
WellFormed (some f) = IsWellFormed f

-- The bytes that a call gives up as stray.
abbrev stray : State → ℕ → List ℕ
stray State.magic1 byte = if byte == aup_magic1 then [] else byte ∷ []
stray State.magic2 byte =
    if byte == aup_magic2
    then []
    else if byte == aup_magic1
    then aup_magic1 ∷ []
    else aup_magic1 ∷ byte ∷ []
stray _ byte = []

-- One call: the bytes held so far and the new byte are stray bytes, then the returned frame, then the
-- bytes now held.
abbrev Accounts : State → Frame → ℕ → Decoder × Option Frame → Type 0
Accounts s f byte r =
    Inv r.0
    × WellFormed r.1
    × (partial_in s f ++ byte ∷ [] ≡ stray s byte ++ encoded r.1 ++ partial r.0)

length2-Accounts :
    (d : Decoder) (byte : ℕ)
    → Consistent State.length2 d.frame d.read
    → byte < 256
    → Accounts State.length2 d.frame byte (consume_in State.length2 d byte)
unfolding consume_in encode
length2-Accounts d byte c b =
    let whole : d.frame.length ≡ d.frame.length / 2 ^ 8 * 2 ^ 8 = omega (arith, c.3) in
    let joined : bit_or d.frame.length byte ≡ d.frame.length / 2 ^ 8 * 256 + byte =
      ap (λ (t : ℕ). bit_or t byte) whole ∙ be16_join (d.frame.length / 2 ^ 8) byte b in
    ground (arith, joined)

payload-Accounts :
    (d : Decoder) (byte : ℕ)
    → Consistent State.payload d.frame d.read
    → d.state ≡ State.payload
    → Accounts State.payload d.frame byte (consume_in State.payload d byte)
unfolding consume_in encode
payload-Accounts d byte c e =
    let grown : length (d.frame.payload ++ byte ∷ []) ≡ d.read + 1 =
      omega (arith, length-append d.frame.payload (byte ∷ [])) in
    let kept : (d.read + 1) % 2 ^ 16 ≡ d.read + 1 = omega arith in
    ground (arith, grown, kept, append-nil (d.frame.payload ++ byte ∷ []))

consume_in-Accounts :
    (s : State) (d : Decoder) (byte : ℕ)
    → Consistent s d.frame d.read
    → d.state ≡ s
    → byte < 256
    → Accounts s d.frame byte (consume_in s d byte)
unfolding consume_in encode
consume_in-Accounts State.length2 d byte c e b = length2-Accounts d byte c b
consume_in-Accounts State.payload d byte c e b = payload-Accounts d byte c e
consume_in-Accounts _ d byte c e b = ground arith

consume-Accounts :
    (d : Decoder) (byte : ℕ) → Inv d → byte < 256 → Accounts d.state d.frame byte (consume d byte)
unfolding consume
consume-Accounts d byte inv b = consume_in-Accounts d.state d byte inv refl b

pub consume-Inv : (d : Decoder) (byte : ℕ) → Inv d → byte < 256 → Inv (consume d byte).0
consume-Inv d byte inv b = (consume-Accounts d byte inv b).0

pub IsIdle-Inv : (d : Decoder) → IsIdle d → Inv d
IsIdle-Inv d idle =
    subst (λ s. Consistent s d.frame d.read) (sym idle.state_idle)
      (idle.payload_empty, idle.read_zero)

-- Received bytes cut up into stray bytes, the encodings of frames in order, and a tail.
pub data Stream : List ℕ → List Frame → List ℕ → Type 0 where
  ends : (tail : List ℕ) → Stream tail [] tail
  stray_bytes :
      {bytes : List ℕ} {fs : List Frame} {tail : List ℕ} (noise rest : List ℕ)
      → bytes ≡ noise ++ rest
      → Stream rest fs tail
      → Stream bytes fs tail
  frame_bytes :
      {bytes : List ℕ} {fs : List Frame} {tail : List ℕ} (f : Frame) (rest : List ℕ)
      → bytes ≡ encode f ++ rest
      → IsWellFormed f
      → Stream rest fs tail
      → Stream bytes (f ∷ fs) tail

emit-Stream :
    (out : Option Frame) (r : Decoder × List Frame) (rest : List ℕ)
    → WellFormed out
    → Stream rest r.1 (partial r.0)
    → Stream (encoded out ++ rest) (emit out r).1 (partial (emit out r).0)
emit-Stream none r rest w s = s
emit-Stream (some f) r rest w s = frame_bytes f rest refl w s

consume_all-Stream_from :
    (bytes : List ℕ) (d : Decoder)
    → Inv d
    → All IsByte bytes
    → let r = consume_all d bytes in Stream (partial d ++ bytes) r.1 (partial r.0)
unfolding consume_all
consume_all-Stream_from [] d inv b =
    stray_bytes [] (partial d) (append-nil (partial d)) (ends (partial d))
consume_all-Stream_from (byte ∷ bytes) d inv (b, bs) =
    let (inv1, good, split) = consume-Accounts d byte inv b in
    let d1 = (consume d byte).0 in
    let out = (consume d byte).1 in
    let noise = stray d.state byte in
    stray_bytes noise (encoded out ++ (partial d1 ++ bytes))
      (sym (append_assoc (partial d) (byte ∷ []) bytes)
        ∙ ap (λ (t : List ℕ). t ++ bytes) split
        ∙ append_assoc (noise ++ encoded out) (partial d1) bytes
        ∙ append_assoc noise (encoded out) (partial d1 ++ bytes))
      (emit-Stream out (consume_all d1 bytes) (partial d1 ++ bytes) good
        (consume_all-Stream_from bytes d1 inv1 bs))

-- Fed any bytes from the idle state, the decoder cuts them up: the frames that it returns are
-- well formed and their encodings stand in the input in order, apart from one another, and what
-- follows the last stray bytes is the partial frame that it holds at the end.
pub consume_all-Stream :
    (d : Decoder) (bytes : List ℕ)
    → IsIdle d
    → All IsByte bytes
    → let r = consume_all d bytes in Stream bytes r.1 (partial r.0)
consume_all-Stream d bytes idle b =
    let nothing : partial d ≡ [] = ap (λ s. partial_in s d.frame) idle.state_idle in
    let run = consume_all d bytes in
    subst (λ t. Stream (t ++ bytes) run.1 (partial run.0)) nothing
      (consume_all-Stream_from bytes d (IsIdle-Inv d idle) b)
