-- ===== src/Aup/Reference/Pieces.antt =====
-- src/aup.cpp: what the decoder does with the pieces that the parser distinguishes.
use unilux_uart.Common.{
  ℕ, zero, suc, ◌+◌, ◌*◌, ◌/◌, ◌%◌, ◌^◌, ◌≤◌, ◌<◌, ◌≡◌, ◌≢◌, refl, sym, ap, ◌∙◌, arith, Bool-cases,
  inl, inr, List, [], ◌∷◌, ◌++◌, none, length, take, drop, All, bit_or, ltb,
}
use unilux_uart.Aup.{
  State, Decoder, consume, consume_all, encode, aup_magic1, aup_magic2, IsWellFormed, IsIdle,
  IsByte,
}
use unilux_uart.Utils.RoundTrip.{be16_join}
use unilux_uart.Aup.Run.{fresh, consume_all_step}
use unilux_uart.Aup.Reference.{Next, no_marker, incomplete, found, frame_at}

-- No frame is returned
abbrev pub Silent : Decoder → List ℕ → Type 0
Silent d bytes = (consume_all d bytes).1 ≡ []

pub step-Silent :
    (d d1 : Decoder) (b : ℕ) (bs : List ℕ)
    → consume d b ≡ (d1, none)
    → Silent d1 bs
    → Silent d (b ∷ bs)
step-Silent d d1 b bs h quiet = ap (λ r. r.1) (consume_all_step d b bs h) ∙ quiet

-- In the payload, with more bytes missing than come
payload-Silent :
    (bytes : List ℕ) (d : Decoder)
    → d.state ≡ State.payload
    → d.frame.length < 2 ^ 16
    → d.read + length bytes < d.frame.length
    → Silent d bytes
unfolding consume_all
payload-Silent [] d e fits short = refl
payload-Silent (b ∷ bytes) d e fits short =
    let d1 = record d {
      frame = record d.frame { payload = d.frame.payload ++ b ∷ [] };
      read = d.read + 1;
    } in
    step-Silent d d1 b bytes (unfold consume in ground arith)
      (payload-Silent bytes d1 e fits (omega arith))

-- Behind a marker, without a whole frame
abbrev pub in_header : Decoder → Decoder
in_header d = record d { state = State.checksum }

joined :
    (high low : ℕ) → high < 256 → low < 256 → bit_or (high * 2 ^ 8 % 2 ^ 16) low ≡ high * 256 + low
joined high low hh hl =
    let small : high * 2 ^ 8 % 2 ^ 16 ≡ high * 2 ^ 8 = omega arith in
    rw small (be16_join high low hl)

pub header-Silent :
    (r : List ℕ) (d : Decoder)
    → IsIdle d
    → All IsByte r
    → frame_at r ≡ incomplete
    → Silent (in_header d) r
unfolding consume_all consume
header-Silent [] d idle b e = refl
header-Silent (c ∷ []) d idle b e = refl
header-Silent (c ∷ f ∷ []) d idle b e = refl
header-Silent (c ∷ f ∷ t ∷ []) d idle b e = refl
header-Silent (c ∷ f ∷ t ∷ k ∷ []) d idle b e = refl
header-Silent (c ∷ f ∷ t ∷ k ∷ high ∷ []) d idle b e = refl
header-Silent (c ∷ f ∷ t ∷ k ∷ high ∷ low ∷ rest) d idle (_, (_, (_, (_, (hh, (hl, _)))))) e =
    let size = high * 256 + low in
    let whole = joined high low hh hl in
    let short : length rest < size = ground arith in
    let d6 : Decoder = record {
      state = State.length2;
      frame = record {
        checksum = c;
        flag = f;
        type = t;
        command = k;
        length = high * 2 ^ 8 % 2 ^ 16;
        payload = d.frame.payload;
      };
      read = d.read;
    } in
    let d7 : Decoder = record d6 {
      state = State.payload;
      frame = record d6.frame { length = size };
    } in
    step-Silent d6 d7 low rest (ground (arith, whole))
      (payload-Silent rest d7 refl (omega arith) (omega (arith, idle.read_zero)))

take-drop : (n : ℕ) (xs : List ℕ) → take n xs ++ drop n xs ≡ xs
take-drop zero xs = refl
take-drop (suc n) [] = refl
take-drop (suc n) (x ∷ xs) = ap (λ t. x ∷ t) (take-drop n xs)

length-take : (n : ℕ) (xs : List ℕ) → n ≤ length xs → length (take n xs) ≡ n
length-take zero xs h = refl
length-take (suc n) [] h = absurd (omega arith)
length-take (suc n) (x ∷ xs) h = ap suc (length-take n xs (omega arith))

-- A whole frame is its encoding, and the bytes behind it.
abbrev pub IsWhole : List ℕ → Next → Type 0
IsWhole r (found f rest) = IsWellFormed f × (aup_magic1 ∷ aup_magic2 ∷ r ≡ encode f ++ rest)
IsWhole r _ = Unit

pub frame_at-IsWhole : (r : List ℕ) → All IsByte r → IsWhole r (frame_at r)
unfolding encode
frame_at-IsWhole (c ∷ g ∷ t ∷ k ∷ high ∷ low ∷ bytes) (_, (_, (_, (_, (hh, (hl, _)))))) =
    let size = high * 256 + low in
    elim (Bool-cases (ltb (length bytes) size)) [
      | inl short ↦ rw short tt
      | inr large ↦
          let enough : size ≤ length bytes = ground arith in
          let hi : size / 2 ^ 8 % 256 ≡ high = omega arith in
          let lo : size % 256 ≡ low = omega arith in
          rw large (
            record {
              length_fits = omega arith;
              length_matches = sym (length-take size bytes enough);
            },
            rw (hi, lo, take-drop size bytes) refl,
          )
    ]
frame_at-IsWhole _ b = tt

pub fresh-IsIdle : IsIdle fresh
fresh-IsIdle = record { state_idle = refl; payload_empty = refl; read_zero = refl }

All-drop : (n : ℕ) (xs : List ℕ) → All IsByte xs → All IsByte (drop n xs)
All-drop zero xs h = h
All-drop (suc n) [] h = tt
All-drop (suc n) (x ∷ xs) h = All-drop n xs h.1

length-drop_le : (n : ℕ) (xs : List ℕ) → length (drop n xs) ≤ length xs
length-drop_le zero xs = omega arith
length-drop_le (suc n) [] = omega arith
length-drop_le (suc n) (x ∷ xs) = omega (arith, length-drop_le n xs)

-- A byte that starts no marker
pub skip :
    (d : Decoder) (b : ℕ) (bs : List ℕ)
    → IsIdle d
    → b ≢ aup_magic1
    → consume_all d (b ∷ bs) ≡ consume_all fresh bs
skip d b bs idle other =
    consume_all_step d b bs {r = (fresh, none)} (unfold consume in ground arith)

pub skip_two :
    (d : Decoder) (b : ℕ) (bs : List ℕ)
    → IsIdle d
    → b ≢ aup_magic1
    → b ≢ aup_magic2
    → consume_all d (aup_magic1 ∷ b ∷ bs) ≡ consume_all fresh (b ∷ bs)
skip_two d b bs idle other wrong =
    let d1 : Decoder = record d { state = State.magic2 } in
    consume_all_step d aup_magic1 (b ∷ bs) {r = (d1, none)} (unfold consume in ground arith)
    ∙ consume_all_step d1 b bs {r = (fresh, none)} (unfold consume in ground arith)
    ∙ sym (skip fresh b bs fresh-IsIdle other)

-- Of two first marker bytes the decoder forgets one.
pub skip_one :
    (d : Decoder) (bs : List ℕ)
    → IsIdle d
    → consume_all d (aup_magic1 ∷ aup_magic1 ∷ bs) ≡ consume_all d (aup_magic1 ∷ bs)
skip_one d bs idle =
    let d1 : Decoder = record d { state = State.magic2 } in
    let first : consume d aup_magic1 ≡ (d1, none) = unfold consume in ground arith in
    consume_all_step d aup_magic1 (aup_magic1 ∷ bs) first
    ∙ consume_all_step d1 aup_magic1 bs {r = (d1, none)} (unfold consume in refl)
    ∙ sym (consume_all_step d aup_magic1 bs first)

-- The rest behind a frame is shorter, and consists of bytes, too.
abbrev pub IsShorter : List ℕ → Next → Type 0
IsShorter r (found f rest) = (length rest ≤ length r) × All IsByte rest
IsShorter r incomplete = Unit
IsShorter r no_marker = ⊥

pub frame_at-IsShorter : (r : List ℕ) → All IsByte r → IsShorter r (frame_at r)
frame_at-IsShorter (c ∷ g ∷ t ∷ k ∷ high ∷ low ∷ bytes) (_, (_, (_, (_, (_, (_, h)))))) =
    let size = high * 256 + low in
    elim (Bool-cases (ltb (length bytes) size)) [
      | inl short ↦ rw short tt
      | inr large ↦ rw large (omega (arith, length-drop_le size bytes), All-drop size bytes h)
    ]
frame_at-IsShorter _ b = tt
