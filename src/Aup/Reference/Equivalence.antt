-- ===== src/Aup/Reference/Equivalence.antt =====
-- src/aup.cpp: the decoder returns what the parser finds.
use unilux_uart.Common.{
  ℕ, zero, suc, ◌≤◌, ◌≡◌, ◌≢◌, refl, ap, subst, ◌∙◌, arith, Bool-cases, inl, inr, List, [], ◌∷◌,
  length, All, ◌==◌,
}
use unilux_uart.Aup.{
  Frame, State, Decoder, consume, consume_all, aup_magic1, aup_magic2, IsIdle, IsByte,
}
use unilux_uart.Aup.Run.{fresh}
use unilux_uart.Aup.RoundTrip.{consume_all-encode}
use unilux_uart.Aup.Reference.{Next, no_marker, incomplete, found, frame_at, go_on, frames_in}
use unilux_uart.Aup.Reference.Pieces.{
  step-Silent, in_header, header-Silent, IsWhole, frame_at-IsWhole, fresh-IsIdle, IsShorter,
  frame_at-IsShorter, skip, skip_one, skip_two,
}

abbrev Agrees : ℕ → Decoder → List ℕ → Type 0
Agrees n d bytes = (consume_all d bytes).1 ≡ frames_in n bytes

-- Behind a marker, where the parser goes on from a frame as the decoder does
behind_marker :
    (n : ℕ) (d : Decoder) (r : List ℕ) (skipped : List Frame) (at : Next)
    → IsIdle d
    → All IsByte r
    → frame_at r ≡ at
    → ((rest : List ℕ) → length rest ≤ length r → All IsByte rest → Agrees n fresh rest)
    → (consume_all d (aup_magic1 ∷ aup_magic2 ∷ r)).1 ≡ go_on at skipped (frames_in n)
behind_marker n d r skipped no_marker idle b e later =
    absurd (subst (IsShorter r) e (frame_at-IsShorter r b))
behind_marker n d r skipped incomplete idle b e later =
    let d1 : Decoder = record d { state = State.magic2 } in
    step-Silent d d1 aup_magic1 (aup_magic2 ∷ r) (unfold consume in ground arith) (
      step-Silent d1 (in_header d) aup_magic2 r (unfold consume in refl)
        (header-Silent r d idle b e))
behind_marker n d r skipped (found f rest) idle b e later =
    let (good, split) = subst (IsWhole r) e (frame_at-IsWhole r b) in
    let (shorter, bytes) = subst (IsShorter r) e (frame_at-IsShorter r b) in
    rw (split, consume_all-encode d f rest (ground arith) good)
      (ap (λ (t : List Frame). f ∷ t) (later rest shorter bytes))

frames_in_nil : (n : ℕ) → frames_in n [] ≡ []
unfolding frames_in
frames_in_nil zero = refl
frames_in_nil (suc n) = frames_in_nil n

-- A first marker byte without the second
no_second :
    (n : ℕ) (d : Decoder) (y : ℕ) (r : List ℕ)
    → IsIdle d
    → y ≢ aup_magic2
    → Agrees n d (y ∷ r)
    → Agrees n fresh (y ∷ r)
    → (consume_all d (aup_magic1 ∷ y ∷ r)).1 ≡ frames_in n (y ∷ r)
no_second n d y r idle wrong same reset = elim (Bool-cases (y == aup_magic1)) [
  | inl again ↦
      let mark : y ≡ aup_magic1 = ground arith in
      let same1 = subst (λ t. Agrees n d (t ∷ r)) mark same in
      rw mark (ap (λ t. t.1) (skip_one d r idle) ∙ same1)
  | inr other ↦ ap (λ t. t.1) (skip_two d y r idle (ground arith) wrong) ∙ reset
]

agree :
    (n : ℕ) (d : Decoder) (bytes : List ℕ)
    → IsIdle d
    → All IsByte bytes
    → length bytes ≤ n
    → Agrees n d bytes
unfolding frames_in
agree zero d [] idle b h = unfold consume_all in refl
agree zero d (x ∷ bytes) idle b h = absurd (omega arith)
agree (suc n) d [] idle b h = agree n d [] idle b (omega arith)
agree (suc n) d (x ∷ []) idle b h = unfold consume_all consume in ground (arith, frames_in_nil n)
agree (suc n) d (x ∷ y ∷ r) idle (bx, (b, bs)) h = elim (Bool-cases (x == aup_magic1)) [
  | inr other ↦
      rw (other, skip d x (y ∷ r) idle (ground arith))
        (agree n fresh (y ∷ r) fresh-IsIdle (b, bs) (omega arith))
  | inl first ↦
      let mark : x ≡ aup_magic1 = ground arith in
      elim (Bool-cases (y == aup_magic2)) [
        | inl second ↦
            let mark2 : y ≡ aup_magic2 = ground arith in
            rw (first, second)
              (rw (mark, mark2)
                (behind_marker n d r _ (frame_at r) idle bs refl
                  (λ rest shorter bytes. agree n fresh rest fresh-IsIdle bytes (omega arith))))
        | inr wrong ↦
            rw (first, wrong)
              (rw mark (
                no_second n d y r idle (ground arith) (agree n d (y ∷ r) idle (b, bs) (omega arith))
                  (agree n fresh (y ∷ r) fresh-IsIdle (b, bs) (omega arith))))
      ]
]

-- From an idle decoder the calls of `consume` over any bytes return exactly the frames that a parser
-- of the whole input finds: it drops bytes up to the next marker 5A 9E, takes the header and as many
-- bytes of payload as the header says, and goes on behind them, until the input ends or ends within a
-- frame. The parser counts its rounds, and as many as there are bytes are enough.
pub consume_all-frames_in :
    (d : Decoder) (bytes : List ℕ)
    → IsIdle d
    → All IsByte bytes
    → (consume_all d bytes).1 ≡ frames_in (length bytes) bytes
consume_all-frames_in d bytes idle b = agree (length bytes) d bytes idle b (omega arith)
