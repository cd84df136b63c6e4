-- ===== src/Message/Schedule/Negative.antt =====
-- include/messages/schedule.hpp: `encode` of a setpoint below zero casts a negative float to uint16_t,
-- which is undefined.
use unilux_uart.Common.{
  ℕ, zero, suc, ◌+◌, ◌≤◌, ◌<◌, ◌≡◌, refl, ap, sym, ◌∙◌, subst, arith, List, [], Option, none, some,
  get_or, All, ◌>>=◌,
}
use unilux_uart.Utils.{byte_at}
use unilux_uart.Wmmm.{Frame}
use unilux_uart.Message.Signed.{IsNegative, cast_negative, IsNegative-at}
use unilux_uart.Message.Schedule.{
  Schedule, Entry, empty_entry, entry_at, offset, write_entry, write_entries, write_days, encode,
  read_entry, read_entries, read_days, decode,
}

entry_none : (p : List ℕ) (at : ℕ) (e : Entry) → IsNegative e.setpoint → write_entry p at e ≡ none
unfolding write_entry
entry_none p at e h = rw (cast_negative h) refl

bind_none :
    {A B : Type 0} (o : Option A) (k : A → Option B) → ((a : A) → k a ≡ none) → o >>= k ≡ none
bind_none none k h = refl
bind_none (some a) k h = h a

module _ (days : List (List Entry)) (d : ℕ) where
  entries_none :
      (k left e : ℕ) (p : List ℕ)
      → k < left
      → IsNegative (entry_at days d (e + k)).setpoint
      → write_entries left e d days p ≡ none
  unfolding write_entries
  entries_none k zero e p h low = absurd (omega arith)
  entries_none zero (suc left) e p h low =
      let here : e + 0 ≡ e = omega arith in
      rw
        (entry_none p (offset d e) (entry_at days d e)
          (subst (λ n. IsNegative (entry_at days d n).setpoint) here low))
        refl
  entries_none (suc k) (suc left) e p h low =
      let next : e + suc k ≡ e + 1 + k = omega arith in
      bind_none (write_entry p (offset d e) (entry_at days d e)) _ (λ q.
        entries_none k left (e + 1) q (omega arith)
          (subst (λ n. IsNegative (entry_at days d n).setpoint) next low))

-- The setpoint of some entry is below zero.
abbrev pub HasNegative : Schedule → Type 0
HasNegative m = (d : ℕ) × (e : ℕ) × (d < 7) × (e < 4) × IsNegative (entry_at m.days d e).setpoint

days_none :
    (days : List (List Entry)) (e j left d : ℕ) (p : List ℕ)
    → e < 4
    → j < left
    → IsNegative (entry_at days (d + j) e).setpoint
    → write_days left d days p ≡ none
unfolding write_days
days_none days e j zero d p he h low = absurd (omega arith)
days_none days e zero (suc left) d p he h low =
    let here : d + 0 ≡ d = omega arith in
    let negative = subst (λ n. IsNegative (entry_at days n e).setpoint) here low in
    rw
      (entries_none days d e 4 0 p he
        (subst (λ n. IsNegative (entry_at days d n).setpoint) (omega arith) negative))
      refl
days_none days e (suc j) (suc left) d p he h low =
    let next : d + suc j ≡ d + 1 + j = omega arith in
    bind_none (write_entries 4 0 d days p) _ (λ q.
      days_none days e j left (d + 1) q he (omega arith)
        (subst (λ n. IsNegative (entry_at days n e).setpoint) next low))

pub encode_negative : (m : Schedule) → HasNegative m → encode m ≡ none
unfolding encode
encode_negative m (d, e, hd, he, low) =
    rw
      (days_none m.days e d 7 0 _ he hd
        (subst (λ n. IsNegative (entry_at m.days n e).setpoint) (omega arith) low))
      refl

-- What `decode` reads at a place
read_entries_at :
    (p : List ℕ) (d k left e : ℕ)
    → k < left
    → get_or (read_entries left e d p) k empty_entry ≡ read_entry p (offset d (e + k))
unfolding read_entries
read_entries_at p d k zero e h = absurd (omega arith)
read_entries_at p d zero (suc left) e h = ap (λ n. read_entry p (offset d n)) (omega arith)
read_entries_at p d (suc k) (suc left) e h =
    read_entries_at p d k left (e + 1) (omega arith)
    ∙ ap (λ n. read_entry p (offset d n)) (omega arith)

read_days_at :
    (p : List ℕ) (j left d : ℕ)
    → j < left
    → get_or (read_days left d p) j [] ≡ read_entries 4 0 (d + j) p
unfolding read_days
read_days_at p j zero d h = absurd (omega arith)
read_days_at p zero (suc left) d h = ap (λ n. read_entries 4 0 n p) (omega arith)
read_days_at p (suc j) (suc left) d h =
    read_days_at p j left (d + 1) (omega arith) ∙ ap (λ n. read_entries 4 0 n p) (omega arith)

setpoint_at :
    (p : List ℕ) (d e : ℕ)
    → d < 7
    → e < 4
    → entry_at (read_days 7 0 p) d e ≡ read_entry p (offset d e)
setpoint_at p d e hd he =
    ap (λ day. get_or day e empty_entry) (read_days_at p d 7 0 hd)
    ∙ read_entries_at p (0 + d) e 4 0 he
    ∙ ap (λ n. read_entry p n) (omega arith)

decode_days : (f : Frame) (m : Schedule) → decode f ≡ some m → read_days 7 0 f.payload ≡ m.days
unfolding decode
decode_days f m e = ground arith

-- A frame of bytes that decodes to a weekly program, and in which the setpoint of some entry `e` of
-- some day `d` has its sign bit set, decodes to a message whose encoding casts a negative float to
-- uint16_t, which is undefined.
pub encode-decode_negative_day :
    (f : Frame) (m : Schedule) (d e : ℕ)
    → All (λ b. b < 256) f.payload
    → decode f ≡ some m
    → d < 7
    → e < 4
    → 128 ≤ byte_at f.payload (offset d e + 2)
    → encode m ≡ none
unfolding encode
encode-decode_negative_day f m d e bytes read hd he bit =
    let p = f.payload in
    let sign : IsNegative (read_entry p (offset d e)).setpoint =
      unfold read_entry in IsNegative-at p (offset d e + 2) bytes bit in
    let there : entry_at m.days (0 + d) e ≡ read_entry p (offset d e) =
      rw (sym (decode_days f m read))
        (ap (λ n. entry_at (read_days 7 0 p) n e) (omega arith) ∙ setpoint_at p d e hd he) in
    let low : IsNegative (entry_at m.days (0 + d) e).setpoint = rw there sign in
    rw (days_none m.days e d 7 0 _ he hd low) refl
