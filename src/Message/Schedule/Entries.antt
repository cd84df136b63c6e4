-- ===== src/Message/Schedule/Entries.antt =====
-- include/messages/schedule.hpp: the loop over the entries of a day writes their bytes behind those
-- of the days before, and reads them from there.
use unilux_uart.Common.{
  ℕ, zero, suc, ◌+◌, ◌/◌, ◌%◌, ◌^◌, ◌≡◌, refl, ap, sym, ◌∙◌, arith, List, [], ◌∷◌, ◌++◌, some,
  length, All, set, get_or, drop, append_assoc, length-append,
}
use unilux_uart.Utils.{byte_at, from_be16, to_be16}
use unilux_uart.Message.Signed.{IsTenths, cast_tenths, read_tenths}
use unilux_uart.Message.Schedule.{
  Entry, empty_entry, offset, write_entry, write_entries, read_entry, read_entries,
}

pub record IsOnWire (e : Entry) : Type 0 where
  pub setpoint : IsTenths e.setpoint

-- Reads and writes behind a prefix
set-append :
    (front rest : List ℕ) (i k v : ℕ)
    → i ≡ length front + k
    → set (front ++ rest) i v ≡ front ++ set rest k v
set-append [] rest i k v e = ap (λ (t : ℕ). set rest t v) (e ∙ omega arith)
set-append (x ∷ front) rest zero k v e = absurd (omega arith)
set-append (x ∷ front) rest (suc i) k v e =
    ap (λ (t : List ℕ). x ∷ t) (set-append front rest i k v (omega arith))

byte_at-append :
    (front rest : List ℕ) (i k : ℕ)
    → i ≡ length front + k
    → byte_at (front ++ rest) i ≡ byte_at rest k
byte_at-append [] rest i k e = ap (byte_at rest) (e ∙ omega arith)
byte_at-append (x ∷ front) rest zero k e = absurd (omega arith)
byte_at-append (x ∷ front) rest (suc i) k e = byte_at-append front rest i k (omega arith)

-- The four bytes of an entry
pub entry_bytes : (e : Entry) → IsOnWire e → List ℕ
entry_bytes e h = e.hour ∷ e.minute ∷ (h.setpoint.wire / 2 ^ 8 % 256) ∷ (h.setpoint.wire % 256) ∷ []

module _ (front rest : List ℕ) (at : ℕ) (here : at ≡ length front) (e : Entry)
    (h : IsOnWire e) where
  write_entry_lem :
      (a b c d : ℕ)
      → write_entry (front ++ a ∷ b ∷ c ∷ d ∷ rest) at e ≡ some (front ++ (entry_bytes e h ++ rest))
  unfolding write_entry to_be16 entry_bytes
  write_entry_lem a b c d =
      rw
        (
          set-append front (a ∷ b ∷ c ∷ d ∷ rest) at 0 e.hour (omega arith),
          set-append front (e.hour ∷ b ∷ c ∷ d ∷ rest) (at + 1) 1 e.minute (omega arith),
          cast_tenths h.setpoint,
          set-append front (e.hour ∷ e.minute ∷ c ∷ d ∷ rest) (at + 2) 2 _ (omega arith),
          set-append front _ (at + 2 + 1) 3 _ (omega arith),
        )
        refl

  read_entry_lem : read_entry (front ++ (entry_bytes e h ++ rest)) at ≡ e
  unfolding read_entry from_be16 entry_bytes
  read_entry_lem = λ i. record {
    hour = byte_at-append front (entry_bytes e h ++ rest) at 0 (omega arith) i;
    minute = byte_at-append front (entry_bytes e h ++ rest) (at + 1) 1 (omega arith) i;
    setpoint = setpoint i;
  }
    where
      setpoint : (read_entry (front ++ (entry_bytes e h ++ rest)) at).setpoint ≡ e.setpoint
      setpoint =
          rw
            (
              byte_at-append front (entry_bytes e h ++ rest) (at + 2) 2 (omega arith),
              byte_at-append front (entry_bytes e h ++ rest) (at + 2 + 1) 3 (omega arith),
            )
            (read_tenths h.setpoint)

-- The bytes of the entries of a day, and the zeros that stand there before they are written
unfoldable pub flat : (es : List Entry) → All IsOnWire es → List ℕ → List ℕ
flat [] h rest = rest
flat (e ∷ es) h rest = entry_bytes e h.0 ++ flat es h.1 rest

unfoldable pub blank : List Entry → List ℕ → List ℕ
blank [] rest = rest
blank (e ∷ es) rest = 0 ∷ 0 ∷ 0 ∷ 0 ∷ blank es rest

pub drop_head :
    {A : Type 0} (xs ys : List A) (i : ℕ) (y z : A)
    → drop i xs ≡ y ∷ ys
    → (get_or xs i z ≡ y) × (drop (i + 1) xs ≡ ys)
drop_head [] ys zero y z e = cc
drop_head [] ys (suc i) y z e = cc
drop_head (x ∷ xs) ys zero y z e = ground arith
drop_head (x ∷ xs) ys (suc i) y z e =
    let (now, next) = drop_head xs ys i y z e in
    let step : suc i + 1 ≡ suc (i + 1) = omega arith in (now, rw step next)

pub length-entry_bytes : (x : Entry) (h : IsOnWire x) → length (entry_bytes x h) ≡ 4
unfolding entry_bytes
length-entry_bytes x h = refl

after_entry :
    (front : List ℕ) (x : Entry) (h : IsOnWire x) (d e : ℕ)
    → length front ≡ offset d e
    → length (front ++ entry_bytes x h) ≡ offset d (e + 1)
after_entry front x h d e at =
    omega (arith, length-append front (entry_bytes x h), length-entry_bytes x h)

module _ (days : List (List Entry)) (d : ℕ) where
  pub write_entries_lem :
      (es : List Entry) (h : All IsOnWire es) (e : ℕ) (front rest : List ℕ)
      → drop e (get_or days d []) ≡ es
      → length front ≡ offset d e
      → write_entries (length es) e d days (front ++ blank es rest) ≡ some (front ++ flat es h rest)
  unfolding write_entries flat blank
  write_entries_lem [] h e front rest here at = refl
  write_entries_lem (x ∷ es) h e front rest here at =
      let (now, next) = drop_head (get_or days d []) es e x empty_entry here in
      rw (now, write_entry_lem front (blank es rest) (offset d e) (sym at) x h.0 0 0 0 0)
        (rw (← append_assoc front (entry_bytes x h.0) (blank es rest)) (
          write_entries_lem es h.1 (e + 1) (front ++ entry_bytes x h.0) rest next
            (after_entry front x h.0 d e at)
          ∙ ap some (append_assoc front (entry_bytes x h.0) (flat es h.1 rest))))

pub read_entries_lem :
    (d : ℕ) (es : List Entry) (h : All IsOnWire es) (e : ℕ) (front rest : List ℕ)
    → length front ≡ offset d e
    → read_entries (length es) e d (front ++ flat es h rest) ≡ es
unfolding read_entries flat
read_entries_lem d [] h e front rest at = refl
read_entries_lem d (x ∷ es) h e front rest at =
    let here = entry_bytes x h.0 in
    let tail = flat es h.1 rest in
    rw (read_entry_lem front tail (offset d e) (sym at) x h.0) (
      ap (λ (t : List Entry). x ∷ t)
        (rw (← append_assoc front here tail) (
          read_entries_lem d es h.1 (e + 1) (front ++ here) rest (after_entry front x h.0 d e at))))
