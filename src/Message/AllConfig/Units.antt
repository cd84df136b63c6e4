-- ===== src/Message/AllConfig/Units.antt =====
-- include/messages/all_config.hpp: the NUL-padded unit strings.
use unilux_uart.Common.{
  ℕ, ◌+◌, ◌≤◌, ◌≡◌, ◌≢◌, refl, arith, List, [], ◌∷◌, ◌++◌, length, All, set, take, zero, suc,
  Bool-cases, inl, inr, ◌==◌,
}
use unilux_uart.Utils.{byte_at}
use unilux_uart.Message.AllConfig.{read_unit, write_unit, scan_unit, unit_len}

-- The byte of a slot that holds `s`
abbrev pub slot_byte : List ℕ → ℕ → ℕ
slot_byte s i = byte_at s i

-- The slot of a string of at most eight bytes
abbrev pub slot : List ℕ → List ℕ
slot s =
    slot_byte s 0
    ∷ slot_byte s 1
    ∷ slot_byte s 2
    ∷ slot_byte s 3
    ∷ slot_byte s 4
    ∷ slot_byte s 5
    ∷ slot_byte s 6
    ∷ slot_byte s 7
    ∷ []

-- A string that fits a slot and holds no NUL
pub record IsUnit (s : List ℕ) : Type 0 where
  pub fits : length s ≤ 8
  pub no_nul : All (λ b. b ≢ 0) s

-- The eight bytes of a slot written one by one
abbrev pub write_slot : List ℕ → ℕ → List ℕ → List ℕ
write_slot p at s =
    let p1 = set (set p (at + 0) (slot_byte s 0)) (at + 1) (slot_byte s 1) in
    let p2 = set (set p1 (at + 2) (slot_byte s 2)) (at + 3) (slot_byte s 3) in
    let p3 = set (set p2 (at + 4) (slot_byte s 4)) (at + 5) (slot_byte s 5) in
    set (set p3 (at + 6) (slot_byte s 6)) (at + 7) (slot_byte s 7)

-- `write_unit` fills the slot with the string and zeros behind it.
pub write_unit-slot :
    (p : List ℕ) (at : ℕ) (s : List ℕ) → length s ≤ 8 → write_unit p at s ≡ write_slot p at s
unfolding write_unit
write_unit-slot p at [] fits = refl
write_unit-slot p at (a ∷ []) fits = refl
write_unit-slot p at (a ∷ b ∷ []) fits = refl
write_unit-slot p at (a ∷ b ∷ c ∷ []) fits = refl
write_unit-slot p at (a ∷ b ∷ c ∷ d ∷ []) fits = refl
write_unit-slot p at (a ∷ b ∷ c ∷ d ∷ e ∷ []) fits = refl
write_unit-slot p at (a ∷ b ∷ c ∷ d ∷ e ∷ f ∷ []) fits = refl
write_unit-slot p at (a ∷ b ∷ c ∷ d ∷ e ∷ f ∷ g ∷ []) fits = refl
write_unit-slot p at (a ∷ b ∷ c ∷ d ∷ e ∷ f ∷ g ∷ h ∷ []) fits = refl
write_unit-slot p at (a ∷ b ∷ c ∷ d ∷ e ∷ f ∷ g ∷ h ∷ i ∷ rest) fits = absurd (omega arith)

-- `read_unit` reads the string back, whatever follows the slot.
pub read_unit-slot :
    (s more : List ℕ) → length s ≤ 8 → All (λ b. b ≢ 0) s → read_unit (slot s ++ more) ≡ s
unfolding read_unit
read_unit-slot [] more fits n = refl
read_unit-slot (a ∷ []) more fits n = ground arith
read_unit-slot (a ∷ b ∷ []) more fits n = ground arith
read_unit-slot (a ∷ b ∷ c ∷ []) more fits n = ground arith
read_unit-slot (a ∷ b ∷ c ∷ d ∷ []) more fits n = ground arith
read_unit-slot (a ∷ b ∷ c ∷ d ∷ e ∷ []) more fits n = ground arith
read_unit-slot (a ∷ b ∷ c ∷ d ∷ e ∷ f ∷ []) more fits n = ground arith
read_unit-slot (a ∷ b ∷ c ∷ d ∷ e ∷ f ∷ g ∷ []) more fits n = ground arith
read_unit-slot (a ∷ b ∷ c ∷ d ∷ e ∷ f ∷ g ∷ h ∷ []) more fits n = ground arith
read_unit-slot (a ∷ b ∷ c ∷ d ∷ e ∷ f ∷ g ∷ h ∷ i ∷ rest) more fits n = absurd (omega arith)

length-take_le : (n : ℕ) (xs : List ℕ) → length (take n xs) ≤ n
length-take_le zero xs = omega arith
length-take_le (suc n) [] = omega arith
length-take_le (suc n) (x ∷ xs) = omega (arith, length-take_le n xs)

scan_unit_le : (left len : ℕ) (bytes : List ℕ) → scan_unit left len bytes ≤ len + left
unfolding scan_unit
scan_unit_le zero len bytes = omega arith
scan_unit_le (suc left) len bytes = ground (arith, scan_unit_le left (len + 1) bytes)

pub unit_le : (bytes : List ℕ) → length (read_unit bytes) ≤ unit_len
unfolding read_unit
unit_le bytes =
    omega (arith, length-take_le (scan_unit unit_len 0 bytes) bytes, scan_unit_le unit_len 0 bytes)

-- A prefix without NUL, and the byte behind it
take_next :
    (bytes : List ℕ) (len : ℕ)
    → byte_at bytes len ≢ 0
    → All (λ b. b ≢ 0) (take len bytes)
    → All (λ b. b ≢ 0) (take (suc len) bytes)
take_next [] len here h = tt
take_next (b ∷ bytes) zero here h = (here, tt)
take_next (b ∷ bytes) (suc len) here (first, h) = (first, take_next bytes len here h)

scan_no_nul :
    (left len : ℕ) (bytes : List ℕ)
    → All (λ b. b ≢ 0) (take len bytes)
    → All (λ b. b ≢ 0) (take (scan_unit left len bytes) bytes)
unfolding scan_unit
scan_no_nul zero len bytes h = h
scan_no_nul (suc left) len bytes h = elim (Bool-cases (byte_at bytes len == 0)) [
  | inl nul ↦ rw nul h
  | inr other ↦
      let next : len + 1 ≡ suc len = omega arith in
      let more = take_next bytes len (ground arith) h in
      rw other (scan_no_nul left (len + 1) bytes (rw next more))
]

-- What `read_unit` reads is a string of at most eight bytes without NUL.
pub read_unit-IsUnit : (bytes : List ℕ) → IsUnit (read_unit bytes)
unfolding read_unit
read_unit-IsUnit bytes = record { fits = unit_le bytes; no_nul = scan_no_nul unit_len 0 bytes tt }
