-- ===== src/Message/Schedule/Days.antt =====
-- include/messages/schedule.hpp: the loop over the days.
use unilux_uart.Common.{
  ℕ, ◌+◌, ◌*◌, ◌≡◌, refl, ap, sym, ◌∙◌, arith, List, [], ◌∷◌, ◌++◌, some, length, All, drop,
  append_assoc, length-append, subst,
}
use unilux_uart.Message.{zeros}
use unilux_uart.Message.Schedule.{Entry, offset, write_entries, write_days, read_entries, read_days}
use unilux_uart.Message.Schedule.Entries.{
  IsOnWire, entry_bytes, flat, blank, drop_head, write_entries_lem, read_entries_lem,
  length-entry_bytes,
}

-- A day of four entries
pub record IsDay (es : List Entry) : Type 0 where
  pub four_entries : length es ≡ 4
  pub on_wire : All IsOnWire es

pub flat_days : (ds : List (List Entry)) → All IsDay ds → List ℕ → List ℕ
flat_days [] h rest = rest
flat_days (es ∷ ds) h rest = flat es h.0.on_wire (flat_days ds h.1 rest)

pub blank_days : List (List Entry) → List ℕ → List ℕ
blank_days [] rest = rest
blank_days (es ∷ ds) rest = blank es (blank_days ds rest)

day_split :
    (es : List Entry) (h : All IsOnWire es) (rest : List ℕ) → flat es h rest ≡ flat es h [] ++ rest
unfolding flat
day_split [] h rest = refl
day_split (x ∷ es) h rest =
    rw (day_split es h.1 rest) (sym (append_assoc (entry_bytes x h.0) (flat es h.1 []) rest))

length-flat : (es : List Entry) (h : All IsOnWire es) → length (flat es h []) ≡ 4 * length es
unfolding flat
length-flat [] h = omega arith
length-flat (x ∷ es) h = omega (
  arith,
  length-append (entry_bytes x h.0) (flat es h.1 []),
  length-entry_bytes x h.0,
  length-flat es h.1,
)

module _ (es : List Entry) (h : IsDay es) (front rest : List ℕ) (d : ℕ)
    (at : length front ≡ offset d 0) where
  after_day : length (front ++ flat es h.on_wire []) ≡ offset (d + 1) 0
  after_day =
      omega (
        arith,
        length-append front (flat es h.on_wire []),
        length-flat es h.on_wire,
        h.four_entries,
      )

  regroup : front ++ flat es h.on_wire rest ≡ (front ++ flat es h.on_wire []) ++ rest
  regroup =
      ap (◌++◌ front) (day_split es h.on_wire rest)
      ∙ sym (append_assoc front (flat es h.on_wire []) rest)

pub length-flat_days :
    (ds : List (List Entry)) (h : All IsDay ds) → length (flat_days ds h []) ≡ 16 * length ds
unfolding flat_days
length-flat_days [] h = omega arith
length-flat_days (es ∷ ds) (h, hs) =
    let rest = flat_days ds hs [] in
    omega (
      arith,
      ap length (day_split es h.on_wire rest),
      length-append (flat es h.on_wire []) rest,
      length-flat es h.on_wire,
      h.four_entries,
      length-flat_days ds hs,
    )

pub write_days_lem :
    (days ds : List (List Entry)) (h : All IsDay ds) (d : ℕ) (front rest : List ℕ)
    → drop d days ≡ ds
    → length front ≡ offset d 0
    → write_days (length ds) d days (front ++ blank_days ds rest)
      ≡ some (front ++ flat_days ds h rest)
unfolding write_days flat_days blank_days
write_days_lem days [] h d front rest here at = refl
write_days_lem days (es ∷ ds) (h, hs) d front rest here at =
    let (now, next) = drop_head days ds d es [] here in
    let blanks = blank_days ds rest in
    let front' = front ++ flat es h.on_wire [] in
    let day : write_entries 4 0 d days (front ++ blank es blanks) ≡ some (front' ++ blanks) =
      subst (λ n. write_entries n 0 d days (front ++ blank es blanks) ≡ some (front' ++ blanks))
        h.four_entries
        (write_entries_lem days d es h.on_wire 0 front blanks now at
          ∙ ap some (regroup es h front blanks d at)) in
    rw day (
      write_days_lem days ds hs (d + 1) front' rest next (after_day es h front rest d at)
      ∙ ap some (sym (regroup es h front (flat_days ds hs rest) d at)))

pub read_days_lem :
    (ds : List (List Entry)) (h : All IsDay ds) (d : ℕ) (front rest : List ℕ)
    → length front ≡ offset d 0
    → read_days (length ds) d (front ++ flat_days ds h rest) ≡ ds
unfolding read_days flat_days
read_days_lem [] h d front rest at = refl
read_days_lem (es ∷ ds) (h, hs) d front rest at =
    let rest_days = flat_days ds hs rest in
    let front' = front ++ flat es h.on_wire [] in
    let bytes = front ++ flat es h.on_wire rest_days in
    let day : read_entries 4 0 d bytes ≡ es =
      subst (λ n. read_entries n 0 d bytes ≡ es) h.four_entries
        (read_entries_lem d es h.on_wire 0 front rest_days at) in
    let later : read_days (length ds) (d + 1) bytes ≡ ds =
      rw (regroup es h front rest_days d at)
        (read_days_lem ds hs (d + 1) front' rest (after_day es h front rest d at)) in
    λ i. day i ∷ later i

blank_four : (es : List Entry) (rest : List ℕ) → length es ≡ 4 → blank es rest ≡ zeros 16 ++ rest
unfolding blank
blank_four (a ∷ b ∷ c ∷ d ∷ []) rest e = refl
blank_four _ rest e = absurd (omega arith)

pub blank_week :
    (ds : List (List Entry)) → length ds ≡ 7 → All IsDay ds → blank_days ds [] ≡ zeros 112
unfolding blank_days
blank_week (a ∷ b ∷ c ∷ d ∷ e ∷ f ∷ g ∷ []) n (ha, (hb, (hc, (hd, (he, (hf, (hg, _))))))) =
    rw (blank_four a _ ha.four_entries, blank_four b _ hb.four_entries)
      (rw (blank_four c _ hc.four_entries, blank_four d _ hd.four_entries)
        (rw (blank_four e _ he.four_entries, blank_four f _ hf.four_entries)
          (rw (blank_four g [] hg.four_entries) refl)))
blank_week _ n h = absurd (omega arith)
