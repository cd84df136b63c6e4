-- ===== src/UniluxUart/Component/Sync.antt =====
-- esphome/components/unilux_uart/unilux_uart.cpp: the rebroadcast window after the start.
use unilux_uart.Common.{
  ℕ, zero, suc, ◌+◌, ◌≡◌, refl, ap, ◌∙◌, Bool, true, false, Option, none, some, List, [], ◌∷◌, ◌++◌,
  map, if◌then◌else◌, leb, arith, replicate,
}
use unilux_uart.UniluxUart.Number
use unilux_uart.UniluxUart.Select
use unilux_uart.UniluxUart.Climate
use unilux_uart.UniluxUart.Component.{
  Component, Event, publish_t1, publish_t2, climate_event, number_event, select_event,
  cancel_interval, sync_numbers, sync_selects, sync_climate, sync_iteration, sync_repeat_count,
}

module _ {Name : Type 0} where
  -- Whether the timer is cancelled
  abbrev pub cancels : List (Event Name) → Bool
  cancels [] = false
  cancels (cancel_interval ∷ es) = true
  cancels (_ ∷ es) = cancels es

  -- Rounds of the timer, with the events of each
  unfoldable pub rounds : ℕ → Component Name → Component Name × List (List (Event Name))
  rounds zero c = (c, [])
  rounds (suc k) c =
      let (c1, es) = sync_iteration c in let (c2, ess) = rounds k c1 in (c2, es ∷ ess)

-- Which rounds are the last, from a count on
pub flags : ℕ → ℕ → List Bool
flags zero count = []
flags (suc k) count = leb sync_repeat_count (count + 1) ∷ flags k (count + 1)

module _ (Name : Type 0) where
  -- The parts of a round
  abbrev number_events : ℕ → List Number.Event → List (Event Name)
  number_events id es = map (number_event id) es

  abbrev climate_events : List Climate.Event → List (Event Name)
  climate_events es = map climate_event es

  abbrev end_events : Bool → List (Event Name)
  end_events last = if last then cancel_interval ∷ [] else []

  cancels-append :
      (es fs : List (Event Name)) → cancels es ≡ false → cancels (es ++ fs) ≡ cancels fs
  cancels-append [] fs h = refl
  cancels-append (publish_t1 x ∷ es) fs h = cancels-append es fs h
  cancels-append (publish_t2 x ∷ es) fs h = cancels-append es fs h
  cancels-append (climate_event x ∷ es) fs h = cancels-append es fs h
  cancels-append (number_event i x ∷ es) fs h = cancels-append es fs h
  cancels-append (select_event i x ∷ es) fs h = cancels-append es fs h
  cancels-append (cancel_interval ∷ es) fs h = cc

  cancels-number : (id : ℕ) (es : List Number.Event) → cancels (number_events id es) ≡ false
  cancels-number id [] = refl
  cancels-number id (e ∷ es) = cancels-number id es

  cancels-select :
      (id : ℕ) (es : List (Select.Event Name)) → cancels (map (select_event id) es) ≡ false
  cancels-select id [] = refl
  cancels-select id (e ∷ es) = cancels-select id es

  cancels-climate : (es : List Climate.Event) → cancels (climate_events es) ≡ false
  cancels-climate [] = refl
  cancels-climate (e ∷ es) = cancels-climate es

  cancels-sync_numbers : (ns : List Number.Number) → cancels (sync_numbers {Name = Name} ns) ≡ false
  cancels-sync_numbers [] = refl
  cancels-sync_numbers (n ∷ ns) =
      cancels-append (map (number_event n.msg_id) (Number.sync_to_device n)) (sync_numbers ns)
        (cancels-number n.msg_id (Number.sync_to_device n))
      ∙ cancels-sync_numbers ns

  cancels-sync_selects :
      (ss : List (Select.SelectApi Name × Select.Select)) → cancels (sync_selects ss) ≡ false
  cancels-sync_selects [] = refl
  cancels-sync_selects ((api, s) ∷ ss) =
      cancels-append (map (select_event s.msg_id) (Select.sync_to_device api s)) (sync_selects ss)
        (cancels-select s.msg_id (Select.sync_to_device api s))
      ∙ cancels-sync_selects ss

  cancels-sync_climate :
      (c : Option Climate.Climate) → cancels (sync_climate {Name = Name} c) ≡ false
  cancels-sync_climate none = refl
  cancels-sync_climate (some c) = cancels-climate (Climate.sync_to_device c).1

  last_round : (last : Bool) → cancels (end_events last) ≡ last
  last_round true = refl
  last_round false = refl

  -- One round cancels the timer exactly when it is the last one.
  cancels-sync_iteration :
      (c : Component Name) → cancels (sync_iteration c).1 ≡ leb sync_repeat_count (c.sync_count + 1)
  unfolding sync_iteration
  cancels-sync_iteration c =
      let last = leb sync_repeat_count (c.sync_count + 1) in
      let end = end_events last in
      let settings = sync_numbers c.numbers ++ sync_selects c.selects in
      let no_settings : cancels settings ≡ false =
        cancels-append (sync_numbers c.numbers) (sync_selects c.selects)
          (cancels-sync_numbers c.numbers)
        ∙ cancels-sync_selects c.selects in
      let no_entities : cancels (settings ++ sync_climate c.climate) ≡ false =
        cancels-append settings (sync_climate c.climate) no_settings
        ∙ cancels-sync_climate c.climate in
      cancels-append (settings ++ sync_climate c.climate) end no_entities ∙ last_round last

  next_count :
      (c : Component Name) → (sync_iteration c).0 ≡ record c { sync_count = c.sync_count + 1 }
  unfolding sync_iteration
  next_count c = refl

  flags_lem : (k : ℕ) (c : Component Name) → map cancels (rounds k c).1 ≡ flags k c.sync_count
  unfolding rounds flags
  flags_lem zero c = refl
  flags_lem (suc k) c =
      rw (cancels-sync_iteration c, next_count c)
        (ap (λ (t : List Bool). leb sync_repeat_count (c.sync_count + 1) ∷ t)
          (flags_lem k (record c { sync_count = c.sync_count + 1 })))

  count_lem :
      (k : ℕ) (c : Component Name) → (rounds k c).0 ≡ record c { sync_count = c.sync_count + k }
  unfolding rounds
  count_lem zero c = λ i. record c { sync_count = stays i }
    where
      stays : c.sync_count ≡ c.sync_count + 0
      stays = omega arith
  count_lem (suc k) c = rw (next_count c) (
      count_lem k (record c { sync_count = c.sync_count + 1 })
      ∙ ap (λ (t : ℕ). record c { sync_count = t }) (omega arith))

-- After a start with a count of zero the timer runs exactly twelve rounds: the first eleven do not
-- cancel it and the twelfth does. The rounds change nothing of the component but the count.
pub rounds_window :
    {Name : Type 0} (c : Component Name)
    → c.sync_count ≡ 0
    → (map cancels (rounds 12 c).1 ≡ replicate 11 false ++ true ∷ [])
      × ((rounds 12 c).0 ≡ record c { sync_count = 12 })
unfolding flags
rounds_window {Name = Name} c start =
    (flags_lem Name 12 c ∙ rw start refl, count_lem Name 12 c ∙ rw start refl)
