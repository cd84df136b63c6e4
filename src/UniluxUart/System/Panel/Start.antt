-- ===== src/UniluxUart/System/Panel/Start.antt =====
-- esphome/components/unilux_uart/unilux_uart.cpp: the number entities are set up and send what they hold
-- to the device.
use unilux_uart.Common.{
  ℕ, ◌≡◌, refl, sym, ap, ◌∙◌, subst, Option, none, some, List, [], ◌∷◌, ◌++◌, map, All, All-append,
  not, ◌&&◌,
}
use unilux_uart.Float.{Float, isnan}
use unilux_uart.UniluxUart.Climate
use unilux_uart.UniluxUart.Climate.{
  Inherited, ◌>>◌, sync_to_device, publish_state, resolve, applied,
}
use unilux_uart.UniluxUart.Number
use unilux_uart.UniluxUart.Select
use unilux_uart.UniluxUart.Component.{Component, Event, select_event, on_climate}
use unilux_uart.UniluxUart.System.Boot.{Stored, setup_numbers, setup_selects, setup_all}
use unilux_uart.UniluxUart.System.Panel.{Panel, Shows, Lacks, AreWired}
use unilux_uart.UniluxUart.System.Panel.Numbers.{
  changed-other, after, after-append, sync_calls, after_sync, sync_one, Shows-same,
}
use unilux_uart.UniluxUart.System.Panel.Others.{
  IsPlain, sync_to_device-Plain, after_climate, after_select,
}

module _ (Name : Type 0) (published : Float → Float → Float) (stored : ℕ → Option Float) where
  abbrev setup_of : List Number.Number → List Number.Number × List (Event Name)
  setup_of ns = setup_numbers published stored ns

  setup-Lacks : (i : ℕ) (ns : List Number.Number) → Lacks i ns → Lacks i (setup_of ns).0
  unfolding setup_numbers Number.setup
  setup-Lacks i [] h = tt
  setup-Lacks i (n ∷ ns) (h, hs) = (h, setup-Lacks i ns hs)

  pub setup-AreWired : (ns : List Number.Number) → AreWired ns → AreWired (setup_of ns).0
  unfolding setup_numbers Number.setup
  setup-AreWired [] h = tt
  setup-AreWired (n ∷ ns) (parent, known, rest, wired) =
      (parent, known, setup-Lacks n.msg_id ns rest, setup-AreWired ns wired)

  -- The entity once it has published its value
  abbrev loaded : Number.Number → Number.Number
  loaded n = Number.publish_state published (Number.loaded (stored n.msg_id) n.initial_value) n

  setup_first :
      (n : Number.Number) (ns : List Number.Number) (p : Panel)
      → after Name (setup_of (n ∷ ns)).1 p
        ≡ after Name (setup_of ns).1 (after Name (sync_calls Name (loaded n)) p)
  unfolding setup_numbers Number.setup
  setup_first n ns p = after-append Name (sync_calls Name (loaded n)) (setup_of ns).1 p

  setup-other :
      (ns : List Number.Number) (i : ℕ) (p : Panel)
      → AreWired ns
      → Lacks i ns
      → after Name (setup_of ns).1 p i ≡ p i
  unfolding setup_numbers
  setup-other [] i p wired lacks = refl
  setup-other (n ∷ ns) i p (parent, known, rest, wired) (lack, lacks) =
      let n1 = loaded n in
      let test = n1.has_parent && not (isnan n1.state) in
      ap (λ (r : Panel). r i) (setup_first n ns p)
      ∙ setup-other ns i (after Name (sync_calls Name n1) p) wired lacks
      ∙ ap (λ (r : Panel). r i) (after_sync Name n1 p known)
      ∙ changed-other test n.msg_id i n1.state p (λ e. lack (sym e))

  -- Whatever the device had
  pub setup-Shows :
      (ns : List Number.Number) (p : Panel)
      → AreWired ns
      → All (Shows (after Name (setup_of ns).1 p)) (setup_of ns).0
  unfolding setup_numbers Number.setup
  setup-Shows [] p wired = tt
  setup-Shows (n ∷ ns) p (parent, known, rest, wired) =
      let n1 = loaded n in
      let q = after Name (sync_calls Name n1) p in
      let behind = setup-other ns n.msg_id q wired rest in
      let head =
        Shows-same q (after Name (setup_of ns).1 q) n1 behind (sync_one Name n1 p parent known) in
      let both : All (Shows (after Name (setup_of ns).1 q)) (setup_of (n ∷ ns)).0 =
        (head, setup-Shows ns q wired) in
      subst (λ (r : Panel). All (Shows r) (setup_of (n ∷ ns)).0) (sym (setup_first n ns p)) both

module _ (Name : Type 0) (published : Float → Float → Float) where
  after-setup_climate :
      (restore : Option (Inherited → Inherited)) (c : Component Name) (p : Panel)
      → after Name (on_climate published (Climate.setup restore) c).1 p ≡ p
  unfolding Climate.setup
  after-setup_climate restore c p = by_entity c.climate refl
    where
      first :
          (o : Option (Inherited → Inherited)) (entity : Climate.Climate)
          → All IsPlain (applied o entity)
      first none entity = tt
      first (some apply) entity = (tt, tt)

      by_entity :
          (o : Option Climate.Climate)
          → c.climate ≡ o
          → after Name (on_climate published (Climate.setup restore) c).1 p ≡ p
      by_entity none e = rw e refl
      by_entity (some entity) e =
          let c0 = resolve restore entity in
          let plain =
            All-append IsPlain (sync_to_device c0).1 (publish_state (sync_to_device c0).0).1
              (sync_to_device-Plain c0) (tt, tt) in
          let es = ((sync_to_device >> publish_state) c0).1 in
          rw e (
            after_climate Name (applied restore entity ++ es) p
              (All-append IsPlain (applied restore entity) es (first restore entity) plain))

  after-setup_selects :
      (kept : ℕ → Option ℕ) (ss : List (Select.SelectApi Name × Select.Select)) (p : Panel)
      → after Name (setup_selects published kept ss).1 p ≡ p
  unfolding setup_selects
  after-setup_selects kept [] p = refl
  after-setup_selects kept ((api, s) ∷ ss) p =
      let es = (Select.setup api (kept s.msg_id) s).1 in
      let more = (setup_selects published kept ss).1 in
      after-append Name (map (select_event s.msg_id) es) more p
      ∙ ap (after Name more) (after_select Name s.msg_id es p)
      ∙ after-setup_selects kept ss p

  -- All entities set up
  pub setup_all-Shows :
      (stored : Stored) (c : Component Name) (p : Panel)
      → AreWired c.numbers
      → let r = setup_all published stored c in
        AreWired r.0.numbers × All (Shows (after Name r.1 p)) r.0.numbers
  unfolding setup_all
  setup_all-Shows stored c p wired =
      let es = (on_climate published (Climate.setup stored.climate) c).1 in
      let numbers = setup_numbers {Name = Name} published stored.number c.numbers in
      let rest = (setup_selects published stored.select c.selects).1 in
      let all : after Name (es ++ numbers.1 ++ rest) p ≡ after Name numbers.1 p =
        after-append Name (es ++ numbers.1) rest p
        ∙ after-setup_selects stored.select c.selects _
        ∙ after-append Name es numbers.1 p
        ∙ ap (after Name numbers.1) (after-setup_climate stored.climate c p) in
      (
        setup-AreWired Name published stored.number c.numbers wired,
        subst (λ (r : Panel). All (Shows r) numbers.0) (sym all)
            (setup-Shows Name published stored.number c.numbers p wired),
      )

  pub setup_all-decoder :
      (stored : Stored) (c : Component Name) → (setup_all published stored c).0.decoder ≡ c.decoder
  unfolding setup_all
  setup_all-decoder stored c = by_entity c.climate refl
    where
      by_entity :
          (o : Option Climate.Climate)
          → c.climate ≡ o
          → (setup_all published stored c).0.decoder ≡ c.decoder
      by_entity none e = rw e refl
      by_entity (some entity) e = rw e refl
