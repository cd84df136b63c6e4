-- ===== src/UniluxUart/System/Panel/Numbers.antt =====
-- esphome/components/unilux_uart/unilux_uart.cpp: what calls on the number entities, reports and the
-- rebroadcast do to the scalar settings of the device.
use unilux_uart.Common.{
  ℕ, ◌≡◌, ◌≢◌, refl, sym, ap, ◌∙◌, subst, Bool, true, false, Bool-cases, inl, inr, some, List, [],
  ◌∷◌, ◌++◌, map, All, append_assoc, append-nil, if◌then◌else◌, not, ◌&&◌,
}
use unilux_uart.Float.{Float, isnan}
use unilux_uart.UniluxUart.Number
use unilux_uart.UniluxUart.Component.{Event, number_event, sync_numbers}
use unilux_uart.UniluxUart.System.Transcript.{scalar_messages, messages_of, messages_all}
use unilux_uart.UniluxUart.System.Panel.{
  Panel, put, receive_settings, Shows, is_scalar, Lacks, AreWired, receive_settings-append,
  receive-scalar_messages, put-here, put-other,
}

pub Shows-same : (p q : Panel) (n : Number.Number) → q n.msg_id ≡ p n.msg_id → Shows p n → Shows q n
Shows-same p q n e (inl nan) = inl nan
Shows-same p q n e (inr h) = inr (e ∙ h)

abbrev pub changed : Bool → ℕ → Float → Panel → Panel
changed t id v p = if t then put id (some v) p else p

pub changed-other :
    (t : Bool) (id i : ℕ) (v : Float) (p : Panel) → i ≢ id → changed t id v p i ≡ p i
changed-other true id i v p other = put-other id i v p other
changed-other false id i v p other = refl

module _ (Name : Type 0) where
  pub messages_all-append :
      (es fs : List (Event Name)) → messages_all (es ++ fs) ≡ messages_all es ++ messages_all fs
  messages_all-append [] fs = refl
  messages_all-append (e ∷ es) fs =
      ap (◌++◌ (messages_of e)) (messages_all-append es fs)
      ∙ sym (append_assoc (messages_of e) (messages_all es) (messages_all fs))

  -- The device after calls
  abbrev pub after : List (Event Name) → Panel → Panel
  after es p = receive_settings (messages_all es) p

  pub after-append :
      (es fs : List (Event Name)) (p : Panel) → after (es ++ fs) p ≡ after fs (after es p)
  after-append es fs p =
      ap (λ ms. receive_settings ms p) (messages_all-append es fs)
      ∙ receive_settings-append (messages_all es) (messages_all fs) p

  after_setting :
      (t : Bool) (id msg_id : ℕ) (v : Float) (p : Panel)
      → is_scalar msg_id ≡ true
      → after (map (number_event id) (if t then Number.setting msg_id v ∷ [] else [])) p
        ≡ changed t msg_id v p
  after_setting true id msg_id v p known =
      ap (λ ms. receive_settings ms p) (append-nil (scalar_messages msg_id v))
      ∙ receive-scalar_messages msg_id v p known
  after_setting false id msg_id v p known = refl

  -- A round of the rebroadcast
  abbrev pub sync_calls : Number.Number → List (Event Name)
  sync_calls n = map (number_event n.msg_id) (Number.sync_to_device n)

  pub after_sync :
      (n : Number.Number) (p : Panel)
      → is_scalar n.msg_id ≡ true
      → after (sync_calls n) p ≡ changed (n.has_parent && not (isnan n.state)) n.msg_id n.state p
  unfolding Number.sync_to_device
  after_sync n p known =
      after_setting (n.has_parent && not (isnan n.state)) n.msg_id n.msg_id n.state p known

  pub sync_one :
      (n : Number.Number) (p : Panel)
      → n.has_parent ≡ true
      → is_scalar n.msg_id ≡ true
      → Shows (after (sync_calls n) p) n
  sync_one n p parent known = elim (Bool-cases (isnan n.state)) [
    | inl nan ↦ inl nan
    | inr number ↦
        let test : n.has_parent && not (isnan n.state) ≡ true = rw (parent, number) refl in
        inr (
          ap (λ (q : Panel). q n.msg_id)
            (after_sync n p known ∙ ap (λ t. changed t n.msg_id n.state p) test)
          ∙ put-here n.msg_id n.state p)
  ]

  pub sync_numbers-other :
      (ns : List Number.Number) (i : ℕ) (p : Panel)
      → AreWired ns
      → Lacks i ns
      → after (sync_numbers ns) p i ≡ p i
  sync_numbers-other [] i p wired lacks = refl
  sync_numbers-other (n ∷ ns) i p (parent, known, rest, wired) (lack, lacks) =
      let test = n.has_parent && not (isnan n.state) in
      let q = after (sync_calls n) p in
      ap (λ (r : Panel). r i) (after-append (sync_calls n) (sync_numbers ns) p)
      ∙ sync_numbers-other ns i q wired lacks
      ∙ ap (λ (r : Panel). r i) (after_sync n p known)
      ∙ changed-other test n.msg_id i n.state p (λ e. lack (sym e))

  -- Whatever the device had
  pub sync_numbers-Shows :
      (ns : List Number.Number) (p : Panel)
      → AreWired ns
      → All (Shows (after (sync_numbers ns) p)) ns
  sync_numbers-Shows [] p wired = tt
  sync_numbers-Shows (n ∷ ns) p (parent, known, rest, wired) =
      let q = after (sync_calls n) p in
      let behind = sync_numbers-other ns n.msg_id q wired rest in
      let head = Shows-same q (after (sync_numbers ns) q) n behind (sync_one n p parent known) in
      subst (λ (r : Panel). All (Shows r) (n ∷ ns))
        (sym (after-append (sync_calls n) (sync_numbers ns) p))
        (head, sync_numbers-Shows ns q wired)
