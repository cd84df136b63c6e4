-- ===== src/UniluxUart/System/Panel/Calls.antt =====
-- esphome/components/unilux_uart/unilux_uart.cpp: what a call on a number entity, and a report, do to the
-- scalar settings of the device.
use unilux_uart.Common.{
  ℕ, zero, suc, ◌≡◌, refl, sym, ap, ◌∙◌, subst, true, Bool-cases, inl, inr, some, List, [], ◌∷◌,
  map, All, ◌==◌, append-nil,
}
use unilux_uart.Float.{Float}
use unilux_uart.UniluxUart.Number
use unilux_uart.UniluxUart.Component.{Event, number_event, publish_number}
use unilux_uart.UniluxUart.System.{control_number_at}
use unilux_uart.UniluxUart.System.Transcript.{scalar_messages, messages_all}
use unilux_uart.UniluxUart.System.Panel.{
  Panel, put, receive_settings, Shows, is_scalar, Lacks, AreWired, receive-scalar_messages,
  put-here, put-other, put-Shows,
}
use unilux_uart.UniluxUart.System.Panel.Numbers.{after}

module _ (Name : Type 0) (published : Float → Float → Float)
    (law : (old value : Float) → published old value ≡ value) where
  abbrev control_at : ℕ → Float → List Number.Number → List Number.Number × List (Event Name)
  control_at k v ns = control_number_at published k v ns

  -- The ids stay.
  control-Lacks :
      (k : ℕ) (v : Float) (i : ℕ) (ns : List Number.Number)
      → Lacks i ns
      → Lacks i (control_at k v ns).0
  unfolding control_number_at Number.control
  control-Lacks k v i [] h = tt
  control-Lacks zero v i (n ∷ ns) h = h
  control-Lacks (suc k) v i (n ∷ ns) (h, hs) = (h, control-Lacks k v i ns hs)

  pub control-AreWired :
      (k : ℕ) (v : Float) (ns : List Number.Number) → AreWired ns → AreWired (control_at k v ns).0
  unfolding control_number_at Number.control
  control-AreWired k v [] h = tt
  control-AreWired zero v (n ∷ ns) h = h
  control-AreWired (suc k) v (n ∷ ns) (parent, known, lacks, h) =
      (parent, known, control-Lacks k v n.msg_id ns lacks, control-AreWired k v ns h)

  -- A call on one entity sends its value.
  after-control :
      (n : Number.Number) (v : Float) (p : Panel)
      → n.has_parent ≡ true
      → is_scalar n.msg_id ≡ true
      → after Name (map (number_event n.msg_id) (Number.control published v n).1) p
        ≡ put n.msg_id (some v) p
  unfolding Number.control
  after-control n v p parent known = rw parent (
      ap (λ ms. receive_settings ms p) (append-nil (scalar_messages n.msg_id v))
      ∙ receive-scalar_messages n.msg_id v p known)

  control-other :
      (k : ℕ) (v : Float) (ns : List Number.Number) (i : ℕ) (p : Panel)
      → AreWired ns
      → Lacks i ns
      → after Name (control_at k v ns).1 p i ≡ p i
  unfolding control_number_at
  control-other k v [] i p wired lacks = refl
  control-other zero v (n ∷ ns) i p (parent, known, rest, wired) (lack, lacks) =
      ap (λ (r : Panel). r i) (after-control n v p parent known)
      ∙ put-other n.msg_id i v p (λ e. lack (sym e))
  control-other (suc k) v (n ∷ ns) i p (parent, known, rest, wired) (lack, lacks) =
      control-other k v ns i p wired lacks

  pub control-Shows :
      (k : ℕ) (v : Float) (ns : List Number.Number) (p : Panel)
      → AreWired ns
      → All (Shows p) ns
      → All (Shows (after Name (control_at k v ns).1 p)) (control_at k v ns).0
  unfolding control_number_at
  control-Shows k v [] p wired h = tt
  control-Shows zero v (n ∷ ns) p (parent, known, rest, wired) (h, hs) =
      let n1 = (Number.control published v n).0 in
      let head : Shows (put n.msg_id (some v) p) n1 =
        unfold Number.control in inr (put-here n.msg_id v p ∙ sym (law n.state v)) in
      subst (λ (r : Panel). All (Shows r) (n1 ∷ ns)) (sym (after-control n v p parent known))
        (head, put-Shows n.msg_id v p ns rest hs)
  control-Shows (suc k) v (n ∷ ns) p (parent, known, rest, wired) (h, hs) =
      (same_head (control-other k v ns n.msg_id p wired rest) h, control-Shows k v ns p wired hs)
    where
      same_head :
          after Name (control_at k v ns).1 p n.msg_id ≡ p n.msg_id
          → Shows p n
          → Shows (after Name (control_at k v ns).1 p) n
      same_head e (inl nan) = inl nan
      same_head e (inr shown) = inr (e ∙ shown)

  -- A report of a scalar setting
  abbrev report_number : ℕ → Float → List Number.Number → List Number.Number × List (Event Name)
  report_number id v ns = publish_number published id v ns

  publish-Lacks :
      (id : ℕ) (v : Float) (i : ℕ) (ns : List Number.Number)
      → Lacks i ns
      → Lacks i (report_number id v ns).0
  unfolding publish_number
  publish-Lacks id v i [] h = tt
  publish-Lacks id v i (n ∷ ns) (h, hs) = elim (Bool-cases (n.msg_id == id)) [
    | inl own ↦ rw own (h, publish-Lacks id v i ns hs)
    | inr other ↦ rw other (h, publish-Lacks id v i ns hs)
  ]

  pub publish-AreWired :
      (id : ℕ) (v : Float) (ns : List Number.Number)
      → AreWired ns
      → AreWired (report_number id v ns).0
  unfolding publish_number
  publish-AreWired id v [] h = tt
  publish-AreWired id v (n ∷ ns) (parent, known, lacks, h) =
      let others = publish-Lacks id v n.msg_id ns lacks in
      let rest = publish-AreWired id v ns h in
      elim (Bool-cases (n.msg_id == id)) [
        | inl own ↦ rw own (parent, known, others, rest)
        | inr other ↦ rw other (parent, known, others, rest)
      ]

  pub publish-Shows :
      (id : ℕ) (v : Float) (ns : List Number.Number) (p : Panel)
      → All (Shows p) ns
      → All (Shows (put id (some v) p)) (report_number id v ns).0
  unfolding publish_number
  publish-Shows id v [] p h = tt
  publish-Shows id v (n ∷ ns) p (h, hs) =
      let rest = publish-Shows id v ns p hs in
      elim (Bool-cases (n.msg_id == id)) [
        | inl own ↦
            let here : put id (some v) p n.msg_id ≡ v = rw own refl in
            rw own (inr (here ∙ sym (law n.state v)), rest)
        | inr other ↦
            let away : put id (some v) p n.msg_id ≡ p n.msg_id = rw other refl in
            rw other (kept away h, rest)
      ]
    where
      kept : put id (some v) p n.msg_id ≡ p n.msg_id → Shows p n → Shows (put id (some v) p) n
      kept e (inl nan) = inl nan
      kept e (inr shown) = inr (e ∙ shown)

  -- It sends nothing.
  pub publish-nothing :
      (id : ℕ) (v : Float) (ns : List Number.Number) → messages_all (report_number id v ns).1 ≡ []
  unfolding publish_number
  publish-nothing id v [] = refl
  publish-nothing id v (n ∷ ns) = elim (Bool-cases (n.msg_id == id)) [
    | inl own ↦ rw own (publish-nothing id v ns)
    | inr other ↦ rw other (publish-nothing id v ns)
  ]
