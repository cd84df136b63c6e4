-- ===== src/UniluxUart/Select/Laws.antt =====
-- esphome/components/unilux_uart/unilux_uart.cpp: what a select entity sends is what was chosen or
-- received.
use unilux_uart.Common.{
  ℕ, zero, suc, ◌+◌, ◌<◌, ◌≡◌, refl, sym, ap, subst, ◌∙◌, arith, true, false, Option, some, List,
  [], ◌∷◌, ◌==◌, lt→ltb, length, get_or, Bool-cases, inl, inr,
}
use unilux_uart.UniluxUart.Select.{
  Select, SelectApi, IsLawful, Event, setting, publish_at, publish, save, sync_to_device, setup,
  control, publish_from, publish_byte,
}

module _ {Name : Type 0} where
  -- The bytes sent
  abbrev pub settings : List (Event Name) → List (ℕ × ℕ)
  settings [] = []
  settings (setting id byte ∷ es) = (id, byte) ∷ settings es
  settings (_ ∷ es) = settings es

  -- The last index that was saved, or else what the preference held before
  abbrev pub saved : Option ℕ → List (Event Name) → Option ℕ
  saved stored [] = stored
  saved stored (save i ∷ es) = saved (some i) es
  saved stored (_ ∷ es) = saved stored es

module _ {Name : Type 0} (api : SelectApi Name) (law : IsLawful api) (s : Select) (i : ℕ)
    (parent : s.has_parent ≡ true) (restore : s.restore ≡ true)
    (inside : i < length s.option_bytes) where
  abbrev byte : ℕ
  byte = get_or s.option_bytes i 0

  sync_lem : sync_to_device api (record s { active_index = some i }) ≡ setting s.msg_id byte ∷ []
  unfolding sync_to_device
  sync_lem = rw (lt→ltb i (length s.option_bytes) inside, parent) refl

  control_lem :
      (name : Name)
      → api.index_of name ≡ some i
      → control api name s
        ≡ (record s { active_index = some i }, setting s.msg_id byte ∷ publish name ∷ save i ∷ [])
  unfolding control
  control_lem name found = rw found (
      rw (lt→ltb i (length s.option_bytes) inside, parent, restore)
        (rw (law.publish_name_lem s.active_index name i found) refl))

  setup_lem :
      (before : Option ℕ)
      → api.has_index i ≡ true
      → setup api (some i) (record s { active_index = before })
        ≡ (record s { active_index = some i }, publish_at i ∷ setting s.msg_id byte ∷ [])
  unfolding setup
  setup_lem before known =
      rw (restore, known) (rw (law.publish_index_lem before i known) (rw sync_lem refl))

-- With a lawful API, a connected entity that is restored sends the byte of a chosen option that has
-- one, and after a restart, whatever index was active before it, `setup` makes the option active and
-- sends the byte again.
pub setup-control_select :
    {Name : Type 0} (api : SelectApi Name)
    → IsLawful api
    → (s : Select) (name : Name) (i : ℕ) (stored before : Option ℕ) → s.has_parent ≡ true
    → s.restore ≡ true
    → api.index_of name ≡ some i
    → i < length s.option_bytes
    → let byte = get_or s.option_bytes i 0 in
      let controlled = control api name s in
      let restarted = setup api (saved stored controlled.1) (record s { active_index = before }) in
      (settings controlled.1 ≡ (s.msg_id, byte) ∷ [])
      × (controlled.0.active_index ≡ some i)
      × (restarted.0.active_index ≡ some i)
      × (settings restarted.1 ≡ (s.msg_id, byte) ∷ [])
setup-control_select api law s name i stored before parent restore found inside =
    let known = law.has_index-index_of name i found in
    rw (control_lem api law s i parent restore inside name found)
      (rw (setup_lem api law s i parent restore inside before known) (refl, refl, refl, refl))

module _ {Name : Type 0} (api : SelectApi Name) (law : IsLawful api) (value : ℕ) (s : Select) where
  -- The byte of index `i`, found by the loop, and the index
  here_lem :
      (b : ℕ) (bs : List ℕ) (i : ℕ) (name : Name)
      → (b == value) ≡ true
      → api.at i ≡ some name
      → (publish_from api (b ∷ bs) i value s).0 ≡ record s { active_index = some i }
  unfolding publish_from
  here_lem b bs i name same found =
      rw (same, found)
        (rw (law.publish_name_lem s.active_index name i (law.index_of-at i name found)) refl)

  later_lem :
      (b : ℕ) (bs : List ℕ) (i : ℕ)
      → (b == value) ≡ false
      → publish_from api (b ∷ bs) i value s ≡ publish_from api bs (i + 1) value s
  unfolding publish_from
  later_lem b bs i other = rw other refl

  abbrev HasOptions : List ℕ → ℕ → Type 0
  HasOptions bs i = (k : ℕ) → k < length bs → (name : Name) × (api.at (i + k) ≡ some name)

  HasOptions-tail : (b : ℕ) (bs : List ℕ) (i : ℕ) → HasOptions (b ∷ bs) i → HasOptions bs (i + 1)
  HasOptions-tail b bs i options k fits =
      let (name, found) = options (suc k) (omega arith) in
      let step : i + suc k ≡ i + 1 + k = omega arith in
      (name, subst (λ t. api.at t ≡ some name) step found)

  -- An index whose byte is the value, active after the loop
  abbrev Finds : List ℕ → ℕ → Type 0
  Finds bs i =
      (k : ℕ) × (k < length bs)
      × (get_or bs k 0 ≡ value)
      × ((publish_from api bs i value s).0 ≡ record s { active_index = some (i + k) })

  first :
      (b : ℕ) (bs : List ℕ) (i : ℕ) → HasOptions (b ∷ bs) i → (b == value) ≡ true → Finds (b ∷ bs) i
  first b bs i options same =
      let (name, found) = options 0 (omega arith) in
      let stays : i + 0 ≡ i = omega arith in
      (
        0,
        omega arith,
        ground arith,
        here_lem b bs i name same (subst (λ t. api.at t ≡ some name) stays found)
            ∙ ap (λ (t : ℕ). record s { active_index = some t }) (sym stays),
      )

  publish_from_lem :
      (bs : List ℕ) (i : ℕ)
      → HasOptions bs i
      → (j : ℕ) → j < length bs
      → get_or bs j 0 ≡ value
      → Finds bs i
  publish_from_lem [] i options j inside hit = absurd (omega arith)
  publish_from_lem (b ∷ bs) i options zero inside hit = first b bs i options (ground arith)
  publish_from_lem (b ∷ bs) i options (suc j) inside hit = elim (Bool-cases (b == value)) [
    | inl same ↦ first b bs i options same
    | inr other ↦
        let (k, fits, same, active) =
          publish_from_lem bs (i + 1) (HasOptions-tail b bs i options) j (omega arith) hit in
        (
          suc k,
          omega arith,
          same,
          ap (λ (r : Select × List (Event Name)). r.0) (later_lem b bs i other)
              ∙ active
              ∙ ap (λ (t : ℕ). record s { active_index = some t }) (omega arith),
        )
  ]

  HasOptions-start :
      ((k : ℕ) → k < length s.option_bytes → (name : Name) × (api.at k ≡ some name))
      → HasOptions s.option_bytes 0
  HasOptions-start options k fits =
      let (name, found) = options k fits in
      let start : k ≡ 0 + k = omega arith in (name, subst (λ t. api.at t ≡ some name) start found)

  sent_back :
      (k : ℕ)
      → s.has_parent ≡ true
      → k < length s.option_bytes
      → get_or s.option_bytes k 0 ≡ value
      → settings (sync_to_device api (record s { active_index = some k })) ≡ (s.msg_id, value) ∷ []
  unfolding sync_to_device
  sent_back k parent fits same = rw (lt→ltb k (length s.option_bytes) fits, parent, same) refl

-- With a lawful API in which each mapped byte has an option, a connected entity that receives a byte
-- which stands among the mapped ones sends the same byte back when it is rebroadcast.
pub sync_to_device-publish_byte :
    {Name : Type 0} (api : SelectApi Name)
    → IsLawful api
    → (s : Select) (value j : ℕ) → s.has_parent ≡ true
    → ((k : ℕ) → k < length s.option_bytes → (name : Name) × (api.at k ≡ some name))
    → j < length s.option_bytes
    → get_or s.option_bytes j 0 ≡ value
    → settings (sync_to_device api (publish_byte api value s).0) ≡ (s.msg_id, value) ∷ []
unfolding publish_byte
sync_to_device-publish_byte api law s value j parent options inside hit =
    let (k, fits, same, active) =
      publish_from_lem api law value s s.option_bytes 0 (HasOptions-start api law value s options) j
        inside hit in
    let start : k ≡ 0 + k = omega arith in
    rw (active, ← start) (sent_back api law value s k parent fits same)
