-- ===== src/UniluxUart/Select.antt =====
-- esphome/components/unilux_uart/unilux_uart.cpp: class UniluxSelect, a setting shown as a choice of
-- options.
pub mod Laws
mod Tests
use unilux_uart.Common.{
  ℕ, zero, suc, ◌+◌, ◌-◌, ◌<◌, ◌≡◌, refl, sym, ap, ◌∙◌, arith, Bool, true, false, not, ◌&&◌, Option,
  none, some, List, [], ◌∷◌, ◌++◌, if◌then◌else◌, ltb, ◌==◌, lt→ltb, length, get_or, Bool-cases,
  inl, inr,
}

-- The fields of class UniluxSelect, and the inherited active index
pub record Select : Type 0 where
  pub has_parent : Bool
  pub msg_id : ℕ
  pub option_bytes : List ℕ
  pub restore : Bool
  pub initial_index : ℕ
  pub active_index : Option ℕ

-- What the component calls of ESPHome's select::Select, with `Name` for the options' texts:
-- `has_index`, `index_of`, `at`, and the active index after either `publish_state`
pub record SelectApi (Name : Type 0) : Type 0 where
  pub has_index : ℕ → Bool
  pub index_of : Name → Option ℕ
  pub at : ℕ → Option Name
  pub publish_index : Option ℕ → ℕ → Option ℕ
  pub publish_name : Option ℕ → Name → Option ℕ

-- A call of `send_byte_setting` of the parent, of an inherited `publish_state`, or of `save`
pub data Event (Name : Type 0) : Type 0 where
  setting : ℕ → ℕ → Event Name
  publish_at : ℕ → Event Name
  publish : Name → Event Name
  save : ℕ → Event Name

-- What the documentation says of the API: a published option becomes the active one, and an option
-- stands at its index.
pub record IsLawful {Name : Type 0} (api : SelectApi Name) : Type 0 where
  pub publish_index_lem :
      (active : Option ℕ) (i : ℕ) → api.has_index i ≡ true → api.publish_index active i ≡ some i
  pub publish_name_lem :
      (active : Option ℕ) (name : Name) (i : ℕ)
      → api.index_of name ≡ some i
      → api.publish_name active name ≡ some i
  pub index_of-at : (i : ℕ) (name : Name) → api.at i ≡ some name → api.index_of name ≡ some i
  pub has_index-index_of :
      (name : Name) (i : ℕ) → api.index_of name ≡ some i → api.has_index i ≡ true

module _ {Name : Type 0} (api : SelectApi Name) where
  -- `send_byte_setting(msg_id_, option_bytes_[*index])`
  abbrev pub byte_setting : Select → ℕ → List (Event Name)
  byte_setting s i = if s.has_parent then setting s.msg_id (get_or s.option_bytes i 0) ∷ [] else []

  -- void sync_to_device()
  unfoldable pub sync_to_device : Select → List (Event Name)
  sync_to_device s = elim s.active_index [
    | none ↦ []
    | some i ↦ if ltb i (length s.option_bytes) then byte_setting s i else []
  ]

  abbrev pub publish_name : Name → Select → Select
  publish_name name s = record s { active_index = api.publish_name s.active_index name }

  -- The index that `setup` publishes, where the preference holds `stored`
  abbrev pub loaded : Option ℕ → ℕ → ℕ
  loaded none initial_index = initial_index
  loaded (some i) initial_index = if api.has_index i then i else initial_index

  -- void setup()
  unfoldable pub setup : Option ℕ → Select → Select × List (Event Name)
  unfolding sync_to_device
  setup stored s =
      let index = loaded stored s.initial_index in
      let s1 = record s { active_index = api.publish_index s.active_index index } in
      if s.restore then (s1, publish_at index ∷ sync_to_device s1) else (s, [])

  -- The body of `control` once `index_of` has answered
  abbrev pub choose : Option ℕ → Name → Select → Select × List (Event Name)
  choose none value s = (s, [])
  choose (some i) value s =
      if ltb i (length s.option_bytes)
      then (
        publish_name value s,
        byte_setting s i ++ publish value ∷ (if s.restore then save i ∷ [] else []),
      )
      else (s, [])

  -- void control(const std::string &value)
  unfoldable pub control : Name → Select → Select × List (Event Name)
  control value s = choose (api.index_of value) value s

  abbrev pub publish_option : Option Name → Select → Select × List (Event Name)
  publish_option none s = (s, [])
  publish_option (some option) s = (publish_name option s, publish option ∷ [])

  -- The loop of `publish_byte` from index `i`, over the bytes that are left
  unfoldable pub publish_from : List ℕ → ℕ → ℕ → Select → Select × List (Event Name)
  publish_from [] i value s = (s, [])
  publish_from (byte ∷ bytes) i value s =
      let rest = publish_from bytes (i + 1) value s in
      if byte == value then publish_option (api.at i) s else rest

  -- void publish_byte(uint8_t value)
  unfoldable pub publish_byte : ℕ → Select → Select × List (Event Name)
  unfolding publish_from
  publish_byte value s = publish_from s.option_bytes 0 value s
