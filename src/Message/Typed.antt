-- ===== src/Message/Typed.antt =====
-- include/messages/: whatever an `encode` writes is a payload of bytes, of the size of its class.
pub mod Config
pub mod Week
use unilux_uart.Common.{
  ℕ, zero, suc, ◌+◌, ◌-◌, ◌*◌, ◌/◌, ◌%◌, ◌^◌, ◌≤◌, ◌<◌, ◌≡◌, refl, ap, sym, ◌∙◌, arith, List, [],
  ◌∷◌, length, length-set, length-replicate, replicate, set, get_or, All, Option, none, some, ◌>>=◌,
  ltb, if◌then◌else◌,
}
use unilux_uart.Utils.{byte_at, to_be16, to_be32}
use unilux_uart.Float.{Float, mul, to_uint16, to_int16, uint16_of_int16}
use unilux_uart.Float.Tenths.{ten}
use unilux_uart.Wmmm.{Frame}
use unilux_uart.Message.{zeros, encode_pair, encode_scalar, encode_byte}

abbrev pub IsByte : ℕ → Type 0
IsByte b = b < 256

-- A buffer of a given size
abbrev pub IsBuffer : ℕ → List ℕ → Type 0
IsBuffer size p = (length p ≡ size) × All IsByte p

-- A result, where there is one
abbrev pub IfSome {ℓ} : {A : Type ℓ} → (A → Type 0) → Option A → Type 0
IfSome P none = Unit
IfSome P (some a) = P a

pub IfSome-bind :
    {A B : Type 0} (P : A → Type 0) (Q : B → Type 0) (o : Option A) (k : A → Option B)
    → IfSome P o
    → ((a : A) → P a → IfSome Q (k a))
    → IfSome Q (o >>= k)
IfSome-bind P Q none k h step = tt
IfSome-bind P Q (some a) k h step = step a h

pub IfSome-each :
    {A B : Type 0} (Q : B → Type 0) (o : Option A) (k : A → Option B)
    → ((a : A) → IfSome Q (k a))
    → IfSome Q (o >>= k)
IfSome-each Q none k step = tt
IfSome-each Q (some a) k step = step a

All-set : (p : List ℕ) (i v : ℕ) → IsByte v → All IsByte p → All IsByte (set p i v)
All-set [] i v hv h = tt
All-set (b ∷ p) zero v hv h = (hv, h.1)
All-set (b ∷ p) (suc i) v hv h = (h.0, All-set p i v hv h.1)

All-replicate : (n : ℕ) → All IsByte (replicate n 0)
All-replicate zero = tt
All-replicate (suc n) = (omega arith, All-replicate n)

pub zeros-IsBuffer : (size : ℕ) → IsBuffer size (zeros size)
zeros-IsBuffer size = (length-replicate size 0, All-replicate size)

module _ (size : ℕ) where
  pub set-IsBuffer : (p : List ℕ) (i v : ℕ) → IsByte v → IsBuffer size p → IsBuffer size (set p i v)
  set-IsBuffer p i v hv (long, bytes) = (length-set p i v ∙ long, All-set p i v hv bytes)

  pub to_be16-IsBuffer : (p : List ℕ) (i v : ℕ) → IsBuffer size p → IsBuffer size (to_be16 p i v)
  unfolding to_be16
  to_be16-IsBuffer p i v h =
      set-IsBuffer (set p i _) (i + 1) _ (omega arith) (set-IsBuffer p i _ (omega arith) h)

  pub to_be32-IsBuffer : (p : List ℕ) (i v : ℕ) → IsBuffer size p → IsBuffer size (to_be32 p i v)
  unfolding to_be32
  to_be32-IsBuffer p i v h =
      let h1 = set-IsBuffer p i (v / 2 ^ 24 % 256) (omega arith) h in
      let h2 = set-IsBuffer _ (i + 1) (v / 2 ^ 16 % 256) (omega arith) h1 in
      let h3 = set-IsBuffer _ (i + 2) (v / 2 ^ 8 % 256) (omega arith) h2 in
      set-IsBuffer _ (i + 3) (v % 256) (omega arith) h3

pub byte_at-IsByte : (p : List ℕ) (i : ℕ) → All IsByte p → IsByte (byte_at p i)
byte_at-IsByte [] i h = omega arith
byte_at-IsByte (b ∷ p) zero h = h.0
byte_at-IsByte (b ∷ p) (suc i) h = byte_at-IsByte p i h.1

-- A frame of a class: its id and no reserved bytes, a payload of bytes
abbrev pub IsFrame : ℕ → ℕ → Frame → Type 0
IsFrame id size f = (f.msg_id ≡ id) × (f.reserved ≡ (0, 0, 0)) × IsBuffer size f.payload

pub encode_pair-IsFrame : (id : ℕ) (x y : Float) → IfSome (IsFrame id 4) (encode_pair id x y)
unfolding encode_pair
encode_pair-IsFrame id x y = IfSome-each (IsFrame id 4) (to_uint16 (mul x ten)) _ (λ w1.
    IfSome-each (IsFrame id 4) (to_uint16 (mul y ten)) _ (λ w2. (
      refl,
      refl,
      to_be16-IsBuffer 4 _ 2 w2 (to_be16-IsBuffer 4 (zeros 4) 0 w1 (zeros-IsBuffer 4)),
    )))

pub encode_scalar-IsFrame : (id : ℕ) (x : Float) → IfSome (IsFrame id 4) (encode_scalar id x)
unfolding encode_scalar
encode_scalar-IsFrame id x =
    IfSome-each (IsFrame id 4) (to_int16 (mul x ten)) _
      (λ z. (refl, refl, to_be16-IsBuffer 4 (zeros 4) 0 (uint16_of_int16 z) (zeros-IsBuffer 4)))

pub encode_byte-IsFrame : (id v : ℕ) → IsByte v → IsFrame id 4 (encode_byte id v)
unfolding encode_byte
encode_byte-IsFrame id v h = (refl, refl, set-IsBuffer 4 (zeros 4) 0 v h (zeros-IsBuffer 4))
