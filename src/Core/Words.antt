-- ===== src/Core/Words.antt =====
-- The standard library's fixed-width integers: `u32` as bytes in both orders, `u32` and `usize`
-- bounds, and the additions that check, saturate or wrap.
use dratchet.Base.{
  ℕ, ◌+◌, ◌-◌, ◌*◌, ◌/◌, ◌%◌, ◌^◌, ◌<◌, ◌≡◌, refl, Bool, Option, none, some, [], ◌∷◌, Bytes, ltb,
  if◌then◌else◌, arith, min, length, all, true,
}

abbrev pub u32_mod : ℕ
u32_mod = 2 ^ 32

abbrev pub usize_mod : ℕ
usize_mod = 2 ^ 64

abbrev pub is_byte : ℕ → Bool
is_byte b = ltb b 256

-- `u32::to_be_bytes` and `u32::from_be_bytes`
unfoldable pub to_be_bytes : ℕ → Bytes
to_be_bytes n = (n / 2 ^ 24 % 256) ∷ (n / 2 ^ 16 % 256) ∷ (n / 2 ^ 8 % 256) ∷ (n % 256) ∷ []

unfoldable pub from_be_bytes : Bytes → ℕ
from_be_bytes (a ∷ b ∷ c ∷ d ∷ []) = a * 2 ^ 24 + b * 2 ^ 16 + c * 2 ^ 8 + d
from_be_bytes _ = 0

-- `u32::to_le_bytes` and `u32::from_le_bytes`
unfoldable pub to_le_bytes : ℕ → Bytes
to_le_bytes n = (n % 256) ∷ (n / 2 ^ 8 % 256) ∷ (n / 2 ^ 16 % 256) ∷ (n / 2 ^ 24 % 256) ∷ []

unfoldable pub from_le_bytes : Bytes → ℕ
from_le_bytes (a ∷ b ∷ c ∷ d ∷ []) = d * 2 ^ 24 + c * 2 ^ 16 + b * 2 ^ 8 + a
from_le_bytes _ = 0

-- `usize::checked_add`
abbrev pub checked_add : ℕ → ℕ → Option ℕ
checked_add a b = if ltb (a + b) usize_mod then some (a + b) else none

-- `u32::saturating_add`
abbrev pub saturating_add : ℕ → ℕ → ℕ
saturating_add a b = min (a + b) (2 ^ 32 - 1)

pub length-to_be_bytes : (n : ℕ) → length (to_be_bytes n) ≡ 4
unfolding to_be_bytes
length-to_be_bytes n = refl

pub length-to_le_bytes : (n : ℕ) → length (to_le_bytes n) ≡ 4
unfolding to_le_bytes
length-to_le_bytes n = refl

digits_of :
    (a b c d : ℕ)
    → a < 256
    → b < 256
    → c < 256
    → d < 256
    → let n = a * 2 ^ 24 + b * 2 ^ 16 + c * 2 ^ 8 + d in
      (n / 2 ^ 24 % 256 ≡ a) × (n / 2 ^ 16 % 256 ≡ b) × (n / 2 ^ 8 % 256 ≡ c) × (n % 256 ≡ d)
digits_of a b c d ha hb hc hd = (omega arith, omega arith, omega arith, omega arith)

be_four :
    (a b c d : ℕ)
    → a < 256
    → b < 256
    → c < 256
    → d < 256
    → (to_be_bytes (a * 2 ^ 24 + b * 2 ^ 16 + c * 2 ^ 8 + d) ≡ a ∷ b ∷ c ∷ d ∷ [])
      × (a * 2 ^ 24 + b * 2 ^ 16 + c * 2 ^ 8 + d < u32_mod)
unfolding to_be_bytes
be_four a b c d ha hb hc hd =
    let h = digits_of a b c d ha hb hc hd in (rw (h.0, h.1, h.2, h.3), omega arith)

pub from_be_bytes-to_be_bytes : (n : ℕ) → n < u32_mod → from_be_bytes (to_be_bytes n) ≡ n
unfolding to_be_bytes from_be_bytes
from_be_bytes-to_be_bytes n h = omega arith

pub from_le_bytes-to_le_bytes : (n : ℕ) → n < u32_mod → from_le_bytes (to_le_bytes n) ≡ n
unfolding to_le_bytes from_le_bytes
from_le_bytes-to_le_bytes n h = omega arith

-- Four bytes are the big-endian form of the number that they stand for.
pub to_be_bytes-from_be_bytes :
    (bs : Bytes)
    → length bs ≡ 4
    → all is_byte bs ≡ true
    → (to_be_bytes (from_be_bytes bs) ≡ bs) × (from_be_bytes bs < u32_mod)
unfolding all from_be_bytes
to_be_bytes-from_be_bytes [] l h = absurd (omega arith)
to_be_bytes-from_be_bytes (a ∷ []) l h = absurd (omega arith)
to_be_bytes-from_be_bytes (a ∷ b ∷ []) l h = absurd (omega arith)
to_be_bytes-from_be_bytes (a ∷ b ∷ c ∷ []) l h = absurd (omega arith)
to_be_bytes-from_be_bytes (a ∷ b ∷ c ∷ d ∷ []) l h =
    be_four a b c d (ground arith) (ground arith) (ground arith) (ground arith)
to_be_bytes-from_be_bytes (a ∷ b ∷ c ∷ d ∷ x ∷ r) l h = absurd (omega arith)
