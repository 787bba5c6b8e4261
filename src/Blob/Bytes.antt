-- ===== src/Blob/Bytes.antt =====
-- Bytes in network order and the alignment of attributes (rust/src/ubus/blob.rs).
use zte_u60_pro_mu5250_data.Common.{
  ℕ, ◌+◌, ◌*◌, ◌/◌, ◌%◌, ◌≤◌, ◌<◌, List, [], ◌∷◌, ◌≡◌, arith, u32_mod,
}

abbrev pub IsBytes : List ℕ → Type 0
IsBytes [] = Unit {0}
IsBytes (b ∷ bs) = (b < 256) × IsBytes bs

-- `u32::to_be_bytes` and `u32::from_be_bytes`
abbrev pub be32 : ℕ → List ℕ
be32 v = (v / 16777216 % 256) ∷ (v / 65536 % 256) ∷ (v / 256 % 256) ∷ (v % 256) ∷ []

abbrev pub from_be32 : ℕ → ℕ → ℕ → ℕ → ℕ
from_be32 a b c d = a * 16777216 + b * 65536 + c * 256 + d

-- `u16::to_be_bytes` and `u16::from_be_bytes`
abbrev pub be16 : ℕ → List ℕ
be16 v = (v / 256 % 256) ∷ (v % 256) ∷ []

abbrev pub from_be16 : ℕ → ℕ → ℕ
from_be16 a b = a * 256 + b

pub from_be32-be32 :
    (v : ℕ)
    → v < u32_mod
    → from_be32 (v / 16777216 % 256) (v / 65536 % 256) (v / 256 % 256) (v % 256) ≡ v
from_be32-be32 v h = omega arith

pub from_be16-be16 : (v : ℕ) → v < 65536 → from_be16 (v / 256 % 256) (v % 256) ≡ v
from_be16-be16 v h = omega arith

-- `(n + 3) & !3`
unfoldable pub align : ℕ → ℕ
align n = (n + 3) / 4 * 4

-- The least multiple of four that is not below `n`.
pub align_bounds : (n : ℕ) → (n ≤ align n) × (align n < n + 4) × (align n % 4 ≡ 0)
unfolding align
align_bounds n = omega arith

pub align_self : (n : ℕ) → n % 4 ≡ 0 → align n ≡ n
unfolding align
align_self n h = omega arith
