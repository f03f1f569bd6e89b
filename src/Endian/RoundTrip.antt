-- ===== src/Endian/RoundTrip.antt =====
-- The words that are loaded are the words that were stored.
use sparkey.Base.{ℕ, ◌/◌, ◌^◌, length, All, IsByte, IsU32, IsU64, ◌≡◌, refl, arith}
use sparkey.Base.Bits.{bit_and_mask}
use sparkey.Endian.{little_endian32, little_endian64, from_little_endian}

pub length-little_endian32 : (v : ℕ) → length (little_endian32 v) ≡ 4
unfolding little_endian32
length-little_endian32 v = refl

pub length-little_endian64 : (v : ℕ) → length (little_endian64 v) ≡ 8
unfolding little_endian64
length-little_endian64 v = refl

pub from-little_endian32 : (v : ℕ) → IsU32 v → from_little_endian (little_endian32 v) ≡ v
unfolding from_little_endian little_endian32
from-little_endian32 v h = omega (
  arith,
  bit_and_mask 8 (v / 2 ^ 0),
  bit_and_mask 8 (v / 2 ^ 8),
  bit_and_mask 8 (v / 2 ^ 16),
  bit_and_mask 8 (v / 2 ^ 24),
)

pub from-little_endian64 : (v : ℕ) → IsU64 v → from_little_endian (little_endian64 v) ≡ v
unfolding from_little_endian little_endian64
from-little_endian64 v h = omega (
  arith,
  bit_and_mask 8 (v / 2 ^ 0),
  bit_and_mask 8 (v / 2 ^ 8),
  bit_and_mask 8 (v / 2 ^ 16),
  bit_and_mask 8 (v / 2 ^ 24),
  bit_and_mask 8 (v / 2 ^ 32),
  bit_and_mask 8 (v / 2 ^ 40),
  bit_and_mask 8 (v / 2 ^ 48),
  bit_and_mask 8 (v / 2 ^ 56),
)

-- Both write bytes.
pub little_endian64-IsByte : (v : ℕ) → All IsByte (little_endian64 v)
unfolding little_endian64
little_endian64-IsByte v = omega (
  arith,
  bit_and_mask 8 (v / 2 ^ 0),
  bit_and_mask 8 (v / 2 ^ 8),
  bit_and_mask 8 (v / 2 ^ 16),
  bit_and_mask 8 (v / 2 ^ 24),
  bit_and_mask 8 (v / 2 ^ 32),
  bit_and_mask 8 (v / 2 ^ 40),
  bit_and_mask 8 (v / 2 ^ 48),
  bit_and_mask 8 (v / 2 ^ 56),
)
