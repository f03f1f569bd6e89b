-- ===== src/Vlq/Size.antt =====
-- How many bytes a number takes.
use sparkey.Base.{
  ℕ, zero, suc, ◌+◌, ◌/◌, ◌^◌, ◌≤◌, ◌<◌, length, All, IsByte, IsU64, ◌≡◌, refl, arith,
}
use native.Mathlib.Nat.{pow-suc, one-le-pow}
use sparkey.Vlq.{unsigned_vlq_size}
use sparkey.Vlq.Format.{groups, vlq}

length-groups : (j k v : ℕ) → j ≤ k → 128 ^ j ≤ v → v < 128 ^ suc j → length (groups k v) ≡ j + 1
unfolding groups
length-groups zero zero v h lo hi = refl
length-groups zero (suc k) v h lo hi = ground arith
length-groups (suc j) zero v h lo hi = absurd (omega arith)
length-groups (suc j) (suc k) v h lo hi = ground (
  arith,
  pow-suc 128 j,
  pow-suc 128 (suc j),
  one-le-pow j 128,
  length-groups j k (v / 128) (omega arith) (omega (arith, pow-suc 128 j)),
  (let h : v / 128 < 128 ^ suc j = omega (arith, pow-suc 128 (suc j)) in h),
)

length-groups_small : (k v : ℕ) → v < 128 → length (groups k v) ≡ 1
unfolding groups
length-groups_small zero v h = refl
length-groups_small (suc k) v h = ground arith

-- The size that the hash writer counts for a 64-bit number is the number of bytes of its encoding.
pub length-vlq : (v : ℕ) → IsU64 v → length (vlq v) ≡ unsigned_vlq_size v
unfolding unsigned_vlq_size
length-vlq v h = ground (
  arith,
  length-groups_small 9 v,
  length-groups 1 9 v,
  length-groups 2 9 v,
  length-groups 3 9 v,
  length-groups 4 9 v,
  length-groups 5 9 v,
  length-groups 6 9 v,
  length-groups 7 9 v,
  length-groups 8 9 v,
  length-groups 9 9 v,
)

pub length-groups_bounds : (k v : ℕ) → (1 ≤ length (groups k v)) × (length (groups k v) ≤ k + 1)
unfolding groups
length-groups_bounds zero v = omega arith
length-groups_bounds (suc k) v = ground (arith, length-groups_bounds k (v / 128))

pub groups-IsByte : (k v : ℕ) → v < 128 ^ suc k → All IsByte (groups k v)
unfolding groups
groups-IsByte zero v h = omega arith
groups-IsByte (suc k) v h = ground (arith, groups-IsByte k (v / 128) (omega arith))
