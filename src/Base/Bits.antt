-- ===== src/Base/Bits.antt =====
-- `&` with a low mask and `|` of disjoint fields as arithmetic, at every width.
use Prim.Native.Nat.{ℕ, zero, suc, ◌+◌, ◌-◌, ◌*◌, ◌/◌, ◌%◌, ◌^◌, ◌≤◌, ◌<◌, min, max}
use Prim.Native.Nat.{
  bit_and, bit_or, bit_xor, digits, bitwise, differ, bit_and-bitwise, bit_or-bitwise,
  bit_xor-bitwise,
}
use mathlib.Core.Path.{◌≡◌, refl, ap}
use native.Mathlib.Nat.{le_refl, pow-suc, one-le-pow}
use native.Mathlib.Omega.{arith}

-- The native operations run on the digits of their first argument, with that argument for fuel.
module _ (z : ℕ → ℕ) (f : ℕ → ℕ → ℕ) where
  fuel_irrelevant : (k l x y : ℕ) → x ≤ k → x ≤ l → digits z f k x y ≡ digits z f l x y
  fuel_irrelevant zero zero x y p q = refl
  fuel_irrelevant zero (suc l) zero y p q = refl
  fuel_irrelevant zero (suc l) (suc x) y p q = absurd (omega arith)
  fuel_irrelevant (suc k) zero zero y p q = refl
  fuel_irrelevant (suc k) zero (suc x) y p q = absurd (omega arith)
  fuel_irrelevant (suc k) (suc l) zero y p q = refl
  fuel_irrelevant (suc k) (suc l) (suc x) y p q =
      rw (fuel_irrelevant k l (suc x / 2) (y / 2) (omega arith) (omega arith))

  bitwise_digit :
      (x y : ℕ)
      → bitwise z f (suc x) y ≡ bitwise z f (suc x / 2) (y / 2) * 2 + f (suc x % 2) (y % 2)
  bitwise_digit x y =
      omega (arith, fuel_irrelevant x (suc x / 2) (suc x / 2) (y / 2) (omega arith) (le_refl _))

and_digit : (x y : ℕ) → bit_and x y ≡ bit_and (x / 2) (y / 2) * 2 + min (x % 2) (y % 2)
and_digit zero y = simp bit_and-bitwise (omega arith)
and_digit (suc x) y = simp bit_and-bitwise (bitwise_digit (λ b. 0) min x y)

or_digit : (x y : ℕ) → bit_or x y ≡ bit_or (x / 2) (y / 2) * 2 + max (x % 2) (y % 2)
or_digit zero y = simp bit_or-bitwise (omega arith)
or_digit (suc x) y = simp bit_or-bitwise (bitwise_digit (λ b. b) max x y)

pub bit_or_zero : (y : ℕ) → bit_or 0 y ≡ y
bit_or_zero y = simp bit_or-bitwise refl

and_zero : (k x : ℕ) → x ≤ k → bit_and x 0 ≡ 0
and_zero k zero h = simp bit_and-bitwise refl
and_zero zero (suc x) h = absurd (omega arith)
and_zero (suc k) (suc x) h =
    omega (arith, and_digit (suc x) 0, and_zero k (suc x / 2) (omega arith))

-- The mask of `k` ones keeps the remainder by `2 ^ k`.
pub bit_and_mask : (k x : ℕ) → bit_and x (2 ^ k - 1) ≡ x % 2 ^ k
bit_and_mask zero x = omega (arith, and_zero x x (omega arith))
bit_and_mask (suc k) x = omega (
  arith,
  and_digit x (2 ^ suc k - 1),
  pow-suc 2 k,
  one-le-pow k 2,
  half_mask,
  bit_and_mask k (x / 2),
  halves,
)
  where
    half_mask : bit_and (x / 2) ((2 ^ suc k - 1) / 2) ≡ bit_and (x / 2) (2 ^ k - 1)
    half_mask = ap (bit_and (x / 2)) (omega (arith, pow-suc 2 k, one-le-pow k 2))

    halves : x % 2 ^ suc k ≡ x / 2 % 2 ^ k * 2 + x % 2
    halves = rw pow-suc (grind arith)

-- `low | high << k` is a sum where `low` fits `k` bits.
pub bit_or_shift : (k low high : ℕ) → low < 2 ^ k → bit_or low (high * 2 ^ k) ≡ low + high * 2 ^ k
bit_or_shift zero zero high h = rw bit_or_zero (omega arith)
bit_or_shift zero (suc low) high h = absurd (omega arith)
bit_or_shift (suc k) low high h = omega (
  arith,
  or_digit low (high * 2 ^ suc k),
  doubled,
  half,
  bit_or_shift k (low / 2) high (omega (arith, pow-suc 2 k)),
)
  where
    doubled : high * 2 ^ suc k ≡ 2 * (high * 2 ^ k)
    doubled = omega (arith, ap (λ (t : ℕ). high * t) (pow-suc 2 k))

    half : bit_or (low / 2) (high * 2 ^ suc k / 2) ≡ bit_or (low / 2) (high * 2 ^ k)
    half = ap (bit_or (low / 2)) (omega (arith, doubled))

xor_digit : (x y : ℕ) → bit_xor x y ≡ bit_xor (x / 2) (y / 2) * 2 + differ (x % 2) (y % 2)
xor_digit zero y = simp bit_xor-bitwise (omega arith)
xor_digit (suc x) y = simp bit_xor-bitwise (bitwise_digit (λ b. b) differ x y)

differ_bit : (a b : ℕ) → a < 2 → b < 2 → differ a b < 2
differ_bit zero b ha hb = hb
differ_bit (suc a) zero ha hb = ha
differ_bit (suc zero) (suc zero) ha hb = omega arith
differ_bit (suc (suc a)) (suc b) ha hb = absurd (omega arith)
differ_bit (suc zero) (suc (suc b)) ha hb = absurd (omega arith)

-- `^` of numbers of `k` bits has `k` bits.
pub bit_xor-lt : (k x y : ℕ) → x < 2 ^ k → y < 2 ^ k → bit_xor x y < 2 ^ k
bit_xor-lt zero x y hx hy =
    let none_x : x ≡ 0 = omega arith in
    let none_y : y ≡ 0 = omega arith in rw (none_x, none_y) (omega arith)
bit_xor-lt (suc k) x y hx hy =
    let half =
      bit_xor-lt k (x / 2) (y / 2) (omega (arith, pow-suc 2 k)) (omega (arith, pow-suc 2 k)) in
    omega (
      arith,
      xor_digit x y,
      half,
      pow-suc 2 k,
      differ_bit (x % 2) (y % 2) (omega arith) (omega arith),
    )

-- `1 | n` is the odd one of `n` and `n + 1`.
pub bit_or_one : (n : ℕ) → bit_or 1 n ≡ n / 2 * 2 + 1
bit_or_one n =
    let low : max (1 % 2) (n % 2) ≡ 1 = ground arith in
    omega (arith, or_digit 1 n, bit_or_zero (n / 2), low)
