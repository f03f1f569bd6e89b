-- ===== src/HashTable/Fresh.antt =====
-- A hash table of zeros, as `memset` leaves it.
use sparkey.Base.{
  ℕ, zero, suc, ◌+◌, ◌-◌, ◌*◌, ◌^◌, ◌≤◌, ◌<◌, List, ◌∷◌, take, drop, replicate, length-replicate,
  ◌≡◌, refl, ap, ◌∙◌, ◌⊎◌, inl, inr, arith,
}
use native.Mathlib.Nat.{mul-le-mul_right}
use sparkey.Exec.{done}
use sparkey.Endian.{peek, from_little_endian}
use sparkey.Endian.Memory.{peek_inside}
use sparkey.HashAlgorithm.{HashAlgorithm, murmurhash32, murmurhash64}
use sparkey.HashHeader.{HashHeader}
use sparkey.HashTable.{read_slot, slot_size}
use sparkey.HashTable.Slot.{hash_len, HashFits, AddressFits, read_slot-reads}
use sparkey.HashTable.Order.{Slots, IsOrdered}
use sparkey.HashTable.Represents.{Represents, SlotFits}

abbrev pub zeros : HashHeader → List ℕ
zeros header = replicate (header.hash_capacity * slot_size header) 0

-- Every slot is empty.
abbrev pub empty_slots : Slots
empty_slots s = (0, 0)

take-replicate : (n k : ℕ) → n ≤ k → take {A = ℕ} n (replicate k 0) ≡ replicate n 0
take-replicate zero k h = refl
take-replicate (suc n) zero h = absurd (omega arith)
take-replicate (suc n) (suc k) h = ap (λ l. 0 ∷ l) (take-replicate n k (omega arith))

drop-replicate : (p k : ℕ) → drop {A = ℕ} p (replicate k 0) ≡ replicate (k - p) 0
drop-replicate zero k = ap (λ n. replicate n 0) (omega arith)
drop-replicate (suc p) zero = let none : 0 ≡ 0 - suc p = omega arith in ap (λ n. replicate n 0) none
drop-replicate (suc p) (suc k) = drop-replicate p k ∙ ap (λ n. replicate n 0) (omega arith)

peek-replicate : (k p n : ℕ) → p + n ≤ k → peek (replicate k 0) p n ≡ done (replicate n 0)
peek-replicate k p n h =
    peek_inside (replicate k 0) p n (omega (arith, length-replicate {A = ℕ} k 0))
    ∙ ap done (ap (take n) (drop-replicate p k) ∙ take-replicate n (k - p) (omega arith))

from-replicate : (n : ℕ) → from_little_endian (replicate n 0) ≡ 0
unfolding from_little_endian
from-replicate zero = refl
from-replicate (suc n) = omega (arith, from-replicate n)

HashFits-zero : (a : HashAlgorithm) → HashFits a 0
HashFits-zero murmurhash32 = omega arith
HashFits-zero murmurhash64 = omega arith

AddressFits-zero : (size : ℕ) → (size ≡ 4) ⊎ (size ≡ 8) → AddressFits size 0
AddressFits-zero size (inl e) = inl (e, omega arith)
AddressFits-zero size (inr e) = inr (e, omega arith)

-- The sizes in the header belong together: the hash has the size of its algorithm, an address has 4
-- or 8 bytes, and there is a slot.
pub record IsShaped (header : HashHeader) : Type 0 where
  pub sized : header.hash_size ≡ hash_len header.hash_algorithm
  pub addressed : (header.address_size ≡ 4) ⊎ (header.address_size ≡ 8)
  pub some : 0 < header.hash_capacity
  pub small : header.hash_capacity * slot_size header < 2 ^ 63

module _ (header : HashHeader) (shape : IsShaped header) where
  zero_fits : SlotFits header (0, 0)
  zero_fits =
      (HashFits-zero header.hash_algorithm, AddressFits-zero header.address_size shape.addressed)

  slot_in :
      (s : ℕ)
      → s < header.hash_capacity
      → s * slot_size header + slot_size header ≤ header.hash_capacity * slot_size header
  slot_in s less =
      let last : suc s * slot_size header ≤ header.hash_capacity * slot_size header =
        mul-le-mul_right (slot_size header) (omega arith) in
      omega (arith, last)

  read_zero :
      (s : ℕ)
      → s < header.hash_capacity
      → read_slot header (zeros header) (s * slot_size header) ≡ done (0, 0)
  read_zero s less =
      let k = header.hash_capacity * slot_size header in
      let p = s * slot_size header in
      read_slot-reads header (zeros header) p 0 0 shape.sized zero_fits.0 zero_fits.1
        (omega (arith, slot_in s less, length-replicate {A = ℕ} k 0)) (zeros header) p
      ∙ rw (
        peek-replicate k p header.hash_size (omega (arith, slot_in s less)),
        peek-replicate k (p + header.hash_size) header.address_size (omega (arith, slot_in s less)),
        from-replicate header.hash_size,
        from-replicate header.address_size,
      )

  -- A table of zeros is a table whose slots are all empty.
  pub zeros-Represents : Represents header (zeros header) empty_slots
  zeros-Represents = record {
    sized = shape.sized;
    some = shape.some;
    small = shape.small;
    len = length-replicate {A = ℕ} (header.hash_capacity * slot_size header) 0;
    reads = read_zero;
    fits = λ s less. zero_fits;
  }

pub empty_slots-IsOrdered : (c : ℕ) → IsOrdered c empty_slots
empty_slots-IsOrdered c q hq used far = absurd (omega (arith, used))

pub SlotFits-zero : (header : HashHeader) (x : ℕ × ℕ) → SlotFits header x → SlotFits header (0, 0)
SlotFits-zero header x (h, inl (size, fit)) =
    (HashFits-zero header.hash_algorithm, inl (size, omega arith))
SlotFits-zero header x (h, inr (size, fit)) =
    (HashFits-zero header.hash_algorithm, inr (size, omega arith))
