-- ===== src/HashTable/Reads.antt =====
-- Reading a slot gives its hash and its address, or is out of bounds; nothing else happens.
use sparkey.Base.{
  ℕ, ◌+◌, ◌-◌, ◌^◌, List, length, take, drop, Bool-cases, leb, ◌==◌, ◌≡◌, ap, ◌⊎◌, inl, inr,
}
use sparkey.Exec.{Outcome, done, fault, out_of_bounds}
use sparkey.Endian.{peek, map_done, from_little_endian, read_little_endian32, read_little_endian64}
use sparkey.HashAlgorithm.{HashAlgorithm, murmurhash32, murmurhash64, read_hash}
use sparkey.HashHeader.{HashHeader}
use sparkey.HashTable.{read_addr, read_slot}

abbrev pub Reads : {A : Type 0} → Outcome A → Type 0
Reads {A} r = ((a : A) × (r ≡ done a)) ⊎ (r ≡ fault out_of_bounds)

peek-Reads : (memory : List ℕ) (pos n : ℕ) → Reads (peek memory pos n)
unfolding peek
peek-Reads memory pos n = elim (Bool-cases (leb (pos + n) (length memory))) [
  | inl e ↦ inl (take n (drop pos memory), rw e)
  | inr e ↦ inr (rw e)
]

Reads-map : {A B : Type 0} (f : A → B) (r : Outcome A) → Reads r → Reads (map_done f r)
Reads-map f r (inl (a, e)) = inl (f a, ap (map_done f) e)
Reads-map f r (inr e) = inr (ap (map_done f) e)

read32-Reads : (memory : List ℕ) (pos : ℕ) → Reads (read_little_endian32 memory pos)
unfolding read_little_endian32
read32-Reads memory pos = Reads-map from_little_endian _ (peek-Reads memory pos 4)

read64-Reads : (memory : List ℕ) (pos : ℕ) → Reads (read_little_endian64 memory pos)
unfolding read_little_endian64
read64-Reads memory pos = Reads-map from_little_endian _ (peek-Reads memory pos 8)

read_hash-Reads : (a : HashAlgorithm) (memory : List ℕ) (pos : ℕ) → Reads (read_hash a memory pos)
unfolding read_hash
read_hash-Reads murmurhash32 memory pos = read32-Reads memory pos
read_hash-Reads murmurhash64 memory pos = read64-Reads memory pos

read_addr-Reads : (memory : List ℕ) (pos size : ℕ) → Reads (read_addr memory pos size)
unfolding read_addr
read_addr-Reads memory pos size = elim (Bool-cases (size == 4)) [
  | inl e ↦ rw e (read32-Reads memory pos)
  | inr e ↦ elim (Bool-cases (size == 8)) [
    | inl e' ↦ rw (e, e') (read64-Reads memory pos)
    | inr e' ↦ inl (2 ^ 64 - 1, rw (e, e'))
  ]
]

pub read_slot-Reads :
    (header : HashHeader) (hashtable : List ℕ) (pos : ℕ) → Reads (read_slot header hashtable pos)
unfolding read_slot
read_slot-Reads header hashtable pos = elim (read_hash-Reads header.hash_algorithm hashtable pos) [
  | inr e ↦ inr (rw e)
  | inl (h, e) ↦ elim (read_addr-Reads hashtable (pos + header.hash_size) header.address_size) [
    | inr e' ↦ inr (rw (e, e'))
    | inl (position, e') ↦ inl ((h, position), rw (e, e'))
  ]
]
