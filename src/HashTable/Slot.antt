-- ===== src/HashTable/Slot.antt =====
-- Slots of a hash table: a slot that is written is read back, and the other slots stay as they are.
use sparkey.Base.{
  ℕ, ◌+◌, ◌≤◌, ◌==◌, List, length, IsU32, IsU64, if◌then◌else◌, ◌≡◌, refl, sym, ap, ◌∙◌, ◌⊎◌, inl,
  inr, arith,
}
use sparkey.Exec.{Outcome, done, and_then}
use sparkey.Endian.{
  peek, poke, map_done, from_little_endian, little_endian32, little_endian64, read_little_endian32,
  read_little_endian64,
}
use sparkey.Endian.Memory.{poked, poke_fits, length-poked, peek-poked, peek-poked_apart}
use sparkey.Endian.RoundTrip.{
  length-little_endian32, length-little_endian64, from-little_endian32, from-little_endian64,
}
use sparkey.HashAlgorithm.{HashAlgorithm, murmurhash32, murmurhash64, read_hash, hash_bytes}
use sparkey.HashHeader.{HashHeader}
use sparkey.HashTable.{read_addr, write_addr, read_slot, write_slot, slot_size}

abbrev pub hash_len : HashAlgorithm → ℕ
hash_len murmurhash32 = 4
hash_len murmurhash64 = 8

abbrev pub HashFits : HashAlgorithm → ℕ → Type 0
HashFits murmurhash32 h = IsU32 h
HashFits murmurhash64 h = IsU64 h

-- The address fits the size of addresses in the table.
abbrev pub AddressFits : ℕ → ℕ → Type 0
AddressFits size v = ((size ≡ 4) × IsU32 v) ⊎ ((size ≡ 8) × IsU64 v)

addr_bytes : (size v : ℕ) → List ℕ
addr_bytes size v = if size == 4 then little_endian32 v else little_endian64 v

length-hash_bytes : (a : HashAlgorithm) (h : ℕ) → length (hash_bytes a h) ≡ hash_len a
unfolding hash_bytes
length-hash_bytes murmurhash32 h = length-little_endian32 h
length-hash_bytes murmurhash64 h = length-little_endian64 h

from-hash_bytes :
    (a : HashAlgorithm) (h : ℕ) → HashFits a h → from_little_endian (hash_bytes a h) ≡ h
unfolding hash_bytes
from-hash_bytes murmurhash32 h f = from-little_endian32 h f
from-hash_bytes murmurhash64 h f = from-little_endian64 h f

read_hash-peek :
    (a : HashAlgorithm) (t : List ℕ) (p : ℕ)
    → read_hash a t p ≡ map_done from_little_endian (peek t p (hash_len a))
unfolding read_hash read_little_endian32 read_little_endian64
read_hash-peek murmurhash32 t p = refl
read_hash-peek murmurhash64 t p = refl

module _ (size v : ℕ) where
  length-addr_bytes : AddressFits size v → length (addr_bytes size v) ≡ size
  unfolding addr_bytes
  length-addr_bytes (inl (e, f)) = rw e (length-little_endian32 v)
  length-addr_bytes (inr (e, f)) = rw e (length-little_endian64 v)

  from-addr_bytes : AddressFits size v → from_little_endian (addr_bytes size v) ≡ v
  unfolding addr_bytes
  from-addr_bytes (inl (e, f)) = rw e (from-little_endian32 v f)
  from-addr_bytes (inr (e, f)) = rw e (from-little_endian64 v f)

  write_addr-poke :
      (t : List ℕ) (p : ℕ)
      → AddressFits size v
      → write_addr t p v size ≡ poke t p (addr_bytes size v)
  unfolding write_addr addr_bytes
  write_addr-poke t p (inl (e, f)) = rw e
  write_addr-poke t p (inr (e, f)) = rw e

  read_addr-peek :
      (t : List ℕ) (p : ℕ)
      → AddressFits size v
      → read_addr t p size ≡ map_done from_little_endian (peek t p size)
  unfolding read_addr read_little_endian32 read_little_endian64
  read_addr-peek t p (inl (e, f)) = rw e
  read_addr-peek t p (inr (e, f)) = rw e

-- What a read of a slot is in terms of the bytes of its two parts.
abbrev pub two_reads : (t : List ℕ) (p a b : ℕ) → Outcome (ℕ × ℕ)
two_reads t p a b =
    and_then (map_done from_little_endian (peek t p a))
      λ h. and_then (map_done from_little_endian (peek t (p + a) b)) λ position. done (h, position)

module _ (header : HashHeader) (m : List ℕ) (pos h position : ℕ)
    (sized : header.hash_size ≡ hash_len header.hash_algorithm)
    (hash_fits : HashFits header.hash_algorithm h)
    (address_fits : AddressFits header.address_size position)
    (inside : pos + slot_size header ≤ length m) where
  first_part : List ℕ
  first_part = hash_bytes header.hash_algorithm h

  second_part : List ℕ
  second_part = addr_bytes header.address_size position

  first_len : length first_part ≡ header.hash_size
  unfolding first_part
  first_len = length-hash_bytes header.hash_algorithm h ∙ sym sized

  second_len : length second_part ≡ header.address_size
  unfolding second_part
  second_len = length-addr_bytes header.address_size position address_fits

  first_fits : pos + length first_part ≤ length m
  first_fits = omega (arith, first_len)

  middle : List ℕ
  middle = poked m pos first_part

  second_fits : pos + header.hash_size + length second_part ≤ length middle
  unfolding middle
  second_fits = omega (arith, second_len, length-poked m pos first_part first_fits)

  written : List ℕ
  written = poked middle (pos + header.hash_size) second_part

  write_slot-written : write_slot header pos h position m ≡ done written
  unfolding write_slot written middle first_part second_part
  write_slot-written = rw (
    poke_fits m pos first_part first_fits,
    write_addr-poke header.address_size position middle (pos + header.hash_size) address_fits,
    poke_fits middle (pos + header.hash_size) second_part second_fits,
  )

  pub read_slot-reads :
      (t : List ℕ) (p : ℕ)
      → read_slot header t p ≡ two_reads t p header.hash_size header.address_size
  unfolding read_slot
  read_slot-reads t p = rw (
    sized,
    read_hash-peek header.hash_algorithm t p,
    read_addr-peek header.address_size position t (p + hash_len header.hash_algorithm) address_fits,
  )

  read_first : peek written pos header.hash_size ≡ done first_part
  unfolding written middle
  read_first =
      peek-poked_apart middle (pos + header.hash_size) second_part second_fits pos header.hash_size
        (inl (omega arith))
      ∙ ap (peek middle pos) (sym first_len)
      ∙ peek-poked m pos first_part first_fits

  read_second : peek written (pos + header.hash_size) header.address_size ≡ done second_part
  unfolding written
  read_second =
      ap (peek written (pos + header.hash_size)) (sym second_len)
      ∙ peek-poked middle (pos + header.hash_size) second_part second_fits

  read_slot-written : read_slot header written pos ≡ done (h, position)
  unfolding first_part second_part
  read_slot-written =
      read_slot-reads written pos
      ∙ rw (
        read_first,
        read_second,
        from-hash_bytes header.hash_algorithm h hash_fits,
        from-addr_bytes header.address_size position address_fits,
      )

  apart_part :
      (k n : ℕ) → (k + n ≤ pos) ⊎ (pos + slot_size header ≤ k) → peek written k n ≡ peek m k n
  unfolding written middle
  apart_part k n (inl before) =
      peek-poked_apart middle (pos + header.hash_size) second_part second_fits k n
        (inl (omega arith))
      ∙ peek-poked_apart m pos first_part first_fits k n (inl before)
  apart_part k n (inr behind) =
      peek-poked_apart middle (pos + header.hash_size) second_part second_fits k n
        (inr (omega (arith, second_len)))
      ∙ peek-poked_apart m pos first_part first_fits k n (inr (omega (arith, first_len)))

  read_slot-apart :
      (k : ℕ)
      → (k + slot_size header ≤ pos) ⊎ (pos + slot_size header ≤ k)
      → read_slot header written k ≡ read_slot header m k
  read_slot-apart k away =
      let first : peek written k header.hash_size ≡ peek m k header.hash_size =
        apart_part k header.hash_size (omega arith) in
      let second : peek written (k + header.hash_size) header.address_size
          ≡ peek m (k + header.hash_size) header.address_size =
        apart_part (k + header.hash_size) header.address_size (omega arith) in
      read_slot-reads written k ∙ rw (first, second) refl ∙ sym (read_slot-reads m k)

  -- Writing a hash and an address into a slot inside the table succeeds; the slot reads back as them,
  -- the table keeps its length, and every slot apart from it reads as before. The hash and the address
  -- fit the sizes that the header gives, of 4 or 8 bytes each.
  pub write_slot-read_slot :
      (t : List ℕ) × (write_slot header pos h position m ≡ done t)
      × (length t ≡ length m)
      × (read_slot header t pos ≡ done (h, position))
      × ((k : ℕ)
          → (k + slot_size header ≤ pos) ⊎ (pos + slot_size header ≤ k)
          → read_slot header t k ≡ read_slot header m k)
  unfolding written middle
  write_slot-read_slot = (
    written,
    write_slot-written,
    length-poked middle (pos + header.hash_size) second_part second_fits
        ∙ length-poked m pos first_part first_fits,
    read_slot-written,
    read_slot-apart,
  )
