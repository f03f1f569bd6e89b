-- ===== src/HashTable.antt =====
-- The slots of a hash table: the inline functions of src/hashheader.h and src/hashiter.c.
pub mod Displacement
pub mod Reads
pub mod Slot
pub mod Hashes
pub mod Ring
pub mod Order
pub mod Represents
pub mod Holds
pub mod Fresh
pub mod Used
pub mod Without
pub mod Index
pub mod Search
pub mod Implements
pub mod Recount
use sparkey.Base.{
  ℕ, zero, suc, ◌+◌, ◌*◌, ◌-◌, ◌/◌, ◌%◌, ◌^◌, List, length, ◌++◌, ◌==◌, if◌then◌else◌, add64, sub64,
  u64, bit_and, u32,
}
use sparkey.Exec.{
  Outcome, done, thrown, fault, division_by_zero, and_then, Exec, pure, gets, lift, continue, ◌>>=◌,
  ◌>>◌,
}
use sparkey.Endian.{
  little_endian32, little_endian64, read_little_endian32, read_little_endian64, poke,
}
use sparkey.HashAlgorithm.{hash, read_hash, hash_bytes}
use sparkey.HashHeader.{HashHeader}
use sparkey.Compress.{Codecs}
use sparkey.LogReader.{LogReader}
use sparkey.LogIter.{LogIter}
use sparkey.LogIter.Chunks.{keychunk, fill_key}

-- `%`
pub modulo : ℕ → ℕ → Outcome ℕ
modulo a zero = fault division_by_zero
modulo a (suc n) = done (a % suc n)

pub get_displacement : (capacity slot hash : ℕ) → Outcome ℕ
get_displacement capacity slot hash =
    and_then (modulo hash capacity)
      λ wanted_slot. modulo (add64 capacity (sub64 slot wanted_slot)) capacity

pub read_addr : List ℕ → (pos address_size : ℕ) → Outcome ℕ
read_addr hashtable pos address_size =
    if address_size == 4
    then read_little_endian32 hashtable pos
    else if address_size == 8
    then read_little_endian64 hashtable pos
    else done (2 ^ 64 - 1)

pub write_addr : List ℕ → (pos value address_size : ℕ) → Outcome (List ℕ)
write_addr hashtable pos value address_size =
    if address_size == 4
    then poke hashtable pos (little_endian32 value)
    else if address_size == 8
    then poke hashtable pos (little_endian64 value)
    else done hashtable

-- `slot_size`
abbrev pub slot_size : HashHeader → ℕ
slot_size header = header.address_size + header.hash_size

-- The hash and the address in the slot at `pos`.
pub read_slot : HashHeader → List ℕ → (pos : ℕ) → Outcome (ℕ × ℕ)
read_slot header hashtable pos = and_then (read_hash header.hash_algorithm hashtable pos) λ h.
    and_then (read_addr hashtable (pos + header.hash_size) header.address_size)
      λ position. done (h, position)

-- `write_hash` and `write_addr` at `pos`.
pub write_slot : HashHeader → (pos h position : ℕ) → List ℕ → Outcome (List ℕ)
write_slot header pos h position hashtable =
    and_then (poke hashtable pos (hash_bytes header.hash_algorithm h))
      λ t. write_addr t (pos + header.hash_size) position header.address_size

-- The index of an entry in its block, and the position of the block, of an address.
abbrev pub entry_index : HashHeader → ℕ → ℕ
entry_index header position = bit_and (u32 position) header.entry_block_bitmask

abbrev pub block_of : HashHeader → ℕ → ℕ
block_of header position = position / 2 ^ header.entry_block_bits

-- `sparkey_iter_hash`: an error of the iterator gives 0. The `int` that `1 << 31` is becomes this
-- length. `malloc` gives memory.
abbrev maxlen : ℕ
maxlen = 2 ^ 64 - 2 ^ 31

unfoldable pub or_zero : {S A : Type 0} → (A → Exec S ℕ) → Outcome A → Exec S ℕ
or_zero f (done a) s = f a s
or_zero f (thrown c) s = (done 0, s)
or_zero f (fault x) s = (fault x, s)

unfoldable pub iter_hash : Codecs → LogReader → HashHeader → Exec LogIter ℕ
unfolding or_zero
iter_hash codecs log header i =
    let first = keychunk codecs log maxlen i in
    let hashed = λ (key : List ℕ). lift (hash header.hash_algorithm key header.hash_seed) in
    or_zero
      (λ buf j.
        if length buf == j.keylen
        then hashed buf j
        else (let second = fill_key codecs log maxlen j in
            or_zero
              (λ more k.
                if length buf + length more == k.keylen
                then hashed (buf ++ more) k
                else (done 0, k))
              second.0 second.1))
      first.0 first.1
