-- ===== src/HashTable/Index.antt =====
-- What the slots of a hash table say of the entries of a log without compression: an address is the
-- position of a put, and the hash beside it is that of its key.
use sparkey.Base.{ℕ, ◌/◌, ◌^◌, ◌≤◌, ◌<◌, List, ◌++◌, drop, u32, bit_and, ◌≡◌, ap, ◌∙◌, arith}
use sparkey.Base.Bits.{bit_and_mask}
use sparkey.Exec.{done}
use sparkey.Entry.{put, encode, IsStorable}
use sparkey.LogReader.{LogReader}
use sparkey.HashAlgorithm.{hash}
use sparkey.HashHeader.{HashHeader}
use sparkey.HashTable.{entry_index, block_of}
use sparkey.HashTable.Order.{Slots}

-- Addresses are positions, as for a log whose blocks are its entries.
pub record IsUnblocked (header : HashHeader) : Type 0 where
  pub bits : header.entry_block_bits ≡ 0
  pub mask : header.entry_block_bitmask ≡ 0

-- A put of the key and the value starts at `p`.
abbrev pub IsPutAt : LogReader → (p : ℕ) → List ℕ × List ℕ → Type 0
IsPutAt log p (key, value) =
    (rest : List ℕ) × IsStorable (put key value)
    × (drop p log.bytes ≡ encode (put key value) ++ rest)

-- The slot holds a put of the key.
abbrev pub HoldsKey : (c : ℕ) → Slots → (content : ℕ → List ℕ × List ℕ) → List ℕ → ℕ → Type 0
HoldsKey c f content key s = (s < c) × (0 < (f s).1) × ((content (f s).1).0 ≡ key)

-- `content` is the key and the value of the put at an address.
pub record IsIndex (log : LogReader) (header : HashHeader) (f : Slots)
    (content : ℕ → List ℕ × List ℕ) : Type 0 where
  pub unblocked : IsUnblocked header
  pub stored :
      (s : ℕ) → s < header.hash_capacity → 0 < (f s).1 → IsPutAt log (f s).1 (content (f s).1)
  pub hashed :
      (s : ℕ)
      → s < header.hash_capacity
      → 0 < (f s).1
      → hash header.hash_algorithm (content (f s).1).0 header.hash_seed ≡ done (f s).0
  pub behind_header :
      (s : ℕ) → s < header.hash_capacity → 0 < (f s).1 → log.header.header_size ≤ (f s).1

module _ (header : HashHeader) (u : IsUnblocked header) where
  pub block_of_position : (p : ℕ) → block_of header p ≡ p
  block_of_position p = ap (λ b. p / 2 ^ b) u.bits ∙ omega arith

  pub no_entry_index : (p : ℕ) → entry_index header p ≡ 0
  no_entry_index p = ap (λ m. bit_and (u32 p) m) u.mask ∙ bit_and_mask 0 (u32 p) ∙ omega arith
