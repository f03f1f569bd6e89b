-- ===== src/HashTable/Hashes.antt =====
-- The hash of a key, as it stands in a slot.
use sparkey.Base.{ℕ, ◌^◌, ◌<◌, List, length, ◌≡◌}
use sparkey.Exec.{done}
use sparkey.Murmur.Bounds.{murmurhash32_hash-IsU32, murmurhash64_hash-IsU64}
use sparkey.HashAlgorithm.{HashAlgorithm, murmurhash32, murmurhash64, hash}
use sparkey.HashTable.Slot.{HashFits}

-- Both hash functions return at every key of less than 2 ^ 31 bytes and every seed, and read nothing
-- outside of the key; the value fits the bytes that a slot has for it.
pub hash-HashFits :
    (a : HashAlgorithm) (key : List ℕ) (seed : ℕ)
    → length key < 2 ^ 31
    → (h : ℕ) × (hash a key seed ≡ done h) × HashFits a h
unfolding hash
hash-HashFits murmurhash32 key seed short = murmurhash32_hash-IsU32 key seed short
hash-HashFits murmurhash64 key seed short = murmurhash64_hash-IsU64 key seed short
