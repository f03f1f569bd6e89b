-- ===== src/HashAlgorithm.antt =====
-- src/hashalgorithms.c: the hash functions by the size of the hash in bytes, and the way each is kept
-- in a hash table.
use sparkey.Base.{ℕ, List, Option, none, some, ◌==◌, if◌then◌else◌}
use sparkey.Exec.{Outcome}
use sparkey.Endian.{little_endian32, little_endian64, read_little_endian32, read_little_endian64}
use sparkey.Murmur.{murmurhash32_hash, murmurhash64_hash}

-- `sparkey_hash_algorithm`, by the name of the three functions in it.
pub data HashAlgorithm : Type 0 where
  murmurhash32 murmurhash64 : HashAlgorithm

-- `sparkey_get_hash_algorithm`; `none` is `invalid`.
unfoldable pub get_hash_algorithm : ℕ → Option HashAlgorithm
get_hash_algorithm hash_size =
    if hash_size == 4 then some murmurhash32 else if hash_size == 8 then some murmurhash64 else none

-- The member `hash`.
unfoldable pub hash : HashAlgorithm → List ℕ → ℕ → Outcome ℕ
hash murmurhash32 = murmurhash32_hash
hash murmurhash64 = murmurhash64_hash

-- The member `read_hash`.
unfoldable pub read_hash : HashAlgorithm → List ℕ → ℕ → Outcome ℕ
read_hash murmurhash32 = read_little_endian32
read_hash murmurhash64 = read_little_endian64

-- The bytes that the member `write_hash` stores.
unfoldable pub hash_bytes : HashAlgorithm → ℕ → List ℕ
hash_bytes murmurhash32 value = little_endian32 value
hash_bytes murmurhash64 value = little_endian64 value
