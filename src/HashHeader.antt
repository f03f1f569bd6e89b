-- ===== src/HashHeader.antt =====
-- src/hashheader.c and src/hashheader.h: the 112 bytes at the start of a hash file.
pub mod Write
pub mod Load
use sparkey.Base.{
  ℕ, ◌+◌, ◌-◌, ◌*◌, ◌^◌, ◌<◌, List, [], ◌∷◌, ◌++◌, get_elem?, Option, none, some, ltb, leb, ◌==◌,
  not, if◌then◌else◌, ◌⊎◌, inl, inr,
}
use sparkey.ReturnCode.{
  Errno, open_returncode, internal_error, hash_header_corrupt, wrong_hash_magic_number,
  wrong_hash_major_version, unsupported_hash_minor_version,
}
use sparkey.Exec.{
  Outcome, done, thrown, fault, out_of_bounds, undefined_shift, Exec, pure, throw, throw_if, lift,
  continue, ◌>>=◌, ◌>>◌,
}
use sparkey.File.{
  File, fwrite_little_endian32, fwrite_little_endian64, fread_little_endian32,
  fread_little_endian64,
}
use sparkey.HashAlgorithm.{HashAlgorithm, murmurhash32, get_hash_algorithm}

abbrev pub hash_magic_number : ℕ
hash_magic_number = 0x9a11318f

abbrev pub hash_major_version : ℕ
hash_major_version = 1

abbrev pub hash_minor_version : ℕ
hash_minor_version = 1

abbrev pub hash_header_size : ℕ
hash_header_size = 112

-- `sparkey_hashheader`
pub record HashHeader : Type 0 where
  pub major_version : ℕ
  pub minor_version : ℕ
  pub file_identifier : ℕ
  pub hash_seed : ℕ
  pub header_size : ℕ
  pub data_end : ℕ
  pub max_key_len : ℕ
  pub max_value_len : ℕ
  pub garbage_size : ℕ
  pub num_entries : ℕ
  pub address_size : ℕ
  pub hash_size : ℕ
  pub hash_capacity : ℕ
  pub max_displacement : ℕ
  pub num_puts : ℕ
  pub entry_block_bits : ℕ
  pub entry_block_bitmask : ℕ
  pub hash_collisions : ℕ
  pub total_displacement : ℕ
  pub hash_algorithm : HashAlgorithm

-- `(1 << bits) - 1` on an int, which C defines for fewer than 31 bits.
unfoldable pub bitmask : ℕ → Outcome ℕ
bitmask bits = if ltb bits 31 then done (2 ^ bits - 1) else fault undefined_shift

or_corrupt : Option HashAlgorithm → Outcome HashAlgorithm
or_corrupt none = thrown hash_header_corrupt
or_corrupt (some a) = done a

-- The consistency checks at the end of `hashheader_version0`.
check_hashheader : HashHeader → Exec (List ℕ) HashHeader
check_hashheader header = do
  throw_if (ltb header.num_puts header.num_entries) hash_header_corrupt
  throw_if (ltb header.num_entries header.max_displacement) hash_header_corrupt
  throw_if (ltb header.num_entries header.hash_collisions) hash_header_corrupt
  pure header

-- `major` and `minor` are the fields that the caller has filled in.
pub hashheader_version0 : (major minor : ℕ) → Exec (List ℕ) HashHeader
unfolding or_corrupt check_hashheader
hashheader_version0 major minor = do
  file_identifier ← fread_little_endian32
  hash_seed ← fread_little_endian32
  data_end ← fread_little_endian64
  max_key_len ← fread_little_endian64
  max_value_len ← fread_little_endian64
  num_puts ← fread_little_endian64
  garbage_size ← fread_little_endian64
  num_entries ← fread_little_endian64
  address_size ← fread_little_endian32
  hash_size ← fread_little_endian32
  hash_capacity ← fread_little_endian64
  max_displacement ← fread_little_endian64
  entry_block_bits ← fread_little_endian32
  entry_block_bitmask ← lift (bitmask entry_block_bits)
  hash_collisions ← fread_little_endian64
  total_displacement ← fread_little_endian64
  hash_algorithm ← lift (or_corrupt (get_hash_algorithm hash_size))
  check_hashheader (record {
    major_version = major;
    minor_version = minor;
    header_size = hash_header_size;
    file_identifier = file_identifier;
    hash_seed = hash_seed;
    data_end = data_end;
    max_key_len = max_key_len;
    max_value_len = max_value_len;
    garbage_size = garbage_size;
    num_entries = num_entries;
    address_size = address_size;
    hash_size = hash_size;
    hash_capacity = hash_capacity;
    max_displacement = max_displacement;
    num_puts = num_puts;
    entry_block_bits = entry_block_bits;
    entry_block_bitmask = entry_block_bitmask;
    hash_collisions = hash_collisions;
    total_displacement = total_displacement;
    hash_algorithm = hash_algorithm;
  })

-- `loaders`, and `loaders[version]`: `none` inside the table is a NULL entry.
abbrev Loader : Type 0
Loader = ℕ → ℕ → Exec (List ℕ) HashHeader

loaders : List (Option Loader)
loaders = some hashheader_version0 ∷ some hashheader_version0 ∷ []

run_loader : Option (Option Loader) → ℕ → ℕ → Exec (List ℕ) HashHeader
run_loader none major minor fp = (fault out_of_bounds, fp)
run_loader (some none) major minor fp = (thrown internal_error, fp)
run_loader (some (some l)) major minor fp = l major minor fp

-- `sparkey_load_hashheader` from `fopen` on.
pub read_hashheader : Exec (List ℕ) HashHeader
unfolding loaders run_loader
read_hashheader = do
  magic ← fread_little_endian32
  throw_if (not (magic == hash_magic_number)) wrong_hash_magic_number
  major_version ← fread_little_endian32
  throw_if (not (major_version == hash_major_version)) wrong_hash_major_version
  minor_version ← fread_little_endian32
  throw_if (ltb hash_minor_version minor_version) unsupported_hash_minor_version
  run_loader (get_elem? loaders minor_version) major_version minor_version

-- `fopen` gives the bytes of the file, or `errno`.
pub load_hashheader : Errno ⊎ List ℕ → Outcome HashHeader
load_hashheader (inl e) = thrown (open_returncode e)
load_hashheader (inr contents) = (read_hashheader contents).0

pub write_hashheader : HashHeader → Exec File (Unit {0})
write_hashheader header = do
  fwrite_little_endian32 hash_magic_number
  fwrite_little_endian32 hash_major_version
  fwrite_little_endian32 hash_minor_version
  fwrite_little_endian32 header.file_identifier
  fwrite_little_endian32 header.hash_seed
  fwrite_little_endian64 header.data_end
  fwrite_little_endian64 header.max_key_len
  fwrite_little_endian64 header.max_value_len
  fwrite_little_endian64 header.num_puts
  fwrite_little_endian64 header.garbage_size
  fwrite_little_endian64 header.num_entries
  fwrite_little_endian32 header.address_size
  fwrite_little_endian32 header.hash_size
  fwrite_little_endian64 header.hash_capacity
  fwrite_little_endian64 header.max_displacement
  fwrite_little_endian32 header.entry_block_bits
  fwrite_little_endian64 header.hash_collisions
  fwrite_little_endian64 header.total_displacement
