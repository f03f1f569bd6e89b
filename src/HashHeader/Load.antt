-- ===== src/HashHeader/Load.antt =====
-- Loading a hash header: what is written is read.
use sparkey.Base.{
  ℕ, ◌-◌, ◌^◌, ◌≤◌, ◌<◌, List, ◌++◌, IsU32, IsU64, some, lt→ltb, ◌≡◌, ap, sym, ◌∙◌, inr, arith,
}
use sparkey.Exec.{done, ◌>>=◌}
use sparkey.File.Words.{fread32-little_endian32, fread64-little_endian64}
use sparkey.HashAlgorithm.{get_hash_algorithm}
use sparkey.HashHeader.{
  HashHeader, loaders, run_loader, hash_magic_number, hash_major_version, hash_minor_version,
  hash_header_size, bitmask, or_corrupt, check_hashheader, hashheader_version0, read_hashheader,
  load_hashheader,
}
use sparkey.HashHeader.Write.{header_fields, header_then, header_then-append, hash_header_bytes}

-- The fields fit their C types and belong together, and the checks of `hashheader_version0` pass.
pub record IsValid (h : HashHeader) : Type 0 where
  pub major : h.major_version ≡ hash_major_version
  pub minor : h.minor_version ≡ hash_minor_version
  pub sized : h.header_size ≡ hash_header_size
  pub mask : h.entry_block_bitmask ≡ 2 ^ h.entry_block_bits - 1
  pub algorithm : get_hash_algorithm h.hash_size ≡ some h.hash_algorithm
  pub few_bits : h.entry_block_bits < 31
  pub entries_in : h.num_entries ≤ h.num_puts
  pub displacement_in : h.max_displacement ≤ h.num_entries
  pub collisions_in : h.hash_collisions ≤ h.num_entries
  pub file_identifier_u32 : IsU32 h.file_identifier
  pub hash_seed_u32 : IsU32 h.hash_seed
  pub data_end_u64 : IsU64 h.data_end
  pub max_key_len_u64 : IsU64 h.max_key_len
  pub max_value_len_u64 : IsU64 h.max_value_len
  pub num_puts_u64 : IsU64 h.num_puts
  pub garbage_size_u64 : IsU64 h.garbage_size
  pub address_size_u32 : IsU32 h.address_size
  pub hash_size_u32 : IsU32 h.hash_size
  pub hash_capacity_u64 : IsU64 h.hash_capacity
  pub total_displacement_u64 : IsU64 h.total_displacement

check_hashheader_valid :
    (h : HashHeader) (rest : List ℕ) → IsValid h → check_hashheader h rest ≡ (done h, rest)
unfolding check_hashheader ◌>>=◌
check_hashheader_valid h rest v = ground arith

bitmask_valid : (n : ℕ) → n < 31 → bitmask n ≡ done (2 ^ n - 1)
unfolding bitmask
bitmask_valid n h = rw (lt→ltb n 31 h)

constants :
    (h : HashHeader)
    → IsValid h
    → record h {
      major_version = hash_major_version;
      minor_version = hash_minor_version;
      header_size = hash_header_size;
      entry_block_bitmask = 2 ^ h.entry_block_bits - 1;
    }
      ≡ h
constants h v = sym λ i. record h {
  major_version = v.major i;
  minor_version = v.minor i;
  header_size = v.sized i;
  entry_block_bitmask = v.mask i;
}

version0-header :
    (h : HashHeader) (rest : List ℕ)
    → IsValid h
    → hashheader_version0 hash_major_version hash_minor_version (header_fields h rest)
      ≡ (done h, rest)
unfolding hashheader_version0 header_fields or_corrupt ◌>>=◌
version0-header h rest v =
    rw
      (
        fread32-little_endian32 h.file_identifier _ v.file_identifier_u32,
        fread32-little_endian32 h.hash_seed _ v.hash_seed_u32,
        fread64-little_endian64 h.data_end _ v.data_end_u64,
        fread64-little_endian64 h.max_key_len _ v.max_key_len_u64,
        fread64-little_endian64 h.max_value_len _ v.max_value_len_u64,
        fread64-little_endian64 h.num_puts _ v.num_puts_u64,
        fread64-little_endian64 h.garbage_size _ v.garbage_size_u64,
        fread64-little_endian64 h.num_entries _
            (omega (arith, v.entries_in, v.displacement_in, v.collisions_in, v.num_puts_u64)),
        fread32-little_endian32 h.address_size _ v.address_size_u32,
        fread32-little_endian32 h.hash_size _ v.hash_size_u32,
        fread64-little_endian64 h.hash_capacity _ v.hash_capacity_u64,
        fread64-little_endian64 h.max_displacement _
            (omega (arith, v.entries_in, v.displacement_in, v.collisions_in, v.num_puts_u64)),
        fread32-little_endian32 h.entry_block_bits _ (omega (arith, v.few_bits)),
        bitmask_valid h.entry_block_bits v.few_bits,
        fread64-little_endian64 h.hash_collisions _
            (omega (arith, v.entries_in, v.displacement_in, v.collisions_in, v.num_puts_u64)),
        fread64-little_endian64 h.total_displacement _ v.total_displacement_u64,
        v.algorithm,
      )
      (ap (λ g. check_hashheader g rest) (constants h v) ∙ check_hashheader_valid h rest v)

read_hashheader-header :
    (h : HashHeader) (rest : List ℕ)
    → IsValid h
    → read_hashheader (header_then h rest) ≡ (done h, rest)
unfolding read_hashheader header_then loaders run_loader ◌>>=◌
read_hashheader-header h rest v =
    rw
      (
        fread32-little_endian32 hash_magic_number _ (omega arith),
        fread32-little_endian32 hash_major_version _ (omega arith),
        fread32-little_endian32 hash_minor_version _ (omega arith),
      )
      (version0-header h rest v)

-- A hash file that starts with the bytes of a valid header loads as that header, whatever follows it.
pub load-hash_header_bytes :
    (h : HashHeader) (rest : List ℕ)
    → IsValid h
    → load_hashheader (inr (hash_header_bytes h ++ rest)) ≡ done h
unfolding load_hashheader
load-hash_header_bytes h rest v =
    rw (← header_then-append h rest) (ap (λ r. r.0) (read_hashheader-header h rest v))
