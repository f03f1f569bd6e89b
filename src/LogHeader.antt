-- ===== src/LogHeader.antt =====
-- src/logheader.c and src/logheader.h: the 84 bytes at the start of a log file.
pub mod Write
pub mod Load
use sparkey.Base.{
  ℕ, ◌+◌, ◌<◌, List, [], ◌∷◌, ◌++◌, get_elem?, Option, none, some, ltb, ◌==◌, not, if◌then◌else◌,
  ◌⊎◌, inl, inr,
}
use sparkey.ReturnCode.{
  Errno, open_returncode, internal_error, log_header_corrupt, wrong_log_magic_number,
  wrong_log_major_version, unsupported_log_minor_version,
}
use sparkey.Exec.{
  Outcome, done, thrown, fault, out_of_bounds, Exec, pure, throw, throw_if, continue, ◌>>=◌, ◌>>◌,
}
use sparkey.File.{
  File, fwrite_little_endian32, fwrite_little_endian64, fread_little_endian32,
  fread_little_endian64,
}

abbrev pub log_magic_number : ℕ
log_magic_number = 0x49b39c95

abbrev pub log_major_version : ℕ
log_major_version = 1

abbrev pub log_minor_version : ℕ
log_minor_version = 0

abbrev pub log_header_size : ℕ
log_header_size = 84

-- `sparkey_compression_type`, by the values of the enum.
abbrev pub compression_none : ℕ
compression_none = 0

abbrev pub compression_snappy : ℕ
compression_snappy = 1

abbrev pub compression_zstd : ℕ
compression_zstd = 2

pub record LogHeader : Type 0 where
  pub major_version : ℕ
  pub minor_version : ℕ
  pub file_identifier : ℕ
  pub num_puts : ℕ
  pub num_deletes : ℕ
  pub data_end : ℕ
  pub max_key_len : ℕ
  pub max_value_len : ℕ
  pub delete_size : ℕ
  pub compression_type : ℕ
  pub compression_block_size : ℕ
  pub put_size : ℕ
  pub header_size : ℕ
  pub max_entries_per_block : ℕ

-- The consistency checks at the end of `logheader_version0`.
pub check_logheader : LogHeader → Exec (List ℕ) LogHeader
check_logheader header = do
  throw_if (ltb header.data_end header.header_size) log_header_corrupt
  throw_if (ltb header.data_end header.num_puts) log_header_corrupt
  throw_if (ltb header.data_end header.num_deletes) log_header_corrupt
  throw_if (ltb compression_zstd header.compression_type) log_header_corrupt
  pure header

-- `major` and `minor` are the fields that the caller has filled in.
pub logheader_version0 : (major minor : ℕ) → Exec (List ℕ) LogHeader
logheader_version0 major minor = do
  file_identifier ← fread_little_endian32
  num_puts ← fread_little_endian64
  num_deletes ← fread_little_endian64
  data_end ← fread_little_endian64
  max_key_len ← fread_little_endian64
  max_value_len ← fread_little_endian64
  delete_size ← fread_little_endian64
  compression_type ← fread_little_endian32
  compression_block_size ← fread_little_endian32
  put_size ← fread_little_endian64
  max_entries_per_block ← fread_little_endian32
  check_logheader (record {
    major_version = major;
    minor_version = minor;
    file_identifier = file_identifier;
    num_puts = num_puts;
    num_deletes = num_deletes;
    data_end = data_end;
    max_key_len = max_key_len;
    max_value_len = max_value_len;
    delete_size = delete_size;
    compression_type = compression_type;
    compression_block_size = compression_block_size;
    put_size = put_size;
    header_size = log_header_size;
    max_entries_per_block = max_entries_per_block;
  })

-- `loaders`, and `loaders[version]`: `none` inside the table is a NULL entry.
abbrev Loader : Type 0
Loader = ℕ → ℕ → Exec (List ℕ) LogHeader

loaders : List (Option Loader)
loaders = some logheader_version0 ∷ []

run_loader : Option (Option Loader) → ℕ → ℕ → Exec (List ℕ) LogHeader
run_loader none major minor fp = (fault out_of_bounds, fp)
run_loader (some none) major minor fp = (thrown internal_error, fp)
run_loader (some (some l)) major minor fp = l major minor fp

-- `sparkey_load_logheader` from `fopen` on.
pub read_logheader : Exec (List ℕ) LogHeader
unfolding loaders run_loader
read_logheader = do
  magic ← fread_little_endian32
  throw_if (not (magic == log_magic_number)) wrong_log_magic_number
  major_version ← fread_little_endian32
  throw_if (not (major_version == log_major_version)) wrong_log_major_version
  minor_version ← fread_little_endian32
  throw_if (ltb log_minor_version minor_version) unsupported_log_minor_version
  run_loader (get_elem? loaders minor_version) major_version minor_version

-- `fopen` gives the bytes of the file, or `errno`.
pub load_logheader : Errno ⊎ List ℕ → Outcome LogHeader
load_logheader (inl e) = thrown (open_returncode e)
load_logheader (inr contents) = (read_logheader contents).0

pub write_logheader : LogHeader → Exec File (Unit {0})
write_logheader header = do
  fwrite_little_endian32 log_magic_number
  fwrite_little_endian32 log_major_version
  fwrite_little_endian32 log_minor_version
  fwrite_little_endian32 header.file_identifier
  fwrite_little_endian64 header.num_puts
  fwrite_little_endian64 header.num_deletes
  fwrite_little_endian64 header.data_end
  fwrite_little_endian64 header.max_key_len
  fwrite_little_endian64 header.max_value_len
  fwrite_little_endian64 header.delete_size
  fwrite_little_endian32 header.compression_type
  fwrite_little_endian32 header.compression_block_size
  fwrite_little_endian64 header.put_size
  fwrite_little_endian32 header.max_entries_per_block
