-- ===== src/LogHeader/Load.antt =====
-- Loading a log header: what is written is read, and what is accepted is consistent.
use sparkey.Base.{
  ℕ, zero, suc, get_elem?, ◌≤◌, List, ◌++◌, IsU32, IsU64, ◌≡◌, ap, refl, sym, ◌∙◌, inr, arith,
}
use sparkey.Exec.{done, ◌>>=◌}
use sparkey.File.Words.{fread32-little_endian32, fread64-little_endian64}
use sparkey.Exec.Ensures.{Ensures, Ensures-pure, Ensures-throw_if, Ensures-bind, ensured_at}
use sparkey.LogHeader.{
  LogHeader, loaders, run_loader, log_magic_number, log_major_version, log_minor_version,
  log_header_size, compression_zstd, check_logheader, logheader_version0, read_logheader,
  load_logheader,
}
use sparkey.LogHeader.Write.{header_fields, header_then, header_then-append, log_header_bytes}

-- The fields fit their C types, and the checks of `logheader_version0` pass.
pub record IsValid (h : LogHeader) : Type 0 where
  pub major : h.major_version ≡ log_major_version
  pub minor : h.minor_version ≡ log_minor_version
  pub sized : h.header_size ≡ log_header_size
  pub identifier : IsU32 h.file_identifier
  pub end_u64 : IsU64 h.data_end
  pub key_u64 : IsU64 h.max_key_len
  pub value_u64 : IsU64 h.max_value_len
  pub delete_u64 : IsU64 h.delete_size
  pub put_u64 : IsU64 h.put_size
  pub block_u32 : IsU32 h.compression_block_size
  pub entries_u32 : IsU32 h.max_entries_per_block
  pub end_after_header : log_header_size ≤ h.data_end
  pub puts_in : h.num_puts ≤ h.data_end
  pub deletes_in : h.num_deletes ≤ h.data_end
  pub compression : h.compression_type ≤ compression_zstd

check_logheader_valid :
    (h : LogHeader) (rest : List ℕ) → IsValid h → check_logheader h rest ≡ (done h, rest)
unfolding check_logheader ◌>>=◌
check_logheader_valid h rest v = ground arith

constants :
    (h : LogHeader)
    → IsValid h
    → record h {
      major_version = log_major_version;
      minor_version = log_minor_version;
      header_size = log_header_size;
    }
      ≡ h
constants h v =
    sym λ i. record h {
      major_version = v.major i;
      minor_version = v.minor i;
      header_size = v.sized i;
    }

version0-header :
    (h : LogHeader) (rest : List ℕ)
    → IsValid h
    → logheader_version0 log_major_version log_minor_version (header_fields h rest) ≡ (done h, rest)
unfolding logheader_version0 header_fields ◌>>=◌
version0-header h rest v =
    rw
      (
        fread32-little_endian32 h.file_identifier _ v.identifier,
        fread64-little_endian64 h.num_puts _ (omega arith),
        fread64-little_endian64 h.num_deletes _ (omega arith),
        fread64-little_endian64 h.data_end _ v.end_u64,
        fread64-little_endian64 h.max_key_len _ v.key_u64,
        fread64-little_endian64 h.max_value_len _ v.value_u64,
        fread64-little_endian64 h.delete_size _ v.delete_u64,
        fread32-little_endian32 h.compression_type _ (omega arith),
        fread32-little_endian32 h.compression_block_size _ v.block_u32,
        fread64-little_endian64 h.put_size _ v.put_u64,
        fread32-little_endian32 h.max_entries_per_block _ v.entries_u32,
      )
      (ap (λ g. check_logheader g rest) (constants h v) ∙ check_logheader_valid h rest v)

read_logheader-header :
    (h : LogHeader) (rest : List ℕ)
    → IsValid h
    → read_logheader (header_then h rest) ≡ (done h, rest)
unfolding read_logheader header_then ◌>>=◌
read_logheader-header h rest v =
    rw
      (
        fread32-little_endian32 log_magic_number _ (omega arith),
        fread32-little_endian32 log_major_version _ (omega arith),
        fread32-little_endian32 log_minor_version _ (omega arith),
      )
      (version0-header h rest v)

-- A file that starts with the bytes of a valid header loads as that header, whatever follows it.
pub load-header_bytes :
    (h : LogHeader) (rest : List ℕ)
    → IsValid h
    → load_logheader (inr (log_header_bytes h ++ rest)) ≡ done h
unfolding load_logheader
load-header_bytes h rest v =
    rw (← header_then-append h rest) (ap (λ r. r.0) (read_logheader-header h rest v))

-- What every loaded header satisfies.
pub record IsConsistent (h : LogHeader) : Type 0 where
  pub major : h.major_version ≡ log_major_version
  pub minor : h.minor_version ≡ log_minor_version
  pub sized : h.header_size ≡ log_header_size
  pub end_after_header : log_header_size ≤ h.data_end
  pub puts_in : h.num_puts ≤ h.data_end
  pub deletes_in : h.num_deletes ≤ h.data_end
  pub compression : h.compression_type ≤ compression_zstd

check_logheader-Ensures :
    (h : LogHeader)
    → h.major_version ≡ log_major_version
    → h.minor_version ≡ log_minor_version
    → h.header_size ≡ log_header_size
    → Ensures IsConsistent (check_logheader h)
unfolding check_logheader
check_logheader-Ensures h major minor sized = Ensures-throw_if _ _ _ _ λ a.
    Ensures-throw_if _ _ _ _ λ b.
      Ensures-throw_if _ _ _ _ λ c. Ensures-throw_if _ _ _ _ λ d. Ensures-pure _ h (ground arith)

version0-Ensures : Ensures IsConsistent (logheader_version0 log_major_version log_minor_version)
unfolding logheader_version0
version0-Ensures = Ensures-bind _ _ _ λ identifier. Ensures-bind _ _ _ λ puts.
    Ensures-bind _ _ _ λ deletes. Ensures-bind _ _ _ λ data_end. Ensures-bind _ _ _ λ key_len.
      Ensures-bind _ _ _ λ value_len. Ensures-bind _ _ _ λ delete_size.
        Ensures-bind _ _ _ λ compression. Ensures-bind _ _ _ λ block_size.
          Ensures-bind _ _ _
            λ put_size. Ensures-bind _ _ _ λ max_entries. check_logheader-Ensures _ refl refl refl

run_loader-Ensures :
    (major minor : ℕ)
    → major ≡ log_major_version
    → minor ≡ log_minor_version
    → Ensures IsConsistent (run_loader (get_elem? loaders minor) major minor)
unfolding run_loader loaders
run_loader-Ensures major zero p q = rw p version0-Ensures
run_loader-Ensures major (suc n) p q = absurd (omega arith)

read_logheader-Ensures : Ensures IsConsistent read_logheader
unfolding read_logheader
read_logheader-Ensures = Ensures-bind _ _ _ λ magic. Ensures-throw_if _ _ _ _ λ a.
    Ensures-bind _ _ _ λ major. Ensures-throw_if _ _ _ _ λ b. Ensures-bind _ _ _ λ minor.
      Ensures-throw_if _ _ _ _ λ c. run_loader-Ensures major minor (ground arith) (ground arith)

-- A header that loads, from any bytes at all, has the supported version, and its counters and its
-- compression type are in range.
pub load-IsConsistent :
    (contents : List ℕ) (h : LogHeader) → load_logheader (inr contents) ≡ done h → IsConsistent h
unfolding load_logheader
load-IsConsistent contents h e = ensured_at IsConsistent _ e (read_logheader-Ensures.at contents)
