-- ===== src/LogHeader/Write.antt =====
-- The bytes of a log header.
use sparkey.Base.{ℕ, List, [], ◌++◌, length, length-append, append_assoc, ◌≡◌}
use sparkey.Endian.{little_endian32, little_endian64}
use sparkey.Endian.RoundTrip.{length-little_endian32, length-little_endian64}
use sparkey.Exec.Calm.{Calm}
use sparkey.File.Quiet.{IsServed, calm_rules}
use sparkey.File.Write.{Writes}
use sparkey.File.Words.{write_rules}
use sparkey.LogHeader.{
  LogHeader, log_magic_number, log_major_version, log_minor_version, log_header_size,
  write_logheader,
}

-- The fields in the order of the file, with what follows them.
unfoldable pub header_fields : LogHeader → List ℕ → List ℕ
header_fields h rest =
    little_endian32 h.file_identifier
    ++ (little_endian64 h.num_puts
        ++ (little_endian64 h.num_deletes
            ++ (little_endian64 h.data_end
                ++ (little_endian64 h.max_key_len
                    ++ (little_endian64 h.max_value_len
                        ++ (little_endian64 h.delete_size
                            ++ (little_endian32 h.compression_type
                                ++ (little_endian32 h.compression_block_size
                                    ++ (little_endian64 h.put_size
                                        ++ (little_endian32 h.max_entries_per_block
                                            ++ rest))))))))))

unfoldable pub header_then : LogHeader → List ℕ → List ℕ
unfolding header_fields
header_then h rest =
    little_endian32 log_magic_number
    ++ (little_endian32 log_major_version
        ++ (little_endian32 log_minor_version ++ header_fields h rest))

abbrev pub log_header_bytes : LogHeader → List ℕ
log_header_bytes h = header_then h []

pub header_then-append :
    (h : LogHeader) (rest : List ℕ) → header_then h rest ≡ log_header_bytes h ++ rest
unfolding header_then
header_then-append h rest = simp append_assoc

-- A header is as long as LOG_HEADER_SIZE says.
pub length-log_header_bytes : (h : LogHeader) → length (log_header_bytes h) ≡ log_header_size
unfolding header_then
length-log_header_bytes h = simp (length-append, length-little_endian32, length-little_endian64)

-- From any file whose offset is not past its end, and for every sequence of answers of the system,
-- `write_logheader` writes exactly the bytes of the header at the offset and returns, or it returns the
-- code of an error with a first part of them written.
pub write_logheader-Writes : (h : LogHeader) → Writes (log_header_bytes h) (write_logheader h)
unfolding write_logheader header_then
write_logheader-Writes h = search write_rules depth 20

pub write_logheader-Calm : (h : LogHeader) → Calm IsServed (write_logheader h)
unfolding write_logheader
write_logheader-Calm h = search calm_rules depth 20
