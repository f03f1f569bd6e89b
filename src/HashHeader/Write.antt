-- ===== src/HashHeader/Write.antt =====
-- The bytes of a hash header.
use sparkey.Base.{refl, ◌∷◌, ℕ, List, [], ◌++◌, length, length-append, append_assoc, ◌≡◌}
use sparkey.Endian.{little_endian32, little_endian64}
use sparkey.Endian.RoundTrip.{length-little_endian32, length-little_endian64}
use sparkey.File.Write.{Writes}
use sparkey.Exec.Calm.{Calm}
use sparkey.File.Quiet.{IsServed, calm_rules}
use sparkey.File.Words.{write_rules, fwrite32-closed}
use sparkey.File.{File, failed}
use sparkey.ReturnCode.{ebadf, file_closed}
use sparkey.Exec.{Exec, thrown, ◌>>=◌, ◌>>◌}
use sparkey.HashHeader.{
  HashHeader, hash_magic_number, hash_major_version, hash_minor_version, hash_header_size,
  write_hashheader,
}

-- The fields in the order of the file, with what follows them.
unfoldable pub header_fields : HashHeader → List ℕ → List ℕ
header_fields h rest =
    little_endian32 h.file_identifier
    ++ (little_endian32 h.hash_seed
        ++ (little_endian64 h.data_end
            ++ (little_endian64 h.max_key_len
                ++ (little_endian64 h.max_value_len
                    ++ (little_endian64 h.num_puts
                        ++ (little_endian64 h.garbage_size
                            ++ (little_endian64 h.num_entries
                                ++ (little_endian32 h.address_size
                                    ++ (little_endian32 h.hash_size
                                        ++ (little_endian64 h.hash_capacity
                                            ++ (little_endian64 h.max_displacement
                                                ++ (little_endian32 h.entry_block_bits
                                                    ++ (little_endian64 h.hash_collisions
                                                        ++ (little_endian64 h.total_displacement
                                                            ++ rest))))))))))))))

unfoldable pub header_then : HashHeader → List ℕ → List ℕ
unfolding header_fields
header_then h rest =
    little_endian32 hash_magic_number
    ++ (little_endian32 hash_major_version
        ++ (little_endian32 hash_minor_version ++ header_fields h rest))

abbrev pub hash_header_bytes : HashHeader → List ℕ
hash_header_bytes h = header_then h []

pub header_then-append :
    (h : HashHeader) (rest : List ℕ) → header_then h rest ≡ hash_header_bytes h ++ rest
unfolding header_then
header_then-append h rest = simp append_assoc

-- A header is as long as HASH_HEADER_SIZE says.
pub length-hash_header_bytes : (h : HashHeader) → length (hash_header_bytes h) ≡ hash_header_size
unfolding header_then
length-hash_header_bytes h = simp (length-append, length-little_endian32, length-little_endian64)

-- From any file whose offset is not past its end, and for every sequence of answers of the system,
-- `write_hashheader` writes exactly the bytes of the header at the offset and returns, or it returns the
-- code of an error with a first part of them written.
pub write_hashheader-Writes : (h : HashHeader) → Writes (hash_header_bytes h) (write_hashheader h)
unfolding write_hashheader header_then
write_hashheader-Writes h = search write_rules depth 24

-- No error where the system never fails for good.
pub write_hashheader-Calm : (h : HashHeader) → Calm IsServed (write_hashheader h)
unfolding write_hashheader
write_hashheader-Calm h = search calm_rules depth 24

pub write_hashheader-closed :
    (h : HashHeader) (m : Exec File (Unit {0}))
    → ((write_hashheader h >> m)
        (record { contents = []; offset = 0; answers = failed ebadf ∷ [] })).0
      ≡ thrown file_closed
unfolding write_hashheader ◌>>=◌
write_hashheader-closed h m = rw (fwrite32-closed hash_magic_number [] 0) refl
