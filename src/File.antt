-- ===== src/File.antt =====
-- An open file, `write_full` and the word writers and readers of src/endiantools.c.
pub mod Overwrite
pub mod Write
pub mod Words
pub mod Quiet
use sparkey.Base.{
  ℕ, zero, suc, ◌+◌, ◌*◌, ◌/◌, ◌%◌, List, [], ◌∷◌, ◌++◌, length, take, drop, Option, none, some,
  leb, if◌then◌else◌,
}
use sparkey.ReturnCode.{
  ReturnCode, internal_error, out_of_disk, file_size_exceeded, file_closed, unexpected_eof, Errno,
  eintr, eagain, enospc, efbig, ebadf,
}
use sparkey.Exec.{Outcome, done, thrown, fault, Exec, continue, ◌>>=◌, ◌>>◌}
use sparkey.Endian.{little_endian32, little_endian64, from_little_endian}

-- What one call of `write` answers: it takes at most so many bytes, or fails.
pub data WriteResult : Type 0 where
  wrote : ℕ → WriteResult
  failed : Errno → WriteResult

-- `answers` are those of the coming calls of `write`; when they are used up, each call takes all.
pub record File : Type 0 where
  pub contents : List ℕ
  pub offset : ℕ
  pub answers : List WriteResult

-- The contents after a write of `bytes` at an offset; a gap past the end reads as zeros.
pub overwrite : List ℕ → ℕ → List ℕ → List ℕ
overwrite contents zero bytes = bytes ++ drop (length bytes) contents
overwrite [] (suc p) bytes = 0 ∷ overwrite [] p bytes
overwrite (x ∷ contents) (suc p) bytes = x ∷ overwrite contents p bytes

abbrev pub accept : File → List ℕ → File
accept file bytes = record file {
  contents = overwrite file.contents file.offset bytes;
  offset = file.offset + length bytes;
}

-- `lseek(fd, position, SEEK_SET)`
abbrev pub seek : ℕ → File → File
seek position file = record file { offset = position }

-- The `switch (errno)` of `_write_full`; `none` is `continue`.
unfoldable pub write_failure : Errno → Option ReturnCode
write_failure eintr = none
write_failure eagain = none
write_failure enospc = some out_of_disk
write_failure efbig = some file_size_exceeded
write_failure ebadf = some file_closed
write_failure _ = some internal_error

after_failure : Option ReturnCode → File → Outcome (Unit {0}) × File → Outcome (Unit {0}) × File
after_failure none file retry = retry
after_failure (some code) file retry = (thrown code, file)

-- `_write_full`. A call of `write` that would take more than `count` bytes takes `count`.
write_loop : List WriteResult → List ℕ → Exec File (Unit {0})
write_loop answers [] file = (done tt, record file { answers = answers })
write_loop [] (b ∷ buf) file = (done tt, record (accept file (b ∷ buf)) { answers = [] })
write_loop (wrote n ∷ answers) (b ∷ buf) file =
    write_loop answers (drop n (b ∷ buf)) (accept file (take n (b ∷ buf)))
write_loop (failed e ∷ answers) (b ∷ buf) file =
    after_failure (write_failure e) (record file { answers = answers })
      (write_loop answers (b ∷ buf) file)

pub write_once : List ℕ → Exec File (Unit {0})
write_once buf file = write_loop file.answers buf file

-- The `while (fullruns > 0)` loop of `write_full`, and the remainder.
write_runs : (block_size fullruns : ℕ) → List ℕ → Exec File (Unit {0})
write_runs block_size zero buf = write_once buf
write_runs block_size (suc fullruns) buf =
    write_once (take block_size buf) >> write_runs block_size fullruns (drop block_size buf)

pub write_full : List ℕ → Exec File (Unit {0})
write_full buf =
    let block_size : ℕ = 256 * 1024 * 1024 in write_runs block_size (length buf / block_size) buf

pub fwrite_little_endian32 : ℕ → Exec File (Unit {0})
fwrite_little_endian32 value = write_full (little_endian32 value)

pub fwrite_little_endian64 : ℕ → Exec File (Unit {0})
fwrite_little_endian64 value = write_full (little_endian64 value)

-- A stream opened for reading is the list of the bytes ahead. A short read uses them up.
pub fread_little_endian32 : Exec (List ℕ) ℕ
fread_little_endian32 fp =
    if leb 4 (length fp)
    then (done (from_little_endian (take 4 fp)), drop 4 fp)
    else (thrown unexpected_eof, [])

pub fread_little_endian64 : Exec (List ℕ) ℕ
fread_little_endian64 fp =
    if leb 8 (length fp)
    then (done (from_little_endian (take 8 fp)), drop 8 fp)
    else (thrown unexpected_eof, [])
