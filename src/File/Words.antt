-- ===== src/File/Words.antt =====
-- Words written to a file and read back from a stream.
use sparkey.Base.{
  ap, ◌*◌, [], ◌∷◌, ◌/◌, ℕ, List, ◌++◌, length, le→leb, length-append, take-length-append,
  drop-length-append, IsU32, IsU64, ◌≡◌, sym, arith,
}
use sparkey.Exec.{done, thrown}
use sparkey.Endian.{little_endian32, little_endian64}
use sparkey.Endian.RoundTrip.{
  from-little_endian32, from-little_endian64, length-little_endian32, length-little_endian64,
}
use sparkey.ReturnCode.{ebadf, file_closed}
use sparkey.File.{
  failed, fwrite_little_endian32, fwrite_little_endian64, fread_little_endian32,
  fread_little_endian64,
}
use sparkey.File.Write.{Writes, Writes-then, Writes-last, write_full-Writes, write_full-closed}

pub fwrite32-Writes : (v : ℕ) → Writes (little_endian32 v) (fwrite_little_endian32 v)
unfolding fwrite_little_endian32
fwrite32-Writes v = write_full-Writes (little_endian32 v)

pub fwrite64-Writes : (v : ℕ) → Writes (little_endian64 v) (fwrite_little_endian64 v)
unfolding fwrite_little_endian64
fwrite64-Writes v = write_full-Writes (little_endian64 v)

pub ruleset write_rules = (fwrite32-Writes, fwrite64-Writes, Writes-then, Writes-last)

-- A reader takes exactly the bytes that the writer of the same width wrote.
pub fread32-little_endian32 :
    (v : ℕ) (rest : List ℕ)
    → IsU32 v
    → fread_little_endian32 (little_endian32 v ++ rest) ≡ (done v, rest)
unfolding fread_little_endian32
fread32-little_endian32 v rest h =
    let l = length-little_endian32 v in
    rw (
      le→leb 4 (length (little_endian32 v ++ rest))
          (omega (arith, length-append (little_endian32 v) rest, l)),
      take-length-append (little_endian32 v) rest 4 (sym l),
      drop-length-append (little_endian32 v) rest 4 (sym l),
      from-little_endian32 v h,
    )

pub fread64-little_endian64 :
    (v : ℕ) (rest : List ℕ)
    → IsU64 v
    → fread_little_endian64 (little_endian64 v ++ rest) ≡ (done v, rest)
unfolding fread_little_endian64
fread64-little_endian64 v rest h =
    let l = length-little_endian64 v in
    rw (
      le→leb 8 (length (little_endian64 v ++ rest))
          (omega (arith, length-append (little_endian64 v) rest, l)),
      take-length-append (little_endian64 v) rest 8 (sym l),
      drop-length-append (little_endian64 v) rest 8 (sym l),
      from-little_endian64 v h,
    )

-- The first write to a descriptor that is not open fails.
pub fwrite32-closed :
    (v : ℕ) (contents : List ℕ) (offset : ℕ)
    → fwrite_little_endian32 v
        (record { contents = contents; offset = offset; answers = failed ebadf ∷ [] })
      ≡ (thrown file_closed, record { contents = contents; offset = offset; answers = [] })
unfolding fwrite_little_endian32
fwrite32-closed v contents offset =
    write_full-closed (little_endian32 v) contents offset (omega (arith, length-little_endian32 v))
      (ap (λ n. n / (256 * 1024 * 1024)) (length-little_endian32 v))
