-- ===== src/HashWriter/Fill.antt =====
-- `read_fully` and `fill_hash` of src/hashwriter.c: the slots of an old hash file are put into a new
-- table.
pub mod Short
use sparkey.Base.{
  ℕ, zero, suc, ◌+◌, ◌*◌, ◌-◌, List, [], ◌∷◌, ◌++◌, length, take, drop, Bool, true, false, ltb, leb,
  ◌==◌, Option, none, some, if◌then◌else◌, u64,
}
use sparkey.ReturnCode.{Errno, open_returncode, internal_error}
use sparkey.Exec.{Outcome, done, thrown, fault, out_of_fuel, Exec, throw, gets, within, ◌>>=◌, ◌>>◌}
use sparkey.Compress.{Codecs}
use sparkey.HashHeader.{HashHeader}
use sparkey.LogReader.{LogReader}
use sparkey.HashTable.{slot_size}
use sparkey.HashWriter.{HashState, hash_copy}

-- What one call of `read` answers: at most so many bytes, or an error.
pub data ReadResult : Type 0 where
  got : ℕ → ReadResult
  read_failed : ReadResult

-- A file that is read: the bytes ahead, and the answers of the coming calls; when they are used up, each
-- call gives all that is asked for, as far as the file goes.
pub record OldFile : Type 0 where
  pub ahead : List ℕ
  pub answers : List ReadResult

-- The file and the memory that it is read into.
pub record Reading : Type 0 where
  pub fd : OldFile
  pub buf : List ℕ

-- A call of `read` gave `n` bytes at most: they are stored at the start of the memory.
abbrev pub receive : ℕ → List ReadResult → Reading → Reading
receive n answers r = record {
  fd = record { ahead = drop n r.fd.ahead; answers = answers };
  buf = take n r.fd.ahead ++ drop (length (take n r.fd.ahead)) r.buf;
}

-- The loop of `read_fully`, of which `count` bytes are left. Past the end of the file `read` gives 0
-- bytes, and the loop goes on for ever.
pub read_loop : List ReadResult → (count : ℕ) → Exec Reading (Unit {0})
read_loop answers zero r = (done tt, record r { fd = record r.fd { answers = answers } })
read_loop [] (suc count) r =
    let left = suc count - length (take (suc count) r.fd.ahead) in
    (if left == 0 then done tt else fault out_of_fuel, receive (suc count) [] r)
read_loop (read_failed ∷ answers) (suc count) r =
    (thrown internal_error, record r { fd = record r.fd { answers = answers } })
read_loop (got n ∷ answers) (suc count) r =
    let given = if ltb (suc count) n then suc count else n in
    read_loop answers (suc count - length (take given r.fd.ahead)) (receive given answers r)

pub read_fully : (count : ℕ) → Exec Reading (Unit {0})
unfolding read_loop
read_fully count r = read_loop r.fd.answers count r

pub record FillState : Type 0 where
  pub hash : HashState
  pub reading : Reading

abbrev on_hash : {A : Type 0} → Exec HashState A → Exec FillState A
on_hash = within (λ s. s.hash) (λ s h. record s { hash = h })

abbrev on_reading : {A : Type 0} → Exec Reading A → Exec FillState A
on_reading = within (λ s. s.reading) (λ s r. record s { reading = r })

-- What the system answers: the `errno` of `open`, the bytes of the file, the memory of `malloc`, the
-- answers of `read`, and whether `close` succeeds.
pub record FillEnvironment : Type 0 where
  pub open_file : Option Errno
  pub contents : List ℕ
  pub malloc : Option (List ℕ)
  pub reads : List ReadResult
  pub close : Bool

module _ (codecs : Codecs) (log : LogReader) (old : HashHeader) where
  copy_part : (count : ℕ) → Exec FillState (Unit {0})
  copy_part count = do
    on_reading (read_fully count)
    buf ← gets (λ s. s.reading.buf)
    on_hash (hash_copy codecs log old (take count buf))

  -- The `while` loop, and the rest. A round takes `buffer_size` bytes, which is not 0.
  pub parts_loop : (fuel buffer_size remaining : ℕ) → Exec FillState (Unit {0})
  unfolding copy_part
  parts_loop zero buffer_size remaining s = (fault out_of_fuel, s)
  parts_loop (suc fuel) buffer_size remaining s =
      (if leb buffer_size remaining
          then (copy_part buffer_size >> parts_loop fuel buffer_size (remaining - buffer_size))
          else copy_part remaining)
        s

  -- `close` after the loop.
  closed : Bool → Outcome (Unit {0}) → Outcome (Unit {0})
  closed true r = r
  closed false (done u) = thrown internal_error
  closed false (thrown c) = thrown c
  closed false (fault x) = fault x

  fill_with : FillEnvironment → Option (List ℕ) → Exec HashState (Unit {0})
  unfolding parts_loop closed
  fill_with env none s = (thrown internal_error, s)
  fill_with env (some memory) s =
      let buffer_size = u64 (slot_size old * 1024) in
      let remaining = u64 (old.hash_capacity * slot_size old) in
      let (r, t) = parts_loop (remaining + 1) buffer_size remaining (record {
        hash = s;
        reading = record {
          fd = record { ahead = drop old.header_size env.contents; answers = env.reads };
          buf = memory;
        };
      }) in
      (closed env.close r, t.hash)

  fill_opened : FillEnvironment → Option Errno → Exec HashState (Unit {0})
  unfolding fill_with
  fill_opened env (some e) = throw (open_returncode e)
  fill_opened env none = fill_with env env.malloc

  pub fill_hash : FillEnvironment → Exec HashState (Unit {0})
  unfolding fill_opened
  fill_hash env = fill_opened env env.open_file
