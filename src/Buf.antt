-- ===== src/Buf.antt =====
-- src/buf.c: a write buffer in front of a file.
pub mod Add
pub mod Calm
use sparkey.Base.{
  ℕ, zero, suc, ◌+◌, ◌-◌, List, [], ◌∷◌, ◌++◌, length, take, drop, Bool, true, false, leb,
  if◌then◌else◌,
}
use sparkey.ReturnCode.{internal_error}
use sparkey.Exec.{
  Outcome, done, thrown, fault, out_of_fuel, Exec, gets, modify, within, continue, ◌>>=◌, ◌>>◌,
}
use sparkey.File.{File, write_full}

-- `sparkey_buf`: `capacity` is `end - start`, and `bytes` is what stands from `start` to `cur`.
pub record Buf : Type 0 where
  pub capacity : ℕ
  pub bytes : List ℕ

-- The Boolean is the answer of `malloc`.
pub buf_init : Bool → ℕ → Outcome Buf
buf_init true size = done (record { capacity = size; bytes = [] })
buf_init false size = thrown internal_error

abbrev pub buf_size : Buf → ℕ
buf_size buf = buf.capacity

abbrev pub buf_used : Buf → ℕ
buf_used buf = length buf.bytes

abbrev pub buf_remaining : Buf → ℕ
buf_remaining buf = buf.capacity - length buf.bytes

-- `memcpy(buf->cur, data, len); buf->cur += len;`
abbrev pub copy : List ℕ → Buf → Buf
copy input buf = record buf { bytes = buf.bytes ++ input }

-- `buf->cur = buf->start;`
abbrev pub rewind : Buf → Buf
rewind buf = record buf { bytes = [] }

-- A buffer with the file that it is flushed to.
pub record Stream : Type 0 where
  pub buf : Buf
  pub file : File

abbrev pub on_file : {A : Type 0} → Exec File A → Exec Stream A
on_file = within (λ s. s.file) (λ s f. record s { file = f })

abbrev pub on_buf : (Buf → Buf) → Stream → Stream
on_buf f s = record s { buf = f s.buf }

pub buf_flushfile : Exec Stream (Unit {0})
buf_flushfile = do used ← gets (λ s. s.buf.bytes); on_file (write_full used); modify (on_buf rewind)

-- The loop of `buf_add`.
add_loop : ℕ → List ℕ → Exec Stream (Unit {0})
add_loop zero input s = (fault out_of_fuel, s)
add_loop (suc fuel) input s =
    let remaining = buf_remaining s.buf in
    let full = on_buf (copy (take remaining input)) s in
    let rest = (buf_flushfile >> add_loop fuel (drop remaining input)) full in
    if leb (length input) remaining then (done tt, on_buf (copy input) s) else rest

-- Every round but the first takes a byte at least.
pub buf_add : List ℕ → Exec Stream (Unit {0})
buf_add input = add_loop (length input + 2) input
