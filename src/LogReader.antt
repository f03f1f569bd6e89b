-- ===== src/LogReader.antt =====
-- The first part of src/logreader.c: an open log file.
pub mod Opened
use sparkey.Base.{
  ℕ, ◌+◌, List, [], take, length, Bool, true, false, not, ltb, ◌==◌, Option, none, some,
  if◌then◌else◌, ◌⊎◌, inl, inr,
}
use sparkey.ReturnCode.{
  Errno, open_returncode, internal_error, log_too_small, mmap_failed, log_closed,
}
use sparkey.Exec.{Outcome, done, thrown, fault}
use sparkey.LogHeader.{LogHeader, load_logheader}

abbrev pub magic_value_logreader : ℕ
magic_value_logreader = 0xe93356c4

-- `struct sparkey_logreader`. `bytes` is the memory that `data` points to, `data_len` bytes.
pub record LogReader : Type 0 where
  pub open_status : ℕ
  pub header : LogHeader
  pub data_len : ℕ
  pub bytes : List ℕ

-- What the system answers: `fopen` gives the bytes of the file or `errno`, the second `open` may fail,
-- `mmap` may fail, and so may `malloc`. `stat` gives the size of the same file.
pub record Environment : Type 0 where
  pub fopen : Errno ⊎ List ℕ
  pub open_file : Option Errno
  pub mmap : Bool
  pub malloc : Bool

abbrev contents_of : Errno ⊎ List ℕ → List ℕ
contents_of (inl e) = []
contents_of (inr contents) = contents

map_log : Bool → LogHeader → List ℕ → Outcome LogReader
map_log false header contents = thrown mmap_failed
map_log true header contents = done (record {
  open_status = magic_value_logreader;
  header = header;
  data_len = header.data_end;
  bytes = take header.data_end contents;
})

reopen : Environment → LogHeader → Option Errno → Outcome LogReader
unfolding map_log
reopen env header (some e) = thrown (open_returncode e)
reopen env header none = map_log env.mmap header (contents_of env.fopen)

open_loaded : Environment → Outcome LogHeader → Outcome LogReader
unfolding reopen
open_loaded env (thrown c) = thrown c
open_loaded env (fault x) = fault x
open_loaded env (done header) =
    if ltb (length (contents_of env.fopen)) header.data_end
    then thrown log_too_small
    else reopen env header env.open_file

-- `sparkey_logreader_open_noalloc`
pub logreader_open_noalloc : Environment → Outcome LogReader
unfolding open_loaded
logreader_open_noalloc env = open_loaded env (load_logheader env.fopen)

-- `sparkey_logreader_open`
pub logreader_open : Environment → Outcome LogReader
logreader_open env = if env.malloc then logreader_open_noalloc env else thrown internal_error

-- `sparkey_logreader_close_nodealloc`: the mapping goes away.
pub logreader_close : LogReader → LogReader
logreader_close log =
    if log.open_status == magic_value_logreader
    then record log { open_status = 0; bytes = [] }
    else log

unfoldable pub assert_log_open : LogReader → Outcome (Unit {0})
assert_log_open log =
    if log.open_status == magic_value_logreader then done tt else thrown log_closed
