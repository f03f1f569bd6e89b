-- ===== src/HashWriter/Write.antt =====
-- `sparkey_hash_write` of src/hashwriter.c.
pub mod Safe
use sparkey.Base.{
  ℕ, zero, suc, ◌+◌, ◌*◌, ◌-◌, ◌^◌, List, [], ◌∷◌, replicate, Bool, true, false, not, ◌&&◌, ◌||◌,
  ltb, leb, ◌==◌, Option, none, some, if◌then◌else◌, u64, add64, sub64, bit_or, ◌⊎◌,
}
use sparkey.ReturnCode.{Errno, ebadf, remove_returncode, internal_error, hash_size_invalid}
use sparkey.Exec.{
  Outcome, done, thrown, fault, out_of_fuel, Exec, pure, throw, lift, gets, modify, throw_if, ◌>>=◌,
  ◌>>◌,
}
use sparkey.Compress.{Codecs}
use sparkey.File.{File, WriteResult, failed, write_full}
use sparkey.HashAlgorithm.{HashAlgorithm, murmurhash32, get_hash_algorithm}
use sparkey.HashHeader.{
  HashHeader, bitmask, load_hashheader, write_hashheader, hash_major_version, hash_minor_version,
}
use sparkey.LogHeader.{LogHeader, load_logheader}
use sparkey.LogReader.{LogReader, logreader_open}
use sparkey.LogReader as LogReader
use sparkey.LogWriter.Open.{rand32, is_enoent}
use sparkey.Vlq.{unsigned_vlq_size}
use sparkey.LogIter.{
  LogIter, EntryType, entry_put, entry_delete, IterState, iter_new, iter_active, iter_closed,
  iter_invalid, logiter_create, logiter_seek, logiter_next,
}
use sparkey.HashTable.{modulo, slot_size, iter_hash}
use sparkey.HashWriter.{HashState, on_iter, int_log2, hash_put, hash_delete}
use sparkey.HashWriter.Fill.{FillEnvironment, fill_hash}
use sparkey.HashWriter.MaxDisplacement.{calculate_max_displacement}
use sparkey.HashWriter.Plan.{Plan, plan_for, start_header, old_to_copy}
use sparkey.HashWriter.Entries.{fill_table}

-- What `sparkey_logiter_create` is given for an iterator: the answers of `malloc`, and its contents.
pub record IterMemory : Type 0 where
  pub malloc_iter : Bool
  pub malloc_buf : Bool
  pub garbage : LogIter

-- What the system answers, in the order of the calls. `old_hash` is what `fopen` gives for the hash
-- file; `header` is what the header on the stack holds before it is filled in.
pub record Environment : Type 0 where
  pub log : LogReader.Environment
  pub iter : IterMemory
  pub ra_iter : IterMemory
  pub old_hash : Errno ⊎ List ℕ
  pub random : Option ℕ
  pub header : HashHeader
  pub malloc_table : Bool
  pub fill : FillEnvironment
  pub remove : Option Errno
  pub creat : Bool
  pub answers : List WriteResult

-- The hash file in the end: as it was, removed, or made anew.
pub data HashFile : Type 0 where
  untouched removed : HashFile
  created : File → HashFile

create_with : IterMemory → LogReader → Outcome LogIter
create_with m log = logiter_create m.malloc_iter m.malloc_buf m.garbage log

pub is_up_to_date : Option HashHeader → LogReader → Bool
is_up_to_date none log = false
is_up_to_date (some old) log = old.data_end == log.header.data_end

remove_failed : Option Errno → Option Errno
remove_failed none = none
remove_failed (some e) = if is_enoent e then none else some e

-- `creat`, whose failure shows at the first write only, to a descriptor that is not open.
write_file : Bool → List WriteResult → HashHeader → List ℕ → Outcome (Unit {0}) × HashFile
write_file creat answers header hashtable =
    let (r, f) = (write_hashheader header >> write_full hashtable) (record {
      contents = [];
      offset = 0;
      answers = if creat then answers else failed ebadf ∷ [];
    }) in
    (r, if creat then created f else removed)

abbrev pub stamped_header : LogHeader → HashHeader → HashHeader
stamped_header log header = record header {
  major_version = hash_major_version;
  minor_version = hash_minor_version;
  file_identifier = log.file_identifier;
  data_end = log.data_end;
}

-- The part from `remove` on.
replace_file : Environment → Option Errno → LogHeader → HashState → Outcome (Unit {0}) × HashFile
unfolding write_file
replace_file env (some e) log s = (thrown (remove_returncode e), untouched)
replace_file env none log s =
    write_file env.creat env.answers (stamped_header log s.header) s.hashtable

finish : Environment → LogHeader → Outcome (Unit {0}) × HashState → Outcome (Unit {0}) × HashFile
unfolding remove_failed replace_file
finish env log (done u, s) = replace_file env (remove_failed env.remove) log s
finish env log (thrown c, s) = (thrown c, untouched)
finish env log (fault x, s) = (fault x, untouched)

-- What is ready before the table is filled: the log and its header, the plan and the start.
pub record Ready : Type 0 where
  pub log_header : LogHeader
  pub log : LogReader
  pub start : ℕ
  pub old : Option HashHeader
  pub state : HashState

pub prepare : (times : ℕ → ℕ) → Environment → (hash_size : ℕ) → Exec (Unit {0}) Ready
unfolding create_with plan_for start_header old_to_copy
prepare times env hash_size = do
  log_header ← lift (load_logheader env.log.fopen)
  log ← lift (logreader_open env.log)
  iter ← lift (create_with env.iter log)
  ra_iter ← lift (create_with env.ra_iter log)
  plan ← plan_for times log_header env.random (load_hashheader env.old_hash)
  header ← lift (start_header log_header plan env.header hash_size)
  throw_if (not env.malloc_table) internal_error
  pure (record {
    log_header = log_header;
    log = log;
    start = plan.start;
    old = old_to_copy plan.copy_old header;
    state = record {
      header = header;
      hashtable = replicate (u64 (slot_size header * header.hash_capacity)) 0;
      iter = iter;
      ra_iter = ra_iter;
    };
  })

write_ready : Codecs → Environment → (rounds : ℕ) → Outcome Ready → Outcome (Unit {0}) × HashFile
unfolding fill_table finish is_up_to_date
write_ready codecs env rounds (thrown c) = (thrown c, untouched)
write_ready codecs env rounds (fault x) = (fault x, untouched)
write_ready codecs env rounds (done r) =
    if is_up_to_date r.old r.log
    then (done tt, untouched)
    else finish env r.log_header (fill_table codecs r.log env.fill rounds r.start r.old r.state)

-- `sparkey_hash_write`. `rounds` are those of the loop over the log: one more than there are entries.
pub hash_write :
    Codecs → (times : ℕ → ℕ) → Environment → (rounds hash_size : ℕ) → Outcome (Unit {0}) × HashFile
unfolding prepare write_ready
hash_write codecs times env rounds hash_size =
    write_ready codecs env rounds (prepare times env hash_size tt).0
