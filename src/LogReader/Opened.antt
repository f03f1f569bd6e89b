-- ===== src/LogReader/Opened.antt =====
-- Opening a well-formed log file.
use sparkey.Base.{ℕ, List, ◌++◌, length, true, none, take_all, le→ltb, ◌≡◌, inr, arith}
use sparkey.Exec.{done}
use sparkey.LogHeader.{LogHeader}
use sparkey.LogHeader.Write.{log_header_bytes}
use sparkey.LogHeader.Load.{IsValid, load-header_bytes}
use sparkey.LogReader.{
  LogReader, Environment, magic_value_logreader, map_log, reopen, open_loaded,
  logreader_open_noalloc, logreader_open,
}

-- A system in which every call succeeds.
abbrev pub working : List ℕ → Environment
working contents = record { fopen = inr contents; open_file = none; mmap = true; malloc = true }

abbrev pub opened : LogHeader → List ℕ → LogReader
opened h contents = record {
  open_status = magic_value_logreader;
  header = h;
  data_len = h.data_end;
  bytes = contents;
}

pub open-header_bytes :
    (h : LogHeader) (rest : List ℕ)
    → IsValid h
    → length (log_header_bytes h ++ rest) ≡ h.data_end
    → logreader_open (working (log_header_bytes h ++ rest))
      ≡ done (opened h (log_header_bytes h ++ rest))
unfolding logreader_open logreader_open_noalloc open_loaded reopen map_log
open-header_bytes h rest v sized = rw (
  load-header_bytes h rest v,
  le→ltb (length (log_header_bytes h ++ rest)) h.data_end (omega (arith, sized)),
  take_all h.data_end (log_header_bytes h ++ rest) (omega (arith, sized)),
)
