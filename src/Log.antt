-- ===== src/Log.antt =====
-- A log file from the writer to the reader: src/logwriter.c and src/logreader.c together.
pub mod Header
pub mod Served
use sparkey.Base.{
  ℕ, zero, suc, ◌+◌, ◌^◌, ◌≤◌, ◌<◌, List, [], ◌∷◌, ◌++◌, length, take, drop, Bool, true, Option,
  none, take_all, ltb, le→ltb, drop-length-append, length-append, All, IsU32, ◌≡◌, refl, sym, ap,
  ◌∙◌, ◌⊎◌, inl, inr, arith, if◌then◌else◌,
}
use sparkey.ReturnCode.{ReturnCode}
use sparkey.Exec.{Outcome, done, thrown, fault, Exec}
use sparkey.LogHeader.{LogHeader, log_header_size, compression_none}
use sparkey.LogHeader.Write.{log_header_bytes, length-log_header_bytes}
use sparkey.LogHeader.Load.{IsValid}
use sparkey.Compress.{Codecs}
use sparkey.Entry.{Entry, encode_all, IsStorable}
use sparkey.LogWriter.{LogWriter}
use sparkey.LogWriter.Open.{new_header}
use sparkey.LogWriter.Open.Created.{IsNew}
use sparkey.LogWriter.Session.{counted_all, write_log, write_log-Ended, Ended, final_header}
use sparkey.LogReader.{LogReader, magic_value_logreader, logreader_open}
use sparkey.LogReader.Opened.{working, opened, open-header_bytes}
use sparkey.LogIter.{LogIter, fresh_iter, logiter_create}
use sparkey.LogIter.Plain.{IsPlainLog, IsFor}
use sparkey.LogIter.Next.{IsFresh}
use sparkey.LogIter.Created.{fresh_iter-IsFor, fresh_iter-IsFresh, create_plain}
use sparkey.LogIter.Scan.{read_entries, read_entries-encode_all}
use sparkey.Log.Header.{
  IsCounted, new_header-IsCounted, counted_all-IsCounted, final_header-IsValid,
}

-- A client that opens the log, creates an iterator and reads to the end. `garbage` is the memory that
-- `malloc` gives for the iterator.
read_iterator : Codecs → ℕ → LogReader → Outcome LogIter → Outcome (List Entry)
read_iterator codecs fuel log (done i) = (read_entries codecs log fuel i).0
read_iterator codecs fuel log (thrown c) = thrown c
read_iterator codecs fuel log (fault x) = fault x

read_opened : Codecs → LogIter → ℕ → Outcome LogReader → Outcome (List Entry)
unfolding read_iterator
read_opened codecs garbage fuel (done log) =
    read_iterator codecs fuel log (logiter_create true true garbage log)
read_opened codecs garbage fuel (thrown c) = thrown c
read_opened codecs garbage fuel (fault x) = fault x

pub read_log : Codecs → LogIter → ℕ → List ℕ → Outcome (List Entry)
unfolding read_opened
read_log codecs garbage fuel contents =
    read_opened codecs garbage fuel (logreader_open (working contents))

opened-IsPlainLog :
    (h : LogHeader) (rest : List ℕ)
    → h.compression_type ≡ compression_none
    → length (log_header_bytes h ++ rest) ≡ h.data_end
    → h.data_end < 2 ^ 63
    → IsPlainLog (opened h (log_header_bytes h ++ rest))
opened-IsPlainLog h rest plain sized small = record {
  is_open = refl;
  plain = plain;
  mapped = refl;
  sized = sized;
  end_u64 = small;
}

read_log-encode_all :
    (codecs : Codecs) (garbage : LogIter) (h : LogHeader) (es : List Entry)
    → All IsStorable es
    → IsValid h
    → h.compression_type ≡ compression_none
    → length (log_header_bytes h ++ encode_all es) ≡ h.data_end
    → h.data_end < 2 ^ 63
    → read_log codecs garbage (length es + 1) (log_header_bytes h ++ encode_all es) ≡ done es
unfolding read_log read_opened read_iterator
read_log-encode_all codecs garbage h es ok v plain sized small =
    let log = opened h (log_header_bytes h ++ encode_all es) in
    let l = opened-IsPlainLog h (encode_all es) plain sized small in
    let i = fresh_iter garbage log in
    let (j, e, closed) =
      read_entries-encode_all codecs log l es log_header_size i ok (fresh_iter-IsFor garbage log)
        (inl (fresh_iter-IsFresh garbage log v.sized)) (omega (arith, v.end_after_header))
        (drop-length-append (log_header_bytes h) (encode_all es) log_header_size
          (sym (length-log_header_bytes h))) in
    rw (open-header_bytes h (encode_all es) v sized, create_plain garbage log l) (ap (λ r. r.0) e)

Ended-read_log :
    (codecs : Codecs) (garbage : LogIter) (es : List Entry) (w v : LogWriter)
    → All IsStorable es
    → IsCounted w.header 0
    → log_header_size + length (encode_all es) < 2 ^ 63
    → Ended es [] w v
    → read_log codecs garbage (length es + 1) v.stream.file.contents ≡ done es
Ended-read_log codecs garbage es w v ok c small ended =
    let h = final_header es [] w in
    let start : 0 + length (encode_all es) ≡ length (encode_all es) = omega arith in
    let counts : IsCounted (counted_all es w.header) (length (encode_all es)) =
      rw start at (counted_all-IsCounted es w.header 0 c (omega arith)) in
    let sized : length (log_header_bytes h ++ encode_all es) ≡ h.data_end =
      omega
        (arith, length-append (log_header_bytes h) (encode_all es), length-log_header_bytes h) in
    let valid = final_header-IsValid (counted_all es w.header) _ counts (omega arith) in
    ap (read_log codecs garbage (length es + 1)) ended.contents
    ∙ read_log-encode_all codecs garbage h es ok valid counts.compression sized small

-- Entries are added in order to a new log without compression, whose identifier fits 32 bits, and the
-- log is flushed; then its file is opened, and an iterator reads to the end. The client reads exactly
-- the entries, in order and complete, for any storable entries that fit a file of less than 2 ^ 63
-- bytes and whatever the system answers; unless the writing returned the code of an error. Reading is
-- in a system in which every call succeeds.
pub write_log-read_log :
    (codecs : Codecs) (garbage : LogIter) (es : List Entry) (w : LogWriter)
    → All IsStorable es
    → IsNew w
    → IsU32 w.header.file_identifier
    → log_header_size + length (encode_all es) < 2 ^ 63
    → ((v : LogWriter) × (write_log codecs es w ≡ (done tt, v))
        × (read_log codecs garbage (length es + 1) v.stream.file.contents ≡ done es))
      ⊎ ((code : ReturnCode) × (v : LogWriter) × (write_log codecs es w ≡ (thrown code, v)))
unfolding new_header
write_log-read_log codecs garbage es w ok (identifier, head, plain, body) short small =
    let c : IsCounted w.header 0 = rw head (new_header-IsCounted identifier (rw head at short)) in
    elim (write_log-Ended codecs es [] w ok plain body) [
      | inr (code, v, e) ↦ inr (code, v, e)
      | inl (v, e, ended) ↦ inl (v, e, Ended-read_log codecs garbage es w v ok c small ended)
    ]
