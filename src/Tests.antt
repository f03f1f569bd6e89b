-- ===== src/Tests.antt =====
-- Concrete runs: a put, a delete and an empty put, in a log without compression.
use sparkey.Base.{
  ℕ, ◌+◌, ◌≤◌, List, [], ◌∷◌, ◌++◌, length, length-append, drop-length-append, sym, none, some,
  true, All, ◌≡◌, refl, ◌⊎◌, inl, inr, arith,
}
use sparkey.ReturnCode.{ReturnCode, eintr, enoent}
use sparkey.Exec.{fault, out_of_fuel, done, thrown}
use sparkey.Vlq.{write_vlq, read_vlq, unsigned_vlq_size}
use sparkey.Vlq.Format.{vlq, groups, write_vlq-vlq}
use sparkey.Vlq.Size.{length-vlq}
use sparkey.Vlq.RoundTrip.{read_vlq-vlq}
use sparkey.File.{WriteResult, write_failure, accept, wrote, failed, write_full}
use sparkey.File.Quiet.{write_full_returns}
use sparkey.File.Write.{Transfers, write_full-Transfers, Writes}
use sparkey.Buf.{Stream, buf_add}
use sparkey.Buf.Add.{Adds, buf_add-Adds}
use sparkey.LogHeader.{LogHeader, compression_none, load_logheader, write_logheader}
use sparkey.LogHeader.Write.{log_header_bytes, write_logheader-Writes, length-log_header_bytes}
use sparkey.LogHeader.Load.{IsValid, load-header_bytes, IsConsistent, load-IsConsistent}
use sparkey.Compress.{Codecs}
use sparkey.Entry.{Entry, put, delete, encode, encode_all, IsStorable}
use sparkey.LogWriter.{LogWriter, logwriter_flush}
use sparkey.LogWriter.Open.{Environment, new_header, new_writer, logwriter_create}
use sparkey.LogWriter.Open.Created.{IsNew, create-IsNew, buffered, buffered-IsNew, headed}
use sparkey.LogWriter.Plain.{Appends, counted, add_entry, add_entry-Appends}
use sparkey.LogWriter.Flush.{Flushed, flush-Flushed}
use sparkey.LogWriter.Session.{write_log, write_log-Ended, Ended}
use sparkey.LogReader.{LogReader}
use sparkey.LogReader.Opened.{opened}
use sparkey.LogIter.{skip_loop, LogIter, iter_new, iter_closed, entry_put, fresh_iter}
use sparkey.LogIter.Close.{logiter_close}
use sparkey.LogIter.Plain.{IsPlainLog}
use sparkey.LogIter.Created.{fresh_iter-IsFor, fresh_iter-IsFresh}
use sparkey.LogIter.CutShort.{skip_loop_never_ends}
use sparkey.LogIter.Scan.{read_entries, read_entries-encode_all}
use sparkey.LogWriter.Open.Friendly.{friendly}
use sparkey.FileName.{index_ending, log_ending, create_log_filename, create_index_filename}
use sparkey.FileName.Pair.{IsOther, create_log_filename-create_index_filename}
use sparkey.Log.Served.{write_log-returns, create-write_log-read_log}
use sparkey.Log.{read_log, write_log-read_log}

-- Codecs that fail.
abbrev no_codecs : Codecs
no_codecs = record {
  snappy_max_compressed_length = λ n. n;
  snappy_compress = λ input size. none;
  snappy_uncompress = λ input size. none;
  zstd_compress_bound = λ n. n;
  zstd_compress = λ input size level. none;
  zstd_decompress = λ input size. none;
}

abbrev entries : List Entry
entries = put (1 ∷ 2 ∷ []) (3 ∷ []) ∷ delete (1 ∷ 2 ∷ []) ∷ put [] [] ∷ []

entries-IsStorable : All IsStorable entries
entries-IsStorable = omega arith

abbrev garbage : LogIter
garbage = record {
  open_status = 5;
  file_identifier = 5;
  block_position = 5;
  next_block_position = 5;
  block_offset = 5;
  block_len = 5;
  entry_count = 5;
  compression_buf = [];
  entry_block_position = 5;
  entry_block_offset = 5;
  type = entry_put;
  state = iter_new;
  keylen = 5;
  valuelen = 5;
  key_remaining = 5;
  value_remaining = 5;
}

-- A new writer, whose first write takes one byte only and whose second is interrupted.
abbrev pub writer : LogWriter
writer = buffered true (new_header 7 compression_none 0) (wrote 1 ∷ failed eintr ∷ [])

writer-IsNew : IsNew writer
writer-IsNew = buffered-IsNew true 7 (wrote 1 ∷ failed eintr ∷ [])

size_of_entries : length (encode_all entries) ≡ 11
unfolding groups
size_of_entries = refl

write_log-read_log_example :
    ((v : LogWriter) × (write_log no_codecs entries writer ≡ (done tt, v))
      × (read_log no_codecs garbage 4 v.stream.file.contents ≡ done entries))
    ⊎ ((code : ReturnCode) × (v : LogWriter) × (write_log no_codecs entries writer
          ≡ (thrown code, v)))
unfolding buffered new_writer new_header
write_log-read_log_example =
    write_log-read_log no_codecs garbage entries writer entries-IsStorable writer-IsNew
      (omega arith) (omega (arith, size_of_entries))

write_log-Ended_example :
    ((v : LogWriter) × (write_log no_codecs entries writer ≡ (done tt, v))
      × Ended entries [] writer v)
    ⊎ ((code : ReturnCode) × (v : LogWriter) × (write_log no_codecs entries writer
          ≡ (thrown code, v)))
write_log-Ended_example =
    write_log-Ended no_codecs entries [] writer entries-IsStorable writer-IsNew.2 writer-IsNew.3

add_entry-Appends_example :
    Appends
      (encode (delete (4 ∷ [])))
      (counted (delete (4 ∷ [])))
      writer
      (add_entry no_codecs (delete (4 ∷ [])) writer)
add_entry-Appends_example =
    add_entry-Appends no_codecs (delete (4 ∷ [])) writer (omega arith) writer-IsNew.2

flush-Flushed_example :
    ((v : LogWriter) × (logwriter_flush no_codecs writer ≡ (done tt, v)) × Flushed writer v)
    ⊎ ((code : ReturnCode) × (v : LogWriter) × (logwriter_flush no_codecs writer
          ≡ (thrown code, v)))
flush-Flushed_example = flush-Flushed no_codecs writer writer-IsNew.2

abbrev environment : Environment
environment = record {
  malloc_log = true;
  malloc_compressed = true;
  malloc_file_buf = true;
  malloc_block_buf = true;
  remove = some enoent;
  open_file = none;
  random = some 7;
  answers = wrote 3 ∷ failed eintr ∷ [];
  unset_flushed = true;
}

create-IsNew_example :
    ((w : LogWriter) × (logwriter_create no_codecs environment compression_none 0 ≡ done w)
      × IsNew w)
    ⊎ ((code : ReturnCode) × (logwriter_create no_codecs environment compression_none 0
          ≡ thrown code))
create-IsNew_example = create-IsNew no_codecs environment 0

-- A file in the middle of which a buffer of two bytes stands.
abbrev stream : Stream
stream = record {
  buf = record { capacity = 2; bytes = 9 ∷ [] };
  file = record { contents = 1 ∷ 2 ∷ 3 ∷ []; offset = 1; answers = failed eintr ∷ wrote 1 ∷ [] };
}

buf_add-Adds_example :
    Adds (4 ∷ 5 ∷ 6 ∷ 7 ∷ 8 ∷ []) stream (buf_add (4 ∷ 5 ∷ 6 ∷ 7 ∷ 8 ∷ []) stream)
buf_add-Adds_example =
    buf_add-Adds (4 ∷ 5 ∷ 6 ∷ 7 ∷ 8 ∷ []) stream
      (record { room = omega arith; within_capacity = omega arith; placed = omega arith })

write_full-Transfers_example :
    Transfers (4 ∷ 5 ∷ 6 ∷ []) stream.file (write_full (4 ∷ 5 ∷ 6 ∷ []) stream.file)
write_full-Transfers_example = write_full-Transfers (4 ∷ 5 ∷ 6 ∷ []) stream.file (omega arith)

-- The header of a log of 100 bytes with a put and a delete.
abbrev header : LogHeader
header = record {
  major_version = 1;
  minor_version = 0;
  file_identifier = 0xfedcba98;
  num_puts = 1;
  num_deletes = 1;
  data_end = 100;
  max_key_len = 2;
  max_value_len = 3;
  delete_size = 4;
  compression_type = 2;
  compression_block_size = 4096;
  put_size = 12;
  header_size = 84;
  max_entries_per_block = 2;
}

header_valid : IsValid header
header_valid = record {
  major = refl;
  minor = refl;
  sized = refl;
  identifier = omega arith;
  end_u64 = omega arith;
  key_u64 = omega arith;
  value_u64 = omega arith;
  delete_u64 = omega arith;
  put_u64 = omega arith;
  block_u32 = omega arith;
  entries_u32 = omega arith;
  end_after_header = omega arith;
  puts_in = omega arith;
  deletes_in = omega arith;
  compression = omega arith;
}

load-header_bytes_example :
    load_logheader (inr (log_header_bytes header ++ (7 ∷ 8 ∷ []))) ≡ done header
load-header_bytes_example = load-header_bytes header (7 ∷ 8 ∷ []) header_valid

load-IsConsistent_example : IsConsistent header
load-IsConsistent_example =
    load-IsConsistent (log_header_bytes header ++ (7 ∷ 8 ∷ [])) header load-header_bytes_example

write_vlq-vlq_example : write_vlq 300 ≡ (vlq 300, length (vlq 300))
write_vlq-vlq_example = write_vlq-vlq 300 (omega arith)

vlq_bytes : vlq 300 ≡ 172 ∷ 2 ∷ []
unfolding groups
vlq_bytes = refl

length-vlq_example : length (vlq 300) ≡ unsigned_vlq_size 300
length-vlq_example = length-vlq 300 (omega arith)

read_vlq-vlq_example : read_vlq (9 ∷ (vlq 300 ++ (8 ∷ []))) 1 ≡ done (300, 1 + length (vlq 300))
unfolding groups
read_vlq-vlq_example =
    read_vlq-vlq 300 1 (9 ∷ (vlq 300 ++ (8 ∷ []))) (8 ∷ []) (omega arith) refl (omega arith)

-- The file that a client leaves, as a log reader opens it.
abbrev log : LogReader
log =
    opened (record header { data_end = 95; compression_type = 0 })
      (log_header_bytes header ++ encode_all entries)

log_size : length log.bytes ≡ 95
log_size = omega (
  arith,
  length-append (log_header_bytes header) (encode_all entries),
  length-log_header_bytes header,
  size_of_entries,
)

log_plain : IsPlainLog log
log_plain = record {
  is_open = refl;
  plain = refl;
  mapped = refl;
  sized = log_size;
  end_u64 = omega arith;
}

read_entries-encode_all_example :
    (j : LogIter) × (read_entries no_codecs log 4 (fresh_iter garbage log) ≡ (done entries, j))
    × (j.state ≡ iter_closed)
read_entries-encode_all_example =
    read_entries-encode_all no_codecs log log_plain entries 84 (fresh_iter garbage log)
      entries-IsStorable (fresh_iter-IsFor garbage log) (inl (fresh_iter-IsFresh garbage log refl))
      (omega arith)
      (drop-length-append (log_header_bytes header) (encode_all entries) 84
        (sym (length-log_header_bytes header)))

write_logheader-Writes_example : Writes (log_header_bytes header) (write_logheader header)
write_logheader-Writes_example = write_logheader-Writes header

-- An iterator at the end of that log.
abbrev at_end : LogIter
at_end = record garbage { block_offset = 5; block_len = 5; next_block_position = 95 }

skip_loop_never_ends_example : (skip_loop no_codecs log 1000 3 at_end).0 ≡ fault out_of_fuel
skip_loop_never_ends_example =
    skip_loop_never_ends no_codecs log 1000 2 at_end (omega arith) (omega arith)

write_full_returns_example :
    (left : List WriteResult) × (write_full (4 ∷ 5 ∷ 6 ∷ []) stream.file
      ≡ (done tt, record (accept stream.file (4 ∷ 5 ∷ 6 ∷ [])) { answers = left }))
unfolding write_failure
write_full_returns_example =
    write_full_returns (4 ∷ 5 ∷ 6 ∷ []) stream.file (omega arith) (refl, (tt, tt))

write_log-returns_example :
    (v : LogWriter) × (write_log no_codecs entries writer ≡ (done tt, v))
    × (read_log no_codecs garbage 4 v.stream.file.contents ≡ done entries)
unfolding buffered new_writer new_header headed write_failure
write_log-returns_example =
    write_log-returns no_codecs garbage entries writer entries-IsStorable writer-IsNew
      (tt, (refl, tt)) (omega arith) (omega (arith, size_of_entries))

create-write_log-read_log_example :
    (w v : LogWriter) × (logwriter_create no_codecs
        (friendly 7 true (wrote 3 ∷ failed eintr ∷ []))
        compression_none
        0
      ≡ done w)
    × (write_log no_codecs entries w ≡ (done tt, v))
    × (read_log no_codecs garbage 4 v.stream.file.contents ≡ done entries)
unfolding write_failure
create-write_log-read_log_example =
    create-write_log-read_log no_codecs garbage entries 7 true (wrote 3 ∷ failed eintr ∷ [])
      entries-IsStorable (tt, (refl, tt)) (omega arith) (omega (arith, size_of_entries))

-- "a.spi"
create_log_filename-create_index_filename_example :
    ((base : List ℕ) × (97 ∷ index_ending ≡ base ++ index_ending)
      × (length (97 ∷ index_ending) ≤ 10000)
      × (create_log_filename true (some (97 ∷ index_ending)) ≡ some (base ++ log_ending))
      × (create_index_filename true (some (base ++ log_ending)) ≡ some (97 ∷ index_ending)))
    ⊎ (IsOther index_ending (97 ∷ index_ending)
        × (create_log_filename true (some (97 ∷ index_ending)) ≡ none))
create_log_filename-create_index_filename_example =
    create_log_filename-create_index_filename (97 ∷ index_ending)

close_open : logiter_close (some (record garbage { open_status = 0xd765c8cc })) ≡ none
unfolding logiter_close
close_open = refl

close_not_open : logiter_close (some garbage) ≡ some garbage
unfolding logiter_close
close_not_open = refl
