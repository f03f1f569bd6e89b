-- ===== src/Log/Served.antt =====
-- A log from the writer to the reader, where the system never fails for good.
use sparkey.Base.{ℕ, ◌+◌, ◌^◌, ◌<◌, List, length, All, Bool, IsU32, ◌≡◌, inl, inr}
use sparkey.Exec.{done}
use sparkey.Exec.Calm.{not_thrown}
use sparkey.File.{WriteResult}
use sparkey.File.Quiet.{IsRetried}
use sparkey.LogHeader.{log_header_size, compression_none}
use sparkey.Compress.{Codecs}
use sparkey.Entry.{Entry, encode_all, IsStorable}
use sparkey.Buf.Calm.{IsServed}
use sparkey.LogWriter.{LogWriter}
use sparkey.LogWriter.Open.{logwriter_create, new_header, new_writer}
use sparkey.LogWriter.Open.Created.{IsNew, buffered, buffered-IsNew, headed, empty_file}
use sparkey.LogWriter.Open.Friendly.{friendly, create_friendly}
use sparkey.LogWriter.Session.{write_log}
use sparkey.LogWriter.Calm.{IsServing, write_log-IsCalm}
use sparkey.LogIter.{LogIter}
use sparkey.Log.{read_log, write_log-read_log}

module _ (codecs : Codecs) (garbage : LogIter) (es : List Entry) where
  -- A new log without compression, on a system whose answers to `write` are that some bytes were taken,
  -- or errors that are to be tried again: entries are added in order and the log is flushed, and no call
  -- fails; then its file is opened, and an iterator that reads to the end gives exactly the entries, in
  -- order and complete. The entries are storable and fit a file of less than 2 ^ 63 bytes, the
  -- identifier fits 32 bits, and reading is in a system in which every call succeeds.
  pub write_log-returns :
      (w : LogWriter)
      → All IsStorable es
      → IsNew w
      → IsServed w.stream
      → IsU32 w.header.file_identifier
      → log_header_size + length (encode_all es) < 2 ^ 63
      → (v : LogWriter) × (write_log codecs es w ≡ (done tt, v))
        × (read_log codecs garbage (length es + 1) v.stream.file.contents ≡ done es)
  write_log-returns w ok new served short small =
      let plain = new.2 in
      elim (write_log-read_log codecs garbage es w ok new short small) [
        | inl r ↦ r
        | inr (code, v, e) ↦
            elim (not_thrown IsServing _ code v
              (write_log-IsCalm codecs es w (record {
                is_open = plain.is_open;
                plain = plain.plain;
                no_block = plain.no_block;
                served = served;
              }))
              e) [ ]
      ]

  -- A log without compression from `sparkey_logwriter_create` on: entries are added in order and the log
  -- is flushed, and no call fails; then its file is opened, and an iterator that reads to the end gives
  -- exactly the entries, in order and complete. There is memory, the file can be made and there was none
  -- before, and the answers to `write` are that some bytes were taken, or errors that are to be tried
  -- again. The entries are storable and fit a file of less than 2 ^ 63 bytes, the identifier fits 32
  -- bits, and reading is in a system in which every call succeeds.
  pub create-write_log-read_log :
      (identifier : ℕ) (unset : Bool) (answers : List WriteResult)
      → All IsStorable es
      → All IsRetried answers
      → IsU32 identifier
      → log_header_size + length (encode_all es) < 2 ^ 63
      → (w v : LogWriter) × (logwriter_create codecs
            (friendly identifier unset answers)
            compression_none
            0
          ≡ done w)
        × (write_log codecs es w ≡ (done tt, v))
        × (read_log codecs garbage (length es + 1) v.stream.file.contents ≡ done es)
  unfolding buffered new_writer headed empty_file new_header
  create-write_log-read_log identifier unset answers ok served short small =
      let (left, e, still) = create_friendly codecs identifier 0 unset answers served in
      let w = buffered unset (new_header identifier compression_none 0) left in
      let (v, wrote, read) =
        write_log-returns w ok (buffered-IsNew unset identifier left) still short small in
      (w, v, e, wrote, read)
