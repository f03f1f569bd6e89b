-- ===== src/LogWriter.antt =====
-- src/logwriter.c: the writer of a log file.
pub mod Open
pub mod Plain
pub mod Flush
pub mod Session
pub mod Calm
use sparkey.Base.{
  ℕ, zero, suc, ◌+◌, ◌-◌, ◌^◌, List, [], ◌∷◌, ◌++◌, length, take, drop, Bool, true, false, not, ltb,
  leb, ◌==◌, ◌&&◌, ◌||◌, if◌then◌else◌, u64, add64,
}
use sparkey.ReturnCode.{log_closed}
use sparkey.Exec.{
  Outcome, done, thrown, fault, out_of_fuel, Exec, pure, lift, gets, modify, throw_if, within,
  continue, ◌>>=◌, ◌>>◌,
}
use sparkey.Vlq.{write_vlq}
use sparkey.File.{File, seek}
use sparkey.Buf.{
  Buf, Stream, buf_size, buf_used, buf_remaining, copy, rewind, on_file, buf_flushfile, buf_add,
}
use sparkey.LogHeader.{LogHeader, write_logheader}
use sparkey.Compress.{Codecs, compress, uses_compressor}

abbrev pub magic_value_logwriter : ℕ
magic_value_logwriter = 0x2866211b

-- `struct sparkey_logwriter`. `stream` is `file_buf` with the open file; the scratch buffer
-- `compressed` holds nothing between calls.
pub record LogWriter : Type 0 where
  pub open_status : ℕ
  pub header : LogHeader
  pub block_buf : Buf
  pub max_compressed_size : ℕ
  pub stream : Stream
  pub flushed : Bool
  pub entry_count : ℕ

abbrev pub on_stream : {A : Type 0} → Exec Stream A → Exec LogWriter A
on_stream = within (λ w. w.stream) (λ w s. record w { stream = s })

abbrev pub on_block : (Buf → Buf) → LogWriter → LogWriter
on_block f w = record w { block_buf = f w.block_buf }

abbrev pub on_header : (LogHeader → LogHeader) → LogWriter → LogWriter
on_header f w = record w { header = f w.header }

pub assert_writer_open : Exec LogWriter (Unit {0})
assert_writer_open w = throw_if (not (w.open_status == magic_value_logwriter)) log_closed w

-- `write_vlq(buf, value)` and what is taken of `buf`.
abbrev pub vlq_buf : ℕ → List ℕ
vlq_buf value = let (buf, written) = write_vlq value in take written buf

abbrev pub vlq_written : ℕ → ℕ
vlq_written value = (write_vlq value).1

-- The first lines of `flush_compressed`. `(int) max_entries_per_block` is negative from 2 ^ 31 on.
pub begin_flush : LogWriter → LogWriter
begin_flush w =
    let most = w.header.max_entries_per_block in
    let grows = leb (2 ^ 31) most || ltb most w.entry_count in
    record w {
      flushed = true;
      header = record w.header { max_entries_per_block = if grows then w.entry_count else most };
      entry_count = 0;
    }

-- The tests before an entry goes into the block buffer.
pub needs_flush : (written size : ℕ) → Buf → Bool
needs_flush written size block_buf =
    ltb (buf_remaining block_buf) written
    || (leb size (buf_size block_buf) && ltb (buf_remaining block_buf) size)

-- `*datasize`
pub datasize : ℕ → ℕ → List ℕ → List ℕ → ℕ
datasize num1 num2 data1 data2 =
    u64 (vlq_written num1 + vlq_written num2 + length data1 + length data2)

when : Bool → Exec LogWriter (Unit {0}) → Exec LogWriter (Unit {0})
when true m = m
when false m = pure tt

-- The header after a put, and after a delete.
count_put : (keylen valuelen size : ℕ) → LogHeader → LogHeader
count_put keylen valuelen size h = record h {
  num_puts = add64 h.num_puts 1;
  put_size = add64 h.put_size size;
  max_key_len = if ltb h.max_key_len keylen then keylen else h.max_key_len;
  max_value_len = if ltb h.max_value_len valuelen then valuelen else h.max_value_len;
}

count_delete : ℕ → LogHeader → LogHeader
count_delete size h = record h {
  num_deletes = add64 h.num_deletes 1;
  delete_size = add64 h.delete_size size;
}

module _ (codecs : Codecs) where
  pub flush_compressed : Exec LogWriter (Unit {0})
  flush_compressed = do
    modify begin_flush
    w ← gets (λ w. w)
    compressed ←
        lift (compress codecs w.header.compression_type w.block_buf.bytes w.max_compressed_size)
    on_stream (buf_add (vlq_buf (length compressed)))
    on_stream (buf_add compressed)
    modify (on_block rewind)

  -- The loop of `compressed_add`.
  compressed_loop : ℕ → List ℕ → Exec LogWriter (Unit {0})
  compressed_loop zero input w = (fault out_of_fuel, w)
  compressed_loop (suc fuel) input w =
      let remaining = buf_remaining w.block_buf in
      let full = on_block (copy (take remaining input)) w in
      let rest = (flush_compressed >> compressed_loop fuel (drop remaining input)) full in
      if leb (length input) remaining then (done tt, on_block (copy input) w) else rest

  -- Every round but the first takes a byte at least.
  pub compressed_add : List ℕ → Exec LogWriter (Unit {0})
  compressed_add input = compressed_loop (length input + 2) input

  add_compressed : ℕ → ℕ → List ℕ → List ℕ → Exec LogWriter (Unit {0})
  unfolding when
  add_compressed num1 num2 data1 data2 = do
    block_buf ← gets (λ w. w.block_buf)
    let written = vlq_written num1 + vlq_written num2
    when (needs_flush written (written + length data1 + length data2) block_buf) flush_compressed
    modify (λ w. record w { entry_count = w.entry_count + 1; flushed = false })
    compressed_add (vlq_buf num1)
    compressed_add (vlq_buf num2)
    compressed_add data1
    compressed_add data2
    w ← gets (λ w. w)
    when (w.flushed && ltb 0 (buf_used w.block_buf)) flush_compressed

  add_plain : ℕ → ℕ → List ℕ → List ℕ → Exec LogWriter (Unit {0})
  add_plain num1 num2 data1 data2 = do
    on_stream (buf_add (vlq_buf num1))
    on_stream (buf_add (vlq_buf num2))
    on_stream (buf_add data1)
    on_stream (buf_add data2)

  pub log_add : ℕ → ℕ → List ℕ → List ℕ → Exec LogWriter ℕ
  unfolding add_compressed add_plain
  log_add num1 num2 data1 data2 = do
    type ← gets (λ w. w.header.compression_type)
    if uses_compressor type
        then add_compressed num1 num2 data1 data2
        else add_plain num1 num2 data1 data2
    pure (datasize num1 num2 data1 data2)

  -- `sparkey_logwriter_put`; `keylen` and `valuelen` are the lengths of the two arrays.
  pub logwriter_put : List ℕ → List ℕ → Exec LogWriter (Unit {0})
  unfolding count_put
  logwriter_put key value = do
    assert_writer_open
    size ← log_add (add64 (length key) 1) (length value) key value
    modify (on_header (count_put (length key) (length value) size))

  -- `sparkey_logwriter_delete`
  pub logwriter_delete : List ℕ → Exec LogWriter (Unit {0})
  unfolding count_delete
  logwriter_delete key = do
    assert_writer_open
    size ← log_add 0 (length key) [] key
    modify (on_header (count_delete size))

  -- `sparkey_logwriter_flush`
  pub logwriter_flush : Exec LogWriter (Unit {0})
  unfolding when
  logwriter_flush = do
    assert_writer_open
    block_buf ← gets (λ w. w.block_buf)
    when (ltb 0 (buf_used block_buf)) flush_compressed
    file_buf ← gets (λ w. w.stream.buf)
    when (ltb 0 (buf_used file_buf)) (on_stream buf_flushfile)
    pos ← gets (λ w. w.stream.file.offset)
    modify (on_header (λ h. record h { data_end = pos }))
    on_stream (on_file (λ f. (done tt, seek 0 f)))
    header ← gets (λ w. w.header)
    on_stream (on_file (write_logheader header))
    on_stream (on_file (λ f. (done tt, seek pos f)))

  -- `sparkey_logwriter_close`: a writer that is not open is left alone. The memory is freed.
  close_open : Exec LogWriter (Unit {0})
  close_open = do logwriter_flush; modify (λ w. record w { open_status = 0 })

  pub logwriter_close : Exec LogWriter (Unit {0})
  unfolding when close_open
  logwriter_close w = when (w.open_status == magic_value_logwriter) close_open w
