-- ===== src/LogIter.antt =====
-- The iterator of src/logreader.c.
pub mod Chunks
pub mod Close
pub mod Plain
pub mod Next
pub mod Scan
pub mod Seek
pub mod Created
pub mod CutShort
use sparkey.Base.{
  ℕ, zero, suc, ◌+◌, ◌-◌, ◌^◌, ◌%◌, List, [], ◌∷◌, ◌++◌, length, take, drop, replicate, Bool, true,
  false, not, ltb, leb, ◌==◌, if◌then◌else◌, u32, add64, sub64,
}
use sparkey.ReturnCode.{
  internal_error, log_iterator_closed, log_iterator_mismatch, log_iterator_inactive,
}
use sparkey.Exec.{
  Outcome, done, thrown, fault, out_of_fuel, Exec, pure, lift, gets, modify, throw_if, continue,
  ◌>>=◌, ◌>>◌,
}
use sparkey.Endian.{peek}
use sparkey.Vlq.{read_vlq}
use sparkey.LogHeader.{LogHeader, compression_none}
use sparkey.Compress.{Codecs, decompress, uses_compressor}
use sparkey.LogReader.{LogReader, assert_log_open}

abbrev pub magic_value_logiter : ℕ
magic_value_logiter = 0xd765c8cc

pub data EntryType : Type 0 where
  entry_put entry_delete : EntryType

pub data IterState : Type 0 where
  iter_new iter_active iter_closed iter_invalid : IterState

-- `struct sparkey_logiter`. `compression_buf` is the memory from that pointer on: a part of the mapped
-- file, or the buffer of the last decompressed block. `entry_count` is the bit pattern of the int.
pub record LogIter : Type 0 where
  pub open_status : ℕ
  pub file_identifier : ℕ
  pub block_position : ℕ
  pub next_block_position : ℕ
  pub block_offset : ℕ
  pub block_len : ℕ
  pub entry_count : ℕ
  pub compression_buf : List ℕ
  pub entry_block_position : ℕ
  pub entry_block_offset : ℕ
  pub type : EntryType
  pub state : IterState
  pub keylen : ℕ
  pub valuelen : ℕ
  pub key_remaining : ℕ
  pub value_remaining : ℕ

-- The int -1.
abbrev pub minus_one : ℕ
minus_one = 2 ^ 32 - 1

abbrev pub min64 : ℕ → ℕ → ℕ
min64 a b = if ltb a b then a else b

unfoldable pub is_active : IterState → Bool
is_active iter_active = true
is_active iter_new = false
is_active iter_closed = false
is_active iter_invalid = false

-- `assert_iter_open`
pub assert_iter_open : LogReader → Exec LogIter (Unit {0})
assert_iter_open log = do
  lift (assert_log_open log)
  status ← gets (λ i. i.open_status)
  throw_if (not (status == magic_value_logiter)) log_iterator_closed
  identifier ← gets (λ i. i.file_identifier)
  throw_if (not (identifier == log.header.file_identifier)) log_iterator_mismatch

-- `sparkey_logiter_create`. `garbage` stands for the fields that the source leaves unset; the
-- Booleans are the answers of the two calls of `malloc`.
unfoldable pub fresh_iter : LogIter → LogReader → LogIter
fresh_iter garbage log = record garbage {
  open_status = magic_value_logiter;
  file_identifier = log.header.file_identifier;
  block_position = 0;
  next_block_position = log.header.header_size;
  block_offset = 0;
  block_len = 0;
  state = iter_new;
}

with_buffer : Bool → LogReader → LogIter → Outcome LogIter
with_buffer malloc_buf log i =
    if uses_compressor log.header.compression_type
    then (if malloc_buf
        then done (record i { compression_buf = replicate log.header.compression_block_size 0 })
        else thrown internal_error)
    else done i

pub logiter_create : (malloc_iter malloc_buf : Bool) → LogIter → LogReader → Outcome LogIter
unfolding fresh_iter with_buffer
logiter_create malloc_iter malloc_buf garbage log = elim (assert_log_open log) [
  | done _ ↦
      if malloc_iter
      then with_buffer malloc_buf log (fresh_iter garbage log)
      else thrown internal_error
  | thrown c ↦ thrown c
  | fault x ↦ fault x
]

module _ (codecs : Codecs) (log : LogReader) where
  -- The block at `position`, decompressed into the buffer.
  load_compressed : ℕ → Exec LogIter (Unit {0})
  load_compressed position = do
    (size, pos) ← lift (read_vlq log.bytes position)
    let compressed_size = u32 size
    let next_pos = add64 pos compressed_size
    input ← lift (peek log.bytes pos compressed_size)
    output ←
        lift (decompress codecs log.header.compression_type input log.header.compression_block_size)
    modify (λ i. record i {
      compression_buf = output ++ drop (length output) i.compression_buf;
      block_position = position;
      next_block_position = next_pos;
      block_len = length output;
    })

  load_plain : ℕ → Exec LogIter (Unit {0})
  load_plain position = modify λ i. record i {
    compression_buf = drop position log.bytes;
    block_position = position;
    next_block_position = log.header.data_end;
    block_len = sub64 log.data_len position;
  }

  pub seekblock : ℕ → Exec LogIter (Unit {0})
  unfolding load_compressed load_plain
  seekblock position = do
    modify (λ i. record i { block_offset = 0 })
    current ← gets (λ i. i.block_position)
    if current == position
        then pure tt
        else if uses_compressor log.header.compression_type
        then load_compressed position
        else load_plain position

  -- `sparkey_logiter_seek`
  pub logiter_seek : ℕ → Exec LogIter (Unit {0})
  logiter_seek position = do
    assert_iter_open log
    if position == log.header.data_end then modify (λ i. record i { state = iter_closed }) else (do
      seekblock position
      modify (λ i. record i { entry_count = minus_one; state = iter_new }))

  pub ensure_available : Exec LogIter (Unit {0})
  ensure_available i =
      if ltb i.block_offset i.block_len
      then (done tt, i)
      else if leb log.header.data_end i.next_block_position
      then (done tt, record i { block_position = 0; block_offset = 0; block_len = 0 })
      else (seekblock i.next_block_position >> modify (λ j. record j { entry_count = minus_one })) i

  -- The loop of `skip`, with the rounds it may take.
  pub skip_loop : ℕ → ℕ → Exec LogIter (Unit {0})
  skip_loop fuel zero i = (done tt, i)
  skip_loop zero (suc len) i = (fault out_of_fuel, i)
  skip_loop (suc fuel) (suc len) i =
      (do
        ensure_available
        j ← gets (λ j. j)
        let m = min64 (suc len) (sub64 j.block_len j.block_offset)
        modify (λ j. record j { block_offset = add64 j.block_offset m })
        skip_loop fuel (suc len - m))
        i

  -- Every round skips a byte or loads a block, and a block takes a byte of the file at least; past the
  -- last block no further round makes progress.
  pub skip : ℕ → Exec LogIter (Unit {0})
  skip len = skip_loop (len + length log.bytes + 1) len

  -- The part of `sparkey_logiter_next` up to the first return after the asserts.
  begin_next : LogIter → LogIter
  begin_next i = record i {
    state = iter_invalid;
    key_remaining = 0;
    value_remaining = 0;
    keylen = 0;
    valuelen = 0;
  }

  -- Without compression each entry becomes a block of its own.
  pub rebase : LogIter → LogIter
  rebase i =
      if log.header.compression_type == compression_none
      then (let position = add64 i.block_position i.block_offset in
          record i {
            block_position = position;
            block_len = sub64 i.block_len i.block_offset;
            block_offset = 0;
            compression_buf = drop position log.bytes;
            entry_count = minus_one;
          })
      else i

  -- `read_vlq(iter->compression_buf, &iter->block_offset)`
  read_length : Exec LogIter ℕ
  read_length = do
    i ← gets (λ i. i)
    (value, offset) ← lift (read_vlq i.compression_buf i.block_offset)
    modify (λ i. record i { block_offset = offset })
    pure value

  set_lengths : ℕ → ℕ → LogIter → LogIter
  set_lengths zero b i = record i {
    keylen = b;
    key_remaining = b;
    valuelen = 0;
    value_remaining = 0;
    type = entry_delete;
  }
  set_lengths (suc a) b i = record i {
    keylen = a;
    key_remaining = a;
    valuelen = b;
    value_remaining = b;
    type = entry_put;
  }

  pub read_entry : Exec LogIter (Unit {0})
  unfolding rebase read_length set_lengths
  read_entry = do
    modify rebase
    modify (λ i. record i { entry_count = u32 (i.entry_count + 1) })
    a ← read_length
    b ← read_length
    modify (set_lengths a b)
    modify (λ i. record i {
      entry_block_position = i.block_position;
      entry_block_offset = i.block_offset;
      state = iter_active;
    })

  end_of_data : LogIter → Bool
  end_of_data i = sub64 i.block_len i.block_offset == 0

  next_open : (key_remaining value_remaining : ℕ) → Exec LogIter (Unit {0})
  unfolding begin_next read_entry end_of_data
  next_open key_remaining value_remaining = do
    modify begin_next
    assert_iter_open log
    skip key_remaining
    skip value_remaining
    ensure_available
    i ← gets (λ i. i)
    if end_of_data i then modify (λ i. record i { state = iter_closed }) else read_entry

  next_from : IterState → Exec LogIter (Unit {0})
  next_from iter_closed i = (done tt, i)
  next_from iter_active i = next_open i.key_remaining i.value_remaining i
  next_from iter_new i = next_open 0 0 i
  next_from iter_invalid i = next_open 0 0 i

  -- `sparkey_logiter_next`
  pub logiter_next : Exec LogIter (Unit {0})
  unfolding next_open next_from
  logiter_next i = next_from i.state i

  -- `sparkey_logiter_reset`
  pub logiter_reset : Exec LogIter (Unit {0})
  logiter_reset = do
    i ← gets (λ i. i)
    throw_if (not (is_active i.state)) log_iterator_inactive
    seekblock i.entry_block_position
    modify (λ i. record i {
      key_remaining = i.keylen;
      value_remaining = i.valuelen;
      block_offset = i.entry_block_offset;
    })

  -- `sparkey_logiter_skip`
  pub logiter_skip : ℕ → Exec LogIter (Unit {0})
  logiter_skip zero = pure tt
  logiter_skip (suc count) = logiter_next >> logiter_skip count
