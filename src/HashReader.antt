-- ===== src/HashReader.antt =====
-- src/hashreader.c: an open hash file, and lookups.
pub mod Ends
pub mod Find
pub mod HasKey
pub mod Get
use sparkey.Base.{
  ℕ, zero, suc, ◌+◌, ◌*◌, ◌-◌, ◌^◌, List, [], length, take, drop, Bool, true, false, not, ltb, leb,
  ◌==◌, Option, none, some, ◌⊎◌, inl, inr, if◌then◌else◌, u64, add64, bit_or,
}
use sparkey.ReturnCode.{
  Errno, open_returncode, internal_error, file_identifier_mismatch, hash_header_corrupt,
  hash_too_small, mmap_failed, hash_closed,
}
use sparkey.Exec.{
  Outcome, done, thrown, fault, out_of_fuel, and_then, Exec, pure, throw, lift, gets, modify,
  throw_if, continue, ◌>>=◌, ◌>>◌,
}
use sparkey.Endian.{peek}
use sparkey.Compress.{Codecs}
use sparkey.HashAlgorithm.{hash}
use sparkey.HashHeader.{HashHeader, load_hashheader}
use sparkey.LogReader.{LogReader, logreader_open_noalloc, logreader_close}
use sparkey.LogReader as LogReader
use sparkey.LogIter.{
  LogIter, EntryType, entry_put, entry_delete, iter_invalid, IterState, is_active, logiter_seek,
  logiter_skip, logiter_next, logiter_reset,
}
use sparkey.LogIter.Chunks.{Order, below, same, above, memcmp, keychunk}
use sparkey.HashTable.{
  modulo, get_displacement, read_slot, slot_size, entry_index, block_of, iter_hash,
}

abbrev pub magic_value_hashreader : ℕ
magic_value_hashreader = 0x75103df9

-- `struct sparkey_hashreader`. `hashtable` is the mapped file behind its header.
pub record HashReader : Type 0 where
  pub open_status : ℕ
  pub header : HashHeader
  pub log : LogReader
  pub data_len : ℕ
  pub hashtable : List ℕ

-- What the system answers; the log file is opened in an environment of its own.
pub record Environment : Type 0 where
  pub malloc : Bool
  pub fopen : Errno ⊎ List ℕ
  pub log : LogReader.Environment
  pub open_file : Option Errno
  pub mmap : Bool

abbrev contents_of : Errno ⊎ List ℕ → List ℕ
contents_of (inl e) = []
contents_of (inr contents) = contents

open_failure : Option Errno → Exec (Unit {0}) (Unit {0})
open_failure none = pure tt
open_failure (some e) = throw (open_returncode e)

open_from : Environment → Exec (Unit {0}) HashReader
unfolding open_failure
open_from env = do
  throw_if (not env.malloc) internal_error
  header ← lift (load_hashheader env.fopen)
  log ← lift (logreader_open_noalloc env.log)
  throw_if (not (header.file_identifier == log.header.file_identifier)) file_identifier_mismatch
  throw_if (ltb log.header.data_end header.data_end) hash_header_corrupt
  throw_if (ltb log.header.max_key_len header.max_key_len) hash_header_corrupt
  throw_if (ltb log.header.max_value_len header.max_value_len) hash_header_corrupt
  open_failure env.open_file
  let data_len = u64 (header.header_size + header.hash_capacity * slot_size header)
  throw_if (ltb (length (contents_of env.fopen)) data_len) hash_too_small
  throw_if (not env.mmap) mmap_failed
  pure (record {
    open_status = magic_value_hashreader;
    header = header;
    log = log;
    data_len = data_len;
    hashtable = drop header.header_size (take data_len (contents_of env.fopen));
  })

pub hash_open : Environment → Outcome HashReader
unfolding open_from
hash_open env = (open_from env tt).0

-- `sparkey_hash_close`
pub hash_close : HashReader → HashReader
hash_close reader =
    let r = record reader { log = logreader_close reader.log } in
    if reader.open_status == magic_value_hashreader
    then record r { open_status = 0; hashtable = [] }
    else r

assert_reader_open : HashReader → Exec LogIter (Unit {0})
assert_reader_open reader =
    throw_if (not (reader.open_status == magic_value_hashreader)) hash_closed

abbrev invalidate : LogIter → LogIter
invalidate i = record i { state = iter_invalid }

is_put : EntryType → Bool
is_put entry_put = true
is_put entry_delete = false

is_same : Order → Bool
is_same same = true
is_same below = false
is_same above = false

abbrev pub next_slot : HashHeader → ℕ → ℕ
next_slot header slot = if leb header.hash_capacity (slot + 1) then 0 else slot + 1

abbrev pub next_pos : HashHeader → ℕ → ℕ → ℕ
next_pos header slot pos = if leb header.hash_capacity (slot + 1) then 0 else pos + slot_size header

module _ (codecs : Codecs) (reader : HashReader) where
  -- The comparison of `key`, from `pos2` on, with the key of the entry, chunk by chunk. A chunk of an
  -- entry that is not read to its end takes a byte at least.
  compare_loop : (key : List ℕ) → (fuel pos2 : ℕ) → Exec LogIter Bool
  unfolding is_same
  compare_loop key zero pos2 i = (fault out_of_fuel, i)
  compare_loop key (suc fuel) pos2 i =
      (if leb (length key) pos2 then pure true else (do
        buf2 ← keychunk codecs reader.log (length key)
        part ← lift (peek key pos2 (length buf2))
        if is_same (memcmp part buf2)
            then compare_loop key fuel (pos2 + length buf2)
            else pure false))
        i

  -- The entry at an address whose hash is that of the key: whether it has the key.
  pub has_key : (key : List ℕ) → (position : ℕ) → Exec LogIter Bool
  unfolding is_put compare_loop
  has_key key position = do
    logiter_seek codecs reader.log (block_of reader.header position)
    logiter_skip codecs reader.log (entry_index reader.header position)
    logiter_next codecs reader.log
    i ← gets (λ i. i)
    if is_put i.type
        then (if length key == i.keylen then compare_loop key (length key + 1) 0 else pure false)
        else (modify invalidate >> throw internal_error)

  has_key_if : Bool → (key : List ℕ) → (position : ℕ) → Exec LogIter Bool
  unfolding has_key
  has_key_if true key position = has_key key position
  has_key_if false key position = pure false

  -- The loop of `sparkey_hash_get`. It ends at an empty slot, or at one whose entry is nearer to its
  -- wanted slot than the key would be: a displacement is below the number of slots.
  get_loop : (key : List ℕ) → (fuel pos slot displacement hash : ℕ) → Exec LogIter (Unit {0})
  unfolding has_key_if
  get_loop key zero pos slot displacement hash i = (fault out_of_fuel, i)
  get_loop key (suc fuel) pos slot displacement hash i =
      (do
        (hash2, position2) ← lift (read_slot reader.header reader.hashtable pos)
        if position2 == 0 then modify invalidate else (do
          found ← has_key_if (hash == hash2) key position2
          if found then pure tt else (do
            other ← lift (get_displacement reader.header.hash_capacity slot hash2)
            if ltb other displacement
                then modify invalidate
                else get_loop key fuel (next_pos reader.header slot pos)
                    (next_slot reader.header slot) (displacement + 1) hash)))
        i

  -- `sparkey_hash_get`
  pub hash_get : (key : List ℕ) → Exec LogIter (Unit {0})
  unfolding assert_reader_open get_loop
  hash_get key = do
    assert_reader_open reader
    h ← lift (hash reader.header.hash_algorithm key reader.header.hash_seed)
    wanted_slot ← lift (modulo h reader.header.hash_capacity)
    get_loop key (reader.header.hash_capacity + 1) (u64 (wanted_slot * slot_size reader.header))
        wanted_slot 0 h

  -- The inner loop of `sparkey_logiter_hashnext`: whether the table points to `position`.
  pub points_loop : (fuel pos slot displacement position : ℕ) → Outcome Bool
  points_loop zero pos slot displacement position = fault out_of_fuel
  points_loop (suc fuel) pos slot displacement position =
      let rest =
        points_loop fuel (next_pos reader.header slot pos) (next_slot reader.header slot)
          (displacement + 1) position in
      and_then (read_slot reader.header reader.hashtable pos) λ s.
        if s.1 == 0
        then done false
        else if position == s.1
        then done true
        else and_then (get_displacement reader.header.hash_capacity slot s.0)
            λ other. if ltb other displacement then done false else rest

  -- Whether the table points to the put that the iterator is at.
  is_current : Exec LogIter Bool
  unfolding points_loop
  is_current = do
    i ← gets (λ i. i)
    let position =
        bit_or (u64 (i.entry_block_position * 2 ^ reader.header.entry_block_bits)) i.entry_count
    h ← iter_hash codecs reader.log reader.header
    wanted_slot ← lift (modulo h reader.header.hash_capacity)
    lift (
        points_loop (reader.header.hash_capacity + 1) (u64 (wanted_slot * slot_size reader.header))
          wanted_slot 0 position)

  -- The loop of `sparkey_logiter_hashnext`; every round moves past an entry of the log.
  hashnext_loop : ℕ → Exec LogIter (Unit {0})
  unfolding is_put is_current
  hashnext_loop zero i = (fault out_of_fuel, i)
  hashnext_loop (suc fuel) i =
      (do
        logiter_next codecs reader.log
        j ← gets (λ j. j)
        if not (is_active j.state)
            then pure tt
            else if not (is_put j.type)
            then hashnext_loop fuel
            else (do
              found ← is_current
              if found then logiter_reset codecs reader.log else hashnext_loop fuel))
        i

  -- `sparkey_logiter_hashnext`; an entry takes two bytes of a log without compression, and `rounds`
  -- bounds the entries of one with it.
  pub logiter_hashnext : (rounds : ℕ) → Exec LogIter (Unit {0})
  unfolding assert_reader_open hashnext_loop
  logiter_hashnext rounds = do assert_reader_open reader; hashnext_loop rounds
