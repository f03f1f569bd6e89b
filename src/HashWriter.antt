-- ===== src/HashWriter.antt =====
-- The hash table while it is written: src/hashwriter.c.
pub mod MaxDisplacement
pub mod Counts
pub mod Putting
pub mod Put
pub mod Fill
pub mod Remove
pub mod SameKey
pub mod Asks
pub mod Compare
pub mod PutAsked
pub mod PutKey
pub mod Full
pub mod Copy
pub mod DeleteAsked
pub mod Delete
pub mod Indexed
pub mod KeyMap
pub mod Build
pub mod Plan
pub mod Entries
pub mod Write
use sparkey.Base.{
  ℕ, zero, suc, ◌+◌, ◌*◌, ◌-◌, ◌/◌, ◌%◌, ◌^◌, List, [], length, drop, Bool, true, false, not, ◌&&◌,
  ◌||◌, ltb, leb, ◌==◌, Option, none, some, if◌then◌else◌, add64, sub64, u64, bit_or,
}
use sparkey.ReturnCode.{internal_error}
use sparkey.Exec.{
  Outcome, done, thrown, fault, out_of_fuel, Exec, pure, throw, lift, gets, modify, throw_if,
  within, continue, ◌>>=◌, ◌>>◌,
}
use sparkey.Vlq.{unsigned_vlq_size}
use sparkey.Compress.{Codecs}
use sparkey.HashHeader.{HashHeader}
use sparkey.LogHeader.{LogHeader}
use sparkey.LogReader.{LogReader}
use sparkey.LogIter.{
  LogIter, EntryType, entry_put, entry_delete, logiter_seek, logiter_skip, logiter_next,
  logiter_reset,
}
use sparkey.LogIter.Chunks.{Order, below, same, above, keycmp}
use sparkey.HashTable.{
  modulo, get_displacement, read_slot, write_slot, slot_size, entry_index, block_of,
}

-- `int_log2`; a uint32_t has 32 bits, so that many rounds are enough.
int_log2_loop : (fuel x count : ℕ) → ℕ
int_log2_loop zero x count = count
int_log2_loop (suc fuel) x count =
    let rest = int_log2_loop fuel (x / 2) (count + 1) in if ltb 0 x then rest else count

unfoldable pub int_log2 : ℕ → ℕ
unfolding int_log2_loop
int_log2 x = int_log2_loop 32 x 0

pub added_entry : HashHeader → HashHeader
added_entry h = record h { num_entries = add64 h.num_entries 1 }

-- The bytes of a put, as the writer of the hash counts them.
put_size : (keylen valuelen : ℕ) → ℕ
put_size keylen valuelen =
    u64 (keylen + valuelen + unsigned_vlq_size (add64 keylen 1) + unsigned_vlq_size valuelen)

pub replaced_entry : (keylen valuelen : ℕ) → HashHeader → HashHeader
unfolding put_size
replaced_entry keylen valuelen h = record h {
  garbage_size = add64 h.garbage_size (put_size keylen valuelen);
}

pub deleted_entry : (keylen valuelen : ℕ) → HashHeader → HashHeader
unfolding put_size
deleted_entry keylen valuelen h = record h {
  garbage_size = add64 h.garbage_size (put_size keylen valuelen);
  num_entries = sub64 h.num_entries 1;
}

-- What `sparkey_hash_write` hands to its helpers: the header, the table and the two iterators.
pub record HashState : Type 0 where
  pub header : HashHeader
  pub hashtable : List ℕ
  pub iter : LogIter
  pub ra_iter : LogIter

abbrev pub on_iter : {A : Type 0} → Exec LogIter A → Exec HashState A
on_iter = within (λ s. s.iter) (λ s i. record s { iter = i })

abbrev pub on_ra_iter : {A : Type 0} → Exec LogIter A → Exec HashState A
on_ra_iter = within (λ s. s.ra_iter) (λ s i. record s { ra_iter = i })

abbrev pub on_iters : {A : Type 0} → Exec (LogIter × LogIter) A → Exec HashState A
on_iters = within (λ s. (s.iter, s.ra_iter)) (λ s p. record s { iter = p.0; ra_iter = p.1 })

is_put : EntryType → Bool
is_put entry_put = true
is_put entry_delete = false

if_same : Order → ℕ × ℕ → Option (ℕ × ℕ)
if_same same lens = some lens
if_same below lens = none
if_same above lens = none

abbrev pub store : (pos h position : ℕ) → Exec HashState (Unit {0})
store pos h position = do
  s ← gets (λ s. s)
  t ← lift (write_slot s.header pos h position s.hashtable)
  modify (λ s. record s { hashtable = t })

-- The slot after `slot`, and its place.
abbrev pub next_slot : HashHeader → ℕ → ℕ
next_slot header slot = if leb header.hash_capacity (slot + 1) then 0 else slot + 1

abbrev pub next_pos : HashHeader → ℕ → ℕ → ℕ
next_pos header slot pos = if leb header.hash_capacity (slot + 1) then 0 else pos + slot_size header

module _ (codecs : Codecs) (log : LogReader) where
  -- The entry at an address whose hash is that of the current entry: the lengths of its key and its
  -- value, where it is a put of the same key.
  pub same_key : ℕ → Exec HashState (Option (ℕ × ℕ))
  unfolding is_put if_same
  same_key position = do
    header ← gets (λ s. s.header)
    on_ra_iter (logiter_seek codecs log (block_of header position))
    on_ra_iter (logiter_skip codecs log (entry_index header position))
    on_ra_iter (logiter_next codecs log)
    ra ← gets (λ s. s.ra_iter)
    throw_if (not (is_put ra.type)) internal_error
    keylen ← gets (λ s. s.iter.keylen)
    if keylen == ra.keylen
        then (do
          on_iter (logiter_reset codecs log)
          cmp ← on_iters (keycmp codecs log)
          pure (if_same cmp (ra.keylen, ra.valuelen)))
        else pure none

  pub same_key_if : Bool → ℕ → Exec HashState (Option (ℕ × ℕ))
  unfolding same_key
  same_key_if true position = same_key position
  same_key_if false position = pure none

  -- The loop of `hash_put`. It ends at an empty slot at the latest, which takes as many rounds as there
  -- are slots; a table without one is never left.
  pub put_loop : (fuel pos slot displacement hash position : ℕ) → Bool → Exec HashState (Unit {0})
  unfolding same_key_if
  put_loop zero pos slot displacement hash position might s = (fault out_of_fuel, s)
  put_loop (suc fuel) pos slot displacement hash position might s =
      (do
        header ← gets (λ s. s.header)
        hashtable ← gets (λ s. s.hashtable)
        (hash2, position2) ← lift (read_slot header hashtable pos)
        if position2 == 0
            then (do
              store pos hash position
              modify (λ s. record s { header = added_entry s.header }))
            else (do
              found ← same_key_if (might && (hash == hash2)) position2
              elim found [
                | some (keylen2, valuelen2) ↦ (do
                  store pos hash position
                  modify (λ s. record s { header = replaced_entry keylen2 valuelen2 s.header }))
                | none ↦ (do
                  other ← lift (get_displacement header.hash_capacity slot hash2)
                  if ltb other displacement
                      then (do
                        store pos hash position
                        put_loop fuel (next_pos header slot pos) (next_slot header slot) (other + 1)
                            hash2 position2 false)
                      else put_loop fuel (next_pos header slot pos) (next_slot header slot)
                          (displacement + 1) hash position might)
              ]))
        s

  -- `hash_put`; `might` says that the iterators and the log are given.
  pub hash_put : (might : Bool) → (wanted_slot hash position : ℕ) → Exec HashState (Unit {0})
  unfolding put_loop
  hash_put might wanted_slot hash position = do
    header ← gets (λ s. s.header)
    put_loop (header.hash_capacity + 1) (u64 (wanted_slot * slot_size header)) wanted_slot 0 hash
        position might

  -- The inner loop of `hash_delete`: the entries behind the slot move one back, up to an empty slot or
  -- an entry that is in its wanted slot. The result is the slot that is free in the end.
  shift_back : (fuel slot : ℕ) → Exec HashState ℕ
  shift_back zero slot s = (fault out_of_fuel, s)
  shift_back (suc fuel) slot s =
      (do
        header ← gets (λ s. s.header)
        hashtable ← gets (λ s. s.hashtable)
        next ← lift (modulo (add64 slot 1) header.hash_capacity)
        (hash3, position3) ← lift (read_slot header hashtable (u64 (next * slot_size header)))
        if position3 == 0 then pure slot else (do
          wanted ← lift (modulo hash3 header.hash_capacity)
          if wanted == next then pure slot else (do
            store (u64 (slot * slot_size header)) hash3 position3
            shift_back fuel next)))
        s

  pub remove_slot : (slot keylen2 valuelen2 : ℕ) → Exec HashState (Unit {0})
  unfolding shift_back
  remove_slot slot keylen2 valuelen2 = do
    header ← gets (λ s. s.header)
    last ← shift_back (header.hash_capacity + 1) slot
    store (u64 (last * slot_size header)) 0 0
    modify (λ s. record s { header = deleted_entry keylen2 valuelen2 s.header })

  -- The loop of `hash_delete`.
  pub delete_loop : (fuel pos slot displacement hash : ℕ) → Exec HashState (Unit {0})
  unfolding same_key_if remove_slot
  delete_loop zero pos slot displacement hash s = (fault out_of_fuel, s)
  delete_loop (suc fuel) pos slot displacement hash s =
      (do
        header ← gets (λ s. s.header)
        hashtable ← gets (λ s. s.hashtable)
        (hash2, position2) ← lift (read_slot header hashtable pos)
        if position2 == 0 then pure tt else (do
          let block = block_of header position2
          throw_if (ltb block log.header.header_size || leb log.header.data_end block)
              internal_error
          found ← same_key_if (hash == hash2) position2
          elim found [
            | some (keylen2, valuelen2) ↦ remove_slot slot keylen2 valuelen2
            | none ↦ (do
              other ← lift (get_displacement header.hash_capacity slot hash2)
              if ltb other displacement
                  then pure tt
                  else delete_loop fuel (next_pos header slot pos) (next_slot header slot)
                      (displacement + 1) hash)
          ]))
        s

  pub hash_delete : (wanted_slot hash : ℕ) → Exec HashState (Unit {0})
  unfolding delete_loop
  hash_delete wanted_slot hash = do
    header ← gets (λ s. s.header)
    delete_loop (header.hash_capacity + 1) (u64 (wanted_slot * slot_size header)) wanted_slot 0 hash

  -- The loop of `hash_copy`; a slot takes a byte at least.
  pub copy_loop : HashHeader → (buf : List ℕ) → (fuel i : ℕ) → Exec HashState (Unit {0})
  unfolding hash_put
  copy_loop old buf zero i s = (fault out_of_fuel, s)
  copy_loop old buf (suc fuel) i s =
      (if leb (length buf) i then pure tt else (do
        (hash, position) ← lift (read_slot old buf i)
        new ← gets (λ s. s.header)
        let block = block_of old position
        wanted_slot ← lift (modulo hash new.hash_capacity)
        (if block == 0
            then pure tt
            else hash_put false wanted_slot hash
                (bit_or (u64 (block * 2 ^ new.entry_block_bits)) (entry_index old position)))
        copy_loop old buf fuel (i + slot_size old)))
        s

  -- `hash_copy`: the slots of a part of an old table, put into the new one.
  pub hash_copy : HashHeader → (buf : List ℕ) → Exec HashState (Unit {0})
  unfolding copy_loop
  hash_copy old buf = copy_loop old buf (length buf + 1) 0
