-- ===== src/HashWriter/Entries.antt =====
-- The table while `sparkey_hash_write` of src/hashwriter.c goes over the log.
use sparkey.Base.{ℕ, zero, suc, ◌+◌, ◌*◌, ◌^◌, true, Option, none, some, u64, add64, bit_or}
use sparkey.ReturnCode.{internal_error}
use sparkey.Exec.{done, fault, out_of_fuel, Exec, pure, throw, lift, gets, modify, ◌>>=◌, ◌>>◌}
use sparkey.Compress.{Codecs}
use sparkey.HashHeader.{HashHeader}
use sparkey.LogReader.{LogReader}
use sparkey.Vlq.{unsigned_vlq_size}
use sparkey.LogIter.{
  EntryType, entry_put, entry_delete, IterState, iter_new, iter_active, iter_closed, iter_invalid,
  logiter_seek, logiter_next,
}
use sparkey.HashTable.{modulo, iter_hash}
use sparkey.HashWriter.{HashState, on_iter, hash_put, hash_delete}
use sparkey.HashWriter.Fill.{FillEnvironment, fill_hash}
use sparkey.HashWriter.MaxDisplacement.{calculate_max_displacement}

abbrev pub on_header : (HashHeader → HashHeader) → Exec HashState (Unit {0})
on_header f s = (done tt, record s { header = f s.header })

module _ (codecs : Codecs) (log : LogReader) where
  -- The entry that the iterator is at, as the `switch (iter->type)` takes it. An entry of a block is
  -- named by the position of the block and its number in it.
  unfoldable pub put_or_delete :
      EntryType → (block_start entry_count wanted_slot key_hash : ℕ) → Exec HashState (Unit {0})
  put_or_delete entry_put block_start entry_count wanted_slot key_hash = do
    bits ← gets (λ s. s.header.entry_block_bits)
    hash_put codecs log true wanted_slot key_hash
        (bit_or (u64 (block_start * 2 ^ bits)) entry_count)
  put_or_delete entry_delete block_start entry_count wanted_slot key_hash = do
    keylen ← gets (λ s. s.iter.keylen)
    on_header (λ h. record h {
      garbage_size = add64 h.garbage_size (u64 (1 + unsigned_vlq_size keylen + keylen));
    })
    hash_delete codecs log wanted_slot key_hash

  unfoldable pub add_current : Exec HashState (Unit {0})
  unfolding put_or_delete
  add_current = do
    s ← gets (λ s. s)
    key_hash ← on_iter (iter_hash codecs log s.header)
    wanted_slot ← lift (modulo key_hash s.header.hash_capacity)
    type ← gets (λ s. s.iter.type)
    put_or_delete type s.iter.block_position s.iter.entry_count wanted_slot key_hash

  -- The `switch (iter->state)`; what comes after it is given.
  unfoldable pub by_state : IterState → Exec HashState (Unit {0}) → Exec HashState (Unit {0})
  by_state iter_closed go_on = pure tt
  by_state iter_active go_on = go_on
  by_state iter_new go_on = throw internal_error
  by_state iter_invalid go_on = throw internal_error

  -- The `while (1)` loop over the log, which ends where the iterator does: after as many rounds as
  -- there are entries.
  unfoldable pub entries_loop : (rounds : ℕ) → Exec HashState (Unit {0})
  unfolding add_current by_state
  entries_loop zero s = (fault out_of_fuel, s)
  entries_loop (suc rounds) s =
      (do
        on_iter (logiter_next codecs log)
        state ← gets (λ s. s.iter.state)
        by_state state (add_current >> entries_loop rounds))
        s

  pub copy_from : FillEnvironment → (start : ℕ) → Option HashHeader → Exec HashState (Unit {0})
  copy_from env start none = pure tt
  copy_from env start (some old) = do
    fill_hash codecs log old env
    on_iter (logiter_seek codecs log start)

  -- From the empty table to the end of the log, and the statistics.
  unfoldable pub fill_table :
      FillEnvironment → (rounds start : ℕ) → Option HashHeader → Exec HashState (Unit {0})
  unfolding copy_from
  fill_table env rounds start old = do
    copy_from env start old
    entries_loop rounds
    s ← gets (λ s. s)
    header ← lift (calculate_max_displacement s.header s.hashtable)
    modify (λ s. record s { header = header })
