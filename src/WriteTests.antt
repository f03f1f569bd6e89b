-- ===== src/WriteTests.antt =====
-- Concrete runs of the writer of hash files.
use sparkey.Base.{
  Bool-cases, false, sym, ℕ, ◌*◌, ◌/◌, ◌%◌, ◌<◌, ◌==◌, List, [], ◌∷◌, ◌++◌, true, none, some, ◌≡◌,
  refl, ap, inl, inr, arith,
}
use sparkey.ReturnCode.{enoent}
use sparkey.Exec.{done, fault, out_of_fuel}
use sparkey.Entry.{Entry, put, delete, encode_all}
use sparkey.LogHeader.{LogHeader}
use sparkey.LogHeader.Write.{log_header_bytes}
use sparkey.HashHeader.{HashHeader}
use sparkey.HashTable.Order.{Slots, update, update_at, update_apart, IsOrdered}
use sparkey.HashTable.Fresh.{zeros, empty_slots, IsShaped, zeros-Represents, empty_slots-IsOrdered}
use sparkey.HashTable.Represents.{SlotFits, Represents, write_slot-update}
use sparkey.HashTable.Without.{IsRemoved}
use sparkey.HashWriter.{hash_copy, hash_put, hash_delete, put_loop, remove_slot}
use sparkey.HashWriter.Counts.{one_less, more_garbage}
use sparkey.HashWriter.Put.{state}
use sparkey.HashWriter.Copy.{moved, Copies, hash_copy-Copies}
use sparkey.HashTable.{block_of}
use sparkey.HashTable.Used.{used-empty_slots}
use mathlib.Core.Bool.{false≢true}
use mathlib.Core.Path.{subst}
use sparkey.HashWriter.PutKey.{PutEnds, hash_put-PutEnds}
use sparkey.HashWriter.Delete.{DeleteEnds, hash_delete-DeleteEnds}
use sparkey.HashWriter.Remove.{remove_slot-Removes}
use sparkey.HashWriter.Full.{IsFull, put_loop_never_ends}
use sparkey.HashWriter.SameKey.{with_iters}
use sparkey.HashWriter.MaxDisplacement.{calculate_max_displacement}
use sparkey.HashWriter.MaxDisplacement.Bounds.{IsMax, calculate_max_displacement-IsMax}
use sparkey.HashWriter.Fill.{got, read_fully}
use sparkey.HashWriter.Fill.Short.{read_fully-short}
use sparkey.HashWriter.Write.{Environment, hash_write}
use sparkey.HashWriter.Write.Safe.{WriteEnds, hash_write-WriteEnds}
use sparkey.HashTests.{
  hash_header-IsShaped, hash_header, codecs, reader, one_slot, one_stored, one_table,
  one_slot-IsOrdered, one_slot-used, log_iter,
}

-- The entry in the table has another hash.
hash_put-PutEnds_example :
    PutEnds codecs reader.log hash_header one_slot one_table log_iter log_iter
      (4, 341)
      (hash_put codecs reader.log true
        (4 % 3)
        4
        341
        (with_iters hash_header one_table log_iter log_iter))
hash_put-PutEnds_example =
    hash_put-PutEnds codecs reader.log hash_header 4 341 one_table one_slot log_iter log_iter
      one_stored.2 one_slot-IsOrdered (omega arith, inl (refl, omega arith)) (omega arith)
      one_slot-used

hash_delete-DeleteEnds_example :
    DeleteEnds codecs reader.log hash_header one_slot one_table log_iter log_iter 7
      (hash_delete codecs reader.log (7 % 3) 7 (with_iters hash_header one_table log_iter log_iter))
hash_delete-DeleteEnds_example =
    hash_delete-DeleteEnds codecs reader.log hash_header one_slot one_table one_stored.2
      one_slot-IsOrdered 7 one_slot-used log_iter log_iter

remove_slot-Removes_example :
    (u : List ℕ) × (g : Slots) × (remove_slot codecs reader.log 1 2 3
        (with_iters hash_header one_table log_iter log_iter)
      ≡ (done tt, with_iters (one_less (more_garbage 2 3 hash_header)) u log_iter log_iter))
    × Represents hash_header u g
    × IsOrdered 3 g
    × IsRemoved 3 one_slot g 1
unfolding update
remove_slot-Removes_example =
    remove_slot-Removes codecs reader.log log_iter log_iter hash_header 1 2 3 one_table one_slot
      one_stored.2 one_slot-IsOrdered (omega arith) (omega arith) one_slot-used

calculate_max_displacement-IsMax_example :
    (h : HashHeader) × (calculate_max_displacement hash_header one_table ≡ done h)
    × (h.max_displacement < 3)
    × IsMax 3 one_slot 3 h.max_displacement
calculate_max_displacement-IsMax_example =
    calculate_max_displacement-IsMax hash_header one_table one_slot one_stored.2

-- A table of one slot, which is used.
abbrev small_header : HashHeader
small_header = record hash_header { hash_capacity = 1 }

abbrev full_slot : Slots
full_slot = update empty_slots 0 (7, 340)

small_header-IsShaped : IsShaped small_header
small_header-IsShaped = record {
  sized = refl;
  addressed = inl refl;
  some = omega arith;
  small = omega arith;
}

abbrev full_table : List ℕ
full_table =
    (write_slot-update small_header (zeros small_header) empty_slots
      (zeros-Represents small_header small_header-IsShaped) 0 (7, 340) (omega arith)
      (omega arith, inl (refl, omega arith))).0

full_table-Represents : Represents small_header full_table full_slot
full_table-Represents =
    (write_slot-update small_header (zeros small_header) empty_slots
      (zeros-Represents small_header small_header-IsShaped) 0 (7, 340) (omega arith)
      (omega arith, inl (refl, omega arith))).2

only_slot : (q : ℕ) → q < 1 → full_slot q ≡ (7, 340)
only_slot q hq = update_at empty_slots 0 (7, 340) q (ground (arith, hq))

full_slot-IsFull : IsFull 1 full_slot
full_slot-IsFull q hq = omega (arith, ap (λ x. x.1) (only_slot q hq))

put_loop_never_ends_example :
    (put_loop codecs reader.log 100 0 0 0 4 341 true
      (state codecs reader.log log_iter log_iter small_header full_table)).0
    ≡ fault out_of_fuel
put_loop_never_ends_example =
    put_loop_never_ends codecs reader.log log_iter log_iter small_header 100 0 0 4 341 true
      full_table full_slot full_table-Represents full_slot-IsFull
      (omega arith, inl (refl, omega arith)) (omega arith)
      (λ q hq. ap (λ x. 4 == x.0) (only_slot q hq)) (omega arith)

read_fully-short_example :
    read_fully 3 (record {
      fd = record { ahead = 1 ∷ 2 ∷ 3 ∷ 4 ∷ []; answers = got 1 ∷ [] };
      buf = 0 ∷ 0 ∷ 0 ∷ [];
    })
    ≡ (done tt, record { fd = record { ahead = 4 ∷ []; answers = [] }; buf = 2 ∷ 3 ∷ 0 ∷ [] })
read_fully-short_example =
    read_fully-short 1 3 (1 ∷ 2 ∷ 3 ∷ 4 ∷ []) (0 ∷ 0 ∷ 0 ∷ []) (omega arith) (omega arith)
      (omega arith)

abbrev entries : List Entry
entries =
    put (1 ∷ 2 ∷ []) (3 ∷ []) ∷ put (9 ∷ []) (8 ∷ 8 ∷ []) ∷ delete (1 ∷ 2 ∷ []) ∷ put [] [] ∷ []

abbrev log_header : LogHeader
log_header = record {
  major_version = 1;
  minor_version = 0;
  file_identifier = 7;
  num_puts = 3;
  num_deletes = 1;
  data_end = 100;
  max_key_len = 2;
  max_value_len = 2;
  delete_size = 4;
  compression_type = 0;
  compression_block_size = 0;
  put_size = 12;
  header_size = 84;
  max_entries_per_block = 0;
}

-- There is no hash file yet.
abbrev environment : Environment
environment = record {
  log = record {
    fopen = inr (log_header_bytes log_header ++ encode_all entries);
    open_file = none;
    mmap = true;
    malloc = true;
  };
  iter = record { malloc_iter = true; malloc_buf = true; garbage = log_iter };
  ra_iter = record { malloc_iter = true; malloc_buf = true; garbage = log_iter };
  old_hash = inl enoent;
  random = some 5;
  header = hash_header;
  malloc_table = true;
  fill = record { open_file = none; contents = []; malloc = none; reads = []; close = true };
  remove = some enoent;
  creat = true;
  answers = [];
}

hash_write-WriteEnds_example :
    WriteEnds codecs
      (λ n. n * 13 / 10)
      environment
      5
      0
      (hash_write codecs (λ n. n * 13 / 10) environment 5 0)
hash_write-WriteEnds_example = hash_write-WriteEnds codecs (λ n. n * 13 / 10) environment 5 0

-- The table of one entry, put into an empty one.
other_slots : (q : ℕ) → (1 == q) ≡ false → one_slot q ≡ (0, 0)
other_slots q apart = update_apart empty_slots 1 (7, 340) q apart

abbrev MovedFits : ℕ × ℕ → Type 0
MovedFits x =
    (block_of hash_header x.1 == 0) ≡ false
    → SlotFits hash_header (
        moved codecs reader.log log_iter log_iter hash_header hash_header one_table 3 one_slot
          one_stored.2.len (omega arith) one_stored.2.reads x)
      × (0
          < (moved codecs reader.log log_iter log_iter hash_header hash_header one_table 3 one_slot
              one_stored.2.len (omega arith) one_stored.2.reads x).1)

one_slot-MovedFits : (q : ℕ) → MovedFits (one_slot q)
one_slot-MovedFits q = elim (Bool-cases (1 == q)) [
  | inl here ↦
      subst MovedFits (sym (update_at empty_slots 1 (7, 340) q here))
        (λ copied. ((omega arith, inl (refl, omega arith)), omega arith))
  | inr apart ↦
      subst MovedFits (sym (other_slots q apart)) (λ copied. absurd (false≢true (sym copied)))
]

hash_copy-Copies_example :
    Copies codecs reader.log log_iter log_iter hash_header hash_header one_table 3 one_slot
      one_stored.2.len
      (omega arith)
      one_stored.2.reads
      0
      empty_slots
      (hash_copy codecs reader.log hash_header one_table (
        state codecs reader.log log_iter log_iter
          (record hash_header { num_entries = 0 })
          (zeros hash_header)))
hash_copy-Copies_example =
    hash_copy-Copies codecs reader.log log_iter log_iter hash_header hash_header one_table 3
      one_slot one_stored.2.len (omega arith) one_stored.2.reads
      (λ q hq copied. (one_slot-MovedFits q copied).0)
      (λ q hq copied. (one_slot-MovedFits q copied).1) 0 (zeros hash_header) empty_slots
      (zeros-Represents hash_header hash_header-IsShaped) (empty_slots-IsOrdered 3)
      (omega (arith, used-empty_slots 3))
