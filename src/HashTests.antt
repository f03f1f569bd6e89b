-- ===== src/HashTests.antt =====
-- Concrete hash headers and tables.
use sparkey.Base.{
  u64, ◌*◌, true, false, ℕ, ◌+◌, ◌%◌, ◌≤◌, ◌<◌, List, [], ◌∷◌, ◌++◌, length, replicate, none, ◌≡◌,
  refl, ◌⊎◌, inl, inr, arith,
}
use sparkey.Exec.{done}
use sparkey.Compress.{Codecs}
use sparkey.HashAlgorithm.{murmurhash64, get_hash_algorithm}
use sparkey.HashHeader.{HashHeader, load_hashheader}
use sparkey.HashHeader.Write.{hash_header_bytes}
use sparkey.HashHeader.Load.{load-hash_header_bytes, IsValid}
use sparkey.HashTable.{get_displacement, read_slot, write_slot, slot_size}
use sparkey.HashTable.Displacement.{get_displacement-steps}
use sparkey.HashTable.Reads.{Reads}
use sparkey.HashTable.Slot.{write_slot-read_slot}
use sparkey.HashReader.{HashReader, points_loop}
use sparkey.HashReader.Find.{points_loop-finds}
use sparkey.HashTable.Ring.{displacement_wanted}
use sparkey.HashTable.Order.{Slots, update, IsOrdered, update-IsOrdered}
use sparkey.HashTable.Represents.{Represents, write_slot-update}
use sparkey.HashTable.Fresh.{IsShaped, zeros, empty_slots, zeros-Represents, empty_slots-IsOrdered}
use sparkey.HashTable.Used.{used, mark}
use sparkey.HashWriter.{hash_put}
use sparkey.HashWriter.Put.{state, PutsInto, hash_put-PutsInto}
use sparkey.LogIter.{LogIter, entry_put, iter_new}
use sparkey.HashReader.Ends.{points_loop-Reads}

-- The header of a hash file for that log.
abbrev pub hash_header : HashHeader
hash_header = record {
  major_version = 1;
  minor_version = 1;
  file_identifier = 0xfedcba98;
  hash_seed = 0x12345678;
  header_size = 112;
  data_end = 100;
  max_key_len = 2;
  max_value_len = 3;
  garbage_size = 12;
  num_entries = 1;
  address_size = 4;
  hash_size = 8;
  hash_capacity = 3;
  max_displacement = 1;
  num_puts = 2;
  entry_block_bits = 2;
  entry_block_bitmask = 3;
  hash_collisions = 0;
  total_displacement = 1;
  hash_algorithm = murmurhash64;
}

hash_header-IsValid : IsValid hash_header
unfolding get_hash_algorithm
hash_header-IsValid = record {
  major = refl;
  minor = refl;
  sized = refl;
  mask = refl;
  algorithm = refl;
  few_bits = omega arith;
  entries_in = omega arith;
  displacement_in = omega arith;
  collisions_in = omega arith;
  file_identifier_u32 = omega arith;
  hash_seed_u32 = omega arith;
  data_end_u64 = omega arith;
  max_key_len_u64 = omega arith;
  max_value_len_u64 = omega arith;
  num_puts_u64 = omega arith;
  garbage_size_u64 = omega arith;
  address_size_u32 = omega arith;
  hash_size_u32 = omega arith;
  hash_capacity_u64 = omega arith;
  total_displacement_u64 = omega arith;
}

load-hash_header_bytes_example :
    load_hashheader (inr (hash_header_bytes hash_header ++ (7 ∷ []))) ≡ done hash_header
load-hash_header_bytes_example = load-hash_header_bytes hash_header (7 ∷ []) hash_header-IsValid

-- A table of three empty slots of 12 bytes.
abbrev table : List ℕ
table = replicate 36 0

write_slot-read_slot_example :
    (t : List ℕ) × (write_slot hash_header 12 77 84 table ≡ done t)
    × (length t ≡ length table)
    × (read_slot hash_header t 12 ≡ done (77, 84))
    × ((k : ℕ)
        → (k + slot_size hash_header ≤ 12) ⊎ (12 + slot_size hash_header ≤ k)
        → read_slot hash_header t k ≡ read_slot hash_header table k)
write_slot-read_slot_example =
    write_slot-read_slot hash_header table 12 77 84 refl (omega arith) (inl (refl, omega arith))
      (omega arith)

-- The last of three slots is the wanted one, and the entry is in the second: round the end.
get_displacement-steps_example :
    (d : ℕ) × (get_displacement 3 1 5 ≡ done d) × (d < 3) × ((5 % 3 + d) % 3 ≡ 1)
get_displacement-steps_example = get_displacement-steps 3 1 5 (omega arith) (omega arith)

abbrev pub codecs : Codecs
codecs = record {
  snappy_max_compressed_length = λ n. n;
  snappy_compress = λ input size. none;
  snappy_uncompress = λ input size. none;
  zstd_compress_bound = λ n. n;
  zstd_compress = λ input size level. none;
  zstd_decompress = λ input size. none;
}

-- A reader of a full table, which no writer makes.
abbrev pub reader : HashReader
reader = record {
  open_status = 0x75103df9;
  header = hash_header;
  log = record {
    open_status = 0xe93356c4;
    header = record {
      major_version = 1;
      minor_version = 0;
      file_identifier = 0xfedcba98;
      num_puts = 1;
      num_deletes = 1;
      data_end = 100;
      max_key_len = 2;
      max_value_len = 3;
      delete_size = 4;
      compression_type = 0;
      compression_block_size = 0;
      put_size = 12;
      header_size = 84;
      max_entries_per_block = 0;
    };
    data_len = 100;
    bytes = replicate 100 0;
  };
  data_len = 148;
  hashtable = replicate 36 1;
}

points_loop-Reads_example : Reads (points_loop codecs reader 4 12 1 0 84)
points_loop-Reads_example =
    points_loop-Reads codecs reader 4 12 1 0 84 (omega arith) (omega arith) (omega arith)

pub hash_header-IsShaped : IsShaped hash_header
hash_header-IsShaped = record {
  sized = refl;
  addressed = inl refl;
  some = omega arith;
  small = omega arith;
}

-- One entry, in its wanted slot.
abbrev pub one_slot : Slots
one_slot = update empty_slots 1 (7, 340)

pub one_stored :
    (u : List ℕ) × (write_slot hash_header 12 7 340 (zeros hash_header) ≡ done u)
    × Represents hash_header u one_slot
one_stored =
    write_slot-update hash_header (zeros hash_header) empty_slots
      (zeros-Represents hash_header hash_header-IsShaped) 1 (7, 340) (omega arith)
      (omega arith, inl (refl, omega arith))

abbrev pub one_table : List ℕ
one_table = one_stored.0

pub one_slot-IsOrdered : IsOrdered 3 one_slot
one_slot-IsOrdered =
    update-IsOrdered 3 empty_slots 1 (empty_slots-IsOrdered 3) (omega arith) 7 340 (omega arith)
      (λ q hq e far. absurd (omega (arith, far, displacement_wanted 3 7))) (inl refl)

pub one_slot-used : used 3 one_slot < 3
unfolding used mark update
one_slot-used = omega arith

abbrev pub log_iter : LogIter
log_iter = record {
  open_status = 0xd765c8cc;
  file_identifier = 0xfedcba98;
  block_position = 0;
  next_block_position = 84;
  block_offset = 0;
  block_len = 0;
  entry_count = 0;
  compression_buf = [];
  entry_block_position = 0;
  entry_block_offset = 0;
  type = entry_put;
  state = iter_new;
  keylen = 0;
  valuelen = 0;
  key_remaining = 0;
  value_remaining = 0;
}

-- The wanted slot of the second entry is taken.
hash_put-PutsInto_example :
    PutsInto codecs reader.log log_iter log_iter hash_header one_slot
      (4, 341)
      (hash_put codecs reader.log false
        (4 % 3)
        4
        341
        (state codecs reader.log log_iter log_iter hash_header one_table))
hash_put-PutsInto_example =
    hash_put-PutsInto codecs reader.log log_iter log_iter hash_header 4 341 one_table one_slot
      one_stored.2 one_slot-IsOrdered (omega arith, inl (refl, omega arith)) (omega arith)
      one_slot-used

points_loop-finds_example :
    points_loop codecs (record reader { hashtable = one_table }) 4 (u64 (7 % 3 * 12)) (7 % 3) 0 340
    ≡ done true
unfolding update
points_loop-finds_example =
    points_loop-finds codecs (record reader { hashtable = one_table }) one_slot one_stored.2
      one_slot-IsOrdered 7 340 (omega arith) (1, omega arith, refl)
