-- ===== src/StoreTests.antt =====
-- A log of three entries, the index of it, and lookups.
use sparkey.Base.{ℕ, ◌%◌, List, [], ◌∷◌, ◌++◌, replicate, none, some, true, ◌≡◌, refl, inl, arith}
use sparkey.Exec.{done}
use sparkey.File.{File}
use sparkey.Vlq.Format.{groups}
use sparkey.Entry.{Entry, put, delete, encode_all}
use sparkey.LogReader.{LogReader}
use sparkey.LogIter.{LogIter, fresh_iter}
use sparkey.LogIter.Created.{fresh_iter-IsFor, fresh_iter-IsFresh, fresh_iter-IsLoaded}
use sparkey.HashAlgorithm.{murmurhash64, hash}
use sparkey.HashHeader.{HashHeader}
use sparkey.HashTable.Slot.{HashFits}
use sparkey.HashTable.Hashes.{hash-HashFits}
use sparkey.HashTable.Fresh.{zeros}
use sparkey.HashTable.Implements.{KeyMap, assign, equal_bytes}
use sparkey.HashTable.Recount.{counted}
use sparkey.HashWriter.SameKey.{with_iters}
use sparkey.HashWriter.Entries.{entries_loop}
use sparkey.HashWriter.KeyMap.{contents_from, count_puts, indexed, no_keys}
use sparkey.Command.{get_with}
use sparkey.HashReader.{HashReader, hash_get}
use sparkey.HashReader.Get.{Finds, hash_get-Finds}
use sparkey.HashWriter.{hash_put, hash_delete}
use sparkey.HashWriter.Plan.{start_header}
use sparkey.HashWriter.Plan.Start.{IsStart, start_header-IsStart}
use sparkey.HashWriter.Compare.{IsIn}
use sparkey.HashWriter.Build.Loop.{Builds}
use sparkey.HashWriter.Indexed.{Indexes, hash_put-Indexes, hash_delete-Indexes}
use sparkey.LogIter.Seek.{within_entry}
use sparkey.HashTable.Fresh.{zeros-Represents, empty_slots, empty_slots-IsOrdered}
use sparkey.HashTable.Used.{used, mark}
use sparkey.Store.{IsReady, Prints, reader_of, content, built, empty-Implements, entries_loop-get}
use sparkey.Store.Values.{last_value}
use sparkey.Tests.{writer}
use sparkey.LogWriter.Session.{add_entries}
use sparkey.Command.Rewrite.{Agrees, rewrite_loop, rewrite_loop-add_entries}
use sparkey.HashTests.{codecs, reader, hash_header, log_iter}

-- Two puts, and a delete of the first key.
abbrev stored_entries : List Entry
stored_entries = put (1 ∷ []) (2 ∷ 3 ∷ []) ∷ put (4 ∷ []) (5 ∷ []) ∷ delete (1 ∷ []) ∷ []

abbrev store_log : LogReader
store_log = record {
  open_status = 0xe93356c4;
  header = record reader.log.header { data_end = 96 };
  data_len = 96;
  bytes = replicate 84 0 ++ encode_all stored_entries;
}

abbrev store_header : HashHeader
store_header = record hash_header { num_entries = 0; entry_block_bits = 0; entry_block_bitmask = 0 }

abbrev stdout : File
stdout = record { contents = 7 ∷ []; offset = 1; answers = [] }

ready : IsReady store_log store_header stored_entries
unfolding count_puts groups
ready = record {
  plain = record {
    is_open = refl;
    plain = refl;
    mapped = refl;
    sized = omega arith;
    end_u64 = omega arith;
  };
  sized = refl;
  behind_header = omega arith;
  entries = refl;
  storable = ((omega arith, omega arith), ((omega arith, omega arith), (omega arith, tt)));
  short = (omega arith, (omega arith, (omega arith, tt)));
  shape = record { sized = refl; addressed = inl refl; some = omega arith; small = omega arith };
  unblocked = record { bits = refl; mask = refl };
  empty = refl;
  room = omega arith;
  addresses = λ p less. inl (refl, omega arith);
}

entries_loop-get_example :
    (n : ℕ) × (size : ℕ) × (u : List ℕ) × (i : LogIter) × (j : LogIter) × (entries_loop codecs
        store_log 4
        (with_iters store_header
          (zeros store_header)
          (fresh_iter log_iter store_log)
          (fresh_iter log_iter store_log))
      ≡ (done tt, with_iters (counted store_header n size) u i j))
    × Prints (some (5 ∷ [])) stdout (
        get_with codecs
          (reader_of store_log (counted store_header n size) u 148)
          (4 ∷ [])
          (fresh_iter log_iter store_log, stdout))
unfolding last_value assign equal_bytes
entries_loop-get_example =
    entries_loop-get codecs store_log store_header stored_entries ready log_iter log_iter 148
      (4 ∷ []) (fresh_iter log_iter store_log) stdout (omega arith)
      (fresh_iter-IsLoaded log_iter store_log) (omega arith) tt

hash-HashFits_example :
    (h : ℕ) × (hash murmurhash64 (1 ∷ 2 ∷ []) 17 ≡ done h) × HashFits murmurhash64 h
hash-HashFits_example = hash-HashFits murmurhash64 (1 ∷ 2 ∷ []) 17 (omega arith)

-- The table that the loop leaves.
abbrev store_content : ℕ → List ℕ × List ℕ
store_content = content codecs store_log store_header stored_entries ready

abbrev store_map : KeyMap
store_map = indexed stored_entries 84 no_keys

abbrev store_table : Builds store_log store_header store_content store_map (
    entries_loop codecs store_log 4 (
      with_iters store_header
        (zeros store_header)
        (fresh_iter log_iter store_log)
        (fresh_iter log_iter store_log)))
store_table = built codecs store_log store_header stored_entries ready log_iter log_iter

abbrev store_reader : HashReader
store_reader = reader_of store_log store_header store_table.2 148

hash_get-Finds_example :
    Finds store_reader store_table.3 store_content
      (4 ∷ [])
      (hash_get codecs store_reader (4 ∷ []) (fresh_iter log_iter store_log))
hash_get-Finds_example =
    hash_get-Finds codecs store_reader store_table.3 store_content ready.plain store_table.7
      store_table.8 store_table.9.index (4 ∷ []) (fresh_iter log_iter store_log) (omega arith) refl
      (fresh_iter-IsLoaded log_iter store_log)

-- The iterator in the first entry, with its key read.
abbrev in_first : LogIter
in_first =
    within_entry store_log (put (1 ∷ []) (2 ∷ 3 ∷ [])) 84 (fresh_iter log_iter store_log) 3 0 2

in_first-IsIn : IsIn store_log (put (1 ∷ []) (2 ∷ 3 ∷ [])) 84 in_first
unfolding groups
in_first-IsIn =
    (fresh_iter log_iter store_log, 3, 0, 2, fresh_iter-IsFor log_iter store_log, refl, refl)

abbrev behind_first : List ℕ
behind_first = encode_all (put (4 ∷ []) (5 ∷ []) ∷ delete (1 ∷ []) ∷ [])

abbrev first_hashed :
    (h : ℕ) × (hash murmurhash64 (1 ∷ []) 0x12345678 ≡ done h) × HashFits murmurhash64 h
first_hashed = hash-HashFits murmurhash64 (1 ∷ []) 0x12345678 (omega arith)

abbrev first_hash : ℕ
first_hash = first_hashed.0

hash_put-Indexes_example :
    Indexes store_log store_header
      (put (1 ∷ []) (2 ∷ 3 ∷ []))
      84
      1
      store_content
      (assign (1 ∷ []) (some 84) no_keys)
      (hash_put codecs store_log true
        (first_hash % 3)
        first_hash
        84
        (with_iters store_header (zeros store_header) in_first (fresh_iter log_iter store_log)))
unfolding contents_from used mark
hash_put-Indexes_example =
    hash_put-Indexes codecs store_log ready.plain store_header (zeros store_header) empty_slots
      store_content no_keys (zeros-Represents store_header ready.shape) (empty_slots-IsOrdered 3)
      (empty-Implements codecs store_log store_header stored_entries ready) (omega arith) refl
      (put (1 ∷ []) (2 ∷ 3 ∷ [])) 84 behind_first ready.storable.0 refl (omega arith) (omega arith)
      first_hash first_hashed.1 (2 ∷ 3 ∷ []) in_first (fresh_iter log_iter store_log) refl
      ((behind_first, ready.storable.0, refl), first_hashed.1, omega arith)
      (first_hashed.2, inl (refl, omega arith)) in_first-IsIn
      (fresh_iter-IsLoaded log_iter store_log)

hash_delete-Indexes_example :
    Indexes store_log store_header
      (put (1 ∷ []) (2 ∷ 3 ∷ []))
      84
      0
      store_content
      (assign (1 ∷ []) none no_keys)
      (hash_delete codecs store_log
        (first_hash % 3)
        first_hash
        (with_iters store_header (zeros store_header) in_first (fresh_iter log_iter store_log)))
unfolding used mark
hash_delete-Indexes_example =
    hash_delete-Indexes codecs store_log ready.plain store_header (zeros store_header) empty_slots
      store_content no_keys (zeros-Represents store_header ready.shape) (empty_slots-IsOrdered 3)
      (empty-Implements codecs store_log store_header stored_entries ready) (omega arith) refl
      (put (1 ∷ []) (2 ∷ 3 ∷ [])) 84 behind_first ready.storable.0 refl (omega arith) (omega arith)
      first_hash first_hashed.1 in_first (fresh_iter log_iter store_log) in_first-IsIn
      (fresh_iter-IsLoaded log_iter store_log)

rewrite_loop-add_entries_example :
    Agrees
      (rewrite_loop codecs store_log 4
        (0 ∷ [])
        (0 ∷ 0 ∷ [])
        (fresh_iter log_iter store_log, writer))
      (add_entries codecs
        (put (1 ∷ []) (2 ∷ 3 ∷ []) ∷ put (4 ∷ []) (5 ∷ []) ∷ put (1 ∷ []) [] ∷ [])
        writer)
rewrite_loop-add_entries_example =
    rewrite_loop-add_entries codecs store_log ready.plain stored_entries 84 (0 ∷ []) (0 ∷ 0 ∷ [])
      (fresh_iter log_iter store_log) writer ready.storable
      ((omega arith, omega arith), ((omega arith, omega arith), ((omega arith, omega arith), tt)))
      (fresh_iter-IsFor log_iter store_log) (inl (fresh_iter-IsFresh log_iter store_log refl))
      (omega arith) refl

start_header-IsStart_example :
    (header : HashHeader) × (start_header store_log.header
        (record {
          cap = 2;
          start = 84;
          hash_seed = 7;
          garbage_size = 0;
          copy_old = none;
          old_hash_size = 0;
        })
        hash_header
        0
      ≡ done header)
    × IsStart store_log.header 2 header
start_header-IsStart_example =
    start_header-IsStart store_log.header
      (record {
        cap = 2;
        start = 84;
        hash_seed = 7;
        garbage_size = 0;
        copy_old = none;
        old_hash_size = 0;
      })
      hash_header 0 refl (omega arith) (omega arith) (inl refl)
