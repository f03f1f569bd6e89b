-- ===== src/Lib.antt =====
-- Sparkey: a constant key-value store. A writer appends puts and deletes to a log file, in the clear or in
-- compressed blocks; a hash file, made from the log, maps keys to positions in the log; readers map both.
--
-- The parts, and the files that model them (paths are those of the repository):
--   ReturnCode          the codes of src/sparkey.h, and src/util.c from errno to codes
--   Exec                functions that return a code and write through pointers: RETHROW is `>>=`
--   Vlq                 write_vlq (src/logwriter.c), read_vlq (src/logreader.c), unsigned_vlq_size
--                       (src/hashwriter.c); Vlq/Format is the encoding as a list of groups
--   Endian, File        src/endiantools.c: words in memory, write_full, words in files
--   LogHeader           src/logheader.c; HashHeader is src/hashheader.c
--   Buf                 src/buf.c; Compress is src/compress.c
--   LogWriter           src/logwriter.c; LogWriter/Open holds create and append
--   LogReader, LogIter  src/logreader.c; LogIter/Chunks holds the chunk functions and keycmp
--   Murmur              src/MurmurHash3.c; HashAlgorithm is src/hashalgorithms.c
--   FileName            the end of src/util.c: the name of a log from that of its index, and back
--   HashTable           the inline functions of src/hashheader.h, slots in memory, and src/hashiter.c;
--                       HashTable/Order is the order of the slots, HashTable/Represents ties slots to memory,
--                       HashTable/Index and Implements to the log, as a map from keys to addresses
--   HashWriter          the table while it is written (src/hashwriter.c): hash_put, hash_delete, hash_copy;
--                       Fill is read_fully and fill_hash, Plan, Entries and Write are sparkey_hash_write;
--                       Asks, Compare, Indexed and Build follow the comparisons of keys through
--                       the loop; Plan/Start is the header that it starts from
--   HashReader          src/hashreader.c: opening, sparkey_hash_get, sparkey_logiter_hashnext
--   Command             src/main.c: get, and the loop of rewrite
--   Store               the index of a log and the lookups in it, against the values a client means to find
--   Entry, Log          the format of an entry (README.md), and a log from the writer to the reader
--
-- State. A writer is its header, the block buffer, and a stream: the buffer in front of the file and the file,
-- with its contents and offset (LogWriter, Buf.Stream, File). A reader is the header and the mapped bytes. An
-- iterator is its struct; its pointer into memory is the memory from there on. Memory is a list of bytes, and an
-- access past its end is the fault `out_of_bounds`. 64-bit and 32-bit arithmetic wraps as written (add64, u32).
-- A function of the source has its name, without the prefix sparkey_; a part of a function is a helper of its own.
--
-- The system. What malloc, open, remove, rand and mmap answer is an argument (Environment). The answers of the
-- calls of write are a list in the file: each takes some bytes or fails with an errno; when the list is used up,
-- each takes everything. Those of read are a list likewise. `times` is the product of a
-- count with 1.3 in doubles, for the capacity of a table. Fuel: buf_add, skip, fill_key, fill_value, keycmp, the
-- loops over the slots of a table and the reading client take rounds; the comment at each says why they are enough,
-- and the theorems that say what is returned cover it. The loop of sparkey_hash_write over a log takes a number of
-- rounds as an argument.
--
-- Not modelled: messages, the texts of return codes, the commands of src/main.c but for get and the loop of
-- rewrite, the test programs, freeing memory and closing descriptors (but for open_status and the close in
-- fill_hash), the branch for big-endian machines, hashes of keys whose length is negative as an `int` (a fault
-- here), negative block sizes and hash sizes. The libraries snappy and zstd are the parameter `Codecs`; no
-- theorem here is about compressed blocks.
pub mod Store
pub mod Command
pub mod Base
pub mod ReturnCode
pub mod Exec
pub mod Vlq
pub mod Endian
pub mod File
pub mod LogHeader
pub mod Buf
pub mod Compress
pub mod Entry
pub mod LogWriter
pub mod LogReader
pub mod LogIter
pub mod Log
pub mod Murmur
pub mod HashAlgorithm
pub mod HashHeader
pub mod HashTable
pub mod HashWriter
pub mod HashReader
pub mod FileName
pub mod Tests
pub mod HashTests
pub mod WriteTests
pub mod StoreTests
