-- ===== src/Log/Header.antt =====
-- The header of a log without compression through a session: its counters stay below the size of the
-- file, so that it is a valid header in the end.
use sparkey.Base.{
  ℕ, ◌+◌, ◌^◌, ◌≤◌, ◌<◌, List, [], ◌∷◌, length, length-append, IsU32, ◌≡◌, refl, arith,
}
use sparkey.LogHeader.{
  LogHeader, log_major_version, log_minor_version, log_header_size, compression_none,
}
use sparkey.LogHeader.Load.{IsValid}
use sparkey.Entry.{Entry, put, delete, encode, encode_all}
use sparkey.LogWriter.Open.{new_header}
use sparkey.LogWriter.Plain.{counted}
use sparkey.LogWriter.Session.{counted_all}
use sparkey.LogIter.Plain.{length-encode, encode-pos}

-- The header of a log whose entries take `n` bytes, but for the end of the data.
pub record IsCounted (h : LogHeader) (n : ℕ) : Type 0 where
  pub major : h.major_version ≡ log_major_version
  pub minor : h.minor_version ≡ log_minor_version
  pub sized : h.header_size ≡ log_header_size
  pub identifier : IsU32 h.file_identifier
  pub compression : h.compression_type ≡ compression_none
  pub block_size : h.compression_block_size ≡ 0
  pub entries : h.max_entries_per_block ≡ 0
  pub puts : h.num_puts ≤ n
  pub deletes : h.num_deletes ≤ n
  pub put_bytes : h.put_size ≤ n
  pub delete_bytes : h.delete_size ≤ n
  pub key : h.max_key_len ≤ n
  pub value : h.max_value_len ≤ n

counted-IsCounted :
    (e : Entry) (h : LogHeader) (n : ℕ)
    → IsCounted h n
    → n + length (encode e) < 2 ^ 63
    → IsCounted (counted e h) (n + length (encode e))
counted-IsCounted (put key value) h n c small = record {
  major = c.major;
  minor = c.minor;
  sized = c.sized;
  identifier = c.identifier;
  compression = c.compression;
  block_size = c.block_size;
  entries = c.entries;
  puts = omega (arith, c.puts, encode-pos (put key value));
  deletes = omega (arith, c.deletes);
  put_bytes = omega (arith, c.put_bytes);
  delete_bytes = omega (arith, c.delete_bytes);
  key = omega (arith, c.key, length-encode (put key value), length-append key value);
  value = omega (arith, c.value, length-encode (put key value), length-append key value);
}
counted-IsCounted (delete key) h n c small = record {
  major = c.major;
  minor = c.minor;
  sized = c.sized;
  identifier = c.identifier;
  compression = c.compression;
  block_size = c.block_size;
  entries = c.entries;
  puts = omega (arith, c.puts);
  deletes = omega (arith, c.deletes, encode-pos (delete key));
  put_bytes = omega (arith, c.put_bytes);
  delete_bytes = omega (arith, c.delete_bytes);
  key = omega (arith, c.key);
  value = omega (arith, c.value);
}

pub new_header-IsCounted :
    (identifier : ℕ) → IsU32 identifier → IsCounted (new_header identifier compression_none 0) 0
unfolding new_header
new_header-IsCounted identifier h = record {
  major = refl;
  minor = refl;
  sized = refl;
  identifier = h;
  compression = refl;
  block_size = refl;
  entries = refl;
  puts = omega arith;
  deletes = omega arith;
  put_bytes = omega arith;
  delete_bytes = omega arith;
  key = omega arith;
  value = omega arith;
}

pub counted_all-IsCounted :
    (es : List Entry) (h : LogHeader) (n : ℕ)
    → IsCounted h n
    → n + length (encode_all es) < 2 ^ 63
    → IsCounted (counted_all es h) (n + length (encode_all es))
counted_all-IsCounted [] h n c small = let e : n ≡ n + 0 = omega arith in rw e at c
counted_all-IsCounted (x ∷ es) h n c small =
    let both = length-append (encode x) (encode_all es) in
    let e : n + length (encode x) + length (encode_all es) ≡ n + length (encode_all (x ∷ es)) =
      omega (arith, both) in
    rw e at (
      counted_all-IsCounted es (counted x h) (n + length (encode x))
        (counted-IsCounted x h n c (omega (arith, both))) (omega (arith, both)))

-- With the end of the data behind the entries it is a header that loads.
pub final_header-IsValid :
    (h : LogHeader) (n : ℕ)
    → IsCounted h n
    → n + log_header_size < 2 ^ 63
    → IsValid (record h { data_end = log_header_size + n })
final_header-IsValid h n c small = record {
  major = c.major;
  minor = c.minor;
  sized = c.sized;
  identifier = c.identifier;
  end_u64 = omega arith;
  key_u64 = omega (arith, c.key);
  value_u64 = omega (arith, c.value);
  delete_u64 = omega (arith, c.delete_bytes);
  put_u64 = omega (arith, c.put_bytes);
  block_u32 = omega (arith, c.block_size);
  entries_u32 = omega (arith, c.entries);
  end_after_header = omega arith;
  puts_in = omega (arith, c.puts);
  deletes_in = omega (arith, c.deletes);
  compression = omega (arith, c.compression);
}
