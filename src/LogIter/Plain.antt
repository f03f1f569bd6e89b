-- ===== src/LogIter/Plain.antt =====
-- The iterator on a log without compression: one call of `sparkey_logiter_next` at the bytes of an entry.
use sparkey.Base.{
  ℕ, zero, suc, ◌+◌, ◌-◌, ◌^◌, ◌≤◌, ◌<◌, List, [], ◌++◌, length, drop, add64, sub64, lt→ltb,
  drop-length-append, length-append, append_assoc, IsU64, ◌≡◌, refl, ap, ◌∙◌, arith,
}
use sparkey.Exec.{done, ◌>>=◌}
use sparkey.Vlq.{read_vlq}
use sparkey.Vlq.Format.{vlq}
use sparkey.Vlq.Size.{length-groups_bounds}
use sparkey.Vlq.RoundTrip.{read_vlq-vlq}
use sparkey.LogHeader.{compression_none}
use sparkey.Compress.{Codecs}
use sparkey.Entry.{Entry, put, delete, encode, IsStorable}
use sparkey.LogReader.{LogReader, magic_value_logreader}
use sparkey.LogIter.{
  LogIter, iter_active, EntryType, entry_put, entry_delete, magic_value_logiter, minus_one, min64,
  ensure_available, skip_loop, skip, rebase, read_length, set_lengths, read_entry,
}

-- An open log without compression, all of whose data is mapped.
pub record IsPlainLog (log : LogReader) : Type 0 where
  pub is_open : log.open_status ≡ magic_value_logreader
  pub plain : log.header.compression_type ≡ compression_none
  pub mapped : log.data_len ≡ log.header.data_end
  pub sized : length log.bytes ≡ log.header.data_end
  pub end_u64 : log.header.data_end < 2 ^ 63

-- The iterator is open, and belongs to the log.
pub record IsFor (log : LogReader) (i : LogIter) : Type 0 where
  pub is_open : i.open_status ≡ magic_value_logiter
  pub same_file : i.file_identifier ≡ log.header.file_identifier

-- The two numbers in front of an entry, and what they make of the iterator.
abbrev pub first : Entry → ℕ
first (put key value) = length key + 1
first (delete key) = 0

abbrev pub second : Entry → ℕ
second (put key value) = length value
second (delete key) = length key

abbrev pub payload : Entry → List ℕ
payload (put key value) = key ++ value
payload (delete key) = [] ++ key

abbrev pub prefix_len : Entry → ℕ
prefix_len e = length (vlq (first e)) + length (vlq (second e))

abbrev pub key_of : Entry → List ℕ
key_of (put key value) = key
key_of (delete key) = key

abbrev pub value_of : Entry → List ℕ
value_of (put key value) = value
value_of (delete key) = []

abbrev pub type_of : Entry → EntryType
type_of (put key value) = entry_put
type_of (delete key) = entry_delete

-- The iterator at an entry that starts at `p`, nothing of it read but the lengths.
abbrev pub at_entry : LogReader → Entry → ℕ → LogIter → LogIter
at_entry log e p i = record i {
  block_position = p;
  block_len = log.header.data_end - p;
  block_offset = prefix_len e;
  entry_count = 0;
  compression_buf = drop p log.bytes;
  entry_block_position = p;
  entry_block_offset = prefix_len e;
  type = type_of e;
  state = iter_active;
  keylen = length (key_of e);
  valuelen = length (value_of e);
  key_remaining = length (key_of e);
  value_remaining = length (value_of e);
}

pub first-IsU64 : (e : Entry) → IsStorable e → IsU64 (first e)
first-IsU64 (put key value) h = h.0
first-IsU64 (delete key) h = omega arith

pub second-IsU64 : (e : Entry) → IsStorable e → IsU64 (second e)
second-IsU64 (put key value) h = h.1
second-IsU64 (delete key) h = h

vlq_short : (v : ℕ) → length (vlq v) ≤ 10
vlq_short v = (length-groups_bounds 9 v).1

set_lengths_of : Entry → LogIter → LogIter
set_lengths_of e i = record i {
  keylen = length (key_of e);
  key_remaining = length (key_of e);
  valuelen = length (value_of e);
  value_remaining = length (value_of e);
  type = type_of e;
}

set_lengths-entry :
    (codecs : Codecs) (log : LogReader) (e : Entry) (i : LogIter)
    → set_lengths codecs log (first e) (second e) i ≡ set_lengths_of e i
unfolding set_lengths set_lengths_of
set_lengths-entry codecs log (put key value) i =
    let more : length key + 1 ≡ suc (length key) = omega arith in rw more
set_lengths-entry codecs log (delete key) i = refl

pub encode-parts : (e : Entry) → encode e ≡ vlq (first e) ++ (vlq (second e) ++ payload e)
encode-parts (put key value) = refl
encode-parts (delete key) = refl

pub length-encode : (e : Entry) → length (encode e) ≡ prefix_len e + length (payload e)
length-encode e = omega (
  arith,
  ap length (encode-parts e),
  length-append (vlq (first e)) (vlq (second e) ++ payload e),
  length-append (vlq (second e)) (payload e),
)

pub encode-pos : (e : Entry) → 0 < length (encode e)
encode-pos e = omega (arith, length-encode e, length-groups_bounds 9 (first e))

module _ (codecs : Codecs) (log : LogReader) where
  skip_one_round :
      (fuel len : ℕ) (i : LogIter)
      → i.block_offset + suc len ≤ i.block_len
      → i.block_len < 2 ^ 63
      → skip_loop codecs log (suc fuel) (suc len) i
        ≡ (done tt, record i { block_offset = i.block_offset + suc len })
  unfolding skip_loop ensure_available ◌>>=◌
  skip_one_round fuel len i h b =
      let all : min64 (suc len) (sub64 i.block_len i.block_offset) ≡ suc len = ground arith in
      let nothing : suc len - suc len ≡ 0 = omega arith in
      let moved : add64 i.block_offset (suc len) ≡ i.block_offset + suc len = omega arith in
      rw (lt→ltb i.block_offset i.block_len (omega arith), all, nothing, moved)

  pub skip_plain :
      (len : ℕ) (i : LogIter)
      → i.block_offset + len ≤ i.block_len
      → i.block_len < 2 ^ 63
      → skip codecs log len i ≡ (done tt, record i { block_offset = i.block_offset + len })
  unfolding skip skip_loop
  skip_plain zero i h b =
      let e : i.block_offset ≡ i.block_offset + 0 = omega arith in
      ap (λ n. (done tt, record i { block_offset = n })) e
  skip_plain (suc len) i h b =
      let e : suc len + length log.bytes + 1 ≡ suc (suc len + length log.bytes) = omega arith in
      rw e (skip_one_round (suc len + length log.bytes) len i h b)

  -- The bytes of an entry at `p`, cut into its two numbers and the rest.
  module _ (e : Entry) (p : ℕ) (rest : List ℕ) (h : IsStorable e)
      (here : drop p log.bytes ≡ encode e ++ rest) where
    pub numbers : drop p log.bytes ≡ vlq (first e) ++ (vlq (second e) ++ (payload e ++ rest))
    numbers =
        here
        ∙ ap (λ l. l ++ rest) (encode-parts e)
        ∙ append_assoc (vlq (first e)) (vlq (second e) ++ payload e) rest
        ∙ ap (λ l. vlq (first e) ++ l) (append_assoc (vlq (second e)) (payload e) rest)

    reads_first : read_vlq (drop p log.bytes) 0 ≡ done (first e, length (vlq (first e)))
    reads_first =
        let start : 0 + length (vlq (first e)) ≡ length (vlq (first e)) = omega arith in
        read_vlq-vlq (first e) 0 (drop p log.bytes) _ (first-IsU64 e h) numbers
          (omega (arith, vlq_short (first e)))
        ∙ ap (λ n. done (first e, n)) start

    reads_second :
        read_vlq (drop p log.bytes) (length (vlq (first e))) ≡ done (second e, prefix_len e)
    reads_second =
        read_vlq-vlq (second e) (length (vlq (first e))) (drop p log.bytes) (payload e ++ rest)
          (second-IsU64 e h)
          (ap (drop (length (vlq (first e)))) numbers
            ∙ drop-length-append (vlq (first e)) _ (length (vlq (first e))) refl)
          (omega (arith, vlq_short (first e), vlq_short (second e)))

    unfoldable pub rebased : LogIter → LogIter
    rebased i = record i {
      block_position = p;
      block_len = log.header.data_end - p;
      block_offset = 0;
      compression_buf = drop p log.bytes;
      entry_count = minus_one;
    }

    pub read_entry-at_entry :
        (i : LogIter)
        → rebase codecs log i ≡ rebased i
        → read_entry codecs log i ≡ (done tt, at_entry log e p i)
    unfolding read_entry read_length rebased set_lengths_of ◌>>=◌
    read_entry-at_entry i r = rw (r, reads_first, reads_second, set_lengths-entry codecs log e)
