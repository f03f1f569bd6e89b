-- ===== src/LogIter/Seek.antt =====
-- Seeking an entry of a log without compression by its position, and going back to its start
-- (`sparkey_logiter_seek` and `sparkey_logiter_reset` of src/logreader.c).
use sparkey.Base.{
  ℕ, ◌-◌, ◌<◌, List, ◌++◌, drop, true, false, ltb, ◌==◌, ==→eq, Bool-cases, sub64, lt→ltb, ◌≡◌,
  refl, ap, ◌∙◌, ◌⊎◌, inl, inr, arith,
}
use sparkey.Exec.{done, ◌>>=◌}
use sparkey.Compress.{Codecs}
use sparkey.Entry.{Entry, encode, IsStorable}
use sparkey.LogReader.{LogReader}
use sparkey.LogIter.{
  LogIter, iter_new, is_active, minus_one, seekblock, ensure_available, logiter_seek, next_open,
  next_from, logiter_next, logiter_reset, logiter_skip,
}
use sparkey.LogIter.Plain.{IsPlainLog, IsFor, skip_plain, at_entry, read_entry-at_entry}
use sparkey.LogIter.Next.{settled, assert_open, cleared, plain_log, rebase-rebased, inside_data}

-- The iterator is open and belongs to the log. If a block is loaded, it is the rest of the data from
-- its position on.
pub record IsLoaded (log : LogReader) (i : LogIter) : Type 0 where
  pub for : IsFor log i
  pub block :
      (i.block_position ≡ 0)
      ⊎ ((i.compression_buf ≡ drop i.block_position log.bytes)
          × (i.block_len ≡ log.header.data_end - i.block_position)
          × (i.next_block_position ≡ log.header.data_end))

-- The iterator at the start of the block at `p`.
abbrev pub sought : LogReader → ℕ → LogIter → LogIter
sought log p i = record i {
  block_position = p;
  block_len = log.header.data_end - p;
  next_block_position = log.header.data_end;
  block_offset = 0;
  compression_buf = drop p log.bytes;
}

-- The iterator in an entry at `p`, at an offset, with what is left of the key and of the value.
abbrev pub within_entry : LogReader → Entry → ℕ → LogIter → (offset key value : ℕ) → LogIter
within_entry log e p i offset key value = record (at_entry log e p (settled log i)) {
  block_offset = offset;
  key_remaining = key;
  value_remaining = value;
}

module _ (codecs : Codecs) (log : LogReader) (l : IsPlainLog log) where
  seekblock-sought :
      (p : ℕ) (i : LogIter)
      → IsLoaded log i
      → 0 < p
      → p < log.header.data_end
      → seekblock codecs log p i ≡ (done tt, sought log p i)
  unfolding seekblock ◌>>=◌
  seekblock-sought p i v some inside = elim (Bool-cases (i.block_position == p)) [
    | inl there ↦
        let at = ==→eq i.block_position p there in
        elim v.block [
          | inl none ↦ absurd (omega (arith, none, at))
          | inr (buf, len, next) ↦
              let buf' : i.compression_buf ≡ drop p log.bytes =
                buf ∙ ap (λ n. drop n log.bytes) at in
              let len' : i.block_len ≡ log.header.data_end - p = omega (arith, len, at) in
              rw there (λ k. (
                done tt,
                record i {
                  block_position = at k;
                  block_len = len' k;
                  next_block_position = next k;
                  block_offset = 0;
                  compression_buf = buf' k;
                },
              ))
        ]
    | inr away ↦
        let left : sub64 log.data_len p ≡ log.header.data_end - p =
          omega (arith, l.mapped, l.end_u64) in
        rw (away, plain_log codecs log l, left) refl
  ]

  pub logiter_seek-sought :
      (p : ℕ) (i : LogIter)
      → IsLoaded log i
      → 0 < p
      → p < log.header.data_end
      → logiter_seek codecs log p i
        ≡ (done tt, record (sought log p i) { entry_count = minus_one; state = iter_new })
  unfolding logiter_seek ◌>>=◌
  logiter_seek-sought p i v some inside =
      let more : (p == log.header.data_end) ≡ false = ground arith in
      rw (assert_open codecs log l i v.for, more, seekblock-sought p i v some inside) refl

  module _ (e : Entry) (p : ℕ) (rest : List ℕ) (h : IsStorable e)
      (here : drop p log.bytes ≡ encode e ++ rest) where
    pub next_sought :
        (i : LogIter)
        → IsFor log i
        → logiter_next codecs log
            (record (sought log p i) { entry_count = minus_one; state = iter_new })
          ≡ (done tt, at_entry log e p (settled log i))
    unfolding logiter_next next_from next_open ensure_available ◌>>=◌
    next_sought i f =
        let i0 = record (sought log p i) { entry_count = minus_one; state = iter_new } in
        let i1 = cleared i0 in
        let inside = inside_data codecs log l e p rest h here in
        let more : ltb 0 (log.header.data_end - p) ≡ true = lt→ltb 0 _ (omega (arith, inside)) in
        let some_left : (sub64 (log.header.data_end - p) 0 == 0) ≡ false =
          ground (arith, l.end_u64, inside) in
        rw
          (
            assert_open codecs log l i1 (record { is_open = f.is_open; same_file = f.same_file }),
            skip_plain codecs log 0 i1 (omega arith) (omega (arith, l.end_u64)),
            skip_plain codecs log 0 i1 (omega arith) (omega (arith, l.end_u64)),
            more,
            some_left,
          )
          (read_entry-at_entry codecs log e p rest h here i1 (
            rebase-rebased codecs log l e p rest h here i1 (omega arith) (omega (arith, inside))
              (omega (arith, inside))))

    -- Back to the start of the entry that the iterator is in.
    pub reset-at_entry :
        (i : LogIter) (offset key value : ℕ)
        → IsFor log i
        → 0 < p
        → logiter_reset codecs log (within_entry log e p i offset key value)
          ≡ (done tt, at_entry log e p (settled log i))
    unfolding logiter_reset is_active ◌>>=◌
    reset-at_entry i offset key value f some =
        rw
          (seekblock-sought p (within_entry log e p i offset key value)
            (record {
              for = record { is_open = f.is_open; same_file = f.same_file };
              block = inr (refl, refl, refl);
            })
            some (inside_data codecs log l e p rest h here))
          refl

  pub skip_none : (i : LogIter) → logiter_skip codecs log 0 i ≡ (done tt, i)
  unfolding logiter_skip
  skip_none i = refl
