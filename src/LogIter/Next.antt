-- ===== src/LogIter/Next.antt =====
-- Where the iterator of a log without compression stands, and what `sparkey_logiter_next` makes of it.
use sparkey.Base.{
  ℕ, ◌+◌, ◌-◌, ◌≤◌, ◌<◌, List, ◌++◌, length, drop, true, false, ltb, leb, ◌==◌, add64, sub64,
  lt→ltb, le→ltb, le→leb, lt→leb, length-drop, length-append, ◌≡◌, ap, ◌∙◌, arith,
}
use sparkey.Exec.{done, ◌>>=◌}
use sparkey.Compress.{Codecs, uses_compressor}
use sparkey.Entry.{Entry, encode, IsStorable}
use sparkey.LogReader.{LogReader, assert_log_open}
use sparkey.LogIter.{
  LogIter, iter_new, iter_active, iter_closed, iter_invalid, minus_one, assert_iter_open, seekblock,
  ensure_available, begin_next, rebase, end_of_data, next_open, next_from, logiter_next,
}
use sparkey.LogIter.Plain.{
  IsPlainLog, IsFor, skip_plain, at_entry, rebased, read_entry-at_entry, encode-pos,
}

-- A new iterator, whose first entry starts at `p`.
pub record IsFresh (i : LogIter) (p : ℕ) : Type 0 where
  pub state : i.state ≡ iter_new
  pub position : i.block_position ≡ 0
  pub offset : i.block_offset ≡ 0
  pub len : i.block_len ≡ 0
  pub next : i.next_block_position ≡ p
  pub behind_header : 0 < p

-- An iterator inside an entry; the next entry starts at `p`.
pub record IsInside (log : LogReader) (i : LogIter) (p : ℕ) : Type 0 where
  pub state : i.state ≡ iter_active
  pub next : i.next_block_position ≡ log.header.data_end
  pub len : i.block_position + i.block_len ≡ log.header.data_end
  pub entry_end : i.block_position + (i.block_offset + i.key_remaining + i.value_remaining) ≡ p
  pub in_data : p ≤ log.header.data_end

abbrev pub settled : LogReader → LogIter → LogIter
settled log i = record i { next_block_position = log.header.data_end }

-- The iterator after the first lines of `sparkey_logiter_next`.
abbrev pub cleared : LogIter → LogIter
cleared i = record i {
  state = iter_invalid;
  key_remaining = 0;
  value_remaining = 0;
  keylen = 0;
  valuelen = 0;
}

module _ (codecs : Codecs) (log : LogReader) (l : IsPlainLog log) where
  pub assert_open : (i : LogIter) → IsFor log i → assert_iter_open log i ≡ (done tt, i)
  unfolding assert_iter_open assert_log_open ◌>>=◌
  assert_open i f = ground (arith, l.is_open, f.is_open, f.same_file)

  pub plain_log : uses_compressor log.header.compression_type ≡ false
  unfolding uses_compressor
  plain_log = rw l.plain

  pub rebase-rebased :
      (e : Entry) (p : ℕ) (rest : List ℕ) (h : IsStorable e)
      (here : drop p log.bytes ≡ encode e ++ rest) (i : LogIter)
      → i.block_position + i.block_offset ≡ p
      → i.block_position + i.block_len ≡ log.header.data_end
      → p ≤ log.header.data_end
      → rebase codecs log i ≡ rebased codecs log e p rest h here i
  unfolding rebase rebased
  rebase-rebased e p rest h here i at len in_data =
      let position : add64 i.block_position i.block_offset ≡ p = omega (arith, l.end_u64) in
      let left : sub64 i.block_len i.block_offset ≡ log.header.data_end - p =
        omega (arith, l.end_u64) in
      rw (l.plain, position, left)

  module _ (e : Entry) (p : ℕ) (rest : List ℕ) (h : IsStorable e)
      (here : drop p log.bytes ≡ encode e ++ rest) where
    pub inside_data : p < log.header.data_end
    inside_data = omega (
      arith,
      ap length here,
      length-drop p log.bytes,
      length-append (encode e) rest,
      encode-pos e,
      l.sized,
    )

    pub next_inside :
        (i : LogIter)
        → IsFor log i
        → IsInside log i p
        → logiter_next codecs log i ≡ (done tt, at_entry log e p (settled log i))
    unfolding logiter_next next_open ensure_available begin_next ◌>>=◌
    next_inside i f s =
        let i1 = cleared i in
        let i2 = record i1 { block_offset = i.block_offset + i.key_remaining } in
        let i3 = record i2 {
          block_offset = i.block_offset + i.key_remaining + i.value_remaining;
        } in
        let more : ltb i3.block_offset i3.block_len ≡ true =
          lt→ltb i3.block_offset i3.block_len (omega (arith, inside_data)) in
        let some_left : (sub64 i3.block_len i3.block_offset == 0) ≡ false =
          ground (arith, l.end_u64, inside_data) in
        ap (λ t. next_from codecs log t i) s.state
        ∙ rw
            (
              assert_open i1 (record { is_open = f.is_open; same_file = f.same_file }),
              skip_plain codecs log i.key_remaining i1 (omega arith) (omega (arith, l.end_u64)),
              skip_plain codecs log i.value_remaining i2 (omega arith) (omega (arith, l.end_u64)),
              more,
              some_left,
            )
            (read_entry-at_entry codecs log e p rest h here i3
                (rebase-rebased e p rest h here i3 (omega arith) s.len s.in_data)
              ∙ (λ k. (done tt, at_entry log e p (record i { next_block_position = s.next k }))))

    pub next_fresh :
        (i : LogIter)
        → IsFor log i
        → IsFresh i p
        → logiter_next codecs log i ≡ (done tt, at_entry log e p (settled log i))
    unfolding logiter_next next_open ensure_available seekblock begin_next ◌>>=◌
    next_fresh i f s =
        let i1 = cleared i in
        let i2 = record i1 { block_offset = i.block_offset + 0 } in
        let i3 = record i1 { block_offset = i.block_offset + 0 + 0 } in
        let i4 = record i1 {
          block_offset = 0;
          compression_buf = drop i.next_block_position log.bytes;
          block_position = i.next_block_position;
          next_block_position = log.header.data_end;
          block_len = sub64 log.data_len i.next_block_position;
          entry_count = minus_one;
        } in
        let used : ltb i3.block_offset i3.block_len ≡ false =
          le→ltb i3.block_offset i3.block_len (omega (arith, s.offset, s.len)) in
        let more : leb log.header.data_end i.next_block_position ≡ false =
          lt→leb log.header.data_end i.next_block_position (omega (arith, inside_data, s.next)) in
        let elsewhere : (i.block_position == i.next_block_position) ≡ false =
          ground (arith, s.position, s.next, s.behind_header) in
        let plain : uses_compressor log.header.compression_type ≡ false = plain_log in
        let left : sub64 log.data_len i.next_block_position ≡ log.header.data_end - p =
          omega (arith, l.mapped, l.end_u64, s.next, inside_data) in
        let some_left : (sub64 i4.block_len 0 == 0) ≡ false =
          ground (arith, left, l.end_u64, inside_data) in
        ap (λ t. next_from codecs log t i) s.state
        ∙ rw
            (
              assert_open i1 (record { is_open = f.is_open; same_file = f.same_file }),
              skip_plain codecs log 0 i1 (omega (arith, s.offset, s.len)) (omega (arith, s.len)),
              skip_plain codecs log 0 i2 (omega (arith, s.offset, s.len)) (omega (arith, s.len)),
              used,
              more,
              elsewhere,
              plain,
              some_left,
            )
            (read_entry-at_entry codecs log e p rest h here i4 (
              rebase-rebased e p rest h here i4 (omega (arith, s.next))
                (omega (arith, left, s.next, inside_data)) (omega (arith, inside_data))))

  -- The iterator at the end of the data.
  abbrev pub ended : LogIter → LogIter
  ended i = record (cleared i) {
    block_position = 0;
    block_offset = 0;
    block_len = 0;
    state = iter_closed;
  }

  pub next_inside_end :
      (i : LogIter)
      → IsFor log i
      → IsInside log i log.header.data_end
      → logiter_next codecs log i ≡ (done tt, ended i)
  unfolding logiter_next next_open ensure_available begin_next end_of_data ◌>>=◌
  next_inside_end i f s =
      let i1 = cleared i in
      let i2 = record i1 { block_offset = i.block_offset + i.key_remaining } in
      let i3 = record i1 { block_offset = i.block_offset + i.key_remaining + i.value_remaining } in
      let used : ltb i3.block_offset i3.block_len ≡ false =
        le→ltb i3.block_offset i3.block_len (omega arith) in
      let last : leb log.header.data_end i.next_block_position ≡ true =
        le→leb log.header.data_end i.next_block_position (omega (arith, s.next)) in
      ap (λ t. next_from codecs log t i) s.state
      ∙ rw (
        assert_open i1 (record { is_open = f.is_open; same_file = f.same_file }),
        skip_plain codecs log i.key_remaining i1 (omega arith) (omega (arith, l.end_u64)),
        skip_plain codecs log i.value_remaining i2 (omega arith) (omega (arith, l.end_u64)),
        used,
        last,
      )

  pub next_fresh_end :
      (i : LogIter)
      → IsFor log i
      → IsFresh i log.header.data_end
      → logiter_next codecs log i ≡ (done tt, ended i)
  unfolding logiter_next next_open ensure_available begin_next end_of_data ◌>>=◌
  next_fresh_end i f s =
      let i1 = cleared i in
      let i2 = record i1 { block_offset = i.block_offset + 0 } in
      let i3 = record i1 { block_offset = i.block_offset + 0 + 0 } in
      let used : ltb i3.block_offset i3.block_len ≡ false =
        le→ltb i3.block_offset i3.block_len (omega (arith, s.offset, s.len)) in
      let last : leb log.header.data_end i.next_block_position ≡ true =
        le→leb log.header.data_end i.next_block_position (omega (arith, s.next)) in
      ap (λ t. next_from codecs log t i) s.state
      ∙ rw (
        assert_open i1 (record { is_open = f.is_open; same_file = f.same_file }),
        skip_plain codecs log 0 i1 (omega (arith, s.offset, s.len)) (omega (arith, s.len)),
        skip_plain codecs log 0 i2 (omega (arith, s.offset, s.len)) (omega (arith, s.len)),
        used,
        last,
      )
