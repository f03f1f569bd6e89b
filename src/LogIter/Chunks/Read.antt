-- ===== src/LogIter/Chunks/Read.antt =====
-- Reading the key and the value of an entry of a log without compression in one piece
-- (`sparkey_logiter_fill_key` and `sparkey_logiter_fill_value` of src/logreader.c).
use sparkey.Base.{
  ℕ, zero, suc, ◌+◌, ◌-◌, ◌^◌, ◌≤◌, ◌<◌, List, [], length, take, drop, true, false, ◌==◌, add64,
  sub64, lt→ltb, length-take, length-drop, ◌≡◌, sym, ap, ◌∙◌, arith,
}
use sparkey.Exec.{done, Exec, ◌>>=◌}
use sparkey.Endian.Memory.{peek_inside}
use sparkey.Compress.{Codecs}
use sparkey.LogReader.{LogReader}
use sparkey.LogIter.{LogIter, iter_active, is_active, min64, ensure_available}
use sparkey.LogIter.Chunks.{
  take_chunk, chunk, keychunk, valuechunk, fill_loop, fill_key, fill_value,
}
use sparkey.LogIter.Plain.{IsPlainLog, IsFor, skip_plain}
use sparkey.LogIter.Next.{assert_open}

-- The block holds what is left of the key and of the value.
pub record IsReadable (i : LogIter) : Type 0 where
  pub state : i.state ≡ iter_active
  pub fits : i.block_offset + i.key_remaining + i.value_remaining ≤ i.block_len
  pub in_buf : i.block_len ≤ length i.compression_buf
  pub small : i.block_len < 2 ^ 63

abbrev pub bytes_at : LogIter → ℕ → List ℕ
bytes_at i n = take n (drop i.block_offset i.compression_buf)

module _ (codecs : Codecs) (log : LogReader) (l : IsPlainLog log) where
  pub length-bytes_at :
      (i : LogIter) (n : ℕ)
      → i.block_offset + n ≤ length i.compression_buf
      → length (bytes_at i n) ≡ n
  length-bytes_at i n h =
      length-take n (drop i.block_offset i.compression_buf)
        (omega (arith, length-drop i.block_offset i.compression_buf))

  take_chunk-plain :
      (maxlen var : ℕ) (i : LogIter)
      → 0 < var
      → var ≤ maxlen
      → i.block_offset + var ≤ i.block_len
      → i.block_len ≤ length i.compression_buf
      → i.block_len < 2 ^ 63
      → take_chunk codecs log maxlen var i
        ≡ (done (bytes_at i var), record i { block_offset = i.block_offset + var })
  unfolding take_chunk ensure_available ◌>>=◌
  take_chunk-plain maxlen var i pos m fits buf small =
      let all : min64 maxlen (min64 var (sub64 i.block_len i.block_offset)) ≡ var = ground arith in
      let moved : add64 i.block_offset var ≡ i.block_offset + var = omega arith in
      rw (
        lt→ltb i.block_offset i.block_len (omega arith),
        all,
        peek_inside i.compression_buf i.block_offset var (omega arith),
        moved,
      )

  pub chunk-plain :
      (maxlen var : ℕ) (i : LogIter)
      → IsFor log i
      → i.state ≡ iter_active
      → 0 < var
      → var ≤ maxlen
      → i.block_offset + var ≤ i.block_len
      → i.block_len ≤ length i.compression_buf
      → i.block_len < 2 ^ 63
      → chunk codecs log maxlen var i
        ≡ (done (bytes_at i var), record i { block_offset = i.block_offset + var })
  unfolding chunk is_active ◌>>=◌
  chunk-plain maxlen var i f active pos m fits buf small =
      let is : is_active i.state ≡ true = ap is_active active in
      rw (
        assert_open codecs log l i f,
        is,
        lt→ltb 0 var pos,
        take_chunk-plain maxlen var i pos m fits buf small,
      )

  keychunk-plain :
      (i : LogIter)
      → IsFor log i
      → IsReadable i
      → 0 < i.key_remaining
      → keychunk codecs log i.key_remaining i ≡ (
        done (bytes_at i i.key_remaining),
        record i { block_offset = i.block_offset + i.key_remaining; key_remaining = 0 },
      )
  unfolding keychunk ◌>>=◌
  keychunk-plain i f r pos =
      let k = i.key_remaining in
      let got : length (bytes_at i k) ≡ k = length-bytes_at i k (omega (arith, r.fits, r.in_buf)) in
      let none_left : k - length (bytes_at i k) ≡ 0 = omega (arith, got) in
      rw (
        chunk-plain k k i f r.state pos (omega arith) (omega (arith, r.fits)) r.in_buf r.small,
        none_left,
      )

  valuechunk-plain :
      (i : LogIter)
      → IsFor log i
      → IsReadable i
      → 0 < i.value_remaining
      → i.key_remaining ≡ 0
      → valuechunk codecs log i.value_remaining i ≡ (
        done (bytes_at i i.value_remaining),
        record i {
          block_offset = i.block_offset + i.value_remaining;
          key_remaining = 0;
          value_remaining = 0;
        },
      )
  unfolding valuechunk ◌>>=◌
  valuechunk-plain i f r pos none =
      let k = i.value_remaining in
      let i1 = record i { block_offset = i.block_offset + i.key_remaining } in
      let i2 = record i1 { key_remaining = 0 } in
      let same : i2.block_offset ≡ i.block_offset = omega (arith, none) in
      let got : length (bytes_at i k) ≡ k = length-bytes_at i k (omega (arith, r.fits, r.in_buf)) in
      let none_left : k - length (bytes_at i k) ≡ 0 = omega (arith, got) in
      rw (
        skip_plain codecs log i.key_remaining i (omega (arith, r.fits)) r.small,
        chunk-plain k k i2 (record { is_open = f.is_open; same_file = f.same_file }) r.state pos
            (omega arith) (omega (arith, r.fits, none)) r.in_buf r.small,
        same,
        none_left,
      )

  fill_one :
      (next : ℕ → Exec LogIter (List ℕ)) (n : ℕ) (res : List ℕ) (i j : LogIter)
      → next (suc n) i ≡ (done res, j)
      → length res ≡ suc n
      → fill_loop codecs log next (suc n + 1) (suc n) [] i ≡ (done res, j)
  unfolding fill_loop ◌>>=◌
  fill_one next n res i j e h =
      let fuel : suc n + 1 ≡ suc (suc n) = omega arith in
      let some_got : (length res == 0) ≡ false = ground (arith, h) in
      let all : suc n - length res ≡ 0 = omega (arith, h) in rw (fuel, e, some_got, all)

  pub fill_key-plain :
      (n : ℕ) (i : LogIter)
      → IsFor log i
      → IsReadable i
      → n ≡ i.key_remaining
      → fill_key codecs log n i ≡ (
        done (bytes_at i i.key_remaining),
        record i { block_offset = i.block_offset + i.key_remaining; key_remaining = 0 },
      )
  unfolding fill_key fill_loop
  fill_key-plain zero i f r p =
      let same : i.block_offset ≡ i.block_offset + i.key_remaining = omega (arith, p) in
      λ t. (done (bytes_at i (p t)), record i { block_offset = same t; key_remaining = sym p t })
  fill_key-plain (suc n) i f r p =
      fill_one (keychunk codecs log) n _ i _
        (ap (λ k. keychunk codecs log k i) p ∙ keychunk-plain i f r (omega (arith, p)))
        (length-bytes_at i i.key_remaining (omega (arith, r.fits, r.in_buf)) ∙ sym p)

  pub fill_value-plain :
      (n : ℕ) (i : LogIter)
      → IsFor log i
      → IsReadable i
      → n ≡ i.value_remaining
      → i.key_remaining ≡ 0
      → fill_value codecs log n i ≡ (
        done (bytes_at i i.value_remaining),
        record i {
          block_offset = i.block_offset + i.value_remaining;
          key_remaining = 0;
          value_remaining = 0;
        },
      )
  unfolding fill_value fill_loop
  fill_value-plain zero i f r p none =
      let same : i.block_offset ≡ i.block_offset + i.value_remaining = omega (arith, p) in
      λ t. (
        done (bytes_at i (p t)),
        record i { block_offset = same t; key_remaining = none t; value_remaining = sym p t },
      )
  fill_value-plain (suc n) i f r p none =
      fill_one (valuechunk codecs log) n _ i _
        (ap (λ k. valuechunk codecs log k i) p ∙ valuechunk-plain i f r (omega (arith, p)) none)
        (length-bytes_at i i.value_remaining (omega (arith, r.fits, r.in_buf)) ∙ sym p)
