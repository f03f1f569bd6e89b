-- ===== src/LogIter/Chunks/Key.antt =====
-- The key of an entry of a log without compression, read as one chunk, and the comparison of two keys
-- (`sparkey_logiter_keychunk` and `sparkey_logiter_keycmp` of src/logreader.c).
use sparkey.Base.{
  ℕ, zero, suc, ◌+◌, ◌-◌, ◌^◌, ◌≤◌, List, [], ◌∷◌, ◌++◌, length, take, drop, true,
  take-length-append, take_all, drop_all, ◌≡◌, refl, ap, ◌∙◌, arith,
}
use sparkey.Exec.{done, Exec, ◌>>=◌}
use sparkey.Compress.{Codecs}
use sparkey.Entry.{Entry, encode, IsStorable}
use sparkey.LogReader.{LogReader}
use sparkey.LogIter.{LogIter, is_active, min64}
use sparkey.LogIter.Chunks.{
  Order, below, same, above, memcmp, chunk, keychunk, on_first, on_second, refill, cmp_loop, keycmp,
}
use sparkey.LogIter.Chunks.Read.{IsReadable, bytes_at, chunk-plain, length-bytes_at}
use sparkey.LogIter.Plain.{IsPlainLog, IsFor, at_entry, prefix_len, key_of, value_of}
use sparkey.LogIter.Next.{settled, assert_open}
use sparkey.LogIter.Scan.{at_key, readable}
use sparkey.LogIter.Seek.{within_entry}

module _ (codecs : Codecs) (log : LogReader) (l : IsPlainLog log) where
  -- A chunk that is not cut short, empty or not.
  pub whole_chunk :
      (maxlen var : ℕ) (i : LogIter)
      → IsFor log i
      → IsReadable i
      → var ≤ maxlen
      → i.block_offset + var ≤ i.block_len
      → chunk codecs log maxlen var i
        ≡ (done (bytes_at i var), record i { block_offset = i.block_offset + var })
  unfolding chunk is_active ◌>>=◌
  whole_chunk maxlen zero i f r m fits =
      let same : i.block_offset ≡ i.block_offset + 0 = omega arith in
      let is : is_active i.state ≡ true = ap is_active r.state in
      rw (assert_open codecs log l i f, is) (λ k. (done [], record i { block_offset = same k }))
  whole_chunk maxlen (suc n) i f r m fits =
      chunk-plain codecs log l maxlen (suc n) i f r.state (omega arith) m fits r.in_buf r.small

  -- All that is left of the key, in one chunk.
  keychunk_whole :
      (maxlen : ℕ) (i : LogIter)
      → IsFor log i
      → IsReadable i
      → i.key_remaining ≤ maxlen
      → keychunk codecs log maxlen i ≡ (
        done (bytes_at i i.key_remaining),
        record i { block_offset = i.block_offset + i.key_remaining; key_remaining = 0 },
      )
  unfolding keychunk ◌>>=◌
  keychunk_whole maxlen i f r m =
      let k = i.key_remaining in
      let got : length (bytes_at i k) ≡ k =
        length-bytes_at codecs log l i k (omega (arith, r.fits, r.in_buf)) in
      let none_left : k - length (bytes_at i k) ≡ 0 = omega (arith, got) in
      rw (whole_chunk maxlen k i f r m (omega (arith, r.fits)), none_left)

  module _ (e : Entry) (p : ℕ) (rest : List ℕ) (h : IsStorable e)
      (here : drop p log.bytes ≡ encode e ++ rest) where
    -- The iterator at the start of the entry, and behind its key.
    abbrev pub at_start : LogIter → LogIter
    at_start i = at_entry log e p (settled log i)

    abbrev pub behind_key : LogIter → LogIter
    behind_key i = within_entry log e p i (prefix_len e + length (key_of e)) 0 (length (value_of e))

    pub keychunk-key :
        (maxlen : ℕ) (i : LogIter)
        → IsFor log i
        → length (key_of e) ≤ maxlen
        → keychunk codecs log maxlen (at_start i) ≡ (done (key_of e), behind_key i)
    keychunk-key maxlen i f m =
        let key : bytes_at (at_start i) (length (key_of e)) ≡ key_of e =
          ap (take (length (key_of e))) (at_key codecs log l e p rest h here)
          ∙ take-length-append (key_of e) _ _ refl in
        keychunk_whole maxlen (at_start i) (record { is_open = f.is_open; same_file = f.same_file })
          (readable codecs log l e p rest h here (settled log i)) m
        ∙ ap (λ (k : List ℕ). (done k, behind_key i)) key

    -- Nothing of the key is left.
    pub keychunk-none :
        (maxlen : ℕ) (i : LogIter)
        → IsFor log i
        → keychunk codecs log maxlen (behind_key i) ≡ (done [], behind_key i)
    unfolding keychunk chunk is_active ◌>>=◌
    keychunk-none maxlen i f =
        rw
          (assert_open codecs log l (behind_key i)
            (record { is_open = f.is_open; same_file = f.same_file }))
          refl

  -- What the loop does after the comparison of two chunks.
  abbrev compared : Exec (LogIter × LogIter) Order → Order → Exec (LogIter × LogIter) Order
  compared rest o p = elim o [ same ↦ rest p | below ↦ (done below, p) | above ↦ (done above, p) ]

  abbrev next_round : (fuel n : ℕ) (xs ys : List ℕ) → Exec (LogIter × LogIter) Order
  next_round fuel n xs ys = do
    a ← on_first codecs log (refill codecs log (drop n xs))
    b ← on_second codecs log (refill codecs log (drop n ys))
    cmp_loop codecs log fuel a b

  compared-last :
      (rest : Exec (LogIter × LogIter) Order) (o : Order) (p : LogIter × LogIter)
      → rest p ≡ (done same, p)
      → compared rest o p ≡ (done o, p)
  compared-last rest same p r = r
  compared-last rest below p r = refl
  compared-last rest above p r = refl

  -- The comparison of two keys that are read to their ends.
  ends_loop :
      (fuel n : ℕ) (xs ys : List ℕ) (i j : LogIter)
      → n ≡ length xs
      → n ≡ length ys
      → keychunk codecs log (2 ^ 30) i ≡ (done [], i)
      → keychunk codecs log (2 ^ 30) j ≡ (done [], j)
      → cmp_loop codecs log (suc fuel) xs ys (i, j) ≡ (done (memcmp xs ys), (i, j))
  unfolding cmp_loop refill on_first on_second ◌>>=◌
  ends_loop fuel n [] [] i j e1 e2 r1 r2 = unfold memcmp in refl
  ends_loop fuel n [] (y ∷ ys) i j e1 e2 r1 r2 = absurd (omega (arith, e1, e2))
  ends_loop fuel n (x ∷ xs) [] i j e1 e2 r1 r2 = absurd (omega (arith, e1, e2))
  ends_loop fuel n (x ∷ xs) (y ∷ ys) i j e1 e2 r1 r2 =
      let m = min64 (length (x ∷ xs)) (length (y ∷ ys)) in
      let len : m ≡ n = ground (arith, e1, e2) in
      let t1 = ap (λ k. take k (x ∷ xs)) len ∙ take_all n (x ∷ xs) (omega (arith, e1)) in
      let t2 = ap (λ k. take k (y ∷ ys)) len ∙ take_all n (y ∷ ys) (omega (arith, e2)) in
      let d1 = ap (λ k. drop k (x ∷ xs)) len ∙ drop_all n (x ∷ xs) (omega (arith, e1)) in
      let d2 = ap (λ k. drop k (y ∷ ys)) len ∙ drop_all n (y ∷ ys) (omega (arith, e2)) in
      let same_chunks : memcmp (take m (x ∷ xs)) (take m (y ∷ ys)) ≡ memcmp (x ∷ xs) (y ∷ ys) =
        λ k. memcmp (t1 k) (t2 k) in
      ap (λ o. compared (next_round fuel m (x ∷ xs) (y ∷ ys)) o (i, j)) same_chunks
      ∙ compared-last (next_round fuel m (x ∷ xs) (y ∷ ys)) _ (i, j) (rw (d1, d2, r1, r2) refl)

  -- `sparkey_logiter_keycmp` at the starts of two entries whose keys have the same length.
  pub keycmp-memcmp :
      (e1 e2 : Entry) (p1 p2 : ℕ) (rest1 rest2 : List ℕ) (h1 : IsStorable e1) (h2 : IsStorable e2)
      (here1 : drop p1 log.bytes ≡ encode e1 ++ rest1)
      (here2 : drop p2 log.bytes ≡ encode e2 ++ rest2) (i j : LogIter)
      → IsFor log i
      → IsFor log j
      → length (key_of e1) ≡ length (key_of e2)
      → length (key_of e1) ≤ 2 ^ 30
      → keycmp codecs log (at_start e1 p1 rest1 h1 here1 i, at_start e2 p2 rest2 h2 here2 j) ≡ (
        done (memcmp (key_of e1) (key_of e2)),
        (behind_key e1 p1 rest1 h1 here1 i, behind_key e2 p2 rest2 h2 here2 j),
      )
  unfolding keycmp on_first on_second ◌>>=◌
  keycmp-memcmp e1 e2 p1 p2 rest1 rest2 h1 h2 here1 here2 i j fi fj e m =
      let fuel : length (key_of e1) + 1 ≡ suc (length (key_of e1)) = omega arith in
      rw
        (
          keychunk-key e1 p1 rest1 h1 here1 (2 ^ 30) i fi m,
          keychunk-key e2 p2 rest2 h2 here2 (2 ^ 30) j fj (omega (arith, e)),
          fuel,
        )
        (ends_loop (length (key_of e1)) (length (key_of e1)) (key_of e1) (key_of e2)
          (behind_key e1 p1 rest1 h1 here1 i) (behind_key e2 p2 rest2 h2 here2 j) refl e
          (keychunk-none e1 p1 rest1 h1 here1 (2 ^ 30) i fi)
          (keychunk-none e2 p2 rest2 h2 here2 (2 ^ 30) j fj))
