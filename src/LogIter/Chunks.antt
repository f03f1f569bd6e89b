-- ===== src/LogIter/Chunks.antt =====
-- Reading keys and values in chunks, and comparing keys (src/logreader.c).
pub mod Compare
pub mod Read
pub mod Key
pub mod Value
use sparkey.Base.{
  ℕ, zero, suc, ◌+◌, ◌-◌, ◌^◌, List, [], ◌∷◌, ◌++◌, length, take, drop, Bool, true, false, not, ltb,
  ◌==◌, ◌&&◌, if◌then◌else◌, add64, sub64,
}
use sparkey.ReturnCode.{log_iterator_inactive}
use sparkey.Exec.{
  Outcome, done, thrown, fault, out_of_fuel, Exec, pure, lift, gets, modify, throw_if, within,
  continue, ◌>>=◌, ◌>>◌,
}
use sparkey.Endian.{peek}
use sparkey.Compress.{Codecs}
use sparkey.LogReader.{LogReader}
use sparkey.LogIter.{
  LogIter, IterState, iter_active, is_active, min64, assert_iter_open, ensure_available, skip,
}

-- `memcmp`: the sign of the first difference, as -1, 0 or 1.
pub data Order : Type 0 where
  below same above : Order

pub memcmp : List ℕ → List ℕ → Order
memcmp [] ys = same
memcmp (x ∷ xs) [] = same
memcmp (x ∷ xs) (y ∷ ys) =
    let rest = memcmp xs ys in if ltb x y then below else if ltb y x then above else rest

module _ (codecs : Codecs) (log : LogReader) where
  -- `sparkey_logiter_chunk` with a `var` above 0: the bytes of the chunk.
  pub take_chunk : (maxlen var : ℕ) → Exec LogIter (List ℕ)
  take_chunk maxlen var = do
    ensure_available codecs log
    i ← gets (λ i. i)
    let m = min64 maxlen (min64 var (sub64 i.block_len i.block_offset))
    res ← lift (peek i.compression_buf i.block_offset m)
    modify (λ i. record i { block_offset = add64 i.block_offset m })
    pure res

  pub chunk : (maxlen var : ℕ) → Exec LogIter (List ℕ)
  unfolding take_chunk
  chunk maxlen var = do
    assert_iter_open log
    i ← gets (λ i. i)
    throw_if (not (is_active i.state)) log_iterator_inactive
    if ltb 0 var then take_chunk maxlen var else pure []

  -- `sparkey_logiter_keychunk`: `var` is `key_remaining`.
  pub keychunk : ℕ → Exec LogIter (List ℕ)
  unfolding chunk
  keychunk maxlen = do
    i ← gets (λ i. i)
    res ← chunk maxlen i.key_remaining
    modify (λ i. record i { key_remaining = i.key_remaining - length res })
    pure res

  -- `sparkey_logiter_valuechunk`: what is left of the key is skipped.
  pub valuechunk : ℕ → Exec LogIter (List ℕ)
  unfolding chunk
  valuechunk maxlen = do
    i ← gets (λ i. i)
    skip codecs log i.key_remaining
    modify (λ i. record i { key_remaining = 0 })
    res ← chunk maxlen i.value_remaining
    modify (λ i. record i { value_remaining = i.value_remaining - length res })
    pure res

  -- The loop of `sparkey_logiter_fill_key` and `sparkey_logiter_fill_value`, over the chunk function.
  -- A chunk that is not empty takes a byte at least, so `maxlen` rounds and one more are enough.
  pub fill_loop : (ℕ → Exec LogIter (List ℕ)) → (fuel maxlen : ℕ) → List ℕ → Exec LogIter (List ℕ)
  fill_loop next fuel zero buf i = (done buf, i)
  fill_loop next zero (suc maxlen) buf i = (fault out_of_fuel, i)
  fill_loop next (suc fuel) (suc maxlen) buf i =
      (do
        res ← next (suc maxlen)
        if length res == 0
            then pure buf
            else fill_loop next fuel (suc maxlen - length res) (buf ++ res))
        i

  pub fill_key : ℕ → Exec LogIter (List ℕ)
  unfolding fill_loop
  fill_key maxlen = fill_loop keychunk (maxlen + 1) maxlen []

  pub fill_value : ℕ → Exec LogIter (List ℕ)
  unfolding fill_loop
  fill_value maxlen = fill_loop valuechunk (maxlen + 1) maxlen []

  -- The two iterators of `sparkey_logiter_keycmp`.
  pub on_first : {A : Type 0} → Exec LogIter A → Exec (LogIter × LogIter) A
  on_first = within (λ p. p.0) (λ p i. (i, p.1))

  pub on_second : {A : Type 0} → Exec LogIter A → Exec (LogIter × LogIter) A
  on_second = within (λ p. p.1) (λ p i. (p.0, i))

  refill : List ℕ → Exec LogIter (List ℕ)
  refill [] = keychunk (2 ^ 30)
  refill (x ∷ xs) = pure (x ∷ xs)

  -- The loop of `sparkey_logiter_keycmp`, at its top with the two chunks.
  cmp_loop : ℕ → List ℕ → List ℕ → Exec (LogIter × LogIter) Order
  cmp_loop fuel [] [] p = (done same, p)
  cmp_loop fuel [] (y ∷ second) p = (done below, p)
  cmp_loop fuel (x ∷ first) [] p = (done above, p)
  cmp_loop zero (x ∷ first) (y ∷ second) p = (fault out_of_fuel, p)
  cmp_loop (suc fuel) (x ∷ first) (y ∷ second) p =
      let n = min64 (length (x ∷ first)) (length (y ∷ second)) in
      let rest = (do
        a ← on_first (refill (drop n (x ∷ first)))
        b ← on_second (refill (drop n (y ∷ second)))
        cmp_loop fuel a b) in
      elim (memcmp (take n (x ∷ first)) (take n (y ∷ second))) [
        | same ↦ rest p
        | below ↦ (done below, p)
        | above ↦ (done above, p)
      ]

  -- Every round compares a byte at least of each key.
  pub keycmp : Exec (LogIter × LogIter) Order
  unfolding refill cmp_loop
  keycmp = do
    p ← gets (λ p. p)
    first ← on_first (keychunk (2 ^ 30))
    second ← on_second (keychunk (2 ^ 30))
    cmp_loop (p.0.key_remaining + 1) first second
