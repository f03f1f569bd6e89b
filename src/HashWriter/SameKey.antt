-- ===== src/HashWriter/SameKey.antt =====
-- The comparison with the entry in a slot reads the log, and leaves the header and the table as they are.
use sparkey.Base.{ℕ, List, Bool, true, false, none, ◌≡◌, refl, if◌then◌else◌}
use sparkey.ReturnCode.{ReturnCode}
use sparkey.Exec.{Outcome, done, thrown, fault, Exec, pure, gets, throw_if, continue, ◌>>=◌, ◌>>◌}
use sparkey.Compress.{Codecs}
use sparkey.LogReader.{LogReader}
use sparkey.LogIter.{LogIter}
use sparkey.HashHeader.{HashHeader}
use sparkey.HashWriter.{HashState, on_iter, on_ra_iter, on_iters, same_key, same_key_if, if_same}
use sparkey.LogIter.{logiter_seek, logiter_skip, logiter_next, logiter_reset}
use sparkey.HashTable.{block_of, entry_index}
use sparkey.LogIter.Chunks.{keycmp}

module _ (header : HashHeader) (t : List ℕ) where
  abbrev pub with_iters : LogIter → LogIter → HashState
  with_iters i j = record { header = header; hashtable = t; iter = i; ra_iter = j }

  -- The action changes the iterators only.
  abbrev pub ReadsLog : {A : Type 0} → Outcome A × HashState → Type 0
  ReadsLog {A} result =
      (r : Outcome A) × (i : LogIter) × (j : LogIter) × (result ≡ (r, with_iters i j))

  continue-ReadsLog :
      {A B : Type 0} (r : Outcome A) (f : A → Exec HashState B) (i j : LogIter)
      → ((a : A) (i j : LogIter) → ReadsLog (f a (with_iters i j)))
      → ReadsLog (continue r f (with_iters i j))
  continue-ReadsLog (done a) f i j k = k a i j
  continue-ReadsLog (thrown c) f i j k = (thrown c, i, j, refl)
  continue-ReadsLog (fault x) f i j k = (fault x, i, j, refl)

  bind-ReadsLog :
      {A B : Type 0} (m : Exec HashState A) (f : A → Exec HashState B) (s : HashState)
      → ReadsLog (m s)
      → ((a : A) (i j : LogIter) → ReadsLog (f a (with_iters i j)))
      → ReadsLog ((m >>= f) s)
  unfolding ◌>>=◌
  bind-ReadsLog m f s (r, i, j, e) k = rw e (continue-ReadsLog r f i j k)

  gets-ReadsLog :
      {A B : Type 0} (g : HashState → A) (f : A → Exec HashState B) (i j : LogIter)
      → ReadsLog (f (g (with_iters i j)) (with_iters i j))
      → ReadsLog ((gets g >>= f) (with_iters i j))
  unfolding ◌>>=◌
  gets-ReadsLog g f i j r = r

  on_ra_iter-ReadsLog :
      {A : Type 0} (m : Exec LogIter A) (i j : LogIter) → ReadsLog (on_ra_iter m (with_iters i j))
  on_ra_iter-ReadsLog m i j = ((m j).0, i, (m j).1, refl)

  on_iter-ReadsLog :
      {A : Type 0} (m : Exec LogIter A) (i j : LogIter) → ReadsLog (on_iter m (with_iters i j))
  on_iter-ReadsLog m i j = ((m i).0, (m i).1, j, refl)

  on_iters-ReadsLog :
      {A : Type 0} (m : Exec (LogIter × LogIter) A) (i j : LogIter)
      → ReadsLog (on_iters m (with_iters i j))
  on_iters-ReadsLog m i j = ((m (i, j)).0, (m (i, j)).1.0, (m (i, j)).1.1, refl)

  throw_if-ReadsLog :
      (b : Bool) (c : ReturnCode) (i j : LogIter)
      → ReadsLog (throw_if {S = HashState} b c (with_iters i j))
  throw_if-ReadsLog true c i j = (thrown c, i, j, refl)
  throw_if-ReadsLog false c i j = (done tt, i, j, refl)

  module _ (codecs : Codecs) (log : LogReader) where
    compared-ReadsLog :
        (same : Bool) (lens : ℕ × ℕ) (i j : LogIter)
        → ReadsLog (
            (if same
                then (do
                  on_iter (logiter_reset codecs log)
                  cmp ← on_iters (keycmp codecs log)
                  pure (if_same cmp lens))
                else pure none)
              (with_iters i j))
    compared-ReadsLog true lens i j =
        bind-ReadsLog _ _ _ (on_iter-ReadsLog (logiter_reset codecs log) i j) λ _ i j.
          bind-ReadsLog _ _ _ (on_iters-ReadsLog (keycmp codecs log) i j)
            λ cmp i j. (done (if_same cmp lens), i, j, refl)
    compared-ReadsLog false lens i j = (done none, i, j, refl)

    pub same_key-ReadsLog :
        (position : ℕ) (i j : LogIter) → ReadsLog (same_key codecs log position (with_iters i j))
    unfolding same_key
    same_key-ReadsLog position i j = gets-ReadsLog _ _ i j (
        bind-ReadsLog _ _ _
          (on_ra_iter-ReadsLog (logiter_seek codecs log (block_of header position)) i j)
          λ _ i j.
            bind-ReadsLog _ _ _
              (on_ra_iter-ReadsLog (logiter_skip codecs log (entry_index header position)) i j)
              λ _ i j.
                bind-ReadsLog _ _ _ (on_ra_iter-ReadsLog (logiter_next codecs log) i j) λ _ i j.
                  gets-ReadsLog _ _ i j (
                    bind-ReadsLog _ _ _ (throw_if-ReadsLog _ _ i j)
                      λ _ i j. gets-ReadsLog _ _ i j (compared-ReadsLog _ _ i j)))

    pub same_key_if-ReadsLog :
        (b : Bool) (position : ℕ) (i j : LogIter)
        → ReadsLog (same_key_if codecs log b position (with_iters i j))
    unfolding same_key_if
    same_key_if-ReadsLog true position i j = same_key-ReadsLog position i j
    same_key_if-ReadsLog false position i j = (done none, i, j, refl)
