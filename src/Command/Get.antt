-- ===== src/Command/Get.antt =====
-- `sparkey get`: what the command prints.
use sparkey.Base.{
  ℕ, suc, ◌+◌, ◌^◌, ◌≤◌, ◌<◌, ◌==◌, List, ◌++◌, length, drop, false, length-drop, length-append,
  Bool-cases, ◌≡◌, refl, ap, inl, inr, arith,
}
use mathlib.Core.Path.{subst}
use sparkey.Exec.{Outcome, done, ◌>>=◌}
use sparkey.Compress.{Codecs}
use sparkey.File.{File, WriteResult, accept}
use sparkey.File.Write.{IsPlaced}
use sparkey.File.Quiet.{IsServed, write_nothing, write_full_returns}
use sparkey.Entry.{put, encode, IsStorable}
use sparkey.LogReader.{LogReader}
use sparkey.LogIter.{LogIter, is_active}
use sparkey.LogIter.Plain.{IsPlainLog, IsFor, length-encode}
use sparkey.LogIter.Seek.{IsLoaded}
use sparkey.LogIter.Chunks.Key.{behind_key}
use sparkey.LogIter.Chunks.Value.{behind_value, valuechunk-value, valuechunk-none}
use sparkey.HashTable.Order.{Slots, IsOrdered}
use sparkey.HashTable.Represents.{Represents}
use sparkey.HashTable.Index.{IsIndex, IsPutAt}
use sparkey.HashReader.{HashReader, magic_value_hashreader}
use sparkey.HashReader.Get.{HasKey, found, missing, hash_get-Finds}
use sparkey.Command.{value_maxlen, print_value, get_with}

module _ (codecs : Codecs) (log : LogReader) (l : IsPlainLog log) (key value : List ℕ) (p : ℕ)
    (rest : List ℕ) (h : IsStorable (put key value))
    (here : drop p log.bytes ≡ encode (put key value) ++ rest) where
  value_short : length value ≤ value_maxlen
  value_short = omega (
    arith,
    ap length here,
    length-drop p log.bytes,
    length-append (encode (put key value)) rest,
    length-encode (put key value),
    length-append key value,
    l.sized,
    l.end_u64,
  )

  -- The value, then an empty chunk.
  print_value-prints :
      (i : LogIter) (stdout : File)
      → IsFor log i
      → IsPlaced stdout
      → IsServed stdout
      → (j : LogIter) × (left : List WriteResult) × (print_value codecs log
            (length value + 2)
            (behind_key codecs log l (put key value) p rest h here i, stdout)
          ≡ (done tt, (j, record (accept stdout value) { answers = left })))
  unfolding print_value ◌>>=◌
  print_value-prints i stdout f placed served =
      let fuel : length value + 2 ≡ suc (suc (length value)) = omega arith in
      let v =
        valuechunk-value codecs log l (put key value) p rest h here value_maxlen i f value_short in
      let n = valuechunk-none codecs log l (put key value) p rest h here value_maxlen i f in
      let (left, wrote) = write_full_returns value stdout placed served in
      elim (Bool-cases (length value == 0)) [
        | inl empty ↦ (
          behind_value codecs log l (put key value) p rest h here i,
          left,
          rw (fuel, v, wrote, empty) refl,
        )
        | inr some ↦ (
          behind_value codecs log l (put key value) p rest h here i,
          left,
          rw
              (
                fuel,
                v,
                wrote,
                some,
                n,
                write_nothing (record (accept stdout value) { answers = left }),
              )
              refl,
        )
      ]

-- The value of the put in a slot that has the key is printed, and the exit code is 0; or no slot has
-- the key, nothing is printed, and the exit code is 2.
pub data Answers (reader : HashReader) (f : Slots) (content : ℕ → List ℕ × List ℕ) (key : List ℕ)
    (stdout : File) (result : Outcome ℕ × (LogIter × File)) : Type 0 where
  prints :
      (s : ℕ)
      → HasKey reader f content key s
      → (j : LogIter) (left : List WriteResult)
      → result ≡ (done 0, (j, record (accept stdout (content (f s).1).1) { answers = left }))
      → Answers reader f content key stdout result
  not_found :
      ((s : ℕ) → HasKey reader f content key s → ⊥)
      → (j : LogIter) → result ≡ (done 2, (j, stdout))
      → Answers reader f content key stdout result

module _ (codecs : Codecs) (reader : HashReader) (f : Slots) (content : ℕ → List ℕ × List ℕ)
    (l : IsPlainLog reader.log) (r : Represents reader.header reader.hashtable f)
    (ordered : IsOrdered reader.header.hash_capacity f)
    (ix : IsIndex reader.log reader.header f content)
    (status : reader.open_status ≡ magic_value_hashreader) where
  -- `get` with an open reader of a log without compression, whose table is in order and indexes puts of
  -- the log, with an iterator of the log, at a key of less than 2 ^ 31 bytes.
  pub get_with-Answers :
      (key : List ℕ) (i : LogIter) (stdout : File)
      → length key < 2 ^ 31
      → IsLoaded reader.log i
      → IsPlaced stdout
      → IsServed stdout
      → Answers reader f content key stdout (get_with codecs reader key (i, stdout))
  unfolding get_with is_active ◌>>=◌
  get_with-Answers key i stdout short loaded placed served =
      elim (hash_get-Finds codecs reader f content l r ordered ix key i short status loaded) [
        | found s has j (i', for, at) run ↦
            let value = (content (f s).1).1 in
            let (rest, storable, here) =
              subst (λ k. IsPutAt reader.log (f s).1 (k, value)) has.2 (ix.stored s has.0 has.1) in
            let (j', left, printed) =
              print_value-prints codecs reader.log l key value (f s).1 rest storable here i' stdout
                for placed served in
            prints s has j' left (rw (run, at, printed) refl)
        | missing absent j invalid run ↦
            let inactive : is_active j.state ≡ false = ap is_active invalid in
            not_found absent j (rw (run, inactive) refl)
      ]
