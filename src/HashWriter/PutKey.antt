-- ===== src/HashWriter/PutKey.antt =====
-- `hash_put` of an entry whose key may be in the table, as `sparkey_hash_write` calls it.
use sparkey.Base.{ℕ, ◌%◌, ◌<◌, List, true}
use sparkey.Exec.{Outcome}
use sparkey.Compress.{Codecs}
use sparkey.LogReader.{LogReader}
use sparkey.LogIter.{LogIter}
use sparkey.HashHeader.{HashHeader}
use sparkey.HashTable.Order.{Slots, IsOrdered}
use sparkey.HashTable.Used.{used}
use sparkey.HashTable.Represents.{Represents, SlotFits}
use sparkey.HashWriter.{HashState, hash_put}
use sparkey.HashWriter.SameKey.{with_iters}
use sparkey.HashWriter.Asks.{Reached, at_first, Answered, Asks-Answered}
use sparkey.HashWriter.PutAsked.{PutAnswers, hash_put-PutAnswers}

module _ (codecs : Codecs) (log : LogReader) (header : HashHeader) where
  -- The three ways in which a put of `x` with the iterators `i` and `j` ends (`PutAnswers`), by the
  -- comparisons of keys that it makes.
  abbrev pub PutEnds :
      Slots → (t : List ℕ) → (i j : LogIter) → ℕ × ℕ → Outcome (Unit {0}) × HashState → Type 0
  PutEnds f t i j x =
      PutAnswers codecs log header f t x.0 x.1 (Reached codecs log header t i j)
        (Answered codecs log header t f i j)

  -- `hash_put` of an entry whose key may be in the table, into a table in order that has an unused slot,
  -- ends in one of three ways. It puts the entry: for every entry with its hash, a comparison that was made
  -- says that the keys differ; the table is in order, uses one more slot, and holds the new entry, all
  -- entries that were there, and no others. Or it gives the entry the slot of one with the same hash,
  -- for which a comparison says that the keys are equal; the bytes of a put with the lengths that
  -- the comparison read are counted as garbage, and the table is in order. Or the comparison with
  -- an entry that has its hash comes to the code of an error or to a fault, the put comes to the same,
  -- and header and table are as they were. The entry fits the sizes in the header, and its address
  -- is not 0.
  pub hash_put-PutEnds :
      (h p : ℕ) (t : List ℕ) (f : Slots) (i j : LogIter)
      → Represents header t f
      → IsOrdered header.hash_capacity f
      → SlotFits header (h, p)
      → 0 < p
      → used header.hash_capacity f < header.hash_capacity
      → PutEnds f t i j
          (h, p)
          (hash_put codecs log true (h % header.hash_capacity) h p (with_iters header t i j))
  hash_put-PutEnds h p t f i j r o fit new room =
      hash_put-PutAnswers codecs log header f t h p (Reached codecs log header t i j)
        (Answered codecs log header t f i j) r o fit (Asks-Answered codecs log header t f h i j) i j
        at_first new room
