-- ===== src/HashWriter/Delete.antt =====
-- `hash_delete`: the entry with the key of the current one is removed from the table.
use sparkey.Base.{ℕ, ◌%◌, ◌<◌, List}
use sparkey.Exec.{Outcome}
use sparkey.Compress.{Codecs}
use sparkey.LogReader.{LogReader}
use sparkey.LogIter.{LogIter}
use sparkey.HashHeader.{HashHeader}
use sparkey.HashTable.Order.{Slots, IsOrdered}
use sparkey.HashTable.Used.{used}
use sparkey.HashTable.Represents.{Represents}
use sparkey.HashWriter.{HashState, hash_delete}
use sparkey.HashWriter.SameKey.{with_iters}
use sparkey.HashWriter.Asks.{Reached, at_first, Answered, Asks-Answered}
use sparkey.HashWriter.DeleteAsked.{DeleteAnswers, hash_delete-DeleteAnswers}

module _ (codecs : Codecs) (log : LogReader) (header : HashHeader) where
  -- The ways in which a delete of a key with the hash `h` and the iterators `i` and `j` ends
  -- (`DeleteAnswers`), by the comparisons of keys that it makes.
  abbrev pub DeleteEnds :
      Slots → (t : List ℕ) → (i j : LogIter) → (h : ℕ) → Outcome (Unit {0}) × HashState → Type 0
  DeleteEnds f t i j h =
      DeleteAnswers codecs log header f t h (Reached codecs log header t i j)
        (Answered codecs log header t f i j)

  module _ (f : Slots) (t : List ℕ) (r : Represents header t f)
      (o : IsOrdered header.hash_capacity f) (h : ℕ)
      (room : used header.hash_capacity f < header.hash_capacity) where
    -- `hash_delete` of a key with the hash `h`, from a table in order in which not every slot is used,
    -- ends in one of four ways. It removes an entry with that hash, for which a comparison that was made
    -- says that the keys are equal: the table is in order, uses one slot less, and holds the entries of
    -- the other slots and no others; one entry less is counted, and the bytes of a put with the
    -- lengths that the comparison read are counted as garbage. Or for every entry with that hash a comparison
    -- says that the keys differ, and header and table are as they were. Or the comparison with an
    -- entry that has the hash comes to the code of an error or to a fault, the delete comes to the
    -- same, and header and table are as they were. Or they are as they were because the address of an
    -- entry is outside the log, and the delete returns SPARKEY_INTERNAL_ERROR.
    pub hash_delete-DeleteEnds :
        (i j : LogIter)
        → DeleteEnds f t i j h
            (hash_delete codecs log (h % header.hash_capacity) h (with_iters header t i j))
    hash_delete-DeleteEnds i j =
        hash_delete-DeleteAnswers codecs log header f t h (Reached codecs log header t i j)
          (Answered codecs log header t f i j) r o room (Asks-Answered codecs log header t f h i j)
          i j at_first
