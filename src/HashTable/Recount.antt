-- ===== src/HashTable/Recount.antt =====
-- The counts of entries and of garbage in the header play no part in what a table holds.
use sparkey.Base.{ℕ, List}
use sparkey.LogReader.{LogReader}
use sparkey.HashHeader.{HashHeader}
use sparkey.HashTable.{read_slot}
use sparkey.HashTable.Order.{Slots}
use sparkey.HashTable.Represents.{Represents}
use sparkey.HashTable.Implements.{KeyMap, Implements}

-- The header with other counts.
abbrev pub counted : HashHeader → (num_entries garbage_size : ℕ) → HashHeader
counted header n g = record header { num_entries = n; garbage_size = g }

module _ (header : HashHeader) (n g : ℕ) (f : Slots) where
  pub recount-Represents :
      (t : List ℕ) → Represents header t f → Represents (counted header n g) t f
  unfolding read_slot
  recount-Represents t r = record {
    sized = r.sized;
    some = r.some;
    small = r.small;
    len = r.len;
    reads = r.reads;
    fits = r.fits;
  }

  pub unrecount-Represents :
      (t : List ℕ) → Represents (counted header n g) t f → Represents header t f
  unfolding read_slot
  unrecount-Represents t r = record {
    sized = r.sized;
    some = r.some;
    small = r.small;
    len = r.len;
    reads = r.reads;
    fits = r.fits;
  }

  module _ (log : LogReader) (content : ℕ → List ℕ × List ℕ) (m : KeyMap) where
    pub recount-Implements :
        Implements log header f content m → Implements log (counted header n g) f content m
    recount-Implements v = record {
      index = record {
        unblocked = record { bits = v.index.unblocked.bits; mask = v.index.unblocked.mask };
        stored = v.index.stored;
        hashed = v.index.hashed;
        behind_header = v.index.behind_header;
      };
      distinct = v.distinct;
      found = v.found;
      present = v.present;
    }

    pub unrecount-Implements :
        Implements log (counted header n g) f content m → Implements log header f content m
    unrecount-Implements v = record {
      index = record {
        unblocked = record { bits = v.index.unblocked.bits; mask = v.index.unblocked.mask };
        stored = v.index.stored;
        hashed = v.index.hashed;
        behind_header = v.index.behind_header;
      };
      distinct = v.distinct;
      found = v.found;
      present = v.present;
    }
