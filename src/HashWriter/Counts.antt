-- ===== src/HashWriter/Counts.antt =====
-- What the theorems on the writer of hash tables say of the counts in the header.
use sparkey.Base.{ℕ, ◌+◌, add64, sub64, u64}
use sparkey.Vlq.{unsigned_vlq_size}
use sparkey.HashHeader.{HashHeader}

abbrev pub one_more : HashHeader → HashHeader
one_more h = record h { num_entries = add64 h.num_entries 1 }

-- The bytes of a put in the log: the two lengths, of which that of the key is stored as one more, the key
-- and the value.
abbrev pub more_garbage : (keylen valuelen : ℕ) → HashHeader → HashHeader
more_garbage keylen valuelen h = record h {
  garbage_size =
      add64 h.garbage_size
        (u64 (keylen + valuelen + unsigned_vlq_size (add64 keylen 1) + unsigned_vlq_size valuelen));
}

abbrev pub one_less : HashHeader → HashHeader
one_less h = record h { num_entries = sub64 h.num_entries 1 }
