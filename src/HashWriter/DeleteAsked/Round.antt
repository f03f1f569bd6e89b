-- ===== src/HashWriter/DeleteAsked/Round.antt =====
-- A round of the loop of `hash_delete` at a slot in use, given what the comparisons of keys answer.
use sparkey.Base.{
  ℕ, suc, ◌+◌, ◌*◌, ◌<◌, ◌==◌, ltb, ltb→lt, leb, List, Bool, Bool-cases, true, false, ◌||◌, none,
  some, ◌≡◌, refl, inl, inr, arith,
}
use sparkey.ReturnCode.{internal_error}
use sparkey.Exec.{Outcome, done, thrown, fault, ◌>>=◌}
use sparkey.Compress.{Codecs}
use sparkey.LogReader.{LogReader}
use sparkey.LogIter.{LogIter}
use sparkey.HashHeader.{HashHeader}
use sparkey.HashTable.{slot_size, block_of}
use sparkey.HashTable.Ring.{displacement, get_displacement-displacement}
use sparkey.HashTable.Order.{Slots, IsOrdered}
use sparkey.HashTable.Used.{used}
use sparkey.HashTable.Without.{IsRemoved}
use sparkey.HashTable.Represents.{Represents, capacity_small}
use sparkey.HashWriter.Counts.{one_less, more_garbage}
use sparkey.HashWriter.{HashState, same_key_if, delete_loop, next_slot}
use sparkey.HashWriter.Put.{next_pos_of}
use sparkey.HashWriter.Asks.{as_failure, IsFailed, Candidate, Found, Asks, Pending, none_same}
use sparkey.HashWriter.Remove.{remove_slot-Removes}
use sparkey.HashWriter.SameKey.{with_iters}

module _ (codecs : Codecs) (log : LogReader) (header : HashHeader) where
  -- The slot is emptied, and counts as a put that is garbage now.
  abbrev pub RemovesAt :
      Slots
      → (h slot keylen2 valuelen2 : ℕ) → (i j : LogIter) → Outcome (Unit {0}) × HashState
      → Type 0
  RemovesAt f h slot keylen2 valuelen2 i j result =
      (u : List ℕ) × (g : Slots) × (result
        ≡ (done tt, with_iters (one_less (more_garbage keylen2 valuelen2 header)) u i j))
      × (slot < header.hash_capacity)
      × (0 < (f slot).1)
      × ((f slot).0 ≡ h)
      × Represents header u g
      × IsOrdered header.hash_capacity g
      × IsRemoved header.hash_capacity f g slot

  -- An address whose block is not in the data of the log.
  abbrev pub is_outside : ℕ → Bool
  is_outside position =
      ltb (block_of header position) log.header.header_size
      || leb log.header.data_end (block_of header position)

  module _ (f : Slots) (t : List ℕ) (h : ℕ) (P : LogIter → LogIter → Type 0)
      (Q : ℕ → Found → Type 0) where
    -- How the delete ends: it removes an entry whose comparison says that it has the key; the comparison
    -- with every entry that has the hash says that it has not; or a comparison fails, or an address
    -- is outside the log.
    pub data DeleteAnswers (result : Outcome (Unit {0}) × HashState) : Type 0 where
      removed :
          (slot keylen2 valuelen2 : ℕ) (i j : LogIter)
          → P i j
          → Q slot (done (some (keylen2, valuelen2)))
          → RemovesAt f h slot keylen2 valuelen2 i j result
          → DeleteAnswers result
      left_alone :
          (i j : LogIter)
          → P i j
          → ((s : ℕ) → Candidate header f h s → Q s (done none))
          → result ≡ (done tt, with_iters header t i j)
          → DeleteAnswers result
      delete_failed :
          (slot : ℕ) (a : Found) (i j : LogIter)
          → Candidate header f h slot
          → Q slot a
          → IsFailed a
          → result ≡ (as_failure a, with_iters header t i j)
          → DeleteAnswers result
      outside :
          (slot : ℕ) (i j : LogIter)
          → slot < header.hash_capacity
          → 0 < (f slot).1
          → is_outside (f slot).1 ≡ true
          → result ≡ (thrown internal_error, with_iters header t i j)
          → DeleteAnswers result

    module _ (r : Represents header t f) (o : IsOrdered header.hash_capacity f)
        (room : used header.hash_capacity f < header.hash_capacity)
        (asks : Asks codecs log header t f h P Q) where
      module _ (fuel slot d : ℕ) (less : slot < header.hash_capacity) (taken : 0 < (f slot).1)
          (i j : LogIter) (pending : Pending header f o h Q slot d) where
        abbrev loop : Outcome (Unit {0}) × HashState
        loop =
            delete_loop codecs log (suc fuel) (slot * slot_size header) slot d h
              (with_iters header t i j)

        abbrev next_round : LogIter → LogIter → Outcome (Unit {0}) × HashState
        next_round i' j' =
            delete_loop codecs log fuel (next_slot header slot * slot_size header)
              (next_slot header slot) (d + 1) h (with_iters header t i' j')

        abbrev Answers : Found → LogIter → LogIter → Type 0
        Answers a i' j' =
            same_key_if codecs log (h == (f slot).0) (f slot).1 (with_iters header t i j)
            ≡ (a, with_iters header t i' j')

        stands : ((f slot).1 == 0) ≡ false
        stands = ground (arith, taken)

        pub other_key :
            (i' j' : LogIter)
            → P i' j'
            → is_outside (f slot).1 ≡ false
            → Answers (done none) i' j'
            → DeleteAnswers (next_round i' j')
            → DeleteAnswers loop
        unfolding delete_loop ◌>>=◌
        other_key i' j' kept within e go_on =
            let read = r.reads slot less in
            let other =
              get_displacement-displacement header.hash_capacity slot (f slot).0 less
                (capacity_small header t f r) in
            elim (Bool-cases (ltb (displacement header.hash_capacity slot (f slot).0) d)) [
              | inl far ↦
                  left_alone i' j' kept
                    (none_same header f o h Q slot d less pending (inr (ltb→lt _ _ far)))
                    (rw (read, stands, within, e, other, far) refl)
              | inr near ↦
                  rw
                    (read, stands, within, e, other, near, next_pos_of codecs log i' j' header slot)
                    go_on
            ]

        pub same_hash :
            (f slot).0 ≡ h
            → (a : Found) (i' j' : LogIter) → P i' j'
            → Q slot a
            → is_outside (f slot).1 ≡ false
            → Answers a i' j'
            → (Q slot (done none) → DeleteAnswers (next_round i' j'))
            → DeleteAnswers loop
        unfolding delete_loop ◌>>=◌
        same_hash same (done none) i' j' kept q within e go_on =
            other_key i' j' kept within e (go_on q)
        same_hash same (done (some (keylen2, valuelen2))) i' j' kept q within e go_on =
            let (u, g, result, shown, o', gone) =
              remove_slot-Removes codecs log i' j' header slot keylen2 valuelen2 t f r o less taken
                room in
            removed slot keylen2 valuelen2 i' j' kept q (
              u,
              g,
              rw (r.reads slot less, stands, within, e) result,
              less,
              taken,
              same,
              shown,
              o',
              gone,
            )
        same_hash same (thrown code) i' j' kept q within e go_on =
            delete_failed slot (thrown code) i' j' (less, taken, same) q tt
              (rw (r.reads slot less, stands, within, e) refl)
        same_hash same (fault x) i' j' kept q within e go_on =
            delete_failed slot (fault x) i' j' (less, taken, same) q tt
              (rw (r.reads slot less, stands, within, e) refl)
