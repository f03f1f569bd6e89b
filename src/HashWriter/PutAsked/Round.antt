-- ===== src/HashWriter/PutAsked/Round.antt =====
-- A round of the loop of `hash_put` at a slot in use, given what the comparisons of keys answer.
use sparkey.Base.{
  ℕ, suc, ◌+◌, ◌*◌, ◌<◌, ◌==◌, ltb, ltb→lt, ltb→le, List, Bool-cases, true, false, none, some, ◌≡◌,
  refl, ap, ◌∙◌, inl, inr, arith,
}
use sparkey.Exec.{Outcome, done, thrown, fault, ◌>>=◌}
use sparkey.Compress.{Codecs}
use sparkey.LogReader.{LogReader}
use sparkey.LogIter.{LogIter}
use sparkey.HashHeader.{HashHeader}
use sparkey.HashTable.{slot_size}
use sparkey.HashTable.Ring.{behind, steps, displacement, get_displacement-displacement}
use sparkey.HashTable.Order.{Slots, update, IsOrdered, update-IsOrdered, update_same}
use sparkey.HashTable.Holds.{IsPut-swap}
use sparkey.HashTable.Represents.{Represents, capacity_small, SlotFits, write_slot-update}
use sparkey.HashWriter.{
  HashState, added_entry, replaced_entry, put_size, same_key_if, put_loop, next_slot,
}
use sparkey.HashWriter.Counts.{more_garbage}
use sparkey.HashWriter.Putting.{IsPutting, one_nearer, pass, steal}
use sparkey.HashWriter.Put.{PutsInto, put_loop-PutsInto, next_pos_of}
use sparkey.HashWriter.SameKey.{with_iters}
use sparkey.HashWriter.Asks.{as_failure, IsFailed, Candidate, Found, Asks, Pending, none_same}

module _ (codecs : Codecs) (log : LogReader) (header : HashHeader) where
  -- An entry with the hash of `x` gave its slot to `x`, and counts as replaced.
  abbrev pub ReplacesAt :
      Slots
      → ℕ × ℕ
      → (slot keylen2 valuelen2 : ℕ) → (i j : LogIter) → Outcome (Unit {0}) × HashState
      → Type 0
  ReplacesAt f x slot keylen2 valuelen2 i j result =
      (u : List ℕ) × (result ≡ (done tt, with_iters (more_garbage keylen2 valuelen2 header) u i j))
      × (slot < header.hash_capacity)
      × (0 < (f slot).1)
      × ((f slot).0 ≡ x.0)
      × Represents header u (update f slot x)
      × IsOrdered header.hash_capacity (update f slot x)

  module _ (f : Slots) (t : List ℕ) (h p : ℕ) (P : LogIter → LogIter → Type 0)
      (Q : ℕ → Found → Type 0) where
    -- How the put ends: it adds the entry, and every comparison with an entry that has its hash says
    -- that the keys differ; it takes the slot of one whose comparison says that they do not; or
    -- a comparison fails.
    pub data PutAnswers (result : Outcome (Unit {0}) × HashState) : Type 0 where
      put_added :
          (i j : LogIter)
          → P i j
          → ((s : ℕ) → Candidate header f h s → Q s (done none))
          → PutsInto codecs log i j header f (h, p) result
          → PutAnswers result
      put_replaced :
          (slot keylen2 valuelen2 : ℕ) (i j : LogIter)
          → P i j
          → Q slot (done (some (keylen2, valuelen2)))
          → ReplacesAt f (h, p) slot keylen2 valuelen2 i j result
          → PutAnswers result
      put_failed :
          (slot : ℕ) (a : Found) (i j : LogIter)
          → Candidate header f h slot
          → Q slot a
          → IsFailed a
          → result ≡ (as_failure a, with_iters header t i j)
          → PutAnswers result

    module _ (r : Represents header t f) (o : IsOrdered header.hash_capacity f)
        (fit : SlotFits header (h, p)) (asks : Asks codecs log header t f h P Q) where
      module _ (fuel slot d empty : ℕ) (i j : LogIter)
          (inv : IsPutting header.hash_capacity f slot d h p empty) (used : 0 < (f slot).1)
          (enough : steps header.hash_capacity slot empty < suc fuel)
          (pending : Pending header f o h Q slot d) where
        abbrev loop : Outcome (Unit {0}) × HashState
        loop =
            put_loop codecs log (suc fuel) (slot * slot_size header) slot d h p true
              (with_iters header t i j)

        -- The round behind this one, where the entry is not put here.
        abbrev next_round : LogIter → LogIter → Outcome (Unit {0}) × HashState
        next_round i' j' =
            put_loop codecs log fuel (next_slot header slot * slot_size header)
              (next_slot header slot) (d + 1) h p true (with_iters header t i' j')

        abbrev Answers : Found → LogIter → LogIter → Type 0
        Answers a i' j' =
            same_key_if codecs log (h == (f slot).0) (f slot).1 (with_iters header t i j)
            ≡ (a, with_iters header t i' j')

        taken : ((f slot).1 == 0) ≡ false
        taken = ground (arith, used)

        -- Another key: the loop takes the slot from an entry that is nearer to its own, or goes on.
        pub other_key :
            (i' j' : LogIter)
            → P i' j'
            → Answers (done none) i' j'
            → (IsPutting header.hash_capacity f (behind header.hash_capacity slot) (d + 1) h p empty
                → PutAnswers (next_round i' j'))
            → PutAnswers loop
        unfolding put_loop added_entry replaced_entry put_size behind ◌>>=◌
        other_key i' j' kept e go_on =
            let c = header.hash_capacity in
            let read = r.reads slot inv.less in
            let next = next_slot header slot in
            let d2 = displacement c slot (f slot).0 in
            let other =
              get_displacement-displacement c slot (f slot).0 inv.less
                (capacity_small header t f r) in
            let nearer = one_nearer c f slot d h p empty inv used in
            elim (Bool-cases (ltb d2 d)) [
              | inl far ↦
                  let (u, wrote, shown) = write_slot-update header t f r slot (h, p) inv.less fit in
                  let (v, g, result, shown', o', put') =
                    put_loop-PutsInto codecs log i' j' header fuel next (d2 + 1) (f slot).0
                      (f slot).1 empty u (update f slot (h, p)) shown
                      (update-IsOrdered c f slot o inv.less h p inv.some inv.may
                        (inr (omega (arith, ltb→lt _ _ far, inv.at))))
                      (r.fits slot inv.less) (steal c f slot d h p empty inv used (ltb→lt _ _ far))
                      (omega (arith, nearer, enough)) in
                  put_added i' j' kept
                    (none_same header f o h Q slot d inv.less pending (inr (ltb→lt _ _ far)))
                    (
                      v,
                      g,
                      rw (read, taken, e, other, far, wrote)
                          (ap
                              (λ k.
                                put_loop codecs log fuel k next (d2 + 1) (f slot).0 (f slot).1 false
                                  (with_iters header u i' j'))
                              (next_pos_of codecs log i' j' header slot)
                            ∙ result),
                      shown',
                      o',
                      IsPut-swap c f slot (h, p) inv.less inv.some g used put',
                    )
              | inr near ↦
                  rw (read, taken, e, other, near, next_pos_of codecs log i' j' header slot)
                    (go_on (pass c f slot d h p empty inv used (ltb→le _ _ near)))
            ]

        pub same_hash :
            (f slot).0 ≡ h
            → (a : Found) (i' j' : LogIter) → P i' j'
            → Q slot a
            → Answers a i' j'
            → (Q slot (done none)
                → IsPutting header.hash_capacity f
                    (behind header.hash_capacity slot)
                    (d + 1)
                    h
                    p
                    empty
                → PutAnswers (next_round i' j'))
            → PutAnswers loop
        unfolding put_loop added_entry replaced_entry put_size ◌>>=◌
        same_hash same (done none) i' j' kept q e go_on = other_key i' j' kept e (go_on q)
        same_hash same (done (some (keylen2, valuelen2))) i' j' kept q e go_on =
            let (u, wrote, shown) = write_slot-update header t f r slot (h, p) inv.less fit in
            put_replaced slot keylen2 valuelen2 i' j' kept q (
              u,
              rw (r.reads slot inv.less, taken, e, wrote) refl,
              inv.less,
              used,
              same,
              shown,
              update_same header.hash_capacity f slot o inv.less h p inv.some used same,
            )
        same_hash same (thrown code) i' j' kept q e go_on =
            put_failed slot (thrown code) i' j' (inv.less, used, same) q tt
              (rw (r.reads slot inv.less, taken, e) refl)
        same_hash same (fault x) i' j' kept q e go_on =
            put_failed slot (fault x) i' j' (inv.less, used, same) q tt
              (rw (r.reads slot inv.less, taken, e) refl)
