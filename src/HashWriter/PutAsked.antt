-- ===== src/HashWriter/PutAsked.antt =====
-- `hash_put` of an entry whose key may be in the table, given what the comparisons of keys answer.
pub mod Round
pub use sparkey.HashWriter.PutAsked.Round.{
  ReplacesAt, PutAnswers, put_added, put_replaced, put_failed,
}
use sparkey.HashWriter.PutAsked.Round.{other_key, same_hash}
use sparkey.Base.{
  ℕ, zero, suc, ◌+◌, ◌*◌, ◌%◌, ◌<◌, ◌==◌, ==_refl, ==→eq, List, Bool-cases, true, u64, some, ◌≡◌,
  refl, sym, ap, inl, inr, arith,
}
use native.Mathlib.Nat.{mod-lt}
use sparkey.Exec.{◌>>=◌}
use sparkey.Compress.{Codecs}
use sparkey.LogReader.{LogReader}
use sparkey.LogIter.{LogIter}
use sparkey.HashHeader.{HashHeader}
use sparkey.HashTable.{slot_size}
use sparkey.HashTable.Ring.{behind, steps, steps-lt}
use sparkey.HashTable.Order.{Slots, update, IsOrdered, update-IsOrdered}
use sparkey.HashTable.Holds.{IsPut-empty}
use sparkey.HashTable.Used.{used, used_room}
use sparkey.HashTable.Represents.{Represents, SlotFits, slot_inside, write_slot-update}
use sparkey.HashWriter.{
  added_entry, replaced_entry, put_size, same_key_if, put_loop, hash_put, next_slot,
}
use sparkey.HashWriter.Putting.{starts-IsPutting, IsPutting, one_nearer}
use sparkey.HashWriter.Put.{pos_of}
use sparkey.HashWriter.SameKey.{with_iters}
use sparkey.HashWriter.Asks.{Found, Asks, Pending, starts-Pending, none_same, pend_on}

module _ (codecs : Codecs) (log : LogReader) (header : HashHeader) (f : Slots) (t : List ℕ)
    (h p : ℕ) (P : LogIter → LogIter → Type 0) (Q : ℕ → Found → Type 0) (r : Represents header t f)
    (o : IsOrdered header.hash_capacity f) (fit : SlotFits header (h, p))
    (asks : Asks codecs log header t f h P Q) where
  put_loop-PutAnswers :
      (fuel slot d empty : ℕ) (i j : LogIter)
      → P i j
      → IsPutting header.hash_capacity f slot d h p empty
      → Pending header f o h Q slot d
      → steps header.hash_capacity slot empty < fuel
      → PutAnswers codecs log header f t h p P Q (
          put_loop codecs log fuel
            (slot * slot_size header)
            slot
            d
            h
            p
            true
            (with_iters header t i j))
  unfolding put_loop added_entry replaced_entry put_size same_key_if behind ◌>>=◌
  put_loop-PutAnswers zero slot d empty i j kept inv pending enough = absurd (omega arith)
  put_loop-PutAnswers (suc fuel) slot d empty i j kept inv pending enough =
      let c = header.hash_capacity in
      let read = r.reads slot inv.less in
      elim (Bool-cases ((f slot).1 == 0)) [
        | inl free ↦
            let (u, wrote, shown) = write_slot-update header t f r slot (h, p) inv.less fit in
            put_added i j kept
              (none_same header f o h Q slot d inv.less pending (inl (==→eq _ 0 free)))
              (
                u,
                update f slot (h, p),
                rw (read, free, wrote) refl,
                shown,
                update-IsOrdered c f slot o inv.less h p inv.some inv.may (inl (==→eq _ 0 free)),
                IsPut-empty c f slot (h, p) inv.less inv.some (==→eq _ 0 free),
              )
        | inr stands ↦
            let used = pos_of codecs log i j header stands in
            let nearer = one_nearer c f slot d h p empty inv used in
            elim (Bool-cases (h == (f slot).0)) [
              | inr differs ↦
                  other_key codecs log header f t h p P Q r o fit asks fuel slot d empty i j inv
                    used enough pending i j kept (rw differs refl)
                    (λ on.
                      put_loop-PutAnswers fuel (next_slot header slot) (d + 1) empty i j kept on
                        (pend_on header f o h Q slot d inv.less pending
                          (λ k. absurd (cc (==_refl h, differs, ap (λ n. h == n) k.2))))
                        (omega (arith, nearer, enough)))
              | inl same ↦
                  let eq = sym (==→eq h (f slot).0 same) in
                  let (a, i', j', e, kept', q) = asks.answers slot inv.less used eq i j kept in
                  same_hash codecs log header f t h p P Q r o fit asks fuel slot d empty i j inv
                    used enough pending eq a i' j' kept' q (rw same e)
                    (λ q' on.
                      put_loop-PutAnswers fuel (next_slot header slot) (d + 1) empty i' j' kept' on
                        (pend_on header f o h Q slot d inv.less pending (λ k. q'))
                        (omega (arith, nearer, enough)))
            ]
      ]

  pub hash_put-PutAnswers :
      (i j : LogIter)
      → P i j
      → 0 < p
      → used header.hash_capacity f < header.hash_capacity
      → PutAnswers codecs log header f t h p P Q
          (hash_put codecs log true (h % header.hash_capacity) h p (with_iters header t i j))
  unfolding hash_put ◌>>=◌
  hash_put-PutAnswers i j kept new room =
      let c = header.hash_capacity in
      let (empty, inside, free) = used_room c f room in
      let w = h % c in
      let wanted : w < c = mod-lt h r.some in
      let start : u64 (w * slot_size header) ≡ w * slot_size header =
        omega (arith, slot_inside header t f r w wanted, r.len, r.small) in
      rw start (
        put_loop-PutAnswers (c + 1) w 0 empty i j kept
          (starts-IsPutting c f h p empty r.some new inside free) (starts-Pending header f o h Q)
          (omega (arith, steps-lt c w empty wanted inside)))
