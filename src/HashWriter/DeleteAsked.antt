-- ===== src/HashWriter/DeleteAsked.antt =====
-- `hash_delete`, given what the comparisons of keys answer.
pub mod Round
pub use sparkey.HashWriter.DeleteAsked.Round.{
  RemovesAt, DeleteAnswers, removed, left_alone, delete_failed, outside, is_outside,
}
use sparkey.HashWriter.DeleteAsked.Round.{other_key, same_hash}
use sparkey.Base.{
  ℕ, zero, suc, ◌+◌, ◌*◌, ◌%◌, ◌<◌, ◌==◌, ==_refl, ==→eq, List, Bool-cases, u64, none, some, ◌≡◌,
  refl, sym, ap, inl, inr, arith,
}
use native.Mathlib.Nat.{mod-lt}
use sparkey.Exec.{done, ◌>>=◌}
use sparkey.Compress.{Codecs}
use sparkey.LogReader.{LogReader}
use sparkey.LogIter.{LogIter}
use sparkey.HashHeader.{HashHeader}
use sparkey.HashTable.{slot_size}
use sparkey.HashTable.Ring.{behind, behind-lt, steps, steps-lt}
use sparkey.HashTable.Order.{Slots, IsOrdered}
use sparkey.HashTable.Used.{used, used_room}
use sparkey.HashTable.Represents.{Represents, slot_inside}
use sparkey.HashWriter.{same_key_if, delete_loop, hash_delete, next_slot}
use sparkey.HashWriter.Put.{pos_of}
use sparkey.HashWriter.Asks.{Candidate, Found, Asks, Pending, starts-Pending, none_same, pend_on}
use sparkey.HashWriter.Remove.{steps_on}
use sparkey.HashWriter.SameKey.{with_iters}

module _ (codecs : Codecs) (log : LogReader) (header : HashHeader) (f : Slots) (t : List ℕ) (h : ℕ)
    (P : LogIter → LogIter → Type 0) (Q : ℕ → Found → Type 0) (r : Represents header t f)
    (o : IsOrdered header.hash_capacity f)
    (room : used header.hash_capacity f < header.hash_capacity)
    (asks : Asks codecs log header t f h P Q) where
  delete_loop-DeleteAnswers :
      (fuel slot d empty : ℕ) (i j : LogIter)
      → P i j
      → Pending header f o h Q slot d
      → slot < header.hash_capacity
      → empty < header.hash_capacity
      → (f empty).1 ≡ 0
      → steps header.hash_capacity slot empty < fuel
      → DeleteAnswers codecs log header f t h P Q
          (delete_loop codecs log fuel (slot * slot_size header) slot d h (with_iters header t i j))
  unfolding delete_loop same_key_if behind ◌>>=◌
  delete_loop-DeleteAnswers zero slot d empty i j kept pending less inside free enough =
      absurd (omega arith)
  delete_loop-DeleteAnswers (suc fuel) slot d empty i j kept pending less inside free enough =
      let c = header.hash_capacity in
      let read = r.reads slot less in
      elim (Bool-cases ((f slot).1 == 0)) [
        | inl none_there ↦
            left_alone i j kept
              (none_same header f o h Q slot d less pending (inl (==→eq _ 0 none_there)))
              (rw (read, none_there) refl)
        | inr stands ↦
            let taken = pos_of codecs log i j header stands in
            let on = (steps_on c f slot empty less taken inside free).1 in
            let rest =
              λ (i' j' : LogIter) (kept' : P i' j')
                  (here : Candidate header f h slot → Q slot (done none)).
                delete_loop-DeleteAnswers fuel (next_slot header slot) (d + 1) empty i' j' kept'
                  (pend_on header f o h Q slot d less pending here)
                  (behind-lt c slot (omega (arith, less))) inside free
                  (omega (arith, on, enough)) in
            elim (Bool-cases (is_outside codecs log header (f slot).1)) [
              | inl out ↦ outside slot i j less taken out (rw (read, stands, out) refl)
              | inr within ↦ elim (Bool-cases (h == (f slot).0)) [
                | inr differs ↦
                    other_key codecs log header f t h P Q r o room asks fuel slot d less taken i j
                      pending i j kept within (rw differs refl)
                      (rest i j kept (λ k. absurd (cc (==_refl h, differs, ap (λ n. h == n) k.2))))
                | inl same ↦
                    let eq = sym (==→eq h (f slot).0 same) in
                    let (a, i', j', e, kept', q) = asks.answers slot less taken eq i j kept in
                    same_hash codecs log header f t h P Q r o room asks fuel slot d less taken i j
                      pending eq a i' j' kept' q within (rw same e)
                      (λ q'. rest i' j' kept' (λ k. q'))
              ]
            ]
      ]

  pub hash_delete-DeleteAnswers :
      (i j : LogIter)
      → P i j
      → DeleteAnswers codecs log header f t h P Q
          (hash_delete codecs log (h % header.hash_capacity) h (with_iters header t i j))
  unfolding hash_delete ◌>>=◌
  hash_delete-DeleteAnswers i j kept =
      let c = header.hash_capacity in
      let (empty, inside, free) = used_room c f room in
      let w = h % c in
      let wanted : w < c = mod-lt h r.some in
      let start : u64 (w * slot_size header) ≡ w * slot_size header =
        omega (arith, slot_inside header t f r w wanted, r.len, r.small) in
      rw start (
        delete_loop-DeleteAnswers (c + 1) w 0 empty i j kept (starts-Pending header f o h Q) wanted
          inside free (omega (arith, steps-lt c w empty wanted inside)))
