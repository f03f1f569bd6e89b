-- ===== src/HashWriter/Remove.antt =====
-- The removal of an entry from a table, as `hash_delete` does it: the entries behind move one back.
use sparkey.Base.{
  ℕ, zero, suc, ◌+◌, ◌*◌, ◌%◌, ◌<◌, ◌==◌, ==→eq, u64, List, Bool-cases, true, false, ◌≡◌, refl, sym,
  ap, ◌∙◌, ◌⊎◌, inl, inr, arith,
}
use native.Mathlib.Nat.{mod-lt}
use sparkey.Exec.{Outcome, done, ◌>>=◌}
use sparkey.Compress.{Codecs}
use sparkey.LogReader.{LogReader}
use sparkey.LogIter.{LogIter}
use sparkey.HashHeader.{HashHeader}
use sparkey.HashTable.{slot_size}
use sparkey.HashTable.Ring.{
  behind_self, displacement-lt, modulo-behind, modulo-wanted, behind, behind-lt, steps, steps-lt,
  steps_from_behind, steps_none, displacement,
}
use sparkey.HashTable.Order.{Slots, update, update_apart, IsOrdered, update_back, update_clear}
use sparkey.HashTable.Fresh.{SlotFits-zero}
use sparkey.HashTable.Used.{used, used_room}
use sparkey.HashTable.Without.{IsRemoved, IsRemoved-clear, IsRemoved-move}
use sparkey.HashTable.Represents.{Represents, capacity_small, slot_inside, write_slot-update}
use sparkey.HashWriter.Counts.{one_less, more_garbage}
use sparkey.HashWriter.{HashState, deleted_entry, put_size, shift_back, remove_slot}

wanted-displacement : (c n h : ℕ) → n < c → (h % c == n) ≡ true → displacement c n h ≡ 0
unfolding displacement steps
wanted-displacement c n h less e = ground (arith, ==→eq (h % c) n e)

displaced : (c n h : ℕ) → n < c → (h % c == n) ≡ false → 0 < displacement c n h
unfolding displacement steps
displaced c n h less e = let wanted : h % c < c = mod-lt h (omega arith) in ground (arith, e)

not_next : (c s h : ℕ) → s < c → 0 < displacement c (behind c s) h → (s == behind c s) ≡ false
not_next c s h less far = elim (Bool-cases (s == behind c s)) [
  | inr apart ↦ apart
  | inl same ↦ absurd (
      omega (
        arith,
        far,
        behind_self c s less (sym (==→eq s (behind c s) same)),
        displacement-lt c (behind c s) h (behind-lt c s (omega (arith, less))),
      ))
]

-- An empty slot is some steps ahead of a used one, and one less from the slot behind.
pub steps_on :
    (c : ℕ) (f : Slots) (s empty : ℕ)
    → s < c
    → 0 < (f s).1
    → empty < c
    → (f empty).1 ≡ 0
    → ((s == empty) ≡ false) × (steps c (behind c s) empty + 1 ≡ steps c s empty)
steps_on c f s empty less taken inside free =
    let apart : (s == empty) ≡ false = elim (Bool-cases (s == empty)) [
      | inr e ↦ e
      | inl e ↦ absurd (omega (arith, taken, free, ap (λ q. (f q).1) (==→eq s empty e)))
    ] in
    let some : 0 < steps c s empty = elim (Bool-cases (steps c s empty == 0)) [
      | inr e ↦ ground (arith, e)
      | inl e ↦ absurd (
          omega (
            arith,
            taken,
            free,
            ap (λ q. (f q).1) (steps_none c s empty less inside (==→eq _ 0 e)),
          ))
    ] in
    (apart, steps_from_behind c s empty less inside some)

module _ (codecs : Codecs) (log : LogReader) (iter ra_iter : LogIter) where
  abbrev state : HashHeader → List ℕ → HashState
  state header t = record { header = header; hashtable = t; iter = iter; ra_iter = ra_iter }

  module _ (header : HashHeader) where
    -- The loop stopped at `last`, which can be emptied; it moved entries on the way.
    record Shifted (f : Slots) (slot : ℕ) (result : Outcome ℕ × HashState) : Type 0 where
      table : List ℕ
      slots : Slots
      last : ℕ
      returns : result ≡ (done last, state header table)
      shown : Represents header table slots
      ordered : IsOrdered header.hash_capacity slots
      less : last < header.hash_capacity
      taken : 0 < (slots last).1
      ends :
          ((slots (behind header.hash_capacity last)).1 ≡ 0)
          ⊎ (displacement header.hash_capacity
                (behind header.hash_capacity last)
                (slots (behind header.hash_capacity last)).0
              ≡ 0)
      leaves :
          (g : Slots)
          → IsRemoved header.hash_capacity slots g last
          → IsRemoved header.hash_capacity f g slot

    shift_back-Shifted :
        (fuel slot empty : ℕ) (t : List ℕ) (f : Slots)
        → Represents header t f
        → IsOrdered header.hash_capacity f
        → slot < header.hash_capacity
        → 0 < (f slot).1
        → empty < header.hash_capacity
        → (f empty).1 ≡ 0
        → steps header.hash_capacity slot empty < fuel
        → Shifted f slot (shift_back codecs log fuel slot (state header t))
    unfolding shift_back ◌>>=◌
    shift_back-Shifted zero slot empty t f r o less taken inside free enough = absurd (omega arith)
    shift_back-Shifted (suc fuel) slot empty t f r o less taken inside free enough =
        let c = header.hash_capacity in
        let next = behind c slot in
        let small = capacity_small header t f r in
        let hn = behind-lt c slot (omega (arith, less)) in
        let goes = modulo-behind c slot less small in
        let place : u64 (next * slot_size header) ≡ next * slot_size header =
          omega (arith, slot_inside header t f r next hn, r.len, r.small) in
        let read = r.reads next hn in
        elim (Bool-cases ((f next).1 == 0)) [
          | inl none ↦ record {
            table = t;
            slots = f;
            last = slot;
            returns = rw (goes, place, read, none) refl;
            shown = r;
            ordered = o;
            less = less;
            taken = taken;
            ends = inl (==→eq _ 0 none);
            leaves = λ g x. x;
          }
          | inr some ↦
              let there : 0 < (f next).1 = ground (arith, some) in
              let wanted = modulo-wanted c (f next).0 r.some in
              elim (Bool-cases ((f next).0 % c == next)) [
                | inl home ↦ record {
                  table = t;
                  slots = f;
                  last = slot;
                  returns = rw (goes, place, read, some, wanted, home) refl;
                  shown = r;
                  ordered = o;
                  less = less;
                  taken = taken;
                  ends = inr (wanted-displacement c next (f next).0 hn home);
                  leaves = λ g x. x;
                }
                | inr away ↦
                    let far = displaced c next (f next).0 hn away in
                    let own : u64 (slot * slot_size header) ≡ slot * slot_size header =
                      omega (arith, slot_inside header t f r slot less, r.len, r.small) in
                    let (u, wrote, shown) =
                      write_slot-update header t f r slot (f next) less (r.fits next hn) in
                    let apart = not_next c slot (f next).0 less far in
                    let on = steps_on c f slot empty less taken inside free in
                    let rest =
                      shift_back-Shifted fuel next empty u (update f slot (f next)) shown
                        (update_back c f slot o less there far) hn
                        (omega
                          (arith, there, ap (λ x. x.1) (update_apart f slot (f next) next apart)))
                        inside (ap (λ x. x.1) (update_apart f slot (f next) empty on.0) ∙ free)
                        (omega (arith, on.1)) in
                    record {
                      table = rest.table;
                      slots = rest.slots;
                      last = rest.last;
                      returns = rw (goes, place, read, some, wanted, away, own, wrote) rest.returns;
                      shown = rest.shown;
                      ordered = rest.ordered;
                      less = rest.less;
                      taken = rest.taken;
                      ends = rest.ends;
                      leaves = λ g x.
                          IsRemoved-move c f slot less taken next g hn apart there
                            (rest.leaves g x);
                    }
              ]
        ]

    -- The removal of the entry in a slot, by the inner loop of `hash_delete`, from a table in order in
    -- which not every slot is used: it returns, and the table that it leaves is in order, uses one slot
    -- less, and holds the entries that the other slots held, and no others; the sizes of the entry are
    -- counted as garbage, and one entry less is counted.
    pub remove_slot-Removes :
        (slot keylen2 valuelen2 : ℕ) (t : List ℕ) (f : Slots)
        → Represents header t f
        → IsOrdered header.hash_capacity f
        → slot < header.hash_capacity
        → 0 < (f slot).1
        → used header.hash_capacity f < header.hash_capacity
        → (u : List ℕ) × (g : Slots) × (remove_slot codecs log slot keylen2 valuelen2
              (state header t)
            ≡ (done tt, state (one_less (more_garbage keylen2 valuelen2 header)) u))
          × Represents header u g
          × IsOrdered header.hash_capacity g
          × IsRemoved header.hash_capacity f g slot
    unfolding remove_slot deleted_entry put_size ◌>>=◌
    remove_slot-Removes slot keylen2 valuelen2 t f r o less taken room =
        let c = header.hash_capacity in
        let (empty, inside, free) = used_room c f room in
        let m =
          shift_back-Shifted (c + 1) slot empty t f r o less taken inside free
            (omega (arith, steps-lt c slot empty less inside)) in
        let own : u64 (m.last * slot_size header) ≡ m.last * slot_size header = omega (
          arith,
          slot_inside header m.table m.slots m.shown m.last m.less,
          m.shown.len,
          m.shown.small,
        ) in
        let (u, wrote, shown) =
          write_slot-update header m.table m.slots m.shown m.last (0, 0) m.less
            (SlotFits-zero header (f slot) (r.fits slot less)) in
        (
          u,
          update m.slots m.last (0, 0),
          rw (m.returns, own, wrote) refl,
          shown,
          update_clear c m.slots m.last m.ordered m.less m.ends,
          m.leaves _ (IsRemoved-clear c m.slots m.last m.less m.taken),
        )
