-- ===== src/HashWriter/Full.antt =====
-- `hash_put` into a table without an empty slot.
use sparkey.Base.{
  ℕ, zero, suc, ◌+◌, ◌*◌, ◌<◌, ◌==◌, ltb, List, Bool, Bool-cases, false, ◌&&◌, ◌≡◌, refl, ap, inl,
  inr, arith,
}
use sparkey.Exec.{fault, out_of_fuel, ◌>>=◌}
use sparkey.Compress.{Codecs}
use sparkey.LogReader.{LogReader}
use sparkey.LogIter.{LogIter}
use sparkey.HashHeader.{HashHeader}
use sparkey.HashTable.{slot_size}
use sparkey.HashTable.Ring.{behind, behind-lt, displacement, get_displacement-displacement}
use sparkey.HashTable.Order.{Slots, update, update_at, update_apart}
use sparkey.HashTable.Represents.{Represents, capacity_small, SlotFits, write_slot-update}
use sparkey.HashWriter.{same_key_if, put_loop, next_slot}
use sparkey.HashWriter.Put.{state, next_pos_of}

-- Every slot is used.
abbrev pub IsFull : (c : ℕ) → Slots → Type 0
IsFull c f = (q : ℕ) → q < c → 0 < (f q).1

update-IsFull :
    (c : ℕ) (f : Slots) (s : ℕ) (x : ℕ × ℕ) → IsFull c f → 0 < x.1 → IsFull c (update f s x)
update-IsFull c f s x full some q hq = elim (Bool-cases (s == q)) [
  | inl here ↦ omega (arith, some, ap (λ y. y.1) (update_at f s x q here))
  | inr apart ↦ omega (arith, full q hq, ap (λ y. y.1) (update_apart f s x q apart))
]

module _ (codecs : Codecs) (log : LogReader) (iter ra_iter : LogIter) (header : HashHeader) where
  -- The loop of `hash_put` over a full table does not end in any number of rounds, wherever it is,
  -- when the entry's hash is in no slot or is not asked for: it takes slots from entries and passes on
  -- for ever.
  pub put_loop_never_ends :
      (fuel slot d h p : ℕ) (might : Bool) (t : List ℕ) (f : Slots)
      → Represents header t f
      → IsFull header.hash_capacity f
      → SlotFits header (h, p)
      → 0 < p
      → ((q : ℕ) → q < header.hash_capacity → (might && (h == (f q).0)) ≡ false)
      → slot < header.hash_capacity
      → (put_loop codecs log fuel
          (slot * slot_size header)
          slot
          d
          h
          p
          might
          (state codecs log iter ra_iter header t)).0
        ≡ fault out_of_fuel
  unfolding put_loop same_key_if behind ◌>>=◌
  put_loop_never_ends zero slot d h p might t f r full fit some other less = refl
  put_loop_never_ends (suc fuel) slot d h p might t f r full fit some other less =
      let c = header.hash_capacity in
      let read = r.reads slot less in
      let used : ((f slot).1 == 0) ≡ false = ground (arith, full slot less) in
      let next = next_slot header slot in
      let hn = behind-lt c slot (omega (arith, less)) in
      let there =
        get_displacement-displacement c slot (f slot).0 less (capacity_small header t f r) in
      elim (Bool-cases (ltb (displacement c slot (f slot).0) d)) [
        | inl far ↦
            let (u, wrote, shown) = write_slot-update header t f r slot (h, p) less fit in
            rw
              (
                read,
                used,
                other slot less,
                there,
                far,
                wrote,
                next_pos_of codecs log iter ra_iter header slot,
              )
              (put_loop_never_ends fuel next (displacement c slot (f slot).0 + 1) (f slot).0
                (f slot).1 false u (update f slot (h, p)) shown
                (update-IsFull c f slot (h, p) full some) (r.fits slot less) (full slot less)
                (λ q hq. refl) hn)
        | inr near ↦
            rw
              (
                read,
                used,
                other slot less,
                there,
                near,
                next_pos_of codecs log iter ra_iter header slot,
              )
              (put_loop_never_ends fuel next (d + 1) h p might t f r full fit some other hn)
      ]
