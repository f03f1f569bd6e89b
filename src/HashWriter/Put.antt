-- ===== src/HashWriter/Put.antt =====
-- `hash_put` of an entry whose key is not in the table yet, as `hash_copy` calls it.
use sparkey.Base.{
  ℕ, zero, suc, ◌+◌, ◌*◌, ◌%◌, ◌<◌, ◌==◌, ==→eq, leb, ltb, ltb→lt, ltb→le, List, Bool-cases, false,
  u64, ◌≡◌, sym, ap, ◌∙◌, inl, inr, arith,
}
use native.Mathlib.Nat.{mod-lt, zero-mul, one-mul, add-mul}
use sparkey.Exec.{Outcome, done, ◌>>=◌}
use sparkey.Compress.{Codecs}
use sparkey.LogReader.{LogReader}
use sparkey.LogIter.{LogIter}
use sparkey.HashHeader.{HashHeader}
use sparkey.HashTable.{slot_size}
use sparkey.HashTable.Ring.{behind, steps, steps-lt, displacement, get_displacement-displacement}
use sparkey.HashTable.Order.{Slots, update, IsOrdered, update-IsOrdered}
use sparkey.HashTable.Holds.{IsPut, IsPut-empty, IsPut-swap}
use sparkey.HashTable.Used.{used, used_room}
use sparkey.HashTable.Represents.{
  Represents, capacity_small, SlotFits, slot_inside, write_slot-update,
}
use sparkey.HashWriter.{
  HashState, added_entry, same_key_if, put_loop, hash_put, next_slot, next_pos,
}
use sparkey.HashWriter.Counts.{one_more}
use sparkey.HashWriter.Putting.{starts-IsPutting, IsPutting, one_nearer, pass, steal}

module _ (codecs : Codecs) (log : LogReader) (iter ra_iter : LogIter) (header : HashHeader) where
  abbrev pub state : List ℕ → HashState
  state t = record { header = header; hashtable = t; iter = iter; ra_iter = ra_iter }

  -- The call returned, and left a table in order with `x` and the entries of `f`; one more is counted.
  abbrev pub PutsInto : Slots → ℕ × ℕ → Outcome (Unit {0}) × HashState → Type 0
  PutsInto f x result =
      (u : List ℕ) × (g : Slots) × (result ≡ (
        done tt,
        record { header = one_more header; hashtable = u; iter = iter; ra_iter = ra_iter },
      ))
      × Represents header u g
      × IsOrdered header.hash_capacity g
      × IsPut header.hash_capacity f g x

  pub pos_of : {n : ℕ} → (n == 0) ≡ false → 0 < n
  pos_of e = ground arith

  pub next_pos_of :
      (slot : ℕ)
      → next_pos header slot (slot * slot_size header) ≡ next_slot header slot * slot_size header
  next_pos_of slot = elim (Bool-cases (leb header.hash_capacity (slot + 1))) [
    | inl round ↦ rw round (sym (zero-mul (slot_size header)))
    | inr on ↦ rw on (omega (arith, add-mul slot 1 (slot_size header), one-mul (slot_size header)))
  ]

  pub put_loop-PutsInto :
      (fuel slot d h p empty : ℕ) (t : List ℕ) (f : Slots)
      → Represents header t f
      → IsOrdered header.hash_capacity f
      → SlotFits header (h, p)
      → IsPutting header.hash_capacity f slot d h p empty
      → steps header.hash_capacity slot empty < fuel
      → PutsInto f
          (h, p)
          (put_loop codecs log fuel (slot * slot_size header) slot d h p false (state t))
  unfolding put_loop added_entry same_key_if behind ◌>>=◌
  put_loop-PutsInto zero slot d h p empty t f r o fit i enough = absurd (omega arith)
  put_loop-PutsInto (suc fuel) slot d h p empty t f r o fit i enough =
      let c = header.hash_capacity in
      let read = r.reads slot i.less in
      let next = next_slot header slot in
      elim (Bool-cases ((f slot).1 == 0)) [
        | inl free ↦
            let (u, wrote, shown) = write_slot-update header t f r slot (h, p) i.less fit in
            (
              u,
              update f slot (h, p),
              rw (read, free, wrote),
              shown,
              update-IsOrdered c f slot o i.less h p i.some i.may (inl (==→eq _ 0 free)),
              IsPut-empty c f slot (h, p) i.less i.some (==→eq _ 0 free),
            )
        | inr used ↦
            let other =
              get_displacement-displacement c slot (f slot).0 i.less
                (capacity_small header t f r) in
            let d2 = displacement c slot (f slot).0 in
            let nearer = one_nearer c f slot d h p empty i (pos_of used) in
            elim (Bool-cases (ltb d2 d)) [
              | inl far ↦
                  let (u, wrote, shown) = write_slot-update header t f r slot (h, p) i.less fit in
                  let (v, g, result, shown', o', put') =
                    put_loop-PutsInto fuel next (d2 + 1) (f slot).0 (f slot).1 empty u
                      (update f slot (h, p)) shown
                      (update-IsOrdered c f slot o i.less h p i.some i.may
                        (inr (omega (arith, ltb→lt _ _ far, i.at))))
                      (r.fits slot i.less)
                      (steal c f slot d h p empty i (pos_of used) (ltb→lt _ _ far))
                      (omega (arith, nearer)) in
                  (
                    v,
                    g,
                    rw (read, used, other, far, wrote)
                        (ap
                            (λ k.
                              put_loop codecs log fuel k next (d2 + 1) (f slot).0 (f slot).1 false
                                (state u))
                            (next_pos_of slot)
                          ∙ result),
                    shown',
                    o',
                    IsPut-swap c f slot (h, p) i.less i.some g (pos_of used) put',
                  )
              | inr near ↦
                  let (v, g, result, shown', o', put') =
                    put_loop-PutsInto fuel next (d + 1) h p empty t f r o fit
                      (pass c f slot d h p empty i (pos_of used) (ltb→le _ _ near))
                      (omega (arith, nearer)) in
                  (
                    v,
                    g,
                    rw (read, used, other, near)
                        (ap (λ k. put_loop codecs log fuel k next (d + 1) h p false (state t))
                            (next_pos_of slot)
                          ∙ result),
                    shown',
                    o',
                    put',
                  )
            ]
      ]

  -- `hash_put` of an entry that is not compared with others, into a table in order that has an unused
  -- slot: it returns, and the table that it leaves is in order, uses one more slot, and holds the new
  -- entry, all entries that were there, and no others; one more entry is counted. The entry fits the
  -- sizes in the header, and its address is not 0.
  pub hash_put-PutsInto :
      (h p : ℕ) (t : List ℕ) (f : Slots)
      → Represents header t f
      → IsOrdered header.hash_capacity f
      → SlotFits header (h, p)
      → 0 < p
      → used header.hash_capacity f < header.hash_capacity
      → PutsInto f (h, p) (hash_put codecs log false (h % header.hash_capacity) h p (state t))
  unfolding hash_put ◌>>=◌
  hash_put-PutsInto h p t f r o fit some room =
      let c = header.hash_capacity in
      let (empty, inside, free) = used_room c f room in
      let w = h % c in
      let wanted : w < c = mod-lt h r.some in
      let start : u64 (w * slot_size header) ≡ w * slot_size header =
        omega (arith, slot_inside header t f r w wanted, r.len, r.small) in
      let ahead = steps-lt c w empty wanted inside in
      rw start (
        put_loop-PutsInto (c + 1) w 0 h p empty t f r o fit
          (starts-IsPutting c f h p empty r.some some inside free) (omega (arith, ahead)))
