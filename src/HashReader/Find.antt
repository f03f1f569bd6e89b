-- ===== src/HashReader/Find.antt =====
-- Searches in a hash table that is in order.
use sparkey.Base.{
  ℕ, zero, suc, ◌+◌, ◌*◌, ◌%◌, ◌<◌, ◌==◌, ==_refl, ==→eq, leb, ltb, le→ltb, Bool-cases, true, false,
  u64, ◌≡◌, refl, sym, ap, ◌∙◌, inl, inr, arith,
}
use native.Mathlib.Nat.{mod-lt, zero-mul, one-mul, add-mul}
use sparkey.Exec.{done}
use sparkey.Compress.{Codecs}
use sparkey.HashTable.{slot_size}
use sparkey.HashTable.Ring.{
  steps_none, behind, steps, steps-lt, steps_from_behind, behind-lt, displacement, displacement-lt,
  displacement-behind, displacement_wanted, get_displacement-displacement,
}
use sparkey.HashTable.Order.{Slots, IsOrdered, used_before}
use sparkey.HashTable.Holds.{Holds}
use sparkey.HashTable.Represents.{Represents, capacity_small, slot_inside}
use sparkey.HashReader.{HashReader, points_loop, next_pos, next_slot}

module _ (codecs : Codecs) (reader : HashReader) (f : Slots)
    (r : Represents reader.header reader.hashtable f)
    (ordered : IsOrdered reader.header.hash_capacity f) where
  abbrev c : ℕ
  c = reader.header.hash_capacity

  pub next_pos_of :
      (slot : ℕ)
      → next_pos reader.header slot (slot * slot_size reader.header)
        ≡ next_slot reader.header slot * slot_size reader.header
  next_pos_of slot = elim (Bool-cases (leb c (slot + 1))) [
    | inl round ↦ rw round (sym (zero-mul (slot_size reader.header)))
    | inr on ↦
        rw on (
          omega
            (arith, add-mul slot 1 (slot_size reader.header), one-mul (slot_size reader.header)))
  ]

  apart_by : (s q : ℕ) → q < c → s < c → ((f s).1 == (f q).1) ≡ false → 0 < steps c q s
  apart_by s q hq less elsewhere = elim (Bool-cases (steps c q s == 0)) [
    | inl there ↦
        let same : s ≡ q = sym (steps_none c q s hq less (==→eq _ 0 there)) in
        absurd (cc (==_refl (f s).1, elsewhere, ap (λ t. (f s).1 == (f t).1) same))
    | inr away ↦ ground (arith, away)
  ]

  module _ (s : ℕ) (less : s < c) (used : 0 < (f s).1) where
    points_loop-true :
        (fuel q k : ℕ)
        → q < c
        → displacement c q (f s).0 ≡ k
        → k + steps c q s ≡ displacement c s (f s).0
        → steps c q s < fuel
        → points_loop codecs reader fuel (q * slot_size reader.header) q k (f s).1 ≡ done true
    unfolding points_loop behind
    points_loop-true zero q k hq at way enough = absurd (omega arith)
    points_loop-true (suc fuel) q k hq at way enough =
        let before =
          used_before c f s ordered less used (steps c q s) q hq refl (omega (arith, way)) in
        let read = r.reads q hq in
        let some : ((f q).1 == 0) ≡ false = ground (arith, before.0) in
        let other =
          get_displacement-displacement c q (f q).0 hq
            (capacity_small reader.header reader.hashtable f r) in
        elim (Bool-cases ((f s).1 == (f q).1)) [
          | inl here ↦ rw (read, some, here)
          | inr elsewhere ↦
              let more : 0 < steps c q s = apart_by s q hq less elsewhere in
              let near : ltb (displacement c q (f q).0) k ≡ false =
                le→ltb _ _ (omega (arith, before.1, way)) in
              let nearer = steps_from_behind c q s hq less more in
              let next : displacement c (behind c q) (f s).0 ≡ k + 1 =
                displacement-behind c q (f s).0 hq
                  (omega (arith, at, way, more, displacement-lt c s (f s).0 less))
                ∙ ap (λ n. n + 1) at in
              rw (read, some, elsewhere, other, near)
                (ap (λ n. points_loop codecs reader fuel n (behind c q) (k + 1) (f s).1)
                    (next_pos_of q)
                  ∙ points_loop-true fuel (behind c q) (k + 1) (behind-lt c q (omega arith)) next
                      (omega (arith, nearer, way)) (omega (arith, nearer)))
        ]

  -- In a table in order, the search for an entry that stands in it finds its address.
  pub points_loop-finds :
      (h p : ℕ)
      → 0 < p
      → Holds c f (h, p)
      → points_loop codecs reader (c + 1) (u64 (h % c * slot_size reader.header)) (h % c) 0 p
        ≡ done true
  unfolding displacement
  points_loop-finds h p some (s, less, is) =
      let w = h % c in
      let wanted : w < c = mod-lt h r.some in
      let start : u64 (w * slot_size reader.header) ≡ w * slot_size reader.header =
        omega (arith, slot_inside reader.header reader.hashtable f r w wanted, r.len, r.small) in
      let at = ap (λ x. x.0) is in
      let own = ap (λ x. x.1) is in
      let way : 0 + steps c w s ≡ displacement c s (f s).0 =
        omega (arith, ap (λ g. steps c (g % c) s) at) in
      let none : displacement c w (f s).0 ≡ 0 =
        ap (λ g. displacement c w g) at ∙ displacement_wanted c h in
      rw start (
        ap (λ n. points_loop codecs reader (c + 1) (w * slot_size reader.header) w 0 n) (sym own)
        ∙ points_loop-true s less (omega (arith, own, some)) (c + 1) w 0 wanted none way
            (omega (arith, steps-lt c w s wanted less)))
