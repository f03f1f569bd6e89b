-- ===== src/HashWriter/Copy.antt =====
-- `hash_copy`: the entries of an old table are put into a new one.
use sparkey.Base.{
  ℕ, zero, suc, ◌+◌, ◌*◌, ◌^◌, ◌≤◌, ◌<◌, ◌==◌, ==→eq, leb, le→leb, add64, u64, bit_or, List, length,
  Bool-cases, true, false, ◌≡◌, refl, ap, ◌⊎◌, inl, inr, arith,
}
use mathlib.Core.Path.{subst}
use native.Mathlib.Nat.{le-mul_of_pos_right, zero-mul, mul-le-mul_right, add-mul, one-mul}
use sparkey.Exec.{Outcome, done, ◌>>=◌}
use sparkey.Compress.{Codecs}
use sparkey.LogReader.{LogReader}
use sparkey.LogIter.{LogIter}
use sparkey.HashHeader.{HashHeader}
use sparkey.HashTable.{read_slot, slot_size, entry_index, block_of}
use sparkey.HashTable.Ring.{modulo-wanted}
use sparkey.HashTable.Order.{Slots, IsOrdered}
use sparkey.HashTable.Holds.{Holds, IsPut}
use sparkey.HashTable.Used.{used}
use sparkey.HashTable.Represents.{Represents, SlotFits, count-Represents, uncount-Represents}
use sparkey.HashWriter.{HashState, copy_loop, hash_copy}
use sparkey.HashWriter.Put.{state, hash_put-PutsInto}

module _ (codecs : Codecs) (log : LogReader) (iter ra_iter : LogIter) (header old : HashHeader)
    (buf : List ℕ) (n : ℕ) (e : Slots) (sized : length buf ≡ n * slot_size old)
    (some : 0 < slot_size old)
    (reads : (s : ℕ) → s < n → read_slot old buf (s * slot_size old) ≡ done (e s)) where
  -- The entry of an old slot with its address as the new table stores it.
  abbrev pub moved : ℕ × ℕ → ℕ × ℕ
  moved x =
      (x.0, bit_or (u64 (block_of old x.1 * 2 ^ header.entry_block_bits)) (entry_index old x.1))

  -- An old slot that is copied.
  abbrev pub IsCopied : ℕ → Type 0
  IsCopied q = (block_of old (e q).1 == 0) ≡ false

  abbrev pub counting : ℕ → HashHeader
  counting m = record header { num_entries = m }

  -- `g` holds the entries of `f`, those of the old slots from `s` on that are copied, and no others.
  pub record Gathers (s : ℕ) (f g : Slots) : Type 0 where
    pub only :
        (y : ℕ × ℕ)
        → 0 < y.1
        → Holds header.hash_capacity g y
        → Holds header.hash_capacity f y
          ⊎ ((q : ℕ) × (s ≤ q) × (q < n) × IsCopied q × (y ≡ moved (e q)))
    pub kept :
        (y : ℕ × ℕ) → 0 < y.1 → Holds header.hash_capacity f y → Holds header.hash_capacity g y
    pub gathered : (q : ℕ) → s ≤ q → q < n → IsCopied q → Holds header.hash_capacity g (moved (e q))

  abbrev pub Copies : ℕ → Slots → Outcome (Unit {0}) × HashState → Type 0
  Copies s f result =
      (m : ℕ) × (u : List ℕ) × (g : Slots) × (result
        ≡ (done tt, state codecs log iter ra_iter (counting m) u))
      × Represents header u g
      × IsOrdered header.hash_capacity g
      × Gathers s f g

  -- Nothing is left to copy.
  Gathers-end : (s : ℕ) (f : Slots) → n ≤ s → Gathers s f f
  Gathers-end s f end = record {
    only = λ y positive h. inl h;
    kept = λ y positive h. h;
    gathered = λ q from to copied. absurd (omega (arith, end, from, to));
  }

  -- A slot that is not copied.
  Gathers-skip :
      (s : ℕ) (f g : Slots)
      → (block_of old (e s).1 == 0) ≡ true
      → Gathers (s + 1) f g
      → Gathers s f g
  Gathers-skip s f g none w = record {
    only = λ y positive h. elim (w.only y positive h) [
      | inl k ↦ inl k
      | inr (q, from, to, copied, at) ↦ inr (q, omega (arith, from), to, copied, at)
    ];
    kept = w.kept;
    gathered = λ q from to copied. elim (Bool-cases (s == q)) [
      | inl here ↦ absurd (cc (none, copied, ap (λ k. block_of old (e k).1 == 0) (==→eq s q here)))
      | inr on ↦ w.gathered q (ground (arith, from, on)) to copied
    ];
  }

  Gathers-put :
      (s : ℕ) (f f' g : Slots)
      → s < n
      → IsCopied s
      → 0 < (moved (e s)).1
      → IsPut header.hash_capacity f f' (moved (e s))
      → Gathers (s + 1) f' g
      → Gathers s f g
  Gathers-put s f f' g less this new put w = record {
    only = λ y positive h. elim (w.only y positive h) [
      | inl k ↦ elim (put.only y positive k) [
        | inl there ↦ inl there
        | inr at ↦ inr (s, omega arith, less, this, at)
      ]
      | inr (q, from, to, copied, at) ↦ inr (q, omega (arith, from), to, copied, at)
    ];
    kept = λ y positive h. w.kept y positive (put.kept y positive h);
    gathered = λ q from to copied. elim (Bool-cases (s == q)) [
      | inl here ↦
          subst (λ k. Holds header.hash_capacity g (moved (e k))) (==→eq s q here)
            (w.kept (moved (e s)) new put.new)
      | inr on ↦ w.gathered q (ground (arith, from, on)) to copied
    ];
  }

  module _ (fit : (q : ℕ) → q < n → IsCopied q → SlotFits header (moved (e q)))
      (new : (q : ℕ) → q < n → IsCopied q → 0 < (moved (e q)).1) where
    copy_loop-Copies :
        (k fuel s m : ℕ) (t : List ℕ) (f : Slots)
        → s + k ≡ n
        → k < fuel
        → Represents header t f
        → IsOrdered header.hash_capacity f
        → used header.hash_capacity f + k ≤ header.hash_capacity
        → Copies s f (
            copy_loop codecs log old buf fuel
              (s * slot_size old)
              (state codecs log iter ra_iter (counting m) t))
    unfolding copy_loop ◌>>=◌
    copy_loop-Copies k zero s m t f all enough r o room = absurd (omega (arith, enough))
    copy_loop-Copies zero (suc fuel) s m t f all enough r o room =
        let last : s ≡ n = omega (arith, all) in
        let end : leb (length buf) (s * slot_size old) ≡ true =
          le→leb _ _ (omega (arith, sized, ap (λ k. k * slot_size old) last)) in
        (m, t, f, rw end refl, r, o, Gathers-end s f (omega (arith, last)))
    copy_loop-Copies (suc k) (suc fuel) s m t f all enough r o room =
        let less : s < n = omega (arith, all) in
        let inside : suc s * slot_size old ≤ n * slot_size old =
          mul-le-mul_right (slot_size old) less in
        let next : s * slot_size old + slot_size old ≡ (s + 1) * slot_size old =
          omega (arith, add-mul s 1 (slot_size old), one-mul (slot_size old)) in
        let before_end : s * slot_size old < length buf =
          omega (arith, sized, some, inside, next) in
        let on : leb (length buf) (s * slot_size old) ≡ false = ground (arith, before_end) in
        let wanted = modulo-wanted header.hash_capacity (e s).0 r.some in
        elim (Bool-cases (block_of old (e s).1 == 0)) [
          | inl none ↦
              let (m', u, g, result, shown, ordered, w) =
                copy_loop-Copies k fuel (s + 1) m t f (omega (arith, all)) (omega (arith, enough)) r
                  o (omega (arith, room)) in
              (
                m',
                u,
                g,
                rw (on, reads s less, wanted, none, next) result,
                shown,
                ordered,
                Gathers-skip s f g none w,
              )
          | inr this ↦
              let (v, f', put, shown', ordered', is_put) =
                hash_put-PutsInto codecs log iter ra_iter (counting m) (e s).0 (moved (e s)).1 t f
                  (count-Represents header m t f r) o (fit s less this) (new s less this)
                  (omega (arith, room)) in
              let (m', u, g, result, shown, ordered, w) =
                copy_loop-Copies k fuel (s + 1) (add64 m 1) v f' (omega (arith, all))
                  (omega (arith, enough)) (uncount-Represents header m v f' shown') ordered'
                  (omega (arith, room, is_put.counted)) in
              (
                m',
                u,
                g,
                rw (on, reads s less, wanted, this, put, next) result,
                shown,
                ordered,
                Gathers-put s f f' g less this (new s less this) is_put w,
              )
        ]

    -- `hash_copy` of a part of an old table, of `n` slots, into a new table in order that has as many
    -- slots unused: it returns, and the new table is in order and holds the entries that it held, those
    -- of the old slots whose block is not 0, with their addresses as the new table stores them, and no
    -- others. The hashes and the new addresses fit the sizes in the new header, and no new address is 0.
    pub hash_copy-Copies :
        (m : ℕ) (t : List ℕ) (f : Slots)
        → Represents header t f
        → IsOrdered header.hash_capacity f
        → used header.hash_capacity f + n ≤ header.hash_capacity
        → Copies 0 f (hash_copy codecs log old buf (state codecs log iter ra_iter (counting m) t))
    unfolding hash_copy
    hash_copy-Copies m t f r o room =
        let rounds : n ≤ n * slot_size old = le-mul_of_pos_right n some in
        subst
          (λ i. Copies 0 f (
            copy_loop codecs log old buf (length buf + 1) i
              (state codecs log iter ra_iter (counting m) t)))
          (zero-mul (slot_size old))
          (copy_loop-Copies n (length buf + 1) 0 m t f (omega arith) (omega (arith, rounds, sized))
            r o room)
