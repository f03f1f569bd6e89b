-- ===== src/HashTable/Used.antt =====
-- How many slots of a table are used.
use sparkey.Base.{
  ℕ, zero, suc, ◌+◌, ◌≤◌, ◌<◌, ◌==◌, ==→eq, Bool-cases, false, if◌then◌else◌, ◌≡◌, refl, ap, inl,
  inr, arith,
}
use sparkey.HashTable.Order.{Slots, update, update_at, update_apart}
use sparkey.HashTable.Fresh.{empty_slots}

unfoldable pub mark : ℕ × ℕ → ℕ
mark x = if x.1 == 0 then 0 else 1

-- How many of the first `c` slots are used.
unfoldable pub used : (c : ℕ) → Slots → ℕ
used zero f = 0
used (suc n) f = mark (f n) + used n f

-- Some slot is empty where not all are used.
pub used_room : (c : ℕ) (f : Slots) → used c f < c → (s : ℕ) × (s < c) × ((f s).1 ≡ 0)
unfolding used mark
used_room zero f h = absurd (omega arith)
used_room (suc n) f h = elim (Bool-cases ((f n).1 == 0)) [
  | inl free ↦ (n, omega arith, ==→eq _ 0 free)
  | inr taken ↦
      let counted : mark (f n) ≡ 1 = unfold mark in rw taken in
      let (s, less, e) = used_room n f (omega (arith, h, counted)) in (s, omega (arith, less), e)
]

used_behind : (n : ℕ) (f : Slots) (s : ℕ) (x : ℕ × ℕ) → n ≤ s → used n (update f s x) ≡ used n f
unfolding used
used_behind zero f s x h = refl
used_behind (suc n) f s x h =
    let apart : (s == n) ≡ false = ground arith in
    rw (update_apart f s x n apart, used_behind n f s x (omega arith))

-- What a store into a slot changes.
pub used-update :
    (c : ℕ) (f : Slots) (s : ℕ) (x : ℕ × ℕ)
    → s < c
    → used c (update f s x) + mark (f s) ≡ used c f + mark x
unfolding used
used-update zero f s x less = absurd (omega arith)
used-update (suc n) f s x less = elim (Bool-cases (s == n)) [
  | inl here ↦
      let same = ==→eq s n here in
      let own : mark (f s) ≡ mark (f n) = ap (λ k. mark (f k)) same in
      rw (update_at f s x n here) (omega (arith, own, used_behind n f s x (omega (arith, same))))
  | inr apart ↦
      rw (update_apart f s x n apart) (omega (arith, used-update n f s x (ground (arith, apart))))
]

pub mark_used : (x : ℕ × ℕ) → 0 < x.1 → mark x ≡ 1
unfolding mark
mark_used x h = ground arith

pub mark_empty : (x : ℕ × ℕ) → x.1 ≡ 0 → mark x ≡ 0
unfolding mark
mark_empty x h = ground arith

pub used-empty_slots : (c : ℕ) → used c empty_slots ≡ 0
unfolding used mark
used-empty_slots zero = refl
used-empty_slots (suc c) = omega (arith, used-empty_slots c)
