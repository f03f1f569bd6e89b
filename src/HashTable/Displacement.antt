-- ===== src/HashTable/Displacement.antt =====
-- `get_displacement` counts the slots from the wanted one to the one an entry is in, round the end.
use sparkey.Base.{ℕ, zero, suc, ◌+◌, ◌%◌, ◌^◌, ◌<◌, add64, sub64, ◌≡◌, refl, ap, ◌∙◌, arith}
use sparkey.Exec.{done}
use sparkey.HashTable.{modulo, get_displacement}
use native.Mathlib.Nat.{mod-lt, mod-eq_of_lt, add-mod-mod, add-mod_left}

-- The displacement of a slot in a table of fewer than 2 ^ 63 slots is the number of steps, fewer than
-- the slots, that lead from the wanted slot of the hash to this slot, where the step behind the last
-- slot is to the first. The subtractions that wrap round on the way do no harm.
pub get_displacement-steps :
    (capacity slot hash : ℕ)
    → slot < capacity
    → capacity < 2 ^ 63
    → (d : ℕ) × (get_displacement capacity slot hash ≡ done d)
      × (d < capacity)
      × ((hash % capacity + d) % capacity ≡ slot)
unfolding get_displacement modulo
get_displacement-steps zero slot hash h small = absurd (omega arith)
get_displacement-steps (suc n) slot hash h small =
    let c = suc n in
    let w = hash % c in
    let wanted : w < c = mod-lt hash (omega arith) in
    let x = add64 c (sub64 slot w) in
    let back : w + x ≡ c + slot = omega arith in
    (
      x % c,
      refl,
      mod-lt x (omega arith),
      add-mod-mod w x c ∙ ap (λ k. k % c) back ∙ add-mod_left c slot ∙ mod-eq_of_lt h,
    )

-- In any table with slots at all a displacement is fewer steps than there are slots.
pub get_displacement_below :
    (capacity slot hash : ℕ)
    → 0 < capacity
    → (d : ℕ) × (get_displacement capacity slot hash ≡ done d) × (d < capacity)
unfolding get_displacement modulo
get_displacement_below zero slot hash h = absurd (omega arith)
get_displacement_below (suc n) slot hash h = (_, refl, mod-lt _ (omega arith))
