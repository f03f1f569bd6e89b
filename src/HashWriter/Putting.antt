-- ===== src/HashWriter/Putting.antt =====
-- What holds at the top of the loop of `hash_put`, on the slots.
use sparkey.Base.{
  ◌%◌, ℕ, ◌+◌, ◌≤◌, ◌<◌, ◌==◌, ==_refl, ==→eq, Bool-cases, false, ◌≡◌, ap, ◌∙◌, inl, inr, arith,
}
use native.Mathlib.Nat.{mod-lt}
use sparkey.HashTable.Ring.{
  displacement_wanted, steps-lt, behind, steps, behind-lt, behind_injective, steps_none,
  steps_from_behind, displacement, displacement-behind,
}
use sparkey.HashTable.Order.{Slots, update, update_at, update_apart, MayEnter}

-- The loop is at a slot with an entry that is to be put, and an empty slot is ahead: nearer than the
-- wanted slot is when going on round the table.
pub record IsPutting (c : ℕ) (f : Slots) (slot d h p empty : ℕ) : Type 0 where
  pub less : slot < c
  pub at : displacement c slot h ≡ d
  pub some : 0 < p
  pub may : MayEnter c f slot h
  pub empty_less : empty < c
  pub is_empty : (f empty).1 ≡ 0
  pub ahead : d + steps c slot empty < c

module _ (c : ℕ) (f : Slots) (slot d h p empty : ℕ) (i : IsPutting c f slot d h p empty)
    (used : 0 < (f slot).1) where
  not_empty : (slot == empty) ≡ false
  not_empty = elim (Bool-cases (slot == empty)) [
    | inr e ↦ e
    | inl e ↦ absurd (omega (arith, used, i.is_empty, ap (λ s. (f s).1) (==→eq slot empty e)))
  ]

  pub some_steps : 0 < steps c slot empty
  some_steps = elim (Bool-cases (steps c slot empty == 0)) [
    | inr e ↦ ground arith
    | inl e ↦
        let same : slot ≡ empty = steps_none c slot empty i.less i.empty_less (==→eq _ 0 e) in
        absurd (omega (arith, used, i.is_empty, ap (λ s. (f s).1) same))
  ]

  pub one_nearer : steps c (behind c slot) empty + 1 ≡ steps c slot empty
  one_nearer = steps_from_behind c slot empty i.less i.empty_less some_steps

  -- The entry in the slot stays, and the loop goes on with the same entry.
  pub pass : d ≤ displacement c slot (f slot).0 → IsPutting c f (behind c slot) (d + 1) h p empty
  pass near =
      let next : displacement c (behind c slot) h ≡ d + 1 =
        displacement-behind c slot h i.less (omega (arith, i.at, i.ahead, some_steps))
        ∙ ap (λ k. k + 1) i.at in
      record {
        less = behind-lt c slot (omega (arith, i.less));
        at = next;
        some = i.some;
        may = λ q hq e far.
            let same : q ≡ slot = behind_injective c q slot hq i.less e in
            rw same (used, omega (arith, next, near));
        empty_less = i.empty_less;
        is_empty = i.is_empty;
        ahead = omega (arith, i.ahead, one_nearer);
      }

  -- The loop takes the slot, and goes on with the entry that was in it.
  pub steal :
      displacement c slot (f slot).0 < d
      → IsPutting c
          (update f slot (h, p))
          (behind c slot)
          (displacement c slot (f slot).0 + 1)
          (f slot).0
          (f slot).1
          empty
  steal far =
      let g = update f slot (h, p) in
      let here : g slot ≡ (h, p) = update_at f slot (h, p) slot (==_refl slot) in
      let next : displacement c (behind c slot) (f slot).0 ≡ displacement c slot (f slot).0 + 1 =
        displacement-behind c slot (f slot).0 i.less (omega (arith, i.ahead, far)) in
      record {
        less = behind-lt c slot (omega (arith, i.less));
        at = next;
        some = used;
        may = λ q hq e away.
            let same : q ≡ slot = behind_injective c q slot hq i.less e in
            rw (same, here) (i.some, omega (arith, next, far, i.at));
        empty_less = i.empty_less;
        is_empty = ap (λ x. x.1) (update_apart f slot (h, p) empty not_empty) ∙ i.is_empty;
        ahead = omega (arith, i.ahead, one_nearer, far);
      }

-- At the wanted slot of an entry.
pub starts-IsPutting :
    (c : ℕ) (f : Slots) (h p empty : ℕ)
    → 0 < c
    → 0 < p
    → empty < c
    → (f empty).1 ≡ 0
    → IsPutting c f (h % c) 0 h p empty
starts-IsPutting c f h p empty some new inside free =
    let wanted : h % c < c = mod-lt h some in
    record {
      less = wanted;
      at = displacement_wanted c h;
      some = new;
      may = λ q hq e far. absurd (omega (arith, far, displacement_wanted c h));
      empty_less = inside;
      is_empty = free;
      ahead = omega (arith, steps-lt c (h % c) empty wanted inside);
    }
