-- ===== src/HashTable/Search.antt =====
-- The search along the slots of a table in order, from a wanted slot on: what it has not met yet stands
-- ahead of it.
use sparkey.Base.{
  ℕ, ◌+◌, ◌%◌, ◌<◌, ◌==◌, ==→eq, Bool-cases, ◌≡◌, refl, sym, ap, ◌⊎◌, inl, inr, arith,
}
use mathlib.Core.Path.{subst}
use sparkey.HashTable.Ring.{behind, steps, steps_none, steps_from_behind, displacement}
use sparkey.HashTable.Order.{Slots, IsOrdered, used_before}

-- `Wanted` slots are searched for, and those that are `Settled` are done with.
module _ (c : ℕ) (f : Slots) (ordered : IsOrdered c f) (Wanted Settled : ℕ → Type 0)
    (stands : (s : ℕ) → Wanted s → (s < c) × (0 < (f s).1)) where
  -- After `k` steps the search is at the slot `q`.
  abbrev pub IsAhead : (q k : ℕ) → Type 0
  IsAhead q k = (s : ℕ) → Wanted s → Settled s ⊎ (k + steps c q s ≡ displacement c s (f s).0)

  pub starts-IsAhead : (h : ℕ) → ((s : ℕ) → Wanted s → (f s).0 ≡ h) → IsAhead (h % c) 0
  unfolding displacement
  starts-IsAhead h own s w =
      let at : displacement c s (f s).0 ≡ displacement c s h = ap (displacement c s) (own s w) in
      inr (omega (arith, at))

  -- At a slot that is empty or whose entry is nearer to its wanted slot, all is settled.
  pub ends_search :
      (q k : ℕ)
      → q < c
      → IsAhead q k
      → ((f q).1 ≡ 0) ⊎ (displacement c q (f q).0 < k)
      → (s : ℕ) → Wanted s
      → Settled s
  ends_search q k hq ahead end s w = elim (ahead s w) [
    | inl done_with ↦ done_with
    | inr way ↦
        let (less, used) = stands s w in
        let before =
          used_before c f s ordered less used (steps c q s) q hq refl (omega (arith, way)) in
        absurd (omega (arith, before.0, before.1, way, end))
  ]

  pub step_on :
      (q k : ℕ) → q < c → IsAhead q k → (Wanted q → Settled q) → IsAhead (behind c q) (k + 1)
  step_on q k hq ahead here s w = elim (ahead s w) [
    | inl done_with ↦ inl done_with
    | inr way ↦ elim (Bool-cases (steps c q s == 0)) [
      | inl there ↦
          let same = steps_none c q s hq (stands s w).0 (==→eq _ 0 there) in
          inl (subst Settled same (here (subst Wanted (sym same) w)))
      | inr away ↦
          inr (omega (arith, way, steps_from_behind c q s hq (stands s w).0 (ground (arith, away))))
    ]
  ]
