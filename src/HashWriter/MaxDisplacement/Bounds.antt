-- ===== src/HashWriter/MaxDisplacement/Bounds.antt =====
-- The largest displacement that `calculate_max_displacement` finds.
use sparkey.Base.{
  ℕ, zero, suc, ◌+◌, ◌≤◌, ◌<◌, ◌==◌, ==→eq, ltb, ltb→lt, ltb→le, List, Bool-cases, ◌≡◌, refl, sym,
  ap, ◌∙◌, ◌⊎◌, inl, inr, arith,
}
use mathlib.Core.Path.{subst}
use sparkey.Exec.{Outcome, done, ◌>>=◌}
use sparkey.HashHeader.{HashHeader}
use sparkey.HashTable.Ring.{displacement, displacement-lt, get_displacement-displacement}
use sparkey.HashTable.Order.{Slots}
use sparkey.HashTable.Represents.{Represents, capacity_small}
use sparkey.HashWriter.MaxDisplacement.{
  Stats, count_slot, occupied, stats_loop, no_stats, with_stats, calculate_max_displacement,
}

-- `m` is the largest displacement in the slots below `slot`.
pub record IsMax (c : ℕ) (f : Slots) (slot m : ℕ) : Type 0 where
  pub every : (q : ℕ) → q < slot → 0 < (f q).1 → displacement c q (f q).0 ≤ m
  pub reached : (m ≡ 0) ⊎ ((q : ℕ) × (q < slot) × (0 < (f q).1) × (displacement c q (f q).0 ≡ m))

module _ (c : ℕ) (f : Slots) (slot m : ℕ) (i : IsMax c f slot m) where
  below :
      (n q : ℕ)
      → ((0 < (f slot).1) → displacement c slot (f slot).0 ≤ n)
      → m ≤ n
      → q < slot + 1
      → 0 < (f q).1
      → displacement c q (f q).0 ≤ n
  below n q own more hq used = elim (Bool-cases (q == slot)) [
    | inl last ↦
        let same = ==→eq q slot last in
        omega (
          arith,
          own (omega (arith, used, ap (λ k. (f k).1) same)),
          ap (λ k. displacement c k (f k).0) same,
        )
    | inr before ↦ omega (arith, i.every q (ground (arith, before)) used, more)
  ]

  -- The slot is empty, or what is in it is no farther from its wanted slot.
  IsMax-same : (0 < (f slot).1 → displacement c slot (f slot).0 ≤ m) → IsMax c f (slot + 1) m
  IsMax-same own = record {
    every = λ q. below m q own (omega arith);
    reached = elim i.reached [
      | inl none_yet ↦ inl none_yet
      | inr (q, hq, used, e) ↦ inr (q, omega (arith, hq), used, e)
    ];
  }

  IsMax-more :
      0 < (f slot).1
      → m < displacement c slot (f slot).0
      → IsMax c f (slot + 1) (displacement c slot (f slot).0)
  IsMax-more used far = record {
    every = λ q. below _ q (λ _. omega arith) (omega arith);
    reached = inr (slot, omega arith, used, refl);
  }

module _ (header : HashHeader) (t : List ℕ) (f : Slots) (r : Represents header t f) where
  abbrev Counts : (slot : ℕ) → Outcome (Unit {0}) × Stats → Type 0
  Counts slot result =
      (result.0 ≡ done tt) × IsMax header.hash_capacity f slot result.1.max_displacement

  count_slot-Counts :
      (slot : ℕ) (s : Stats)
      → slot < header.hash_capacity
      → IsMax header.hash_capacity f slot s.max_displacement
      → Counts (slot + 1) (count_slot header.hash_capacity slot (f slot).0 (f slot).1 s)
  unfolding count_slot occupied ◌>>=◌
  count_slot-Counts slot s less i =
      let c = header.hash_capacity in
      let m = s.max_displacement in
      let d = displacement c slot (f slot).0 in
      elim (Bool-cases ((f slot).1 == 0)) [
        | inl free ↦
            rw free
              (refl, IsMax-same c f slot m i (λ used. absurd (omega (arith, used, ==→eq _ 0 free))))
        | inr stands ↦
            let there =
              get_displacement-displacement c slot (f slot).0 less (capacity_small header t f r) in
            elim (Bool-cases (ltb m d)) [
              | inl far ↦
                  rw (stands, there, far)
                    (refl, IsMax-more c f slot m i (ground (arith, stands)) (ltb→lt _ _ far))
              | inr near ↦
                  rw (stands, there, near) (refl, IsMax-same c f slot m i (λ used. ltb→le _ _ near))
            ]
      ]

  stats_loop-Counts :
      (n slot : ℕ) (s : Stats)
      → slot + n ≡ header.hash_capacity
      → IsMax header.hash_capacity f slot s.max_displacement
      → Counts header.hash_capacity (stats_loop header t n slot s)
  unfolding stats_loop ◌>>=◌
  stats_loop-Counts zero slot s all i =
      let last : slot ≡ header.hash_capacity = omega (arith, all) in
      (refl, subst (λ k. IsMax header.hash_capacity f k s.max_displacement) last i)
  stats_loop-Counts (suc n) slot s all i =
      let less : slot < header.hash_capacity = omega (arith, all) in
      let counted = count_slot-Counts slot s less i in
      rw (r.reads slot less, counted.0)
        (stats_loop-Counts n (slot + 1) _ (omega (arith, all)) counted.1)

  with_stats-done :
      (s : Stats)
      → (h : HashHeader) × (with_stats header (done tt) s ≡ done h)
        × (h.max_displacement ≡ s.max_displacement)
  unfolding with_stats
  with_stats-done s = (_, refl, refl)

  -- `calculate_max_displacement` of a table returns, and the largest displacement that it fills in is
  -- below the number of slots, at least that of every entry, and that of some entry unless it is 0.
  pub calculate_max_displacement-IsMax :
      (h : HashHeader) × (calculate_max_displacement header t ≡ done h)
      × (h.max_displacement < header.hash_capacity)
      × IsMax header.hash_capacity f header.hash_capacity h.max_displacement
  unfolding calculate_max_displacement no_stats
  calculate_max_displacement-IsMax =
      let c = header.hash_capacity in
      let (e, i) =
        stats_loop-Counts c 0 no_stats (omega arith)
          (record { every = λ q hq. absurd (omega (arith, hq)); reached = inl refl }) in
      let s = (stats_loop header t c 0 no_stats).1 in
      let (h, result, same) = with_stats-done s in
      let bound : s.max_displacement < c = elim i.reached [
        | inl none_yet ↦ omega (arith, none_yet, r.some)
        | inr (q, hq, used, at) ↦ omega (arith, at, displacement-lt c q (f q).0 hq)
      ] in
      (
        h,
        ap (λ o. with_stats header o s) e ∙ result,
        omega (arith, bound, same),
        subst (IsMax c f c) (sym same) i,
      )
