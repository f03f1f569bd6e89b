-- ===== src/HashTable/Without.antt =====
-- The entries in the slots of a table but one.
use sparkey.Base.{
  ℕ, ◌+◌, ◌<◌, ◌==◌, ==_refl, ==→eq, Bool-cases, false, ◌≡◌, refl, sym, ap, ◌∙◌, inl, inr, arith,
}
use sparkey.HashTable.Order.{Slots, update, update_at, update_apart}
use sparkey.HashTable.Holds.{Holds, IsDistinct}
use sparkey.HashTable.Used.{used, used-update, mark_used, mark_empty}

-- Some slot other than `s` holds `y`.
abbrev pub Without : (c : ℕ) → Slots → ℕ → ℕ × ℕ → Type 0
Without c f s y = (q : ℕ) × (q < c) × ((s == q) ≡ false) × (f q ≡ y)

-- The used slots but for `s` have different addresses.
abbrev pub IsDistinctBut : (c : ℕ) → Slots → ℕ → Type 0
IsDistinctBut c f s =
    (a b : ℕ)
    → a < c
    → b < c
    → (s == a) ≡ false
    → (s == b) ≡ false
    → 0 < (f a).1
    → (f a).1 ≡ (f b).1
    → a ≡ b

-- `g` holds what the slots of `f` hold but for `s`, in one slot less; and none of it twice, if `f` does
-- not.
pub record IsRemoved (c : ℕ) (f g : Slots) (s : ℕ) : Type 0 where
  pub only : (y : ℕ × ℕ) → 0 < y.1 → Holds c g y → Without c f s y
  pub kept : (y : ℕ × ℕ) → 0 < y.1 → Without c f s y → Holds c g y
  pub counted : used c g + 1 ≡ used c f
  pub distinct : IsDistinctBut c f s → IsDistinct c g

module _ (c : ℕ) (f : Slots) (s : ℕ) (less : s < c) (taken : 0 < (f s).1) where
  clear-IsDistinct : IsDistinctBut c f s → IsDistinct c (update f s (0, 0))
  clear-IsDistinct d a b ha hb some e = elim (Bool-cases (s == a)) [
    | inl at_a ↦ absurd (omega (arith, some, ap (λ y. y.1) (update_at f s (0, 0) a at_a)))
    | inr off_a ↦ elim (Bool-cases (s == b)) [
      | inl at_b ↦ absurd (omega (arith, some, e, ap (λ y. y.1) (update_at f s (0, 0) b at_b)))
      | inr off_b ↦
          let own = ap (λ y. y.1) (update_apart f s (0, 0) a off_a) in
          d a b ha hb off_a off_b (omega (arith, some, own))
            (sym own ∙ e ∙ ap (λ y. y.1) (update_apart f s (0, 0) b off_b))
    ]
  ]

  -- With what is in the slot `n` in the slot `s`, all but `n` are different.
  move-IsDistinct :
      (n : ℕ)
      → n < c
      → (s == n) ≡ false
      → 0 < (f n).1
      → IsDistinctBut c f s
      → IsDistinctBut c (update f s (f n)) n
  move-IsDistinct n hn away there d a b ha hb apart_a apart_b some e = elim (Bool-cases (s == a)) [
    | inl at_a ↦ elim (Bool-cases (s == b)) [
      | inl at_b ↦ sym (==→eq s a at_a) ∙ ==→eq s b at_b
      | inr off_b ↦
          let same : n ≡ b = d n b hn hb away off_b there (
            ap (λ y. y.1) (sym (update_at f s (f n) a at_a))
            ∙ e
            ∙ ap (λ y. y.1) (update_apart f s (f n) b off_b)) in
          absurd (ground (arith, apart_b, same))
    ]
    | inr off_a ↦
        let own = ap (λ y. y.1) (update_apart f s (f n) a off_a) in
        elim (Bool-cases (s == b)) [
          | inl at_b ↦
              let same : a ≡ n =
                d a n ha hn off_a away (omega (arith, some, own))
                  (sym own ∙ e ∙ ap (λ y. y.1) (update_at f s (f n) b at_b)) in
              absurd (ground (arith, apart_a, same))
          | inr off_b ↦
              d a b ha hb off_a off_b (omega (arith, some, own))
                (sym own ∙ e ∙ ap (λ y. y.1) (update_apart f s (f n) b off_b))
        ]
  ]

  pub IsRemoved-clear : IsRemoved c f (update f s (0, 0)) s
  IsRemoved-clear = record {
    only = λ y some h.
        let (q, hq, e) = h in
        elim (Bool-cases (s == q)) [
          | inl here ↦
              absurd (omega (arith, some, ap (λ x. x.1) (sym (update_at f s (0, 0) q here) ∙ e)))
          | inr apart ↦ (q, hq, apart, sym (update_apart f s (0, 0) q apart) ∙ e)
        ];
    kept = λ y some w. let (q, hq, apart, e) = w in (q, hq, update_apart f s (0, 0) q apart ∙ e);
    counted =
        omega (arith, used-update c f s (0, 0) less, mark_used (f s) taken, mark_empty (0, 0) refl);
    distinct = clear-IsDistinct;
  }

  -- What is in the slot `n` has moved to `s`, and the slot `n` is the one to be emptied.
  pub IsRemoved-move :
      (n : ℕ) (g : Slots)
      → n < c
      → (s == n) ≡ false
      → 0 < (f n).1
      → IsRemoved c (update f s (f n)) g n
      → IsRemoved c f g s
  IsRemoved-move n g hn away there r =
      let back : (n == s) ≡ false = ground (arith, away) in
      record {
        only = λ y some h.
            let (q, hq, apart, e) = r.only y some h in
            elim (Bool-cases (s == q)) [
              | inl here ↦ (n, hn, away, sym (update_at f s (f n) q here) ∙ e)
              | inr off ↦ (q, hq, off, sym (update_apart f s (f n) q off) ∙ e)
            ];
        kept = λ y some w.
            let (q, hq, apart, e) = w in
            r.kept y some (elim (Bool-cases (n == q)) [
              | inl last ↦
                  (s, less, back, update_at f s (f n) s (==_refl s) ∙ ap f (==→eq n q last) ∙ e)
              | inr off ↦ (q, hq, off, update_apart f s (f n) q apart ∙ e)
            ]);
        counted = omega (
          arith,
          r.counted,
          used-update c f s (f n) less,
          mark_used (f s) taken,
          mark_used (f n) there,
        );
        distinct = λ d. r.distinct (move-IsDistinct n hn away there d);
      }
