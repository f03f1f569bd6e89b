-- ===== src/HashTable/Holds.antt =====
-- The entries in the slots of a table, wherever they stand.
use sparkey.Base.{
  ℕ, ◌+◌, ◌<◌, ◌==◌, ==_refl, ==→eq, Bool-cases, false, ◌≡◌, sym, ap, ◌∙◌, ◌⊎◌, inl, inr, arith,
}
use mathlib.Core.Path.{subst}
use sparkey.HashTable.Order.{Slots, update, update_at, update_apart}
use sparkey.HashTable.Used.{used, used-update, mark_used, mark_empty}

abbrev pub Holds : (c : ℕ) → Slots → ℕ × ℕ → Type 0
Holds c f x = (s : ℕ) × (s < c) × (f s ≡ x)

-- The used slots have different addresses.
abbrev pub IsDistinct : (c : ℕ) → Slots → Type 0
IsDistinct c f = (a b : ℕ) → a < c → b < c → 0 < (f a).1 → (f a).1 ≡ (f b).1 → a ≡ b

-- No slot has the address of `x`.
abbrev pub IsFreshIn : (c : ℕ) → Slots → ℕ × ℕ → Type 0
IsFreshIn c f x = (s : ℕ) → s < c → (f s).1 ≡ x.1 → ⊥

-- `g` holds `x` and the entries of `f`, and no others; and none of them twice, if `f` does not and the
-- address of `x` is new.
pub record IsPut (c : ℕ) (f g : Slots) (x : ℕ × ℕ) : Type 0 where
  pub only : (y : ℕ × ℕ) → 0 < y.1 → Holds c g y → Holds c f y ⊎ (y ≡ x)
  pub kept : (y : ℕ × ℕ) → 0 < y.1 → Holds c f y → Holds c g y
  pub new : Holds c g x
  pub counted : used c g ≡ used c f + 1
  pub distinct : IsDistinct c f → IsFreshIn c f x → IsDistinct c g

module _ (c : ℕ) (f : Slots) (s : ℕ) (x : ℕ × ℕ) (less : s < c) (some : 0 < x.1) where
  Holds-update : (y : ℕ × ℕ) → Holds c (update f s x) y → Holds c f y ⊎ (y ≡ x)
  Holds-update y (q, hq, e) = elim (Bool-cases (s == q)) [
    | inl here ↦ inr (sym e ∙ update_at f s x q here)
    | inr apart ↦ inl (q, hq, sym (update_apart f s x q apart) ∙ e)
  ]

  update-Holds : (y : ℕ × ℕ) → Holds c f y → Holds c (update f s x) y ⊎ (y ≡ f s)
  update-Holds y (q, hq, e) = elim (Bool-cases (s == q)) [
    | inl here ↦ inr (sym e ∙ ap f (sym (==→eq s q here)))
    | inr apart ↦ inl (q, hq, update_apart f s x q apart ∙ e)
  ]

  pub update-IsDistinct :
      IsDistinct c f
      → ((q : ℕ) → q < c → (s == q) ≡ false → (f q).1 ≡ x.1 → ⊥)
      → IsDistinct c (update f s x)
  update-IsDistinct d new a b ha hb used e = elim (Bool-cases (s == a)) [
    | inl at_a ↦ elim (Bool-cases (s == b)) [
      | inl at_b ↦ sym (==→eq s a at_a) ∙ ==→eq s b at_b
      | inr off_b ↦ absurd (
          new b hb off_b (
            ap (λ y. y.1) (sym (update_apart f s x b off_b))
            ∙ sym e
            ∙ ap (λ y. y.1) (update_at f s x a at_a)))
    ]
    | inr off_a ↦ elim (Bool-cases (s == b)) [
      | inl at_b ↦ absurd (
          new a ha off_a (
            ap (λ y. y.1) (sym (update_apart f s x a off_a))
            ∙ e
            ∙ ap (λ y. y.1) (update_at f s x b at_b)))
      | inr off_b ↦ d a b ha hb (omega (arith, used, ap (λ y. y.1) (update_apart f s x a off_a))) (
          ap (λ y. y.1) (sym (update_apart f s x a off_a))
          ∙ e
          ∙ ap (λ y. y.1) (update_apart f s x b off_b))
    ]
  ]

  -- What stood in the slot is nowhere else.
  update-IsFreshIn :
      IsDistinct c f → IsFreshIn c f x → 0 < (f s).1 → IsFreshIn c (update f s x) (f s)
  update-IsFreshIn d new taken q hq e = elim (Bool-cases (s == q)) [
    | inl here ↦ new s less (sym e ∙ ap (λ y. y.1) (update_at f s x q here))
    | inr off ↦
        let same : s ≡ q = d s q less hq taken (sym e ∙ ap (λ y. y.1) (update_apart f s x q off)) in
        absurd (ground (arith, off, same))
  ]

  there : Holds c (update f s x) x
  there = (s, less, update_at f s x s (==_refl s))

  pub IsPut-empty : (f s).1 ≡ 0 → IsPut c f (update f s x) x
  IsPut-empty empty = record {
    only = λ y used h. Holds-update y h;
    kept = λ y used h. elim (update-Holds y h) [
      | inl k ↦ k
      | inr e ↦ absurd (omega (arith, ap (λ z. z.1) e))
    ];
    new = there;
    counted = omega (arith, used-update c f s x less, mark_used x some, mark_empty (f s) empty);
    distinct = λ d new. update-IsDistinct d (λ q hq off. new q hq);
  }

  -- What stood in the slot is put elsewhere.
  pub IsPut-swap : (g : Slots) → 0 < (f s).1 → IsPut c (update f s x) g (f s) → IsPut c f g x
  IsPut-swap g taken p = record {
    only = λ y used h. elim (p.only y used h) [
      | inl k ↦ Holds-update y k
      | inr e ↦ inl (s, less, sym e)
    ];
    kept = λ y used h. elim (update-Holds y h) [
      | inl k ↦ p.kept y used k
      | inr e ↦ subst (Holds c g) (sym e) p.new
    ];
    new = p.kept x some there;
    counted =
        omega (arith, p.counted, used-update c f s x less, mark_used x some, mark_used (f s) taken);
    distinct = λ d new.
        p.distinct (update-IsDistinct d (λ q hq off. new q hq)) (update-IsFreshIn d new taken);
  }
