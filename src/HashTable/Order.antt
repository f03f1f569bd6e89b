-- ===== src/HashTable/Order.antt =====
-- The order that the writer of a hash table keeps ("Robin Hood"): an entry that is not in its wanted
-- slot stands behind an entry that is at most one step nearer to its own. Slots are given by what
-- is in them, a hash and an address, and are empty where the address is 0.
use sparkey.Base.{
  ℕ, zero, suc, ◌+◌, ◌≤◌, ◌<◌, Bool-cases, true, false, ◌==◌, ==→eq, if◌then◌else◌, ◌≡◌, sym, ap,
  ◌∙◌, ◌⊎◌, inl, inr, arith,
}
use mathlib.Core.Path.{subst}
use sparkey.HashTable.Ring.{
  behind, steps, behind-lt, behind_self, behind-lt, steps_none, steps_from_behind, displacement,
  displacement-lt, displacement_back,
}

abbrev pub Slots : Type 0
Slots = ℕ → ℕ × ℕ

unfoldable pub update : Slots → ℕ → ℕ × ℕ → Slots
update f s v q = if s == q then v else f q

pub update_at : (f : Slots) (s : ℕ) (v : ℕ × ℕ) (q : ℕ) → (s == q) ≡ true → update f s v q ≡ v
unfolding update
update_at f s v q e = rw e

pub update_apart : (f : Slots) (s : ℕ) (v : ℕ × ℕ) (q : ℕ) → (s == q) ≡ false → update f s v q ≡ f q
unfolding update
update_apart f s v q e = rw e

-- What stands in `q` allows `b` in the slot behind it.
abbrev IsEdge : (c q : ℕ) → (a b : ℕ × ℕ) → Type 0
IsEdge c q a b =
    0 < b.1
    → 0 < displacement c (behind c q) b.0
    → (0 < a.1) × (displacement c (behind c q) b.0 ≤ displacement c q a.0 + 1)

abbrev pub IsOrdered : (c : ℕ) → Slots → Type 0
IsOrdered c f = (q : ℕ) → q < c → IsEdge c q (f q) (f (behind c q))

-- An entry with the hash `h` may be put into the slot `s`: it is in its wanted slot, or stands behind an
-- entry that is at most a step nearer to its own.
abbrev pub MayEnter : (c : ℕ) → Slots → (s h : ℕ) → Type 0
MayEnter c f s h =
    (q : ℕ)
    → q < c
    → behind c q ≡ s
    → 0 < displacement c s h
    → (0 < (f q).1) × (displacement c s h ≤ displacement c q (f q).0 + 1)

module _ (c : ℕ) (f : Slots) (s : ℕ) (ordered : IsOrdered c f) (less : s < c) where
  alone : (a b : ℕ × ℕ) → behind c s ≡ s → IsEdge c s a b
  alone a b e used far = absurd (
      omega (
        arith,
        behind_self c s less e,
        displacement-lt c s b.0 less,
        ap (λ t. displacement c t b.0) e,
      ))

  -- A store keeps the order where what is stored may stand behind what is in front of it and before what
  -- is behind it.
  update_between :
      (v : ℕ × ℕ)
      → ((q : ℕ) → q < c → behind c q ≡ s → IsEdge c q (f q) v)
      → IsEdge c s v (f (behind c s))
      → IsOrdered c (update f s v)
  update_between v front back q hq = elim (Bool-cases (s == behind c q)) [
    | inl here ↦ elim (Bool-cases (s == q)) [
      | inl last ↦
          let e = ==→eq s q last in
          subst (λ t. IsEdge c t (update f s v t) (update f s v (behind c t))) e
            (alone _ _ (ap (behind c) e ∙ sym (==→eq s (behind c q) here)))
      | inr away ↦
          rw (update_at f s v (behind c q) here, update_apart f s v q away)
            (front q hq (sym (==→eq s (behind c q) here)))
    ]
    | inr there ↦ elim (Bool-cases (s == q)) [
      | inl last ↦
          rw (update_apart f s v (behind c q) there, update_at f s v q last)
            (subst (λ t. IsEdge c t v (f (behind c t))) (==→eq s q last) back)
      | inr away ↦
          rw (update_apart f s v (behind c q) there, update_apart f s v q away) (ordered q hq)
    ]
  ]

  left_behind :
      (h p : ℕ)
      → 0 < p
      → ((f s).1 ≡ 0) ⊎ (displacement c s (f s).0 < displacement c s h)
      → IsEdge c s (h, p) (f (behind c s))
  left_behind h p some (inl empty) used far = absurd (omega (arith, ordered s less used far))
  left_behind h p some (inr nearer) used far = (some, omega (arith, (ordered s less used far).1))

  -- A slot that is empty, or whose entry is nearer to its wanted slot, takes an entry that has come
  -- further. The slots stay in order.
  pub update-IsOrdered :
      (h p : ℕ)
      → 0 < p
      → MayEnter c f s h
      → ((f s).1 ≡ 0) ⊎ (displacement c s (f s).0 < displacement c s h)
      → IsOrdered c (update f s (h, p))
  update-IsOrdered h p some may yields =
      update_between (h, p) (λ q hq e used far. rw e (may q hq e (rw e at far)))
        (left_behind h p some yields)

  -- The slot in front of `s`.
  before :
      (q : ℕ)
      → q < c
      → behind c q ≡ s
      → 0 < (f s).1
      → 0 < displacement c s (f s).0
      → (0 < (f q).1) × (displacement c s (f s).0 ≤ displacement c q (f q).0 + 1)
  before q hq e =
      subst
        (λ t.
          0 < (f t).1
          → 0 < displacement c t (f t).0
          → (0 < (f q).1) × (displacement c t (f t).0 ≤ displacement c q (f q).0 + 1))
        e (ordered q hq)

  -- An entry takes the slot of one with the same hash.
  pub update_same : (h p : ℕ) → 0 < p → 0 < (f s).1 → (f s).0 ≡ h → IsOrdered c (update f s (h, p))
  update_same h p new taken same =
      let own = ap (displacement c s) same in
      update_between (h, p)
        (λ q hq e used far.
          let at : displacement c (behind c q) h ≡ displacement c s h =
            ap (λ t. displacement c t h) e in
          let (some, near) = before q hq e taken (omega (arith, far, at, own)) in
          (some, omega (arith, near, at, own)))
        (λ used far. (new, omega (arith, (ordered s less used far).1, own)))

  -- The entry behind the slot moves one back, into it: the slots stay in order.
  pub update_back :
      0 < (f (behind c s)).1
      → 0 < displacement c (behind c s) (f (behind c s)).0
      → IsOrdered c (update f s (f (behind c s)))
  update_back taken far =
      let b = f (behind c s) in
      let back = displacement_back c s b.0 less far in
      let edge = ordered s less taken far in
      update_between b
        (λ q hq e used away.
          let at : displacement c (behind c q) b.0 ≡ displacement c s b.0 =
            ap (λ t. displacement c t b.0) e in
          let (some, near) = before q hq e edge.0 (omega (arith, edge.1, back, away, at)) in
          (some, omega (arith, near, edge.1, back, at)))
        (λ used away. (taken, omega (arith, back)))

  -- The slot is emptied where what is behind it is empty, or in its wanted slot.
  pub update_clear :
      ((f (behind c s)).1 ≡ 0) ⊎ (displacement c (behind c s) (f (behind c s)).0 ≡ 0)
      → IsOrdered c (update f s (0, 0))
  update_clear end =
      update_between (0, 0) (λ q hq e used far. absurd (omega (arith, used)))
        (λ used far. absurd (omega (arith, used, far, end)))

module _ (c : ℕ) (f : Slots) (s : ℕ) (ordered : IsOrdered c f) (less : s < c)
    (used : 0 < (f s).1) where
  -- The slots from the wanted one of an entry up to its own are used, and none by an entry that is
  -- nearer to its wanted slot than the way so far.
  pub used_before :
      (j q : ℕ)
      → q < c
      → steps c q s ≡ j
      → j ≤ displacement c s (f s).0
      → (0 < (f q).1) × (displacement c s (f s).0 ≤ displacement c q (f q).0 + j)
  used_before zero q hq e short =
      let same : q ≡ s = steps_none c q s hq less e in rw same (used, omega arith)
  used_before (suc j) q hq e short =
      let nearer : steps c (behind c q) s + 1 ≡ steps c q s =
        steps_from_behind c q s hq less (omega (arith, e)) in
      let next =
        used_before j (behind c q) (behind-lt c q (omega arith)) (omega (arith, nearer, e))
          (omega arith) in
      let edge = ordered q hq next.0 (omega (arith, next.1)) in
      (edge.0, omega (arith, edge.1, next.1))
