-- ===== src/HashTable/Ring.antt =====
-- The ring of the slots of a table: the slot behind a slot, and the number of steps between two slots.
use sparkey.Base.{
  ℕ, zero, suc, ◌+◌, ◌-◌, ◌%◌, ◌^◌, ◌<◌, add64, sub64, Bool-cases, leb, leb→le, leb→lt,
  if◌then◌else◌, ◌≡◌, refl, ap, inl, inr, arith,
}
use sparkey.Exec.{done}
use sparkey.HashTable.{modulo, get_displacement}
use native.Mathlib.Nat.{mod_self, mod-lt, mod-eq_of_lt, add-mod_left}

-- The slot behind `s`, and the steps from `a` to `b`, in a ring of `c` slots.
unfoldable pub behind : (c s : ℕ) → ℕ
behind c s = if leb c (s + 1) then 0 else s + 1

unfoldable pub steps : (c a b : ℕ) → ℕ
steps c a b = if leb a b then b - a else c + b - a

module _ (c : ℕ) where
  pub behind-lt : (s : ℕ) → 0 < c → behind c s < c
  unfolding behind
  behind-lt s h = ground arith

  pub behind_injective : (a b : ℕ) → a < c → b < c → behind c a ≡ behind c b → a ≡ b
  unfolding behind
  behind_injective a b ha hb e = ground arith

  pub steps-lt : (a b : ℕ) → a < c → b < c → steps c a b < c
  unfolding steps
  steps-lt a b ha hb = ground arith

  pub steps_none : (a b : ℕ) → a < c → b < c → steps c a b ≡ 0 → a ≡ b
  unfolding steps
  steps_none a b ha hb e = ground arith

  pub steps-behind :
      (a b : ℕ) → a < c → b < c → steps c a b + 1 < c → steps c a (behind c b) ≡ steps c a b + 1
  unfolding steps behind
  steps-behind a b ha hb h = ground arith

  pub steps_from_behind :
      (a b : ℕ) → a < c → b < c → 0 < steps c a b → steps c (behind c a) b + 1 ≡ steps c a b
  unfolding steps behind
  steps_from_behind a b ha hb h = ground arith

  pub behind_self : (a : ℕ) → a < c → behind c a ≡ a → c ≡ 1
  unfolding behind
  behind_self a ha e = ground arith

-- The displacement of a hash in a slot, in steps.
unfoldable pub displacement : (c s h : ℕ) → ℕ
displacement c s h = steps c (h % c) s

pub get_displacement-displacement :
    (c s h : ℕ) → s < c → c < 2 ^ 63 → get_displacement c s h ≡ done (displacement c s h)
unfolding get_displacement modulo displacement steps
get_displacement-displacement zero s h less small = absurd (omega arith)
get_displacement-displacement (suc n) s h less small =
    let c = suc n in
    let w = h % c in
    let wanted : w < c = mod-lt h (omega arith) in
    elim (Bool-cases (leb w s)) [
      | inl before ↦
          let x : add64 c (sub64 s w) ≡ c + (s - w) = omega (arith, leb→le w s before) in
          rw (x, before, add-mod_left c (s - w), mod-eq_of_lt {n = s - w} {m = c} (omega arith))
      | inr after ↦
          let x : add64 c (sub64 s w) ≡ c + s - w = omega (arith, leb→lt w s after) in
          rw (x, after, mod-eq_of_lt {n = c + s - w} {m = c} (omega (arith, leb→lt w s after)))
    ]

pub displacement-lt : (c s h : ℕ) → s < c → displacement c s h < c
unfolding displacement
displacement-lt c s h less = steps-lt c (h % c) s (mod-lt h (omega arith)) less

-- One slot further.
pub displacement-behind :
    (c s h : ℕ)
    → s < c
    → displacement c s h + 1 < c
    → displacement c (behind c s) h ≡ displacement c s h + 1
unfolding displacement
displacement-behind c s h less more = steps-behind c (h % c) s (mod-lt h (omega arith)) less more

-- A hash in its wanted slot.
pub displacement_wanted : (c h : ℕ) → displacement c (h % c) h ≡ 0
unfolding displacement steps
displacement_wanted c h = ground arith

pub steps_same : (c a : ℕ) → steps c a a ≡ 0
unfolding steps
steps_same c a = ground arith

-- One slot back, from a slot that is not the wanted one.
pub displacement_back :
    (c s h : ℕ)
    → s < c
    → 0 < displacement c (behind c s) h
    → displacement c (behind c s) h ≡ displacement c s h + 1
unfolding displacement steps behind
displacement_back c s h less far = let wanted : h % c < c = mod-lt h (omega arith) in ground arith

-- The slot behind, and the wanted slot, as the source computes them.
pub modulo-behind : (c s : ℕ) → s < c → c < 2 ^ 63 → modulo (add64 s 1) c ≡ done (behind c s)
unfolding modulo behind
modulo-behind zero s less small = absurd (omega arith)
modulo-behind (suc n) s less small = elim (Bool-cases (leb (suc n) (s + 1))) [
  | inl round ↦
      let last : add64 s 1 ≡ suc n = omega (arith, leb→le _ _ round) in
      rw (round, last) (ap done (mod_self (suc n)))
  | inr on ↦
      let next : add64 s 1 ≡ s + 1 = omega arith in
      rw (on, next) (ap done (mod-eq_of_lt {n = s + 1} {m = suc n} (leb→lt _ _ on)))
]

pub modulo-wanted : (c h : ℕ) → 0 < c → modulo h c ≡ done (h % c)
unfolding modulo
modulo-wanted zero h some = absurd (omega arith)
modulo-wanted (suc n) h some = refl
