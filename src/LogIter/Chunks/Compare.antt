-- ===== src/LogIter/Chunks/Compare.antt =====
-- `memcmp` of blocks of the same length.
use sparkey.Base.{
  ℕ, ltb, List, [], ◌∷◌, length, Bool-cases, false, ◌≡◌, refl, ap, ◌∙◌, inl, inr, arith,
}
use sparkey.LogIter.Chunks.{Order, below, same, above, memcmp}

abbrev pub IsSame : Order → Type 0
IsSame same = Unit {0}
IsSame below = ⊥
IsSame above = ⊥

pub memcmp_self : (xs : List ℕ) → memcmp xs xs ≡ same
unfolding memcmp
memcmp_self [] = refl
memcmp_self (x ∷ xs) =
    let not_less : ltb x x ≡ false = ground arith in rw (not_less, memcmp_self xs) refl

pub memcmp-IsSame : (xs ys : List ℕ) → length xs ≡ length ys → IsSame (memcmp xs ys) → xs ≡ ys
unfolding memcmp
memcmp-IsSame [] [] e h = refl
memcmp-IsSame [] (y ∷ ys) e h = absurd (omega (arith, e))
memcmp-IsSame (x ∷ xs) [] e h = absurd (omega (arith, e))
memcmp-IsSame (x ∷ xs) (y ∷ ys) e h = elim (Bool-cases (ltb x y)) [
  | inl less ↦ elim (rw less at h) [ ]
  | inr not_less ↦ elim (Bool-cases (ltb y x)) [
    | inl more ↦ elim (rw (not_less, more) at h) [ ]
    | inr not_more ↦
        let here : x ≡ y = ground (arith, not_less, not_more) in
        let rest = memcmp-IsSame xs ys (omega (arith, e)) (rw (not_less, not_more) at h) in
        ap (λ z. z ∷ xs) here ∙ ap (λ zs. y ∷ zs) rest
  ]
]
