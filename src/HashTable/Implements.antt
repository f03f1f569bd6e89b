-- ===== src/HashTable/Implements.antt =====
-- A hash table as a finite map from keys to the addresses of their puts, and what the changes of the
pub mod Changes
-- slots make of the map.
use sparkey.Base.{
  ℕ, ◌≤◌, ◌<◌, ◌==◌, ==→eq, ==_refl, Bool-cases, Bool, true, false, ◌&&◌, List, [], ◌∷◌, Option,
  none, some, if◌then◌else◌, ◌≡◌, ◌≢◌, refl, sym, ap, ◌∙◌, ◌⊎◌, inl, inr, arith,
}
use mathlib.Core.Path.{subst}
use mathlib.Core.Bool.{false≢true}
use sparkey.Exec.{done}
use sparkey.HashAlgorithm.{hash}
use sparkey.LogReader.{LogReader}
use sparkey.HashHeader.{HashHeader}
use sparkey.HashTable.Order.{Slots, update, update_at, update_apart}
use sparkey.HashTable.Holds.{Holds, IsPut, IsDistinct, update-IsDistinct}
use sparkey.HashTable.Without.{Without, IsRemoved}
use sparkey.HashTable.Index.{IsIndex, IsPutAt, HoldsKey}

unfoldable pub equal_bytes : List ℕ → List ℕ → Bool
equal_bytes [] [] = true
equal_bytes [] (y ∷ ys) = false
equal_bytes (x ∷ xs) [] = false
equal_bytes (x ∷ xs) (y ∷ ys) = (x == y) && equal_bytes xs ys

pub equal_bytes_refl : (xs : List ℕ) → equal_bytes xs xs ≡ true
unfolding equal_bytes
equal_bytes_refl [] = refl
equal_bytes_refl (x ∷ xs) = rw (==_refl x, equal_bytes_refl xs) refl

pub equal_bytes→eq : (xs ys : List ℕ) → equal_bytes xs ys ≡ true → xs ≡ ys
unfolding equal_bytes
equal_bytes→eq [] [] e = refl
equal_bytes→eq [] (y ∷ ys) e = absurd (false≢true e)
equal_bytes→eq (x ∷ xs) [] e = absurd (false≢true e)
equal_bytes→eq (x ∷ xs) (y ∷ ys) e = elim (Bool-cases (x == y)) [
  | inl here ↦
      ap (λ z. z ∷ xs) (==→eq x y here) ∙ ap (λ zs. y ∷ zs) (equal_bytes→eq xs ys (rw here at e))
  | inr apart ↦ absurd (false≢true (rw apart at e))
]

-- A map from keys to addresses, and its change at a key.
abbrev pub KeyMap : Type 0
KeyMap = List ℕ → Option ℕ

unfoldable pub assign : {B : Type 0} → List ℕ → Option B → (List ℕ → Option B) → List ℕ → Option B
assign key a m other = if equal_bytes key other then a else m other

module _ {B : Type 0} (key other : List ℕ) (a : Option B) (m : List ℕ → Option B) where
  pub assign_same : key ≡ other → assign key a m other ≡ a
  unfolding assign
  assign_same e =
      let is : equal_bytes key other ≡ true = ap (equal_bytes key) (sym e) ∙ equal_bytes_refl key in
      rw is refl

  pub assign_other : key ≢ other → assign key a m other ≡ m other
  unfolding assign
  assign_other ne = elim (Bool-cases (equal_bytes key other)) [
    | inl is ↦ absurd (ne (equal_bytes→eq key other is))
    | inr is_not ↦ rw is_not refl
  ]

-- The table gives each key the address that the map does.
pub record Implements (log : LogReader) (header : HashHeader) (f : Slots)
    (content : ℕ → List ℕ × List ℕ) (m : KeyMap) : Type 0 where
  pub index : IsIndex log header f content
  pub distinct : IsDistinct header.hash_capacity f
  pub found :
      (key : List ℕ) (s : ℕ) → HoldsKey header.hash_capacity f content key s → m key ≡ some (f s).1
  pub present :
      (key : List ℕ) (p : ℕ)
      → m key ≡ some p
      → (s : ℕ) × HoldsKey header.hash_capacity f content key s × ((f s).1 ≡ p)

abbrev some_or : ℕ → Option ℕ → ℕ
some_or n none = n
some_or n (some k) = k

pub some_injective : (n k : ℕ) → ◌≡◌ {A = Option ℕ} (some n) (some k) → n ≡ k
some_injective n k e = ap (some_or n) e

pub key_cases : (key other : List ℕ) → (key ≡ other) ⊎ (key ≢ other)
key_cases key other = elim (Bool-cases (equal_bytes key other)) [
  | inl is ↦ inl (equal_bytes→eq key other is)
  | inr is_not ↦
      inr (λ e. false≢true (sym is_not ∙ ap (equal_bytes key) (sym e) ∙ equal_bytes_refl key))
]
