-- ===== src/Exec/Ensures.antt =====
-- What holds of a value whenever an action returns one.
use sparkey.Base.{Bool, true, false, ◌≡◌, refl}
use mathlib.Core.Path.{subst}
use sparkey.ReturnCode.{ReturnCode}
use sparkey.Exec.{Outcome, done, thrown, fault, Exec, pure, throw_if, continue, ◌>>=◌, ◌>>◌}

-- `r` is no value, or a value with `P`.
abbrev pub Holds : {A : Type 0} → (A → Type 0) → Outcome A → Type 0
Holds P (done a) = P a
Holds P (thrown c) = Unit {0}
Holds P (fault x) = Unit {0}

pub record Ensures {S A : Type 0} (P : A → Type 0) (m : Exec S A) : Type 0 where
  pub at : (s : S) → Holds P (m s).0

module _ {S A : Type 0} (P : A → Type 0) where
  pub Ensures-pure : (a : A) → P a → Ensures {S = S} P (pure a)
  Ensures-pure a p = record { at = λ s. p }

  pub Ensures-throw_if :
      (b : Bool) (c : ReturnCode) (n : Exec S A)
      → (b ≡ false → Ensures P n)
      → Ensures P (throw_if b c >> n)
  unfolding ◌>>=◌
  Ensures-throw_if true c n k = record { at = λ s. tt }
  Ensures-throw_if false c n k = record { at = λ s. (k refl).at s }

module _ {S A B : Type 0} (P : B → Type 0) where
  Holds-continue :
      (r : Outcome A) (f : A → Exec S B) (s : S)
      → ((a : A) → Ensures P (f a))
      → Holds P (continue r f s).0
  Holds-continue (done a) f s k = (k a).at s
  Holds-continue (thrown c) f s k = tt
  Holds-continue (fault x) f s k = tt

  pub Ensures-bind :
      (m : Exec S A) (f : A → Exec S B) → ((a : A) → Ensures P (f a)) → Ensures P (m >>= f)
  unfolding ◌>>=◌
  Ensures-bind m f k = record { at = λ s. Holds-continue (m s).0 f (m s).1 k }

pub ensured_at :
    {A : Type 0} (P : A → Type 0) (r : Outcome A) {a : A} → r ≡ done a → Holds P r → P a
ensured_at P r e h = subst (Holds P) e h
