-- ===== src/Exec/Calm.antt =====
-- Actions that return no code of an error where an invariant holds, and that keep the invariant.
use sparkey.Base.{◌≡◌, ap}
use mathlib.Core.Path.{subst}
use sparkey.ReturnCode.{ReturnCode}
use sparkey.Exec.{Outcome, done, thrown, fault, Exec, gets, continue, ◌>>=◌, ◌>>◌}

abbrev pub NotThrown : {A : Type 0} → Outcome A → Type 0
NotThrown (done a) = Unit {0}
NotThrown (thrown c) = ⊥
NotThrown (fault x) = Unit {0}

-- The action returned no code of an error, and left a state with `P`.
abbrev pub IsCalm : {S A : Type 0} → (S → Type 0) → Outcome A × S → Type 0
IsCalm P r = NotThrown r.0 × P r.1

module _ {S A B : Type 0} (P : S → Type 0) where
  continue-IsCalm :
      (r : Outcome A) (f : A → Exec S B) (s : S)
      → NotThrown r
      → P s
      → ((a : A) (t : S) → P t → IsCalm P (f a t))
      → IsCalm P (continue r f s)
  continue-IsCalm (done a) f s n p k = k a s p
  continue-IsCalm (thrown c) f s n p k = elim n [ ]
  continue-IsCalm (fault x) f s n p k = (tt, p)

  pub bind-IsCalm :
      (m : Exec S A) (f : A → Exec S B) (s : S)
      → IsCalm P (m s)
      → ((a : A) (t : S) → P t → IsCalm P (f a t))
      → IsCalm P ((m >>= f) s)
  unfolding ◌>>=◌
  bind-IsCalm m f s c k = continue-IsCalm (m s).0 f (m s).1 c.0 c.1 k

module _ {S A B : Type 0} (P : S → Type 0) where
  pub gets-IsCalm :
      (g : S → A) (f : A → Exec S B) (s : S) → IsCalm P (f (g s) s) → IsCalm P ((gets g >>= f) s)
  unfolding ◌>>=◌
  gets-IsCalm g f s c = c

-- `m` is calm in every state with `P`.
pub record Calm {S A : Type 0} (P : S → Type 0) (m : Exec S A) : Type 0 where
  pub at : (s : S) → P s → IsCalm P (m s)

pub Calm-then :
    {S A B : Type 0} (P : S → Type 0) (m : Exec S A) (n : Exec S B)
    → Calm P m
    → Calm P n
    → Calm P (m >> n)
Calm-then P m n c d = record {
  at = λ s p. bind-IsCalm P m (λ a. n) s (c.at s p) (λ a t q. d.at t q);
}

-- A calm action that returns or gives a code of an error, returns.
pub not_thrown :
    {S A : Type 0} (P : S → Type 0) (r : Outcome A × S) (code : ReturnCode) (t : S)
    → IsCalm P r
    → r ≡ (thrown code, t)
    → ⊥
not_thrown P r code t c e = subst (λ o. NotThrown o) (ap (λ q. q.0) e) c.0
