-- ===== src/Exec.antt =====
-- Functions that return a `sparkey_returncode` and write through pointers. What was written before
-- an error stays written, so the state comes back beside every outcome. `>>=` is the macro RETHROW
-- of src/util.h.
pub mod Ensures
pub mod Calm
use sparkey.Base.{ℕ, List, Option, none, some, get_elem?, Bool, true, false, ◌≡◌, ap}
use sparkey.ReturnCode.{ReturnCode}

-- What C leaves undefined, and a loop that has used up the rounds the model gives it.
pub data Fault : Type 0 where
  out_of_bounds out_of_range undefined_shift division_by_zero out_of_fuel null_call : Fault

pub data Outcome (A : Type 0) : Type 0 where
  done : A → Outcome A
  thrown : ReturnCode → Outcome A
  fault : Fault → Outcome A

abbrev done_or : {A : Type 0} → A → Outcome A → A
done_or b (done a) = a
done_or b (thrown c) = b
done_or b (fault x) = b

pub done_injective : {A : Type 0} {a b : A} → done a ≡ done b → a ≡ b
done_injective {a = a} e = ap (done_or a) e

abbrev pub Exec : Type 0 → Type 0 → Type 0
Exec S A = S → Outcome A × S

module _ {S A : Type 0} where
  abbrev pub pure : A → Exec S A
  pure a s = (done a, s)

  abbrev pub throw : ReturnCode → Exec S A
  throw c s = (thrown c, s)

  abbrev pub lift : Outcome A → Exec S A
  lift r s = (r, s)

  abbrev pub gets : (S → A) → Exec S A
  gets f s = (done (f s), s)

module _ {S : Type 0} where
  abbrev pub modify : (S → S) → Exec S (Unit {0})
  modify f s = (done tt, f s)

  -- `if (bad) return code;`
  abbrev pub throw_if : Bool → ReturnCode → Exec S (Unit {0})
  throw_if true c s = (thrown c, s)
  throw_if false c s = (done tt, s)

module _ {S A B : Type 0} where
  abbrev pub continue : Outcome A → (A → Exec S B) → Exec S B
  continue (done a) f s = f a s
  continue (thrown c) f s = (thrown c, s)
  continue (fault x) f s = (fault x, s)

  infixl 5 ◌>>=◌
  unfoldable pub ◌>>=◌ : Exec S A → (A → Exec S B) → Exec S B
  ◌>>=◌ m f s = continue (m s).0 f (m s).1

  infixl 5 ◌>>◌
  abbrev pub ◌>>◌ : Exec S A → Exec S B → Exec S B
  m >> n = m >>= λ _. n

-- An action on a part of the state.
module _ {S T A : Type 0} where
  abbrev pub within : (S → T) → (S → T → S) → Exec T A → Exec S A
  within get put m s = ((m (get s)).0, put s (m (get s)).1)

-- Reading memory.
abbrev pub or_out_of_bounds : {A : Type 0} → Option A → Outcome A
or_out_of_bounds none = fault out_of_bounds
or_out_of_bounds (some a) = done a

-- One read after another, without a state.
abbrev pub and_then : {A B : Type 0} → Outcome A → (A → Outcome B) → Outcome B
and_then (done a) f = f a
and_then (thrown c) f = thrown c
and_then (fault x) f = fault x
