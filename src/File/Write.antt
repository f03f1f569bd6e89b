-- ===== src/File/Write.antt =====
-- `write_full` against every sequence of answers of the system.
use sparkey.Base.{
  ◌/◌, ◌<◌, ◌*◌, ℕ, zero, suc, ◌+◌, ◌≤◌, List, [], ◌∷◌, ◌++◌, length, take, drop, length-append,
  take-append_past, take-append_le, take-append-drop, append-nil, Option, none, some, ◌≡◌, refl,
  sym, ap, ◌∙◌, ◌⊎◌, inl, inr, arith,
}
use sparkey.ReturnCode.{ReturnCode, ebadf, file_closed}
use sparkey.Exec.{Exec, Outcome, done, thrown, ◌>>=◌, ◌>>◌}
use sparkey.File.{
  File, WriteResult, after_failure, wrote, failed, accept, write_failure, write_loop, write_once,
  write_runs, write_full,
}
use sparkey.File.Overwrite.{overwrite_nothing, overwrite_reaches, accept-accept}

-- The offset is not past the end.
abbrev pub IsPlaced : File → Type 0
IsPlaced file = file.offset ≤ length file.contents

pub accept-IsPlaced : (f : File) (b : List ℕ) → IsPlaced (accept f b)
accept-IsPlaced f b = overwrite_reaches f.contents f.offset b

-- Either all of `buf` is in the file and the call returns, or a first part of it is and the call
-- returns the code of an error.
abbrev pub Transfers : List ℕ → File → Outcome (Unit {0}) × File → Type 0
Transfers buf file r =
    ((left : List WriteResult) × (r ≡ (done tt, record (accept file buf) { answers = left })))
    ⊎ ((code : ReturnCode) × (k : ℕ) × (left : List WriteResult) × (k ≤ length buf)
        × (r ≡ (thrown code, record (accept file (take k buf)) { answers = left })))

accept_nothing : (f : File) → IsPlaced f → accept f [] ≡ f
accept_nothing f h =
    let e : f.offset + 0 ≡ f.offset = omega arith in rw (overwrite_nothing f.contents f.offset h, e)

-- What is left of a transfer after its first part has gone through.
more :
    (a b : List ℕ) (f : File) (r : Outcome (Unit {0}) × File)
    → Transfers b (accept f a) r
    → Transfers (a ++ b) f r
more a b f r (inl (left, e)) =
    inl (left, e ∙ ap (λ g. (done tt, record g { answers = left })) (accept-accept f a b))
more a b f r (inr (code, k, left, h, e)) = inr (
  code,
  length a + k,
  left,
  omega (arith, length-append a b),
  e
      ∙ ap (λ g. (thrown code, record g { answers = left }))
          (accept-accept f a (take k b)
            ∙ ap (accept f) (sym (take-append_past a b k (length a + k) refl))),
)

after_failure-Transfers :
    (o : Option ReturnCode) (left : List WriteResult) (buf : List ℕ) (f : File)
    (retry : Outcome (Unit {0}) × File)
    → IsPlaced f
    → Transfers buf f retry
    → Transfers buf f (after_failure o (record f { answers = left }) retry)
unfolding after_failure
after_failure-Transfers none left buf f retry h t = t
after_failure-Transfers (some code) left buf f retry h t = inr (
  code,
  0,
  left,
  omega arith,
  ap (λ g. (thrown code, record g { answers = left })) (sym (accept_nothing f h)),
)

write_loop-Transfers :
    (answers : List WriteResult) (buf : List ℕ) (f : File)
    → IsPlaced f
    → Transfers buf f (write_loop answers buf f)
unfolding write_loop
write_loop-Transfers answers [] f h =
    inl (answers, ap (λ g. (done tt, record g { answers = answers })) (sym (accept_nothing f h)))
write_loop-Transfers [] (b ∷ buf) f h = inl ([], refl)
write_loop-Transfers (wrote n ∷ answers) (b ∷ buf) f h = rw (take-append-drop n (b ∷ buf)) at (
    more (take n (b ∷ buf)) (drop n (b ∷ buf)) f _ (
      write_loop-Transfers answers (drop n (b ∷ buf)) (accept f (take n (b ∷ buf)))
        (accept-IsPlaced f (take n (b ∷ buf)))))
write_loop-Transfers (failed e ∷ answers) (b ∷ buf) f h =
    after_failure-Transfers (write_failure e) answers (b ∷ buf) f _ h
      (write_loop-Transfers answers (b ∷ buf) f h)

write_once-Transfers : (buf : List ℕ) (f : File) → IsPlaced f → Transfers buf f (write_once buf f)
unfolding write_once
write_once-Transfers buf f h = write_loop-Transfers f.answers buf f h

-- A first part that fails is a part of the whole.
stops :
    (a b : List ℕ) (f : File) (code : ReturnCode) (k : ℕ) (left : List WriteResult)
    → k ≤ length a
    → Transfers (a ++ b) f (thrown code, record (accept f (take k a)) { answers = left })
stops a b f code k left h = inr (
  code,
  k,
  left,
  omega (arith, length-append a b),
  ap (λ l. (thrown code, record (accept f l) { answers = left })) (sym (take-append_le k a b h)),
)

write_runs-Transfers :
    (block runs : ℕ) (buf : List ℕ) (f : File)
    → IsPlaced f
    → Transfers buf f (write_runs block runs buf f)
unfolding write_runs ◌>>=◌
write_runs-Transfers block zero buf f h = write_once-Transfers buf f h
write_runs-Transfers block (suc runs) buf f h =
    let a = take block buf in
    let b = drop block buf in
    let whole : Transfers (a ++ b) f (write_runs block (suc runs) buf f) =
      elim (write_once-Transfers a f h) [
        | inl (left, e) ↦ more a b f (write_runs block (suc runs) buf f) (
            rw e (
              write_runs-Transfers block runs b (record (accept f a) { answers = left })
                (accept-IsPlaced f a)))
        | inr (code, k, left, l, e) ↦ rw e (stops a b f code k left l)
      ] in
    rw (take-append-drop block buf) at whole

-- For every sequence of answers of the system, `write_full` returns with exactly `buf` written at
-- the offset of the file, or it returns the code of an error with a first part of `buf` written.
-- Interrupted and short writes leave no trace. The offset is not past the end of the file.
pub write_full-Transfers :
    (buf : List ℕ) (f : File) → IsPlaced f → Transfers buf f (write_full buf f)
unfolding write_full
write_full-Transfers buf f h = write_runs-Transfers _ _ buf f h

-- `m` transfers `bytes`, from any file.
pub record Writes (bytes : List ℕ) (m : Exec File (Unit {0})) : Type 0 where
  pub at : (f : File) → IsPlaced f → Transfers bytes f (m f)

then_at :
    (a b : List ℕ) (m n : Exec File (Unit {0})) (f : File)
    → Transfers a f (m f)
    → Writes b n
    → Transfers (a ++ b) f ((m >> n) f)
unfolding ◌>>=◌
then_at a b m n f (inl (left, e)) w =
    more a b f ((m >> n) f)
      (rw e (w.at (record (accept f a) { answers = left }) (accept-IsPlaced f a)))
then_at a b m n f (inr (code, k, left, l, e)) w = rw e (stops a b f code k left l)

-- One write after another writes the bytes of both.
pub Writes-then :
    (a b : List ℕ) (m n : Exec File (Unit {0})) → Writes a m → Writes b n → Writes (a ++ b) (m >> n)
Writes-then a b m n v w = record { at = λ f p. then_at a b m n f (v.at f p) w }

pub write_full-Writes : (buf : List ℕ) → Writes buf (write_full buf)
write_full-Writes buf = record { at = λ f p. write_full-Transfers buf f p }

pub Writes-last : (a : List ℕ) (m : Exec File (Unit {0})) → Writes a m → Writes (a ++ []) m
Writes-last a m w = rw append-nil w

-- The first write to a descriptor that is not open fails.
pub write_full-closed :
    (buf contents : List ℕ) (offset : ℕ)
    → 0 < length buf
    → length buf / (256 * 1024 * 1024) ≡ 0
    → write_full buf (record { contents = contents; offset = offset; answers = failed ebadf ∷ [] })
      ≡ (thrown file_closed, record { contents = contents; offset = offset; answers = [] })
unfolding write_full write_runs write_once write_loop write_failure after_failure
write_full-closed [] contents offset more_than_none small = absurd (omega arith)
write_full-closed (b ∷ bs) contents offset more_than_none small = rw small refl
